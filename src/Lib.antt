-- ===== src/Lib.antt =====
-- A model of the Python package src/oraja_training, which collects the plays of a rhythm game
-- (beatoraja) into an assistant database and plans the player's training from it, with the
-- theorems that make its parts correct.
--
-- The parts, and where they stand:
--   Domain/Play     domain/types.py: a normalised play and the checks of its constructor.
--   Collect/Normalize  collect/normalize.py: a row of the game's score table becomes a play.
--   Db/Plays        db/store.py: the table of plays and insert_play.
--   Db/Cursors, Db/State  db/store.py: the cursors of the charts and the collector's state.
--   Db/Migrate      db/store.py: migrate, with the effect of each SQL script as a parameter.
--   Collect/Poller  collect/poller.py: the content scan of Poller.tick, from the consistent
--                   snapshot of the score table to the commit: it detects a replaced or rolled
--                   back score table, stores new plays, corrects changed ones and counts lost ones.
--   Plan/Menu       plan/menu.py: a candidate's expected notes and utility, and _select, which
--                   fills one category of the menu of a day. Plan/Menu/Order is _order.
--   Plan/Experiment  plan/experiment.py: start_experiment; assign_session, which gives a session
--                   of the self-experiment its charts (Assign); resolve_targets, which gives the
--                   targets their outcomes from the plays (Targets); and the list of results of
--                   report_experiment (Report).
--   Tables/Match    tables/match.py: resolve, which matches the entries of difficulty tables with
--                   owned charts.
--   Tables/Fetch    tables/fetch.py: fetch_table with its cache; Documents has the checks of headers
--                   and entries, Requests the requests, Sources the first document.
--   Tables/Classification  tables/classification.py: the labels of the tables of techniques, and
--                   the rows of a batch (Batch), from what Tables/Fetch and Tables/Match give.
--   Serve/Counts    serve/progress_counts.py and progress_sender.py: the counts that are sent.
--   Features/Songinfo  features/songinfo.py: the decoders of the texts about a chart.
--   Serve/Monitor   serve/progress_monitor.py: the polls that send the player's counts.
--   Serve/Controller  serve/progress_monitor.py: the life of the polling thread, as a step relation.
--   Container       container/manifest.py: the checks of the manifests of the container job. Json
--                   has JSON values, Formats the regular expressions, and Manifest the validators
--                   of inputs (Input), uploads (Upload) and outputs (Output), with the builder.
-- The collector calls the normalisation and the tables; the plan reads the plays.
--
-- State is passed explicitly: a function that writes to the database takes the tables and returns
-- the new ones, and what raises returns a Result. A table is the list of its rows in the order of
-- their ids; a unique key is an invariant that is proved, not assumed, for the plays. Python's
-- integers are a data type over the native numbers. Python's float is the interface
-- Prelude/Float, about which nothing is assumed, random.Random the interface Plan/Menu/Random,
-- which promises that randrange n lies below n, and the digest of a score row is a parameter.
-- A text is read as its code points where the code matches a regular expression.
-- The names and messages of errors stand for the exceptions.
--
-- Fuel: the loop of _select takes one candidate from its list in every round, so it gets the
-- length of the list, and is shown to end by itself within it; the decoder of a distribution takes
-- characters from its text in every round, so it gets the length of the text. Every other loop is
-- structural.
--
-- Not modelled: reading files and SQLite databases, the replay scan of the collector and the
-- protocol that copies the score table, the parsers of difficulty tables, the fit of the player model
-- (floating point regression), the rest of the menu and the experiment, the HTTP progress service,
-- the rest of the container job, the command line, and the Cloudflare service.
pub mod Prelude
pub mod Samples
pub mod Domain
pub mod Collect
pub mod Container
pub mod Db
pub mod Features
pub mod Plan
pub mod Serve
pub mod Tables

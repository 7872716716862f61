-- ===== src/Tables/Match/Tests.antt =====
-- `resolve` on a table of four entries: matched by MD5, matched by title, ambiguous, not owned.
use oraja_traning.Prelude.{◌≡◌, refl, String, Option, none, some, List, [], ◌∷◌, All, map}
use oraja_traning.Prelude.Dict.{lookup, insert}
use oraja_traning.Tables.Match.{
  TableEntry, Chart, MatchedBy, MissReason, TableMatchSummary, not_owned, ambiguous_table_title,
  resolve, for_table,
}
use oraja_traning.Tables.Match.Matches.{IsSound, resolve-IsSound}
use oraja_traning.Tables.Match.Summaries.{IsTally, resolve-IsTally}

abbrev same : String → String
same s = s

abbrev digits : String
digits = "0123456789abcdef0123456789abcdef"

abbrev charts : List Chart
charts =
    record { sha256 = none; md5 = some digits; title = some "first" }
    ∷ record { sha256 = none; md5 = none; title = some "second" }
    ∷ []

abbrev entry : Option String → Option String → TableEntry
entry md5 title = record {
  table_id = "insane";
  level = "3";
  sha256 = none;
  md5 = md5;
  title = title;
  match_rule = some "unique_title";
}

abbrev entries : List TableEntry
entries =
    entry (some digits) (some "first")
    ∷ entry none (some "second")
    ∷ entry none (some "third")
    ∷ entry none none
    ∷ []

matched_kinds :
    map {B = MatchedBy} (λ m. m.matched_by) (resolve same same entries charts).matches
    ≡ MatchedBy.by_md5 ∷ MatchedBy.by_title ∷ []
unfolding resolve lookup insert
matched_kinds = refl

missed_reasons :
    map {B = MissReason} (λ m. m.reason) (resolve same same entries charts).unmatched_entries
    ≡ not_owned ∷ ambiguous_table_title ∷ []
unfolding resolve lookup insert
missed_reasons = refl

resolve-IsSound_example :
    All (IsSound same same entries charts) (resolve same same entries charts).matches
resolve-IsSound_example = resolve-IsSound same same entries charts

abbrev insane : TableMatchSummary
insane = record {
  table_id = "insane";
  total = 4;
  matched = 2;
  unmatched = 2;
  sha256_matches = 0;
  md5_matches = 1;
  title_matches = 1;
}

insane_found : for_table "insane" (resolve same same entries charts).tables ≡ some insane
unfolding resolve for_table lookup insert
insane_found = refl

resolve-IsTally_example :
    IsTally same same "insane" entries (resolve same same entries charts) insane
resolve-IsTally_example = resolve-IsTally same same "insane" entries charts insane insane_found

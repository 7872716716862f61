-- ===== src/Db/Plays.antt =====
-- The table `plays` and `insert_play`. A table is its rows in the order of their ids; the unique
-- event key is (source_generation, sha256, mode, playcount).
pub mod Keys
pub mod Updates
use oraja_traning.Prelude.{
  ℕ, ◌+◌, String, Bool, true, false, not, Option, none, some, List, [], ◌∷◌, ◌++◌, if◌then◌else◌,
  is_some,
}
use oraja_traning.Prelude.Int.{ℤ}
use oraja_traning.Prelude.Eq.{◌==◌, int_eq, string_eq, pair_eq}
use oraja_traning.Domain.Play.{Play}

pub record StoredPlay (F : Type 0) : Type 0 where
  pub id : ℕ
  pub play : Play F

-- `next_id` is the id that AUTOINCREMENT gives next. An insert that is ignored or updates a row
-- takes none here, where SQLite may skip one.
pub record PlayTable (F : Type 0) : Type 0 where
  pub rows : List (StoredPlay F)
  pub next_id : ℕ

abbrev pub EventKey : Type 0
EventKey = ℤ × (String × (ℤ × ℤ))

abbrev pub event_key : {F : Type 0} → Play F → EventKey
event_key p = (p.source_generation, (p.sha256, (p.mode, p.playcount)))

module _ {F : Type 0} where
  -- `SELECT … FROM plays WHERE source_generation = ? AND sha256 = ? AND mode = ? AND playcount = ?`
  unfoldable pub find_event : EventKey → List (StoredPlay F) → Option (StoredPlay F)
  find_event k [] = none
  find_event k (r ∷ rs) = if event_key r.play == k then some r else find_event k rs

  -- `DO UPDATE SET column = excluded.column` for every column but the key, `source` and
  -- `lost_events`.
  unfoldable pub correct : Play F → StoredPlay F → StoredPlay F
  correct p r = record r {
    play = record p { source = r.play.source; lost_events = r.play.lost_events };
  }

  unfoldable pub update_event : Play F → List (StoredPlay F) → List (StoredPlay F)
  unfolding correct
  update_event p [] = []
  update_event p (r ∷ rs) =
      if event_key r.play == event_key p then correct p r ∷ rs else r ∷ update_event p rs

  append_play : Play F → PlayTable F → PlayTable F
  append_play p t = record {
    rows = t.rows ++ record { id = t.next_id; play = p } ∷ [];
    next_id = t.next_id + 1;
  }

  -- The new table, and whether a new row was created: `INSERT OR IGNORE`, or
  -- `INSERT … ON CONFLICT DO UPDATE`.
  unfoldable pub insert_play : Play F → Bool → PlayTable F → PlayTable F × Bool
  unfolding append_play find_event update_event
  insert_play p update_existing t =
      let existed = is_some (find_event (event_key p) t.rows) in
      if update_existing
      then (
        (if existed then record t { rows = update_event p t.rows } else append_play p t),
        not existed,
      )
      else if existed
      then (t, false)
      else (append_play p t, true)

-- ===== src/Db/Plays/Updates.antt =====
-- What `insert_play` writes under its event key, and that it leaves every other event alone.
use oraja_traning.Prelude.{
  ◌≡◌, refl, Bool, true, false, Option, none, some, List, [], ◌∷◌, arith, if◌then◌else◌, ◌∙◌,
}
use oraja_traning.Prelude.Eq.{◌==◌, pair_eq, int_eq, string_eq, Eq, beq_refl}
use oraja_traning.Domain.Play.{Play}
use oraja_traning.Db.Plays.{
  StoredPlay, PlayTable, EventKey, event_key, find_event, correct, update_event, append_play,
  insert_play,
}
use oraja_traning.Db.Plays.Keys.{find_event-append}

abbrev key_eq : Eq EventKey
key_eq = pair_eq

module _ {F : Type 0} where
  -- The row that stands under the key of `p` after `insert_play p b`.
  abbrev pub written : Play F → Bool → PlayTable F → Option (StoredPlay F) → StoredPlay F
  written p b t none = record { id = t.next_id; play = p }
  written p false t (some r) = r
  written p true t (some r) = correct p r

  find_event-key :
      (k : EventKey) (rs : List (StoredPlay F)) {r : StoredPlay F}
      → find_event k rs ≡ some r
      → event_key r.play ≡ k
  unfolding find_event
  find_event-key k [] h = cc
  find_event-key k (s ∷ rs) {r} h =
      ground (arith, key_eq.beq_iff (event_key s.play) k, find_event-key k rs {r = r})

  find-update_event :
      (k : EventKey) (p : Play F) (rs : List (StoredPlay F))
      → find_event k (update_event p rs) ≡ elim (find_event k rs) [
        | none ↦ none
        | some r ↦ if k == event_key p then some (correct p r) else some r
      ]
  unfolding find_event update_event correct
  find-update_event k p [] = refl
  find-update_event k p (r ∷ rs) = ground (
    arith,
    key_eq.beq_iff (event_key r.play) k,
    key_eq.beq_iff k (event_key p),
    key_eq.beq_iff (event_key r.play) (event_key p),
    find-update_event k p rs,
  )

  -- A new event is stored as it is; an event that was there is kept, or under `update_existing`
  -- corrected in place with its id, `source` and `lost_events` kept. No other event changes.
  pub insert_play-find :
      (k : EventKey) (p : Play F) (b : Bool) (t : PlayTable F)
      → find_event k (insert_play p b t).0.rows ≡ (
          if k == event_key p
          then some (written p b t (find_event (event_key p) t.rows))
          else find_event k t.rows)
  unfolding insert_play append_play find_event
  insert_play-find k p b t = ground (
    arith,
    find-update_event k p t.rows,
    find_event-append k t.rows (record { id = t.next_id; play = p } ∷ []),
    key_eq.beq_iff k (event_key p),
    key_eq.beq_iff (event_key p) k,
  )

  -- Under `update_existing` a stored event is corrected.
  pub insert_play-corrects :
      (k : EventKey) (p : Play F) (t : PlayTable F) {r : StoredPlay F}
      → event_key p ≡ k
      → find_event k t.rows ≡ some r
      → find_event k (insert_play p true t).0.rows ≡ some (correct p r)
  insert_play-corrects k p t {r} key stored =
      insert_play-find k p true t ∙ rw (key, beq_refl ⦃e = key_eq⦄ k, stored) refl

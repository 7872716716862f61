-- ===== src/Db/Plays/Keys.antt =====
-- The event key stays unique under `insert_play`, and the returned flag counts the new rows.
use oraja_traning.Prelude.{
  ◌+◌, ◌≡◌, refl, Bool, true, not, none, some, List, [], ◌∷◌, ◌++◌, arith, length, length-append,
  if◌then◌else◌, is_some, none_of_is_some,
}
use oraja_traning.Prelude.Eq.{pair_eq, int_eq, string_eq, Eq, beq_refl}
use oraja_traning.Domain.Play.{Play}
use oraja_traning.Db.Plays.{
  StoredPlay, PlayTable, EventKey, event_key, find_event, correct, update_event, append_play,
  insert_play,
}

abbrev key_eq : Eq EventKey
key_eq = pair_eq

module _ {F : Type 0} where
  -- No event key is stored twice.
  abbrev pub HasUniqueKeys : List (StoredPlay F) → Type 0
  HasUniqueKeys [] = Unit
  HasUniqueKeys (r ∷ rs) = (find_event (event_key r.play) rs ≡ none) × HasUniqueKeys rs

  pub find_event-append :
      (k : EventKey) (rs ss : List (StoredPlay F))
      → find_event k (rs ++ ss)
        ≡ elim (find_event k rs) [ none ↦ find_event k ss | some r ↦ some r ]
  unfolding find_event
  find_event-append k [] ss = refl
  find_event-append k (r ∷ rs) ss = ground (arith, find_event-append k rs ss)

  pub find_event-update :
      (k : EventKey) (p : Play F) (rs : List (StoredPlay F))
      → is_some (find_event k (update_event p rs)) ≡ is_some (find_event k rs)
  unfolding find_event update_event correct
  find_event-update k p [] = refl
  find_event-update k p (r ∷ rs) =
      ground (arith, key_eq.beq_iff (event_key r.play) (event_key p), find_event-update k p rs)

  update_event-HasUniqueKeys :
      (p : Play F) (rs : List (StoredPlay F)) → HasUniqueKeys rs → HasUniqueKeys (update_event p rs)
  unfolding update_event correct
  update_event-HasUniqueKeys p [] h = tt
  update_event-HasUniqueKeys p (r ∷ rs) h = ground (
    arith,
    key_eq.beq_iff (event_key r.play) (event_key p),
    find_event-update (event_key r.play) p rs,
    none_of_is_some (find_event (event_key r.play) (update_event p rs)),
    update_event-HasUniqueKeys p rs h.1,
  )

  append-HasUniqueKeys :
      (r : StoredPlay F) (rs : List (StoredPlay F))
      → HasUniqueKeys rs
      → find_event (event_key r.play) rs ≡ none
      → HasUniqueKeys (rs ++ r ∷ [])
  unfolding find_event
  append-HasUniqueKeys r [] h e = (refl, tt)
  append-HasUniqueKeys r (s ∷ rs) h e = ground (
    arith,
    find_event-append (event_key s.play) rs (r ∷ []),
    key_eq.beq_iff (event_key s.play) (event_key r.play),
    key_eq.beq_iff (event_key r.play) (event_key s.play),
    append-HasUniqueKeys r rs h.1,
  )

  -- In both modes the event key stays unique.
  pub insert_play-HasUniqueKeys :
      (p : Play F) (b : Bool) (t : PlayTable F)
      → HasUniqueKeys t.rows
      → HasUniqueKeys (insert_play p b t).0.rows
  unfolding insert_play append_play
  insert_play-HasUniqueKeys p b t h = ground (
    arith,
    none_of_is_some (find_event (event_key p) t.rows),
    update_event-HasUniqueKeys p t.rows h,
    append-HasUniqueKeys (record { id = t.next_id; play = p }) t.rows h,
  )

  length-update_event :
      (p : Play F) (rs : List (StoredPlay F)) → length (update_event p rs) ≡ length rs
  unfolding update_event
  length-update_event p [] = refl
  length-update_event p (r ∷ rs) = ground (arith, length-update_event p rs)

  -- The returned flag says whether the key was new; the table grows by exactly that row.
  pub insert_play-flag :
      (p : Play F) (b : Bool) (t : PlayTable F)
      → let (t', created) = insert_play p b t in
        (created ≡ not (is_some (find_event (event_key p) t.rows)))
        × (length t'.rows ≡ length t.rows + (if created then 1 else 0))
  unfolding insert_play append_play
  insert_play-flag p b t = ground (
    arith,
    length-update_event p t.rows,
    length-append t.rows (record { id = t.next_id; play = p } ∷ []),
  )

  -- Afterwards the event is stored.
  pub insert_play-stores :
      (p : Play F) (b : Bool) (t : PlayTable F)
      → is_some (find_event (event_key p) (insert_play p b t).0.rows) ≡ true
  unfolding insert_play append_play find_event
  insert_play-stores p b t = ground (
    arith,
    find_event-update (event_key p) p t.rows,
    find_event-append (event_key p) t.rows (record { id = t.next_id; play = p } ∷ []),
    beq_refl ⦃e = key_eq⦄ (event_key p),
  )

-- ===== src/Collect/Normalize/Laws.antt =====
-- What `normalize_play` derives from a row.
use oraja_traning.Prelude.{
  String, ◌≡◌, refl, Bool, false, not, Option, none, some, arith, ◌&&◌, is_some,
}
use oraja_traning.Prelude.Int.{ℤ, pos, ltb_ℤ, max0}
use oraja_traning.Prelude.Eq.{◌==◌, string_eq}
use oraja_traning.Prelude.Float.{Float}
use oraja_traning.Prelude.Result.{ok}
use oraja_traning.Domain.Play.{Play, IsPlay, make_play_same, make_play-IsPlay}
use oraja_traning.Db.Plays.{event_key}
use oraja_traning.Collect.Normalize.{
  ScoreRow, play_of, normalize_play, ratio_to_notes, completed_of,
}

-- `notes is not None and notes > 0`
abbrev pub has_notes : Option ℤ → Bool
has_notes none = false
has_notes (some n) = ltb_ℤ (pos 0) n

module _ (f : Float) (payload_hash : ScoreRow → String) where
  open f use {Num}

  module _ (row : ScoreRow) (source : String) (generation : ℤ) (aggregate : Option ScoreRow)
      (lost now : ℤ) {p : Play Num}
      (made : normalize_play f payload_hash row source generation aggregate lost now ≡ ok p) where
    -- A play that is made is the one that the row describes, and meets the checks of `Play`.
    pub normalize_play_lem :
        (p ≡ play_of f payload_hash row source generation aggregate lost now) × IsPlay p
    unfolding normalize_play
    normalize_play_lem =
        let described = play_of f payload_hash row source generation aggregate lost now in
        (make_play_same described p made, make_play-IsPlay described p made)

    -- Whether a play was completed is known exactly when it is no IR import and its chart has
    -- notes; an IR import has no judgement counts either.
    pub completed-known :
        (is_some p.completed ≡ (not (source == "ir_import") && has_notes row.notes))
        × (is_some p.judged ≡ not (source == "ir_import"))
        × (is_some p.empty_poor ≡ not (source == "ir_import"))
        × (p.selected_gauge_kind ≡ none)
    unfolding play_of ratio_to_notes completed_of
    completed-known = rw normalize_play_lem.0 (ground arith)

    -- The play stands under the row's event key.
    pub normalize_play-event_key :
        event_key p ≡ (generation, (row.sha256, (row.mode, row.playcount)))
    unfolding play_of
    normalize_play-event_key = rw normalize_play_lem.0 refl

    pub normalize_play-columns :
        (p.clear ≡ row.clear)
        × (p.payload_hash ≡ payload_hash row)
        × (p.source ≡ source)
        × (p.lost_events ≡ pos (max0 lost))
    unfolding play_of
    normalize_play-columns = rw normalize_play_lem.0 (refl, refl, refl, refl)

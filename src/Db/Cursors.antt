-- ===== src/Db/Cursors.antt =====
-- The table `chart_cursor`: the play count and payload hash last seen of each chart.
use oraja_traning.Prelude.{◌≡◌, refl, String, none, some, [], ◌∷◌, arith, if◌then◌else◌}
use oraja_traning.Prelude.Int.{ℤ, leb_ℤ}
use oraja_traning.Prelude.Eq.{Eq, ◌==◌, int_eq, string_eq, pair_eq}
use oraja_traning.Prelude.Dict.{Dict, lookup, insert, lookup-insert}

abbrev pub ChartKey : Type 0
ChartKey = String × ℤ

-- `last_playcount` and `last_payload_hash`.
abbrev pub Cursor : Type 0
Cursor = ℤ × String

abbrev pub CursorTable : Type 0
CursorTable = Dict (ℤ × ChartKey) Cursor

-- `ON CONFLICT … DO UPDATE … WHERE excluded.last_playcount >= chart_cursor.last_playcount`
unfoldable pub upsert_cursor : ℤ → ChartKey → ℤ → String → CursorTable → CursorTable
upsert_cursor generation key playcount payload_hash t =
    let written = insert (generation, key) (playcount, payload_hash) t in
    elim (lookup (generation, key) t) [
      | none ↦ written
      | some old ↦ if leb_ℤ old.0 playcount then written else t
    ]

-- `load_cursors`: the cursors of one generation.
unfoldable pub load_cursors : ℤ → CursorTable → Dict ChartKey Cursor
load_cursors generation [] = []
load_cursors generation (((g, key), cursor) ∷ t) =
    if g == generation then (key, cursor) ∷ load_cursors generation t else load_cursors generation t

abbrev pub cursor_key_eq : Eq (ℤ × ChartKey)
cursor_key_eq = pair_eq

abbrev pub chart_key_eq : Eq ChartKey
chart_key_eq = pair_eq

-- The dictionary that is loaded holds the table's rows of that generation.
pub lookup-load_cursors :
    (generation : ℤ) (key : ChartKey) (t : CursorTable)
    → lookup key (load_cursors generation t) ≡ lookup (generation, key) t
unfolding load_cursors lookup
lookup-load_cursors generation key [] = refl
lookup-load_cursors generation key (((g, k), cursor) ∷ t) = ground (
  arith,
  chart_key_eq.beq_iff key k,
  cursor_key_eq.beq_iff (generation, key) (g, k),
  int_eq.beq_iff g generation,
  lookup-load_cursors generation key t,
)

-- A cursor moves only forwards, and only under its own generation and chart.
pub lookup-upsert_cursor :
    (j : ℤ × ChartKey) (generation : ℤ) (key : ChartKey) (playcount : ℤ) (payload_hash : String)
    (t : CursorTable)
    → lookup j (upsert_cursor generation key playcount payload_hash t) ≡ (
        if j == (generation, key)
        then elim (lookup (generation, key) t) [
          | none ↦ some (playcount, payload_hash)
          | some old ↦ if leb_ℤ old.0 playcount then some (playcount, payload_hash) else some old
        ]
        else lookup j t)
unfolding upsert_cursor
lookup-upsert_cursor j generation key playcount payload_hash t = ground (
  arith,
  lookup-insert j (generation, key) (playcount, payload_hash) t,
  cursor_key_eq.beq_iff j (generation, key),
)

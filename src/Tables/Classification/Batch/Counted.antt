-- ===== src/Tables/Classification/Batch/Counted.antt =====
-- The rows of a batch.
use mathlib.Core.Path.{subst}
use oraja_traning.Prelude.{
  ℕ, ◌≤◌, String, ◌≡◌, refl, ap, sym, Bool, true, false, Option, none, some, List, [], ◌∷◌, ◌++◌,
  arith, map, All, All-map-to, length, length-map,
}
use oraja_traning.Prelude.Int.{ℤ}
use oraja_traning.Prelude.Eq.{string_eq, contains}
use oraja_traning.Prelude.Result.{Result, ok, err, >>=-eq-ok, raise_if-ok, ok-injective}
use oraja_traning.Tables.Match.{Chart, Outcome}
use oraja_traning.Tables.Fetch.Documents.{ValidEntry, get}
use oraja_traning.Tables.Classification.{Label, LabelError, supports, parse_classification_level}
use oraja_traning.Tables.Classification.Labels.{AreNew, parse_classification_level-IsLabel}
use oraja_traning.Tables.Classification.Batch.{
  SourceSpec, SourceKey, of_sha256, of_md5, ChartClassification, source_key_of, see, lift_label,
  validate_hash, row_of, check_entry, build_rows, build_classification_batch,
}

-- Hashes that were not seen before, none of them twice.
abbrev pub AreUnseen : List String → List (Option String) → Type 0
AreUnseen seen [] = Unit
AreUnseen seen (none ∷ os) = AreUnseen seen os
AreUnseen seen (some v ∷ os) = (contains v seen ≡ false) × AreUnseen (v ∷ seen) os

see-AreUnseen :
    (o : Option String) (seen : List String) (os : List (Option String)) {after : List String}
    → see o seen ≡ ok after
    → AreUnseen after os
    → AreUnseen seen (o ∷ os)
unfolding see
see-AreUnseen none seen os h rest = subst (λ s. AreUnseen s os) (sym (ok-injective h)) rest
see-AreUnseen (some v) seen os h rest =
    let (new, same) = raise_if-ok (contains v seen) _ _ h in
    (new, subst (λ s. AreUnseen s os) (sym (ok-injective same)) rest)

lift_label-ok : (r : Result LabelError Label) {l : Label} → lift_label r ≡ ok l → r ≡ ok l
unfolding lift_label
lift_label-ok (ok label) h = ap ok (ok-injective h)
lift_label-ok (err e) h = cc

all_supported :
    (scales seen : List (List ℕ)) (found : List (List ℕ × ℤ))
    → AreNew scales seen found
    → All (λ (f : List ℕ × ℤ). supports scales f.0 ≡ true) found
all_supported scales seen [] h = tt
all_supported scales seen ((scale, level) ∷ found) h =
    (h.0, all_supported scales (scale ∷ seen) found h.2)

-- `_source_key`: the SHA-256 if there is one, and otherwise the MD5.
abbrev pub IsKeyOf : Option String → Option String → SourceKey → Type 0
IsKeyOf (some sha) md5 key = key ≡ of_sha256 sha
IsKeyOf none (some md5) key = key ≡ of_md5 md5
IsKeyOf none none key = ⊥

source_key_of-IsKeyOf :
    (sha256 md5 : Option String) (key : SourceKey)
    → source_key_of sha256 md5 ≡ ok key
    → IsKeyOf sha256 md5 key
unfolding source_key_of
source_key_of-IsKeyOf (some sha) md5 key h = sym (ok-injective h)
source_key_of-IsKeyOf none (some md5) key h = sym (ok-injective h)
source_key_of-IsKeyOf none none key h = cc

-- A row of the source, on one of its scales, that stands for the entry with this label.
pub record IsRowOf (source : SourceSpec) (e : ValidEntry) (label : Label) (r : ChartClassification)
    : Type 0 where
  pub of_source : (r.source_id ≡ source.source_id) × (r.family ≡ source.family)
  pub of_key : IsKeyOf e.sha256 e.md5 r.source_key
  pub of_hashes : (r.sha256 ≡ e.sha256) × (r.md5 ≡ e.md5)
  pub of_title : r.title ≡ e.title
  pub of_level : r.raw_level ≡ e.level
  pub of_base : (r.base_scale ≡ label.base_scale) × (r.base_level ≡ label.base_level)
  pub of_scale : supports source.scales r.classification_scale ≡ true

abbrev pub scale_of : ChartClassification → List ℕ × ℤ
scale_of r = (r.classification_scale, r.classification_level)

module _ (digit : ℕ → Bool) (int_of : List ℕ → ℤ) (source : SourceSpec) where
  -- The rows of one entry: one for each classification of its label, in their order.
  pub record IsGroup (e : ValidEntry) (rows : List ChartClassification) : Type 0 where
    pub label : Label
    pub parsed : parse_classification_level digit int_of source.scales e.level ≡ ok label
    pub classified : map scale_of rows ≡ label.classifications
    pub several : 1 ≤ length rows
    pub rows_of : All (IsRowOf source e label) rows

  -- The rows are the groups of the entries, one after the other.
  abbrev pub AreGroups : List ValidEntry → List ChartClassification → Type 0
  AreGroups [] rows = rows ≡ []
  AreGroups (e ∷ es) rows =
      (here : List ChartClassification) × ((rest : List ChartClassification) × ((rows
            ≡ here ++ rest)
          × (IsGroup e here × AreGroups es rest)))

  pub record IsBatch (entries : List ValidEntry) (rows : List ChartClassification) : Type 0 where
    pub sha256_once : AreUnseen [] (map (λ (e : ValidEntry). e.sha256) entries)
    pub md5_once : AreUnseen [] (map (λ (e : ValidEntry). e.md5) entries)
    pub groups : AreGroups entries rows

module _ (strip_lower fold_title : String → String) (shown : Chart → String) (digit : ℕ → Bool)
    (int_of : List ℕ → ℤ) (source : SourceSpec) where
  check_entry-ok :
      (shas md5s : List String) (e : ValidEntry) {r : List String × List String × Label}
      → check_entry strip_lower fold_title shown digit int_of source shas md5s e ≡ ok r
      → (see e.sha256 shas ≡ ok r.0)
        × (see e.md5 md5s ≡ ok r.1)
        × (parse_classification_level digit int_of source.scales e.level ≡ ok r.2)
  unfolding check_entry
  check_entry-ok shas md5s e h =
      let (_, _, h) =
        >>=-eq-ok
          (validate_hash strip_lower fold_title shown digit int_of 64 e.sha256
            (get "sha256" e.members))
          _ h in
      let (_, _, h) =
        >>=-eq-ok
          (validate_hash strip_lower fold_title shown digit int_of 32 e.md5 (get "md5" e.members)) _
          h in
      let (a, seen_a, h) = >>=-eq-ok (see e.sha256 shas) _ h in
      let (b, seen_b, h) = >>=-eq-ok (see e.md5 md5s) _ h in
      let (l, label, h) =
        >>=-eq-ok (lift_label (parse_classification_level digit int_of source.scales e.level)) _
          h in
      subst
        (λ (r : List String × List String × Label).
          (see e.sha256 shas ≡ ok r.0)
          × (see e.md5 md5s ≡ ok r.1)
          × (parse_classification_level digit int_of source.scales e.level ≡ ok r.2))
        (ok-injective h) (seen_a, seen_b, lift_label-ok _ label)

  module _ (e : ValidEntry) (key : SourceKey) (label : Label) (outcome : Outcome) where
    scale_of-row_of :
        (found : List (List ℕ × ℤ))
        → map scale_of (
            map (row_of strip_lower fold_title shown digit int_of source e key label outcome) found)
          ≡ found
    scale_of-row_of [] = refl
    scale_of-row_of (f ∷ found) = ap (λ rest. f ∷ rest) (scale_of-row_of found)

    rows-IsGroup :
        IsKeyOf e.sha256 e.md5 key
        → parse_classification_level digit int_of source.scales e.level ≡ ok label
        → IsGroup digit int_of source e (
            map
              (row_of strip_lower fold_title shown digit int_of source e key label outcome)
              label.classifications)
    rows-IsGroup keyed parsed =
        let row = row_of strip_lower fold_title shown digit int_of source e key label outcome in
        let found = label.classifications in
        let is_label =
          parse_classification_level-IsLabel digit int_of source.scales e.level parsed in
        record {
          label = label;
          parsed = parsed;
          classified = scale_of-row_of found;
          several = omega (arith, length-map row found, is_label.several);
          rows_of =
              All-map-to (IsRowOf source e label) row found
                (λ f supported. record {
                  of_source = (refl, refl);
                  of_key = keyed;
                  of_hashes = (refl, refl);
                  of_title = refl;
                  of_level = refl;
                  of_base = (refl, refl);
                  of_scale = supported;
                })
                (all_supported source.scales [] found is_label.supported);
        }

  module _ (outcome : ValidEntry → Outcome) where
    build_rows-ok :
        (shas md5s : List String) (es : List ValidEntry) {rows : List ChartClassification}
        → build_rows strip_lower fold_title shown digit int_of source outcome shas md5s es ≡ ok rows
        → AreUnseen shas (map (λ (e : ValidEntry). e.sha256) es)
          × AreUnseen md5s (map (λ (e : ValidEntry). e.md5) es)
          × AreGroups digit int_of source es rows
    unfolding build_rows
    build_rows-ok shas md5s [] h = (tt, tt, sym (ok-injective h))
    build_rows-ok shas md5s (e ∷ es) h =
        let (checked, fine, h) =
          >>=-eq-ok (check_entry strip_lower fold_title shown digit int_of source shas md5s e) _
            h in
        let (key, keyed, h) = >>=-eq-ok (source_key_of e.sha256 e.md5) _ h in
        let (rest, later, h) =
          >>=-eq-ok
            (build_rows strip_lower fold_title shown digit int_of source outcome checked.0 checked.1
              es)
            _ h in
        let (seen_a, seen_b, parsed) = check_entry-ok shas md5s e fine in
        let (sha_rest, md5_rest, groups) = build_rows-ok checked.0 checked.1 es later in
        let is_key = source_key_of-IsKeyOf e.sha256 e.md5 key keyed in
        (
          see-AreUnseen e.sha256 shas _ seen_a sha_rest,
          see-AreUnseen e.md5 md5s _ seen_b md5_rest,
          (
            _,
            (
              rest,
              (
                sym (ok-injective h),
                (rows-IsGroup e key checked.2 (outcome e) is_key parsed, groups),
              ),
            ),
          ),
        )

  -- A batch that is built, whatever the charts: no SHA-256 and no MD5 stands in two of its
  -- entries, and its rows are, entry by entry in their order, one for each classification of the
  -- entry's label, at least one. Such a row carries the source's id and family, one of its scales,
  -- and the entry's key, hashes, title and level.
  pub build_classification_batch-IsBatch :
      (entries : List ValidEntry) (charts : List Chart) {rows : List ChartClassification}
      → build_classification_batch strip_lower fold_title shown digit int_of source entries charts
        ≡ ok rows
      → IsBatch digit int_of source entries rows
  unfolding build_classification_batch
  build_classification_batch-IsBatch entries charts h =
      let (a, b, groups) = build_rows-ok _ [] [] entries h in
      record { sha256_once = a; md5_once = b; groups = groups }

-- ===== src/Tables/Match.antt =====
-- tables/match.py: which charts the entries of the difficulty tables stand for.
pub mod Index
pub mod Matches
pub mod Summaries
mod Tests
use Prim.Native.Char.{code}
use oraja_traning.Prelude.{
  ℕ, zero, suc, ◌+◌, ◌-◌, String, Bool, true, false, not, ◌&&◌, ◌||◌, Option, none, some, List, [],
  ◌∷◌, ◌++◌, if◌then◌else◌, ltb, leb, nat_beq, length, sum_by, map,
}
use oraja_traning.Prelude.Eq.{◌==◌, string_eq, option_eq}
use oraja_traning.Prelude.Dict.{Dict, lookup, insert}
use oraja_traning.Prelude.Text.{codes}

-- `TableEntry`; `match_rule` is `data.get("_match")`.
pub record TableEntry : Type 0 where
  pub table_id : String
  pub level : String
  pub sha256 : Option String
  pub md5 : Option String
  pub title : Option String
  pub match_rule : Option String

-- What is read of a chart that the player owns; `none` is what is no string.
pub record Chart : Type 0 where
  pub sha256 : Option String
  pub md5 : Option String
  pub title : Option String

pub data MatchedBy : Type 0 where
  by_sha256 by_md5 by_title : MatchedBy

pub data MissReason : Type 0 where
  ambiguous_local_hash ambiguous_table_title ambiguous_local_title not_owned : MissReason

pub record MatchedEntry : Type 0 where
  pub entry : TableEntry
  pub chart : Chart
  pub matched_by : MatchedBy

pub record UnmatchedEntry : Type 0 where
  pub entry : TableEntry
  pub reason : MissReason

pub record Count : Type 0 where
  pub total : ℕ
  pub matched : ℕ
  pub sha256 : ℕ
  pub md5 : ℕ
  pub title : ℕ

pub record TableMatchSummary : Type 0 where
  pub table_id : String
  pub total : ℕ
  pub matched : ℕ
  pub unmatched : ℕ
  pub sha256_matches : ℕ
  pub md5_matches : ℕ
  pub title_matches : ℕ

pub record MatchReport : Type 0 where
  pub matches : List MatchedEntry
  pub unmatched_entries : List UnmatchedEntry
  pub tables : List TableMatchSummary

abbrev pub total : MatchReport → ℕ
total report = length report.matches + length report.unmatched_entries

-- `[0-9a-f]`
abbrev pub is_hex : ℕ → Bool
is_hex c = leb 48 c && leb c 57 || leb 97 c && leb c 102

abbrev pub all_hex : List ℕ → Bool
all_hex [] = true
all_hex (c ∷ cs) = is_hex c && all_hex cs

-- `value or None`
abbrev pub non_empty : Option String → Option String
non_empty none = none
non_empty (some s) = if s == "" then none else some s

-- `index.get(key, [])`
unfoldable pub found_at : {V : Type 0} → String → Dict String (List V) → List V
found_at k d = elim (lookup k d) [ none ↦ [] | some vs ↦ vs ]

-- The loop over the charts, for one index: `if key is not None: index[key].append(chart)`.
unfoldable pub index_charts :
    (Chart → Option String) → List Chart → Dict String (List Chart) → Dict String (List Chart)
unfolding found_at
index_charts key [] d = d
index_charts key (c ∷ cs) d = elim (key c) [
  | none ↦ index_charts key cs d
  | some k ↦ index_charts key cs (insert k (found_at k d ++ c ∷ []) d)
]

-- The order of texts: by their code points.
unfoldable pub codes_lt : List ℕ → List ℕ → Bool
codes_lt cs [] = false
codes_lt [] (d ∷ ds) = true
codes_lt (c ∷ cs) (d ∷ ds) = ltb c d || (nat_beq c d && codes_lt cs ds)

-- `sorted(counts.items())`, whose keys differ.
unfoldable pub insert_item : String × Count → Dict String Count → Dict String Count
unfolding codes_lt
insert_item e [] = e ∷ []
insert_item e (d ∷ ds) =
    if codes_lt (codes d.0) (codes e.0) then d ∷ insert_item e ds else e ∷ d ∷ ds

unfoldable pub sort_items : Dict String Count → Dict String Count
unfolding insert_item
sort_items [] = []
sort_items (e ∷ es) = insert_item e (sort_items es)

pub record Indexes : Type 0 where
  pub sha_index : Dict String (List Chart)
  pub md5_index : Dict String (List Chart)
  pub title_index : Dict String (List Chart)

abbrev pub is_legacy : TableEntry → Bool
is_legacy entry = entry.match_rule == some "unique_title"

-- `index.get(key, []) if key else []`
abbrev pub candidates_at : Option String → Dict String (List Chart) → List Chart
candidates_at key index = elim (non_empty key) [ none ↦ [] | some k ↦ found_at k index ]

pub data Outcome : Type 0 where
  match_with : Chart → MatchedBy → Outcome
  miss : MissReason → Outcome

-- What the owned charts of a title decide.
unfoldable pub title_outcome : List Chart → Outcome
title_outcome [] = miss not_owned
title_outcome (c ∷ []) = match_with c MatchedBy.by_title
title_outcome (c ∷ (c' ∷ cs)) = miss ambiguous_local_title

-- What the candidates of the two hashes decide; `otherwise` is for hashes that find nothing.
unfoldable pub hash_outcome : List Chart → List Chart → Outcome → Outcome
hash_outcome (c ∷ []) md5_candidates otherwise = match_with c MatchedBy.by_sha256
hash_outcome candidates (m ∷ []) otherwise = match_with m MatchedBy.by_md5
hash_outcome candidates md5_candidates otherwise =
    if ltb 1 (length candidates) || ltb 1 (length md5_candidates)
    then miss ambiguous_local_hash
    else otherwise

-- The accumulators of the loop over the entries.
pub record Progress : Type 0 where
  pub matches : List MatchedEntry
  pub misses : List UnmatchedEntry
  pub counts : Dict String Count

-- `counts[table_id]` of the `defaultdict`.
unfoldable pub count_at : String → Dict String Count → Count
count_at table_id counts = elim (lookup table_id counts) [
  | none ↦ record { total = 0; matched = 0; sha256 = 0; md5 = 0; title = 0 }
  | some count ↦ count
]

abbrev pub count_total : Count → Count
count_total count = record count { total = count.total + 1 }

-- `count["matched"] += 1; count[matched_by] += 1`
abbrev pub count_match : MatchedBy → Count → Count
count_match MatchedBy.by_sha256 count = record count {
  matched = count.matched + 1;
  sha256 = count.sha256 + 1;
}
count_match MatchedBy.by_md5 count = record count {
  matched = count.matched + 1;
  md5 = count.md5 + 1;
}
count_match MatchedBy.by_title count = record count {
  matched = count.matched + 1;
  title = count.title + 1;
}

unfoldable pub add_outcome : TableEntry → Outcome → Progress → Progress
unfolding count_at
add_outcome entry (match_with chart by) p = record {
  matches = p.matches ++ record { entry = entry; chart = chart; matched_by = by } ∷ [];
  misses = p.misses;
  counts =
      insert entry.table_id (count_match by (count_total (count_at entry.table_id p.counts)))
        p.counts;
}
add_outcome entry (miss reason) p = record {
  matches = p.matches;
  misses = p.misses ++ record { entry = entry; reason = reason } ∷ [];
  counts = insert entry.table_id (count_total (count_at entry.table_id p.counts)) p.counts;
}

abbrev pub summary_of : String × Count → TableMatchSummary
summary_of entry = record {
  table_id = entry.0;
  total = entry.1.total;
  matched = entry.1.matched;
  unmatched = entry.1.total - entry.1.matched;
  sha256_matches = entry.1.sha256;
  md5_matches = entry.1.md5;
  title_matches = entry.1.title;
}

-- `strip_lower` is `value.strip().lower()`, and `fold_title` normalises a title
-- (`" ".join(unicodedata.normalize("NFKC", value).split()).casefold()`).
module _ (strip_lower fold_title : String → String) where
  -- `_hash`, with a pattern of `size` hexadecimal digits.
  unfoldable pub hash : ℕ → Option String → Option String
  hash size none = none
  hash size (some value) =
      let normalized = strip_lower value in
      if nat_beq (length (codes normalized)) size && all_hex (codes normalized)
      then some normalized
      else none

  -- `_title`
  unfoldable pub title_of : Option String → Option String
  title_of none = none
  title_of (some value) = non_empty (some (fold_title value))

  unfoldable pub indexes_of : List Chart → Indexes
  unfolding index_charts hash title_of
  indexes_of charts = record {
    sha_index = index_charts (λ c. hash 64 c.sha256) charts [];
    md5_index = index_charts (λ c. hash 32 c.md5) charts [];
    title_index = index_charts (λ c. title_of c.title) charts [];
  }

  -- `legacy_title_counts[title]`
  unfoldable pub legacy_title_count : List TableEntry → String → ℕ
  unfolding title_of
  legacy_title_count entries title =
      sum_by (λ e. if is_legacy e && title_of e.title == some title then 1 else 0) entries

  -- The branch for an entry whose hashes find nothing, by its unique title.
  unfoldable pub match_title : List TableEntry → Indexes → TableEntry → Outcome
  unfolding legacy_title_count title_of found_at title_outcome
  match_title entries indexes entry = elim (title_of entry.title) [
    | none ↦ miss ambiguous_table_title
    | some name ↦
        if not (nat_beq (legacy_title_count entries name) 1)
        then miss ambiguous_table_title
        else title_outcome (found_at name indexes.title_index)
  ]

  -- What the loop decides for an entry.
  unfoldable pub outcome_for : List TableEntry → Indexes → TableEntry → Outcome
  unfolding match_title found_at hash_outcome
  outcome_for entries indexes entry =
      hash_outcome (candidates_at entry.sha256 indexes.sha_index)
        (candidates_at entry.md5 indexes.md5_index)
        (if is_legacy entry then match_title entries indexes entry else miss not_owned)

  -- The loop over the entries, of which `entries` are all.
  unfoldable pub match_each : List TableEntry → Indexes → List TableEntry → Progress → Progress
  unfolding add_outcome outcome_for
  match_each entries indexes [] p = p
  match_each entries indexes (e ∷ es) p =
      match_each entries indexes es (add_outcome e (outcome_for entries indexes e) p)

  -- `resolve`, of entries that are normalised.
  unfoldable pub resolve : List TableEntry → List Chart → MatchReport
  unfolding match_each indexes_of sort_items
  resolve entries charts =
      let p =
        match_each entries (indexes_of charts) entries
          (record { matches = []; misses = []; counts = [] }) in
      record {
        matches = p.matches;
        unmatched_entries = p.misses;
        tables = map summary_of (sort_items p.counts);
      }

-- `MatchReport.for_table`
unfoldable pub for_table : String → List TableMatchSummary → Option TableMatchSummary
for_table table_id [] = none
for_table table_id (t ∷ ts) = if table_id == t.table_id then some t else for_table table_id ts

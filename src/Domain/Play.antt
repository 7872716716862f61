-- ===== src/Domain/Play.antt =====
-- `Play` of domain/types.py: one normalised play, and the checks of its constructor.
use oraja_traning.Prelude.{String, ◌≡◌, Bool, ◌||◌, Option, arith}
use oraja_traning.Prelude.Int.{ℤ, pos, negsuc, ◌≤ℤ◌, ltb_ℤ}
use oraja_traning.Prelude.Result.{Result, ok, ◌>>◌, raise_if}
use oraja_traning.Prelude.Text.{is_blank}

-- `F` is the type of Python's floats.
pub record Play (F : Type 0) : Type 0 where
  pub sha256 : String
  pub mode : ℤ
  pub played_at : ℤ
  pub playcount : ℤ
  pub clear : ℤ
  pub notes : Option ℤ
  pub completed : Option ℤ
  pub source : String
  pub is_course : Bool
  pub source_generation : ℤ
  pub ex : Option ℤ
  pub minbp : Option ℤ
  pub judged : Option ℤ
  pub empty_poor : Option ℤ
  pub survival : Option F
  pub bp_rate : Option F
  pub credited_gauge_kind : Option String
  pub selected_gauge_kind : Option String
  pub option : Option ℤ
  pub seed : Option ℤ
  pub random : Option ℤ
  pub trophy : Option String
  pub exceeded_aggregate_score : Bool
  pub lost_events : ℤ
  pub payload_hash : String
  pub ingested_at : ℤ

-- `DomainValidationError`, by its message.
pub data DomainError : Type 0 where
  blank_sha256 blank_source negative_counter : DomainError

-- `OFFICIAL_IR_GENERATION`: -3.
abbrev pub official_ir_generation : ℤ
official_ir_generation = negsuc 2

-- `Play.__post_init__`
unfoldable pub make_play : {F : Type 0} → Play F → Result DomainError (Play F)
make_play p = do
  raise_if (is_blank p.sha256) DomainError.blank_sha256
  raise_if (is_blank p.source) DomainError.blank_source
  raise_if
      (ltb_ℤ p.playcount (pos 0)
        || ltb_ℤ p.source_generation official_ir_generation
        || ltb_ℤ p.lost_events (pos 0))
      DomainError.negative_counter
  ok p

-- The constructor changes nothing: it returns its argument, or raises.
pub make_play_same : {F : Type 0} (p q : Play F) → make_play p ≡ ok q → q ≡ p
unfolding make_play
make_play_same p q h = ground arith

-- What a `Play` that exists satisfies.
pub record IsPlay {F : Type 0} (p : Play F) : Type 0 where
  pub playcount_nonneg : pos 0 ≤ℤ p.playcount
  pub generation_known : official_ir_generation ≤ℤ p.source_generation
  pub lost_nonneg : pos 0 ≤ℤ p.lost_events

pub make_play-IsPlay : {F : Type 0} (p q : Play F) → make_play p ≡ ok q → IsPlay q
unfolding make_play
make_play-IsPlay p q h = ground arith

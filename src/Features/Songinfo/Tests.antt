-- ===== src/Features/Songinfo/Tests.antt =====
-- A distribution of one second.
use oraja_traning.Prelude.{true, Option, none, ◌*◌, ℕ, ◌≡◌, refl, some, List, [], ◌∷◌, arith}
use oraja_traning.Prelude.Text.{codes}
use oraja_traning.Prelude.Result.{ok, err}
use oraja_traning.Tables.Classification.{strip_left, strip_right, split_commas}
use oraja_traning.Samples.{thousandths}
use oraja_traning.Features.Songinfo.Lists.{
  InOrder, decode_speedchange, csv_tokens, changes_of, change_of, number,
  decode_speedchange-InOrder,
}
use oraja_traning.Features.Songinfo.{
  DecodeError, decode_distribution, decode_encoded, decode_seconds, decode_columns, pair_value,
  without_mark,
}
use oraja_traning.Features.Songinfo.Encoded.{
  write_distribution, decode_distribution-write_distribution,
}

abbrev rows : List (List ℕ)
rows = (0 ∷ 1 ∷ 2 ∷ 35 ∷ 36 ∷ 1295 ∷ 0 ∷ []) ∷ []

decoded : decode_distribution (λ cs. cs) (some (codes " #0001020z10zz00")) ≡ ok rows
unfolding decode_distribution decode_encoded decode_seconds decode_columns pair_value without_mark
    strip_left strip_right
decoded = refl

refused : decode_distribution (λ cs. cs) (some (codes "#000")) ≡ err DecodeError.bad_length
unfolding decode_distribution decode_encoded decode_seconds decode_columns pair_value without_mark
    strip_left strip_right
refused = refl

decode_distribution-write_distribution_example :
    decode_distribution (λ cs. cs) (some (write_distribution rows)) ≡ ok rows
decode_distribution-write_distribution_example =
    decode_distribution-write_distribution (λ cs. cs) (λ cs digits. refl) rows
      ((refl, omega arith), tt)

abbrev float_of : List ℕ → Option ℕ
float_of [] = none
float_of (c ∷ cs) = some (c * 10)

changes :
    decode_speedchange thousandths float_of (λ x. true) (some (codes "1,2, 3,4"))
    ≡ ok ((490, 500) ∷ (510, 520) ∷ [])
unfolding decode_speedchange csv_tokens split_commas strip_left strip_right changes_of change_of
    number
changes = refl

decode_speedchange-InOrder_example :
    InOrder thousandths float_of (λ x. true) none ((490, 500) ∷ (510, 520) ∷ [])
decode_speedchange-InOrder_example =
    decode_speedchange-InOrder thousandths float_of (λ x. true) (some (codes "1,2, 3,4")) changes

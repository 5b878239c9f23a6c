-- ===== src/Cli/Reserve/Laws.antt =====
-- Percentages of a reserve.
use duet.Prelude.{
  false, ltb, ℕ, ◌+◌, ◌*◌, ◌/◌, ◌%◌, ◌<◌, ◌≡◌, [], ◌∷◌, true, ◌==◌, refl, arith, Option, some, ok,
  subst,
}
use duet.Ord.{=?_iff, nat_ord}
use duet.Ord.Lexicographic.{list_ord}
use duet.Text.{
  is_empty, trim_end, trim_start, Text, trim, is_whitespace, strip_suffix, split_once,
  is_ascii_digit, parse_u16, decimal, utf8, as_bytes,
}
use duet.Sync.Staging.{basis_points}
use duet.Cli.Reserve.{
  from_str, percentage, whole_and_fraction, fraction_points, parsed_or, checked_u16,
}

-- The character of a digit.
abbrev pub digit : ℕ → ℕ
digit d = b'0' + d

digit-whitespace : (d : ℕ) → d < 10 → is_whitespace (digit d) ≡ false
unfolding is_whitespace
digit-whitespace d h = ground arith

digit-point : (d : ℕ) → d < 10 → (digit d == b'.') ≡ false
digit-point d h = ground arith

digit-is_ascii_digit : (d : ℕ) → d < 10 → is_ascii_digit (digit d) ≡ true
unfolding is_ascii_digit
digit-is_ascii_digit d h = ground arith

digit-utf8 : (d : ℕ) → d < 10 → utf8 (digit d) ≡ digit d ∷ []
unfolding utf8
digit-utf8 d h = ground arith

-- `12.34%`
unfoldable pub percent_text : ℕ → ℕ → ℕ → ℕ → Text
percent_text a b c d = digit a ∷ digit b ∷ b'.' ∷ digit c ∷ digit d ∷ b'%' ∷ []

parse_two : (c d : ℕ) → c < 10 → d < 10 → parse_u16 (digit c ∷ digit d ∷ []) ≡ some (c * 10 + d)
unfolding parse_u16 decimal
parse_two c d h k = ground arith

module _ (a b c d : ℕ) (ha : a < 10) (hb : b < 10) (hc : c < 10) (hd : d < 10) where
  abbrev percent : Text
  percent = digit a ∷ digit b ∷ b'.' ∷ digit c ∷ digit d ∷ []

  trim-percent : trim percent ≡ percent
  unfolding trim trim_start trim_end
  trim-percent = rw (digit-whitespace a ha, digit-whitespace d hd) refl

  whole_and_fraction-percent :
      whole_and_fraction percent ≡ (digit a ∷ digit b ∷ [], digit c ∷ digit d ∷ [], true)
  unfolding whole_and_fraction split_once
  whole_and_fraction-percent = rw (digit-point a ha, digit-point b hb) refl

as_bytes-two :
    (a b : ℕ) → a < 10 → b < 10 → as_bytes (digit a ∷ digit b ∷ []) ≡ digit a ∷ digit b ∷ []
unfolding as_bytes
as_bytes-two a b ha hb = rw (digit-utf8 a ha, digit-utf8 b hb) refl

checked_u16-small : (n : ℕ) → n < 65536 → checked_u16 n ≡ ok n
unfolding checked_u16
checked_u16-small n h = ground arith

ltb-true : (n m : ℕ) → n < m → ltb n m ≡ true
ltb-true n m h = ground arith

percentage-digits :
    (a b c d : ℕ)
    → a < 10
    → b < 10
    → c < 10
    → d < 10
    → percentage (digit a ∷ digit b ∷ []) (digit c ∷ digit d ∷ []) true
      ≡ ok (basis_points ((a * 10 + b) * 100 + (c * 10 + d)))
unfolding percentage fraction_points parsed_or
percentage-digits a b c d ha hb hc hd =
    rw
      (
        as_bytes-two a b ha hb,
        as_bytes-two c d hc hd,
        digit-is_ascii_digit a ha,
        digit-is_ascii_digit b hb,
        digit-is_ascii_digit c hc,
        digit-is_ascii_digit d hd,
        parse_two a b ha hb,
        parse_two c d hc hd,
        checked_u16-small ((a * 10 + b) * 100) (omega arith),
        checked_u16-small ((a * 10 + b) * 100 + (c * 10 + d)) (omega arith),
        ltb-true ((a * 10 + b) * 100 + (c * 10 + d)) 10000 (omega arith),
      )
      refl

from_str-percent_text :
    (parse_str : Text → Option ℕ) (a b c d : ℕ)
    → a < 10
    → b < 10
    → c < 10
    → d < 10
    → from_str parse_str (percent_text a b c d)
      ≡ ok (basis_points ((a * 10 + b) * 100 + (c * 10 + d)))
unfolding from_str percent_text strip_suffix
from_str-percent_text parse_str a b c d ha hb hc hd =
    rw
      (
        trim-percent a b c d ha hb hc hd,
        (=?_iff (percent a b c d ha hb hc hd) (percent a b c d ha hb hc hd)).1 refl,
        whole_and_fraction-percent a b c d ha hb hc hd,
        percentage-digits a b c d ha hb hc hd,
      )
      refl

-- A share of less than 100 percent, in hundredths of a percent, as a text with two decimal places.
unfoldable pub display : ℕ → Text
display points = percent_text (points / 1000) (points / 100 % 10) (points / 10 % 10) (points % 10)

-- A share of less than 100 percent that is written with two decimal places reads back, whatever the
-- reader of sizes does.
pub from_str-display :
    (parse_str : Text → Option ℕ) (points : ℕ)
    → points < 10000
    → from_str parse_str (display points) ≡ ok (basis_points points)
unfolding display
from_str-display parse_str points h =
    subst (λ n. from_str parse_str (display points) ≡ ok (basis_points n)) (omega arith)
      (from_str-percent_text parse_str (points / 1000) (points / 100 % 10) (points / 10 % 10)
        (points % 10) (omega arith) (omega arith) (omega arith) (omega arith))

-- Nothing of the text is trimmed: it ends in `%`, and it begins with a digit.
pub trim_end-display : (points : ℕ) → trim_end (display points) ≡ display points
unfolding display percent_text trim_end is_whitespace
trim_end-display points = refl

trim_start-display : (points : ℕ) → points < 10000 → trim_start (display points) ≡ display points
unfolding display percent_text trim_start
trim_start-display points h = rw (digit-whitespace (points / 1000) (omega arith)) refl

pub trim-display : (points : ℕ) → points < 10000 → trim (display points) ≡ display points
unfolding trim
trim-display points h = rw (trim_start-display points h) (trim_end-display points)

pub is_empty-display : (points : ℕ) → is_empty (display points) ≡ false
unfolding display percent_text
is_empty-display points = refl

-- ===== src/Prelude/Decimal.antt =====
-- Decimal numbers: `%d` of package `fmt`, and `strconv.ParseUint(s, 10, 64)`.
use Prim.Native.Nat.{ℕ, zero, suc, ◌+◌, ◌-◌, ◌*◌, ◌/◌, ◌%◌, ◌^◌, ◌<◌}
use mathlib.Core.Path.{◌≡◌, refl, ◌∙◌}
use mathlib.Core.Logic.{◌≢◌}
use mathlib.Core.Bool.{Bool, true, false, ◌&&◌}
use mathlib.Core.Option.{Option, none, some}
use mathlib.Core.List.{[], ◌∷◌}
use native.Mathlib.Omega.{arith}
use bcpfs.Prelude.Tests.{ltb, leb, ◌==◌, if◌then◌else◌}
use bcpfs.Prelude.Lists.{all}
use bcpfs.Prelude.Bytes.{Bytes, codes}

abbrev pub is_digit : ℕ → Bool
is_digit c = leb b'0' c && leb c b'9'

-- The digits of `n` in front of `out`; each round takes the last digit of `n`, and at most `n`
-- rounds are made after the first.
unfoldable pub put_digits : ℕ → ℕ → Bytes → Bytes
put_digits zero n out = out
put_digits (suc fuel) n out = elim (n / 10 == 0) [
  | true ↦ (b'0' + n % 10) ∷ out
  | false ↦ put_digits fuel (n / 10) ((b'0' + n % 10) ∷ out)
]

-- fmt.Sprintf("%d", n)
unfoldable pub decimal : ℕ → Bytes
unfolding put_digits
decimal n = put_digits (suc n) n []

-- The loop of ParseUint(): `none` is a syntax error or a number that is out of range.
unfoldable pub scan_digits : Bytes → ℕ → Option ℕ
scan_digits [] n = some n
scan_digits (c ∷ s) n =
    let next = scan_digits s (n * 10 + (c - b'0')) in
    if is_digit c && ltb (n * 10 + (c - b'0')) (2 ^ 64) then next else none

unfoldable pub parse_uint : Bytes → Option ℕ
unfolding scan_digits
parse_uint [] = none
parse_uint (c ∷ s) = scan_digits (c ∷ s) 0

decimal_test : decimal 1002 ≡ codes "1002"
unfolding decimal
decimal_test = refl

-- Reading the digits of `n` is reading what follows them from `n` on.
scan-put :
    (fuel n : ℕ) (out : Bytes)
    → n < fuel
    → n < 2 ^ 64
    → scan_digits (put_digits fuel n out) 0 ≡ scan_digits out n
unfolding put_digits scan_digits
scan-put zero n out h b = absurd (omega arith)
scan-put (suc fuel) n out h b = ground (arith, scan-put fuel (n / 10) ((b'0' + n % 10) ∷ out))

-- What is not a number: the digits of a number are there, and are digits.
put-digits : (fuel n : ℕ) (out : Bytes) → all is_digit (put_digits fuel n out) ≡ all is_digit out
unfolding put_digits
put-digits zero n out = refl
put-digits (suc fuel) n out = ground (arith, put-digits fuel (n / 10) ((b'0' + n % 10) ∷ out))

put-ne-nil : (fuel n : ℕ) (out : Bytes) → out ≢ [] → put_digits fuel n out ≢ []
unfolding put_digits
put-ne-nil zero n out h = h
put-ne-nil (suc fuel) n out h = ground (arith, put-ne-nil fuel (n / 10) ((b'0' + n % 10) ∷ out))

scan-decimal : (n : ℕ) → n < 2 ^ 64 → scan_digits (decimal n) 0 ≡ some n
unfolding decimal scan_digits
scan-decimal n b = scan-put (suc n) n [] (omega arith) b

parse_uint-scan : (s : Bytes) → s ≢ [] → parse_uint s ≡ scan_digits s 0
unfolding parse_uint
parse_uint-scan [] h = absurd (h refl)
parse_uint-scan (c ∷ s) h = refl

pub decimal-ne-nil : (n : ℕ) → decimal n ≢ []
unfolding decimal
decimal-ne-nil n = ground (arith, put-ne-nil n (n / 10) ((b'0' + n % 10) ∷ []))

pub decimal-all_digits : (n : ℕ) → all is_digit (decimal n) ≡ true
unfolding decimal
decimal-all_digits n = put-digits (suc n) n []

-- A number below 2^64 is read back.
pub parse_uint-decimal : (n : ℕ) → n < 2 ^ 64 → parse_uint (decimal n) ≡ some n
parse_uint-decimal n b = parse_uint-scan (decimal n) (decimal-ne-nil n) ∙ scan-decimal n b

-- ===== src/Prelude/Decimal.antt =====
-- strconv.FormatUint and strconv.ParseUint in base 10 with 64 bits, and their round trip.
use Prim.Native.Nat.{ℕ, zero, suc, ◌+◌, ◌-◌, ◌*◌, ◌/◌, ◌%◌, ◌^◌, ◌<◌}
use native.Mathlib.Nat.{pow-suc}
use mathlib.Core.Path.{◌≡◌, refl, ap, ◌∙◌}
use mathlib.Core.Logic.{◌≢◌, inl, inr}
use mathlib.Core.Bool.{◌&&◌}
use mathlib.Core.Option.{Option, none, some}
use mathlib.Core.List.{[], ◌∷◌}
use native.Mathlib.Omega.{arith}
use simple_api_server.Prelude.Tests.{ltb, leb, Bool-cases, if◌then◌else◌}
use simple_api_server.Prelude.Text.{GoString}

abbrev pub uint64_mod : ℕ
uint64_mod = 2 ^ 64

-- The digits of `n` before those in `acc`. The first argument bounds their number.
format_digits : ℕ → ℕ → GoString → GoString
format_digits zero n acc = acc
format_digits (suc f) n acc =
    let rest = format_digits f (n / 10) ((48 + n % 10) ∷ acc) in
    if ltb n 10 then (48 + n) ∷ acc else rest

-- A uint64 has 20 digits at most.
unfoldable pub format_uint : ℕ → GoString
unfolding format_digits
format_uint n = format_digits 20 n []

-- `none` is a syntax or a range error.
parse_digits : ℕ → GoString → Option ℕ
parse_digits n [] = some n
parse_digits n (c ∷ cs) =
    let rest = parse_digits (n * 10 + (c - 48)) cs in
    if leb 48 c && leb c 57
    then (if ltb (n * 10 + (c - 48)) uint64_mod then rest else none)
    else none

unfoldable pub parse_uint : GoString → Option ℕ
unfolding parse_digits
parse_uint [] = none
parse_uint (c ∷ cs) = parse_digits 0 (c ∷ cs)

-- One digit of the parser.
parse_digit :
    (n d : ℕ) (cs : GoString)
    → d < 10
    → n * 10 + d < uint64_mod
    → parse_digits n ((48 + d) ∷ cs) ≡ parse_digits (n * 10 + d) cs
unfolding parse_digits
parse_digit n d cs h fits = let e : 48 + d - 48 ≡ d = omega arith in rw e (ground arith)

shorter : (f n : ℕ) → n < 10 ^ suc f → n / 10 < 10 ^ f
shorter f n h = omega (arith, pow-suc 10 f)

parse-format :
    (f n : ℕ) (acc : GoString)
    → n < 10 ^ f
    → n < uint64_mod
    → parse_digits 0 (format_digits f n acc) ≡ parse_digits n acc
unfolding format_digits
parse-format zero n acc h fits = ap (λ m. parse_digits m acc) (omega arith)
parse-format (suc f) n acc h fits = elim (Bool-cases (ltb n 10)) [
  | inl last ↦ rw last (
      rw (parse_digit 0 n acc (ground arith) (omega arith))
        (ap (λ m. parse_digits m acc) (omega arith)))
  | inr more ↦ rw more (
      parse-format f (n / 10) ((48 + n % 10) ∷ acc) (shorter f n h) (omega arith)
      ∙ parse_digit (n / 10) (n % 10) acc (omega arith) (omega arith)
      ∙ ap (λ m. parse_digits m acc) (omega arith))
]

format-ne-nil : (f n : ℕ) (acc : GoString) → format_digits (suc f) n acc ≢ []
unfolding format_digits
format-ne-nil zero n acc h = ground arith
format-ne-nil (suc f) n acc h = ground (arith, format-ne-nil f (n / 10) ((48 + n % 10) ∷ acc))

parse-eq-digits : (s : GoString) → s ≢ [] → parse_uint s ≡ parse_digits 0 s
unfolding parse_uint
parse-eq-digits [] h = absurd (h refl)
parse-eq-digits (c ∷ cs) h = refl

-- What FormatUint prints, ParseUint reads back.
pub parse_uint-format_uint : (n : ℕ) → n < uint64_mod → parse_uint (format_uint n) ≡ some n
unfolding format_uint parse_digits
parse_uint-format_uint n h =
    parse-eq-digits (format_digits 20 n []) (format-ne-nil 19 n [])
    ∙ parse-format 20 n [] (omega arith) h

-- So equal texts are equal numbers.
pub format_uint-injective :
    (m n : ℕ) → m < uint64_mod → n < uint64_mod → format_uint m ≡ format_uint n → m ≡ n
format_uint-injective m n hm hn e =
    cc (parse_uint-format_uint m hm, parse_uint-format_uint n hn, ap parse_uint e)

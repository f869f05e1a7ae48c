-- ===== src/Prelude/Int64.antt =====
-- An int64 as its bit pattern, with Go's order and increment on it, and the integer it stands for.
use Prim.Native.Nat.{ℕ, suc, ◌+◌, ◌-◌, ◌%◌, ◌^◌, ◌≤◌, ◌<◌}
use mathlib.Core.Path.{◌≡◌}
use mathlib.Core.Logic.{◌↔◌}
use mathlib.Core.Bool.{Bool, false}
use native.Mathlib.Omega.{arith}
use simple_api_server.Prelude.Tests.{ltb, if◌then◌else◌}

-- `negsuc n` is -(n + 1).
pub data ℤ : Type 0 where
  pos : ℕ → ℤ
  negsuc : ℕ → ℤ

abbrev pub pos_part : ℤ → ℕ
pos_part (pos n) = n
pos_part (negsuc n) = 0

abbrev pub neg_part : ℤ → ℕ
neg_part (pos n) = 0
neg_part (negsuc n) = suc n

infix 50 ◌≤ℤ◌
abbrev pub ◌≤ℤ◌ : ℤ → ℤ → Type 0
a ≤ℤ b = pos_part a + neg_part b ≤ pos_part b + neg_part a

-- The integer that a bit pattern stands for.
abbrev pub signed : ℕ → ℤ
signed w = if ltb w (2 ^ 63) then pos w else negsuc (2 ^ 64 - w - 1)

-- `<` on int64: the bias makes the order of patterns that of the integers.
unfoldable pub int64_lt : ℕ → ℕ → Bool
int64_lt a b = ltb ((a + 2 ^ 63) % 2 ^ 64) ((b + 2 ^ 63) % 2 ^ 64)

-- `+ 1` on int64, which wraps.
abbrev pub int64_suc : ℕ → ℕ
int64_suc a = (a + 1) % 2 ^ 64

pub int64_lt_iff :
    (a b : ℕ) → a < 2 ^ 64 → b < 2 ^ 64 → (int64_lt a b ≡ false) ↔ (signed b ≤ℤ signed a)
unfolding int64_lt
int64_lt_iff a b ha hb = (λ h. ground arith, λ h. ground arith)

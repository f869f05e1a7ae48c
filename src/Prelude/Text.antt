-- ===== src/Prelude/Text.antt =====
-- Go strings: lists of bytes, with the language's `==` on them.
use Prim.Native.Nat.{ℕ}
use Prim.Native.Char.{code}
use Prim.Native.String.{String}
use mathlib.Core.Path.{◌≡◌, refl, ap₂}
use mathlib.Core.Logic.{◌↔◌}
use mathlib.Core.Bool.{Bool, true, false, ◌&&◌}
use mathlib.Core.List.{List, [], ◌∷◌}
use simple_api_server.Prelude.Tests.{◌==◌, ==_iff, &&_iff}

abbrev pub GoString : Type 0
GoString = List ℕ

-- The bytes of an ASCII literal.
abbrev pub text : String → GoString
text String.[] = []
text (String.◌∷◌ c s) = code c ∷ text s

unfoldable pub str_eq : GoString → GoString → Bool
str_eq [] [] = true
str_eq [] (_ ∷ _) = false
str_eq (_ ∷ _) [] = false
str_eq (x ∷ xs) (y ∷ ys) = x == y && str_eq xs ys

str_eq_sound : (s t : GoString) → str_eq s t ≡ true → s ≡ t
unfolding str_eq
str_eq_sound [] [] h = refl
str_eq_sound [] (y ∷ t) h = cc
str_eq_sound (x ∷ s) [] h = cc
str_eq_sound (x ∷ s) (y ∷ t) h =
    let (p, q) = (&&_iff (x == y) (str_eq s t)).0 h in
    ap₂ ◌∷◌ ((==_iff x y).0 p) (str_eq_sound s t q)

pub str_eq_refl : (s : GoString) → str_eq s s ≡ true
unfolding str_eq
str_eq_refl [] = refl
str_eq_refl (x ∷ s) = (&&_iff (x == x) (str_eq s s)).1 ((==_iff x x).1 refl, str_eq_refl s)

pub str_eq_iff : (s t : GoString) → (str_eq s t ≡ true) ↔ (s ≡ t)
str_eq_iff s t = (str_eq_sound s t, λ e. rw e (str_eq_refl t))

-- ===== src/Strategy/SpecEqual.antt =====
-- What specEqual decides: equality of specs that forgets nil against empty.
use simple_api_server.Prelude.{
  ◌≡◌, refl, ◌↔◌, true, List, [], ◌∷◌, arith, GoString, str_eq_iff, length,
}
use simple_api_server.Kube.{Slice, elements}
use simple_api_server.Api.{TaskSpec}
use simple_api_server.Strategy.{slices_equal_from, string_slice_equal, spec_equal}

pub record SameSpec (a b : TaskSpec) : Type 0 where
  pub image : a.image ≡ b.image
  pub command : elements a.command ≡ elements b.command
  pub args : elements a.args ≡ elements b.args

slices_sound : (a b : List GoString) → length a ≡ length b → slices_equal_from a b ≡ true → a ≡ b
unfolding slices_equal_from
slices_sound [] [] l h = refl
slices_sound [] (y ∷ b) l h = absurd (omega arith)
slices_sound (x ∷ a) [] l h = cc
slices_sound (x ∷ a) (y ∷ b) l h = ground (arith, str_eq_iff x y, slices_sound a b (omega arith))

slices_refl : (a : List GoString) → slices_equal_from a a ≡ true
unfolding slices_equal_from
slices_refl [] = refl
slices_refl (x ∷ a) = ground (arith, str_eq_iff x x, slices_refl a)

pub string_slice_equal_iff :
    (a b : Slice GoString) → (string_slice_equal a b ≡ true) ↔ (elements a ≡ elements b)
unfolding string_slice_equal
string_slice_equal_iff a b = (
  λ h. slices_sound (elements a) (elements b) (ground arith) (ground arith),
  λ e. rw e (ground (arith, slices_refl (elements b))),
)

-- specEqual holds exactly of two specs with the same image and the same elements of command and
-- args, whether an empty slice is nil or not.
pub spec_equal_iff : (a b : TaskSpec) → (spec_equal a b ≡ true) ↔ SameSpec a b
unfolding spec_equal
spec_equal_iff a b = (
  λ h. record {
    image = ground (arith, str_eq_iff a.image b.image);
    command = ground (arith, string_slice_equal_iff a.command b.command);
    args = ground (arith, string_slice_equal_iff a.args b.args);
  },
  λ e. ground (
    arith,
    str_eq_iff a.image b.image,
    string_slice_equal_iff a.command b.command,
    string_slice_equal_iff a.args b.args,
  ),
)

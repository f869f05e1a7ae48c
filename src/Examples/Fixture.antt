-- ===== src/Examples/Fixture.antt =====
-- A small library that behaves as documented, Tasks, and stores that hold them.
use simple_api_server.Prelude.{
  ◌≡◌, refl, sym, ap, ◌∙◌, Bool, true, false, ◌&&◌, &&_iff, none, some, List, [], ◌∷◌, GoString,
  text, str_eq, str_eq_iff, arith, if◌then◌else◌, some-injective,
}
use simple_api_server.Kube.{ObjectMeta, FieldError, invalid, library_error, library_field_error}
use simple_api_server.Kube.Outcome.{Outcome, ok, err, ◌>>=◌, ◌>>◌, >>=-eq-ok}
use simple_api_server.Api.{Object, task, task_list, other_object, accessor, set_object_meta}
use simple_api_server.Rest.{Library, CreateStrategy, UpdateStrategy}
use simple_api_server.Rest.Laws.{SameBody, SameIdentity, Created, Updated, LibraryLaws}

-- The context of a request is the namespace of its URL.
abbrev pub Ctx : Type 0
Ctx = GoString

-- An object passes if a validator found nothing.
unfoldable pub pass : Object → List FieldError → Outcome Object
pass obj [] = ok obj
pass obj (e ∷ errs) = err (invalid (e ∷ errs))

pass-eq-ok :
    (obj obj' : Object) (errs : List FieldError)
    → pass obj errs ≡ ok obj'
    → (errs ≡ []) × (obj' ≡ obj)
unfolding pass
pass-eq-ok obj obj' [] h = (refl, ground arith)
pass-eq-ok obj obj' (e ∷ errs) h = cc

unfoldable pub in_namespace : Ctx → Object → Object
in_namespace ctx obj = elim (accessor obj) [
  | none ↦ obj
  | some m ↦ set_object_meta (record m { namespace = ctx }) obj
]

unfoldable pub before_create : CreateStrategy Ctx → Ctx → Object → Outcome Object
unfolding pass in_namespace
before_create s ctx obj = do
  prepared ← s.prepare_for_create ctx (in_namespace ctx obj)
  errs ← s.validate ctx prepared
  pass (s.canonicalize prepared) errs

unfoldable pub same_names : ObjectMeta → ObjectMeta → Bool
same_names m n = str_eq m.name n.name && str_eq m.namespace n.namespace

unfoldable pub same_identity : Object → Object → Bool
unfolding same_names
same_identity a b = elim (accessor a) [
  | none ↦ false
  | some m ↦ elim (accessor b) [ none ↦ false | some n ↦ same_names m n ]
]

unfoldable pub check_identity : Bool → Outcome (Unit {0})
check_identity true = ok tt
check_identity false = err (library_error (text "the name is fixed"))

unfoldable pub before_update : UpdateStrategy Ctx → Ctx → Object → Object → Outcome Object
unfolding pass same_identity check_identity
before_update s ctx obj old = do
  prepared ← s.prepare_for_update ctx obj old
  errs ← s.validate_update ctx prepared old
  check_identity (same_identity prepared old)
  pass (s.canonicalize prepared) errs

unfoldable pub library : Library Ctx
unfolding before_create before_update
library = record {
  namespace_from = λ ctx. (ctx, true);
  everything = λ _. true;
  validate_object_meta =
      λ m _ _. if str_eq m.name [] then library_field_error (text "name") ∷ [] else [];
  validate_conditions = λ _ _. [];
  fill_object_meta_system_fields = λ m. record m { uid = text "7f3a" };
  before_create = before_create;
  before_update = before_update;
}

SameBody-refl : (o : Object) → SameBody o o
SameBody-refl (task t) = (refl, refl)
SameBody-refl (task_list l) = refl
SameBody-refl (other_object m) = tt

SameBody-in_namespace : (ctx : Ctx) (o : Object) → SameBody o (in_namespace ctx o)
unfolding in_namespace
SameBody-in_namespace ctx (task t) = (refl, refl)
SameBody-in_namespace ctx (task_list l) = refl
SameBody-in_namespace ctx (other_object none) = tt
SameBody-in_namespace ctx (other_object (some m)) = tt

in_namespace_lem :
    (ctx : Ctx) (o : Object) (m : ObjectMeta)
    → accessor (in_namespace ctx o) ≡ some m
    → m.namespace ≡ ctx
unfolding in_namespace
in_namespace_lem ctx (task t) m h = ap (λ x. x.namespace) (some-injective (sym h))
in_namespace_lem ctx (task_list l) m h = cc
in_namespace_lem ctx (other_object none) m h = cc
in_namespace_lem ctx (other_object (some n)) m h = ap (λ x. x.namespace) (some-injective (sym h))

same_identity-SameIdentity : (a b : Object) → same_identity a b ≡ true → SameIdentity a b
unfolding same_identity same_names
same_identity-SameIdentity a b h m n em en = &&_lem (rw (em, en, same_identity) at h)
  where
    &&_lem : same_names m n ≡ true → (m.name ≡ n.name) × (m.namespace ≡ n.namespace)
    &&_lem p =
        let (e, f) = (&&_iff (str_eq m.name n.name) (str_eq m.namespace n.namespace)).0 p in
        ((str_eq_iff m.name n.name).0 e, (str_eq_iff m.namespace n.namespace).0 f)

check_identity-eq-ok : (b : Bool) → check_identity b ≡ ok tt → b ≡ true
unfolding check_identity
check_identity-eq-ok true h = refl
check_identity-eq-ok false h = cc

create-Created :
    (s : CreateStrategy Ctx) (ctx : Ctx) (obj obj' : Object)
    → before_create s ctx obj ≡ ok obj'
    → Created library s ctx obj obj'
unfolding before_create library
create-Created s ctx obj obj' h =
    >>=-eq-ok (s.prepare_for_create ctx (in_namespace ctx obj)) _ h λ prepared e₁ h₁.
      >>=-eq-ok (s.validate ctx prepared) _ h₁ λ errs e₂ h₂.
        let (clean, same) = pass-eq-ok (s.canonicalize prepared) obj' errs h₂ in
        record {
          readied = in_namespace ctx obj;
          prepared = prepared;
          same_body = SameBody-in_namespace ctx obj;
          in_namespace = λ m _ e. in_namespace_lem ctx obj m e;
          prepares = e₁;
          accepted = e₂ ∙ ap ok clean;
          result = same;
        }

update-Updated :
    (s : UpdateStrategy Ctx) (ctx : Ctx) (obj old obj' : Object)
    → before_update s ctx obj old ≡ ok obj'
    → Updated library s ctx obj old obj'
unfolding before_update library
update-Updated s ctx obj old obj' h =
    >>=-eq-ok (s.prepare_for_update ctx obj old) _ h λ prepared e₁ h₁.
      >>=-eq-ok (s.validate_update ctx prepared old) _ h₁ λ errs e₂ h₂.
        >>=-eq-ok (check_identity (same_identity prepared old)) _ h₂ λ _ e₃ h₃.
          let same = check_identity-eq-ok (same_identity prepared old) e₃ in
          let (clean, result) = pass-eq-ok (s.canonicalize prepared) obj' errs h₃ in
          record {
            readied = obj;
            prepared = prepared;
            finished = prepared;
            same_body = SameBody-refl obj;
            prepares = e₁;
            restored = SameBody-refl prepared;
            same_generation = λ m n em en. ap (λ x. x.generation) (some-injective (sym em ∙ en));
            same_identity = same_identity-SameIdentity prepared old same;
            accepted = e₂ ∙ ap ok clean;
            result = result;
          }

pub library-LibraryLaws : LibraryLaws library
unfolding library
library-LibraryLaws = record { created = create-Created; updated = update-Updated }

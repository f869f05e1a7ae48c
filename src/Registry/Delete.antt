-- ===== src/Registry/Delete.antt =====
-- What Delete removes: (*REST).Delete of pkg/registry/tasks/task/storage.go.
use simple_api_server.Prelude.{
  ◌≡◌, ◌≢◌, sym, subst, some-injective, ap, ◌∙◌, inl, inr, Option-cases, Bool, true, none, some,
  Option, GoString, str_eq_iff, arith,
}
use simple_api_server.Kube.{GroupResource, ObjectMeta, Preconditions}
use simple_api_server.Kube.Outcome.{Outcome, ok, err, panic, ok-injective, >>=-eq-ok}
use simple_api_server.Api.{Object, accessor}
use simple_api_server.Rest.{Library, ValidateObjectFunc}
use simple_api_server.Store
use simple_api_server.Store.{Key, Store, lookup, remove}
use simple_api_server.Store.Items.{Unique, lookup-remove_ne, lookup-remove_self, key_eq_ne}
use simple_api_server.Store.Calls.{perform}
use simple_api_server.Handler.{Order, run, done, ◌>>=◌}
use simple_api_server.Registry
use simple_api_server.Registry.Running.{run-bind-eq-ok}
use simple_api_server.Registry.Checks.{
  key_from_context, check_preconditions, compare_preconditions, require_meta, mismatch,
}
use simple_api_server.Registry.Accept.{DeleteOptions, accept_delete}

-- A precondition that a client states is met.
abbrev pub Meets : Option GoString → GoString → Type 0
Meets wanted current = (w : GoString) → wanted ≡ some w → w ≡ current

mismatch-Meets :
    (wanted : Option GoString) (current : GoString)
    → mismatch wanted current ≡ none
    → Meets wanted current
unfolding mismatch
mismatch-Meets none current h w e = cc
mismatch-Meets (some v) current h w e = ground (arith, str_eq_iff v current)

require_meta_lem :
    (o : Object) (acc m : ObjectMeta) → require_meta o ≡ ok acc → accessor o ≡ some m → acc ≡ m
require_meta_lem o acc m h e = ground arith

compare_preconditions-Meets :
    (m : ObjectMeta) (pre : Preconditions) (gr : GroupResource) (name : GoString)
    → compare_preconditions m pre gr name ≡ ok tt
    → Meets pre.uid m.uid × Meets pre.resource_version m.resource_version
unfolding compare_preconditions
compare_preconditions-Meets m pre gr name h = elim (Option-cases (mismatch pre.uid m.uid)) [
  | inl f ↦ elim (Option-cases (mismatch pre.resource_version m.resource_version)) [
    | inl g ↦
        (mismatch-Meets pre.uid m.uid f, mismatch-Meets pre.resource_version m.resource_version g)
    | inr (w, g) ↦ absurd (cc (rw (f, g, compare_preconditions) at h))
  ]
  | inr (w, f) ↦ absurd (cc (rw (f, compare_preconditions) at h))
]

pub check_preconditions-Meets :
    (existing : Object) (m : ObjectMeta) (pre : Preconditions) (gr : GroupResource)
    (name : GoString)
    → accessor existing ≡ some m
    → check_preconditions existing (some pre) gr name ≡ ok tt
    → Meets pre.uid m.uid × Meets pre.resource_version m.resource_version
unfolding check_preconditions
check_preconditions-Meets existing m pre gr name e h =
    >>=-eq-ok (require_meta existing) _ h λ acc f h'.
      let same : acc ≡ m = require_meta_lem existing acc m f e in
      compare_preconditions-Meets m pre gr name (rw (← same) h')

-- A successful Delete of the store.
delete-eq-ok :
    (key : Key) (s t : Store) (obj : Object)
    → Unique s.items
    → Store.delete key s ≡ (ok obj, t)
    → (lookup key s.items ≡ some obj)
      × (lookup key t.items ≡ none)
      × ((j : Key) → key ≢ j → lookup j t.items ≡ lookup j s.items)
unfolding Store.delete
delete-eq-ok key s t obj u h = elim (Option-cases (lookup key s.items)) [
  | inl e ↦ absurd (cc (rw (e, Store.delete) at h))
  | inr (o, e) ↦
      let h' = rw (e, Store.delete) at h in
      let same : o ≡ obj = ok-injective (ap (λ x. x.0) h') in
      let items : remove key s.items ≡ t.items = ap (λ x. x.1.items) h' in
      (
        e ∙ ap some same,
        rw (← items) (lookup-remove_self key s.items u),
        λ j differ. rw (← items) (lookup-remove_ne key j s.items (key_eq_ne key j differ)),
      )
]

get-eq-ok :
    (key : Key) (s : Store) (obj : Object)
    → Store.get key s ≡ ok obj
    → lookup key s.items ≡ some obj
unfolding Store.get
get-eq-ok key s obj h = ground arith

-- The end of a delete.
deleted-eq-ok :
    (order : Order) (r : Outcome Object) (s t : Store) (obj : Object) (deleted : Bool)
    → run {A = Object × Bool} order (done r >>= λ o. done (ok (o, true))) s ≡ (ok (obj, deleted), t)
    → (deleted ≡ true) × (◌≡◌ {A = Outcome Object × Store} (r, s) (ok obj, t))
unfolding run
deleted-eq-ok order (ok o) s t obj deleted h = (ground arith, ground arith)
deleted-eq-ok order (err e) s t obj deleted h = cc
deleted-eq-ok order panic s t obj deleted h = cc

accept_delete-eq-ok :
    {Ctx : Type 0} (ctx : Ctx) (name : GoString) (dv : ValidateObjectFunc Ctx)
    (options : DeleteOptions) (gr : GroupResource) (existing : Object) (pre : Preconditions)
    → options.preconditions ≡ some pre
    → accept_delete ctx name dv (some options) gr existing ≡ ok tt
    → check_preconditions existing (some pre) gr name ≡ ok tt
unfolding accept_delete
accept_delete-eq-ok ctx name dv options gr existing pre stated h =
    >>=-eq-ok (check_preconditions existing options.preconditions gr name) _ h
      λ _ e _. rw (← stated) e

module _ {Ctx : Type 0} (lib : Library Ctx) (order : Order) (gr : GroupResource) (ctx : Ctx)
    (name : GoString) (key : Key) (dv : ValidateObjectFunc Ctx) (options : DeleteOptions)
    (addressed : key_from_context lib ctx name true gr ≡ ok key) where
  -- A Delete that succeeds returns the object that was stored under the key of the request and
  -- leaves nothing there and everything elsewhere, and the object met the preconditions on uid and
  -- version that the options state. The store is assumed to hold no key twice, the object to have
  -- metadata.
  pub delete_lem :
      (s t : Store) (obj : Object) (deleted : Bool) (m : ObjectMeta)
      → Unique s.items
      → run order (Registry.delete lib gr ctx name dv (some options)) s ≡ (ok (obj, deleted), t)
      → accessor obj ≡ some m
      → (deleted ≡ true)
        × (lookup key s.items ≡ some obj)
        × (lookup key t.items ≡ none)
        × ((j : Key) → key ≢ j → lookup j t.items ≡ lookup j s.items)
        × ((pre : Preconditions)
            → options.preconditions ≡ some pre
            → Meets pre.uid m.uid × Meets pre.resource_version m.resource_version)
  unfolding Registry.delete run perform accept_delete
  delete_lem s t obj deleted m u h e =
      let (k, addressed', h₁) =
        run-bind-eq-ok order _ s (key_from_context lib ctx name true gr) h in
      let same_key : k ≡ key = ok-injective (sym addressed' ∙ addressed) in
      let (existing, e₂, h₂) = run-bind-eq-ok order _ s (Store.get k s) h₁ in
      let (_, e₃, h₃) =
        run-bind-eq-ok order _ s (accept_delete ctx name dv (some options) gr existing) h₂ in
      let (d, h₄) =
        deleted-eq-ok order (Store.delete k s).0 (Store.delete k s).1 t obj deleted h₃ in
      let (at, gone, others) =
        delete-eq-ok key s t obj u (subst (λ k. Store.delete k s ≡ (ok obj, t)) same_key h₄) in
      let found : lookup key s.items ≡ some existing =
        get-eq-ok key s existing (subst (λ k. Store.get k s ≡ ok existing) same_key e₂) in
      let same : existing ≡ obj = some-injective (sym found ∙ at) in
      (
        d,
        at,
        gone,
        others,
        λ pre stated. check_preconditions-Meets obj m pre gr name e (
            accept_delete-eq-ok ctx name dv options gr obj pre stated
              (subst (λ o. accept_delete ctx name dv (some options) gr o ≡ ok tt) same e₃)),
      )

-- ===== src/Rest/Laws.antt =====
-- The documented behaviour of BeforeCreate and BeforeUpdate that the registry relies on: which
-- methods of the strategy they call, in which order, and what else they may change.
use simple_api_server.Prelude.{◌≡◌, true, some, []}
use simple_api_server.Kube.{ObjectMeta}
use simple_api_server.Kube.Outcome.{ok}
use simple_api_server.Api.{Object, task, task_list, other_object, accessor}
use simple_api_server.Rest.{CreateStrategy, UpdateStrategy, Library}

-- Two objects that differ in their metadata at most.
abbrev pub SameBody : Object → Object → Type 0
SameBody (task a) (task b) = (a.spec ≡ b.spec) × (a.status ≡ b.status)
SameBody (task_list a) (task_list b) = a ≡ b
SameBody (other_object _) (other_object _) = Unit
SameBody _ _ = ⊥

abbrev pub SameGeneration : Object → Object → Type 0
SameGeneration a b =
    (m n : ObjectMeta) → accessor a ≡ some m → accessor b ≡ some n → m.generation ≡ n.generation

abbrev pub SameIdentity : Object → Object → Type 0
SameIdentity a b =
    (m n : ObjectMeta)
    → accessor a ≡ some m
    → accessor b ≡ some n
    → (m.name ≡ n.name) × (m.namespace ≡ n.namespace)

module _ {Ctx : Type 0} (lib : Library Ctx) where
  -- BeforeCreate accepts `obj` as `obj'`: it completes the metadata and puts the object into the
  -- namespace of the request, prepares it, and finds nothing wrong with the outcome.
  pub record Created (s : CreateStrategy Ctx) (ctx : Ctx) (obj obj' : Object) : Type 0 where
    pub readied : Object
    pub prepared : Object
    pub same_body : SameBody obj readied
    pub in_namespace :
        (m : ObjectMeta)
        → s.namespace_scoped ≡ true
        → accessor readied ≡ some m
        → m.namespace ≡ (lib.namespace_from ctx).0
    pub prepares : s.prepare_for_create ctx readied ≡ ok prepared
    pub accepted : s.validate ctx prepared ≡ ok []
    pub result : obj' ≡ s.canonicalize prepared

  -- BeforeUpdate accepts `obj` over `old` as `obj'`: between preparing the object and validating it,
  -- it restores the system metadata; it never lets the name or the namespace change.
  pub record Updated (s : UpdateStrategy Ctx) (ctx : Ctx) (obj old obj' : Object) : Type 0 where
    pub readied : Object
    pub prepared : Object
    pub finished : Object
    pub same_body : SameBody obj readied
    pub prepares : s.prepare_for_update ctx readied old ≡ ok prepared
    pub restored : SameBody prepared finished
    pub same_generation : SameGeneration prepared finished
    pub same_identity : SameIdentity finished old
    pub accepted : s.validate_update ctx finished old ≡ ok []
    pub result : obj' ≡ s.canonicalize finished

  pub record LibraryLaws : Type 0 where
    pub created :
        (s : CreateStrategy Ctx) (ctx : Ctx) (obj obj' : Object)
        → lib.before_create s ctx obj ≡ ok obj'
        → Created s ctx obj obj'
    pub updated :
        (s : UpdateStrategy Ctx) (ctx : Ctx) (obj old obj' : Object)
        → lib.before_update s ctx obj old ≡ ok obj'
        → Updated s ctx obj old obj'

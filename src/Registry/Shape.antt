-- ===== src/Registry/Shape.antt =====
-- What BeforeUpdate makes of a Task, for a strategy that prepares Tasks only.
use simple_api_server.Prelude.{◌≡◌, ◌≢◌, refl, ◌∙◌, [], ◌∷◌, ◌++◌, List}
use simple_api_server.Kube.Outcome.{ok}
use simple_api_server.Api.{Task, Object, task, task_list, other_object}
use simple_api_server.Rest.{Library, UpdateStrategy}
use simple_api_server.Rest.Laws.{SameBody, Updated}

-- Errors that `validateTask` has added one to are some.
pub snoc-ne-nil {ℓ} : {A : Type ℓ} (xs : List A) (x : A) → (xs ++ x ∷ []) ++ [] ≢ []
snoc-ne-nil [] x h = cc
snoc-ne-nil (y ∷ xs) x h = cc

pub SameBody-task :
    (p : Task) (o : Object)
    → SameBody (task p) o
    → (f : Task) × (o ≡ task f) × (p.spec ≡ f.spec) × (p.status ≡ f.status)
SameBody-task p (task f) (e, g) = (f, refl, e, g)
SameBody-task p (task_list l) h = elim h [ ]
SameBody-task p (other_object m) h = elim h [ ]

task-SameBody :
    (o : Object) (p : Task)
    → SameBody o (task p)
    → (f : Task) × (o ≡ task f) × (f.spec ≡ p.spec) × (f.status ≡ p.status)
task-SameBody (task f) p (e, g) = (f, refl, e, g)
task-SameBody (task_list l) p h = elim h [ ]
task-SameBody (other_object m) p h = elim h [ ]

-- The Tasks that an update goes through: as sent, as readied, as prepared, as accepted.
pub record Shape {Ctx : Type 0} (s : UpdateStrategy Ctx) (ctx : Ctx) (sent : Object) (old : Task)
    (accepted : Object) : Type 0 where
  pub a : Task
  pub r : Task
  pub p : Task
  pub f : Task
  pub sent_as : sent ≡ task a
  pub accepted_as : accepted ≡ task f
  pub prepares : s.prepare_for_update ctx (task r) (task old) ≡ ok (task p)
  pub sent_spec : a.spec ≡ r.spec
  pub sent_status : a.status ≡ r.status
  pub kept_spec : p.spec ≡ f.spec
  pub kept_status : p.status ≡ f.status
  pub kept_generation : p.object_meta.generation ≡ f.object_meta.generation
  pub same_name : f.object_meta.name ≡ old.object_meta.name
  pub same_namespace : f.object_meta.namespace ≡ old.object_meta.namespace
  pub validated : s.validate_update ctx (task f) (task old) ≡ ok []

pub Updated-Shape :
    {Ctx : Type 0} (lib : Library Ctx) (s : UpdateStrategy Ctx) (ctx : Ctx) (sent : Object)
    (old : Task) (accepted : Object)
    → ((o q : Object)
        → s.prepare_for_update ctx o (task old) ≡ ok q
        → (r : Task) × (p : Task) × (o ≡ task r) × (q ≡ task p))
    → ((o : Object) → s.canonicalize o ≡ o)
    → Updated lib s ctx sent (task old) accepted
    → Shape s ctx sent old accepted
Updated-Shape lib s ctx sent old accepted tasks_only canonical u =
    let (r, p, er, ep) = tasks_only u.readied u.prepared u.prepares in
    let (a, ea, spec, status) = task-SameBody sent r (rw er at u.same_body) in
    let (f, ef, spec', status') = SameBody-task p u.finished (rw ep at u.restored) in
    let (name, namespace) = u.same_identity f.object_meta old.object_meta (rw ef refl) refl in
    record {
      a = a;
      r = r;
      p = p;
      f = f;
      sent_as = ea;
      accepted_as = u.result ∙ canonical u.finished ∙ ef;
      prepares = rw (← er, ← ep) u.prepares;
      sent_spec = spec;
      sent_status = status;
      kept_spec = spec';
      kept_status = status';
      kept_generation = u.same_generation p.object_meta f.object_meta (rw ep refl) (rw ef refl);
      same_name = name;
      same_namespace = namespace;
      validated = rw (← ef) u.accepted;
    }

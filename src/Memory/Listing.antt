-- ===== src/Memory/Listing.antt =====
-- List with pointers: fresh copies of the entries that match, and nothing else changes.
use simple_api_server.Prelude.{
  ℕ, ◌<◌, ◌≡◌, refl, ap, ap₂, ◌∙◌, subst, sym, inl, inr, not, ◌&&◌, List, [], ◌∷◌, map, GoString,
  str_eq, arith, Bool-cases,
}
use simple_api_server.Api.{task}
use simple_api_server.Store.{Key, select}
use simple_api_server.DeepCopy.Reading.{Addresses}
use simple_api_server.Memory.{Memory, contents, copy_task, copy_matching}
use simple_api_server.Memory.Copying.{Extends, Extends-trans, copy_task-Copied, contents-Extends}
use simple_api_server.Memory.Clients.{Known, learn, learn_all}
use simple_api_server.Memory.Privacy.{
  IsHidden, Keeps, Keeps-trans, object_at, Stored, Keeps-Stored, map_values-Keeps, Reachable,
}
use simple_api_server.DeepCopy.Reading.{Addresses-map}
use simple_api_server.Memory.Values.{map_values}
use simple_api_server.Memory.ClientSteps.{Step}
use simple_api_server.Memory.Serving.{copied-Step}

Extends-refl : (m : Memory) → Extends m m
Extends-refl m = record {
  arrays_grow = omega arith;
  tasks_grow = omega arith;
  arrays = record { strings = λ a h. refl; conditions = λ a h. refl };
  tasks = λ p h. refl;
}

Keeps-refl : (m : Memory) (k : Known) → Keeps m k m k
Keeps-refl m k = record {
  arrays_grow = omega arith;
  tasks_grow = omega arith;
  tasks = λ p below hidden. refl;
  tasks_known = λ p below hidden. hidden;
  arrays = record { strings = λ a h. refl; conditions = λ a h. refl };
  arrays_known = λ a below hidden. hidden;
}

-- What the copies of a list of entries leave.
pub record Listed (visited : List (Key × ℕ)) (namespace : GoString) (m : Memory) (k : Known)
    (outs : List ℕ) (m' : Memory) : Type 0 where
  pub step : Step m k m' (learn_all outs m' k)
  pub extends : Extends m m'
  pub objects : map (object_at m') outs ≡ select namespace (map_values (object_at m) visited)

pub copy_matching-Listed :
    (visited : List (Key × ℕ)) (namespace : GoString) (m : Memory) (k : Known)
    → Reachable m k
    → Stored m k visited
    → Listed visited namespace m k
        (copy_matching namespace visited m).0
        (copy_matching namespace visited m).1
unfolding copy_matching select
copy_matching-Listed [] namespace m k r h = record {
  step = record { keeps = Keeps-refl m k; reachable = r };
  extends = Extends-refl m;
  objects = refl;
}
copy_matching-Listed ((key, p) ∷ visited) namespace m k r (h, hs) =
    elim (Bool-cases (not (str_eq namespace []) && not (str_eq key.namespace namespace))) [
      | inl e ↦
          let l = copy_matching-Listed visited namespace m k r hs in
          let skipped : Listed ((key, p) ∷ visited) namespace m k
              (copy_matching namespace visited m).0 (copy_matching namespace visited m).1 =
            record { step = l.step; extends = l.extends; objects = rw (e, select) l.objects } in
          rw (e, copy_matching) skipped
      | inr e ↦
          let (out, m₁) = copy_task p m in
          let a : Addresses (λ b. b < m.heap.next) (m.tasks p) =
            Addresses-map (m.tasks p) (λ b (g : IsHidden m k b). g.0) h.2 in
          let c = copy_task-Copied p m a in
          let s = copied-Step m k r p a in
          let k₁ = learn out (m₁.tasks out) k in
          let l =
            copy_matching-Listed visited namespace m₁ k₁ s.reachable
              (Keeps-Stored s.keeps visited hs) in
          let m₂ = (copy_matching namespace visited m₁).1 in
          let outs = (copy_matching namespace visited m₁).0 in
          let there : m₂.tasks out ≡ m₁.tasks out =
            l.extends.tasks out (omega (arith, c.pointer, c.next_task)) in
          let same : contents m₂ out ≡ contents m p =
            contents-Extends out l.extends (omega (arith, c.pointer, c.next_task), c.allocated)
            ∙ c.same in
          let known : Step m₁ k₁ m₂ (learn_all outs m₂ (learn out (m₂.tasks out) k)) =
            subst (λ t. Step m₁ k₁ m₂ (learn_all outs m₂ (learn out t k))) (sym there) l.step in
          let done : Listed ((key, p) ∷ visited) namespace m k (out ∷ outs) m₂ = record {
            step = record { keeps = Keeps-trans s.keeps known.keeps; reachable = known.reachable };
            extends = Extends-trans c.extends l.extends;
            objects =
                rw (e, select)
                  (ap₂ (λ t os. task t ∷ os) same
                    (l.objects ∙ ap (select namespace) (map_values-Keeps s.keeps visited hs)));
          } in
          rw (e, copy_matching) done
    ]

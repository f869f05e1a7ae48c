-- ===== src/Memory/Unshared.antt =====
-- What the store of pkg/storage/inmemory/store.go never shares with the code around it.
use mathlib.Core.List.{Memᴰ}
use simple_api_server.Prelude.{ℕ, ◌<◌, ◌≡◌, subst, sym, ap, true, false, List, [], ◌∷◌}
use simple_api_server.Kube.{GroupResource}
use simple_api_server.Store.{Key}
use simple_api_server.DeepCopy.Reading.{Addresses, Addresses-map}
use simple_api_server.Memory.{Memory}
use simple_api_server.Memory.Clients.{Known, Event, State, act}
use simple_api_server.Memory.Privacy.{Separated, Stored, IsPrivate, IsHidden}
use simple_api_server.Memory.Refinement.{act_all, PermitsAll, act-Separated}

entry-IsPrivate :
    (m : Memory) (known : Known) (items : List (Key × ℕ))
    → Stored m known items
    → (k : Key) (p : ℕ) → Memᴰ (k, p) items
    → IsPrivate m known p
entry-IsPrivate m known [] h k p e = elim e [ ]
entry-IsPrivate m known ((j, q) ∷ items) (h, hs) k p (Memᴰ.head e) =
    subst (IsPrivate m known) (sym (ap (λ x. x.1) e)) h
entry-IsPrivate m known ((j, q) ∷ items) (h, hs) k p (Memᴰ.tail e) =
    entry-IsPrivate m known items hs k p e

act_all-Separated :
    (es : List Event) (s : State) → Separated s → PermitsAll s es → Separated (act_all es s)
act_all-Separated [] s sep h = sep
act_all-Separated (e ∷ es) s sep (h, hs) =
    act_all-Separated es (act e s) (act-Separated e s sep h) hs

-- New, and clients that have nothing yet.
abbrev pub started : Memory → GroupResource → State
started m gr = record {
  world = record { memory = m; items = []; rv = 0; gr = gr };
  known = record { tasks = λ _. false; arrays = λ _. false };
}

pub started-Separated : (m : Memory) (gr : GroupResource) → Separated (started m gr)
started-Separated m gr = record {
  stored = tt;
  reachable = record { tasks = λ p h. cc; inside = λ p h. cc; arrays = λ a h. cc };
}

-- From a new store and clients that have nothing, after any sequence of calls of the store, of
-- allocations and of writes through pointers that the clients have: no client has the pointer of an
-- entry of the store, nor an array of the Task behind it, and every pointer that a client has was
-- allocated and leads to arrays that clients have.
pub nothing_shared :
    (m : Memory) (gr : GroupResource) (es : List Event)
    → PermitsAll (started m gr) es
    → let s = act_all es (started m gr) in
      let m' = s.world.memory in
      ((k : Key) (p : ℕ)
        → Memᴰ (k, p) s.world.items
        → (s.known.tasks p ≡ false) × Addresses (λ a. s.known.arrays a ≡ false) (m'.tasks p))
      × ((q : ℕ)
          → s.known.tasks q ≡ true
          → (q < m'.next_task) × Addresses (λ a. s.known.arrays a ≡ true) (m'.tasks q))
nothing_shared m gr es h =
    let s = act_all es (started m gr) in
    let sep = act_all-Separated es (started m gr) (started-Separated m gr) h in
    (
      λ k p e.
          let (_, hidden, refs) =
            entry-IsPrivate s.world.memory s.known s.world.items sep.stored k p e in
          (
            hidden,
            Addresses-map (s.world.memory.tasks p)
                (λ a (x : IsHidden s.world.memory s.known a). x.1) refs,
          ),
      λ q known. (sep.reachable.tasks q known, sep.reachable.inside q known),
    )

-- ===== src/Handler/Keeping.antt =====
-- What handlers write into the store, whatever the store answers and whatever other handlers write.
use simple_api_server.Prelude.{ℕ, ◌≡◌, refl, Bool, true, false, some, List, GoString, if◌then◌else◌}
use simple_api_server.Kube.Outcome.{Outcome, ok, err, panic}
use simple_api_server.Api.{Object}
use simple_api_server.Store.{Key, Store, lookup}
use simple_api_server.Store.Items.{Unique}
use simple_api_server.Store.Calls.{Call}
use simple_api_server.Handler.{Handler, done, call, list, current_resource_version, ◌>>=◌}

-- A store that has every object at a key where it belongs, and no key twice.
pub record Holds (P : Key → Object → Type 0) (s : Store) : Type 0 where
  pub unique : Unique s.items
  pub each : (k : Key) (o : Object) → lookup k s.items ≡ some o → P k o

module _ (P : Key → Object → Type 0) where
  -- If every object that the handler gets belongs to its key, so does every object that it writes.
  abbrev pub WritesIn : {A : Type 0} → Handler A → Type 0
  WritesIn (done r) = Unit
  WritesIn (call (Call.get k) f) =
      (r : Outcome Object) → ((o : Object) → r ≡ ok o → P k o) → WritesIn (f r)
  WritesIn (call (Call.create k o) f) = P k o × ((r : Outcome Object) → WritesIn (f r))
  WritesIn (call (Call.update k o) f) = P k o × ((r : Outcome Object) → WritesIn (f r))
  WritesIn (call (Call.delete k) f) = (r : Outcome Object) → WritesIn (f r)
  WritesIn (list ns f) = (l : List Object) → WritesIn (f l)
  WritesIn (current_resource_version f) = (v : ℕ) → WritesIn (f v)

  -- The same, shut for the rules below.
  pub record Keeps {A : Type 0} (h : Handler A) : Type 0 where
    pub within : WritesIn h

  module _ {A : Type 0} where
    pub done-Keeps : (r : Outcome A) → Keeps (done r)
    done-Keeps r = record { within = tt }

    pub if-Keeps : (b : Bool) (g h : Handler A) → Keeps g → Keeps h → Keeps (if b then g else h)
    if-Keeps true g h p q = p
    if-Keeps false g h p q = q

    pub get-Keeps :
        (k : Key) (f : Outcome Object → Handler A)
        → ((r : Outcome Object) → ((o : Object) → r ≡ ok o → P k o) → Keeps (f r))
        → Keeps (call (Call.get k) f)
    get-Keeps k f p = record { within = λ r q. (p r q).within }

    pub create-Keeps :
        (k : Key) (o : Object) (f : Outcome Object → Handler A)
        → P k o
        → ((r : Outcome Object) → Keeps (f r))
        → Keeps (call (Call.create k o) f)
    create-Keeps k o f q p = record { within = (q, λ r. (p r).within) }

    pub update-Keeps :
        (k : Key) (o : Object) (f : Outcome Object → Handler A)
        → P k o
        → ((r : Outcome Object) → Keeps (f r))
        → Keeps (call (Call.update k o) f)
    update-Keeps k o f q p = record { within = (q, λ r. (p r).within) }

    pub delete-Keeps :
        (k : Key) (f : Outcome Object → Handler A)
        → ((r : Outcome Object) → Keeps (f r))
        → Keeps (call (Call.delete k) f)
    delete-Keeps k f p = record { within = λ r. (p r).within }

    pub list-Keeps :
        (ns : GoString) (f : List Object → Handler A)
        → ((l : List Object) → Keeps (f l))
        → Keeps (list ns f)
    list-Keeps ns f p = record { within = λ l. (p l).within }

    pub current-Keeps :
        (f : ℕ → Handler A) → ((v : ℕ) → Keeps (f v)) → Keeps (current_resource_version f)
    current-Keeps f p = record { within = λ v. (p v).within }

  module _ {A B : Type 0} where
    pub bind-Keeps :
        (m : Outcome A) (f : A → Handler B)
        → ((a : A) → m ≡ ok a → Keeps (f a))
        → Keeps (done m >>= f)
    bind-Keeps (ok a) f p = p a refl
    bind-Keeps (err e) f p = done-Keeps (err e)
    bind-Keeps panic f p = done-Keeps panic

    WritesIn-then :
        (h : Handler A) (g : A → Outcome B) → WritesIn h → WritesIn (h >>= λ a. done (g a))
    WritesIn-then (done (ok a)) g p = tt
    WritesIn-then (done (err e)) g p = tt
    WritesIn-then (done panic) g p = tt
    WritesIn-then (call (Call.get k) f) g p = λ r q. WritesIn-then (f r) g (p r q)
    WritesIn-then (call (Call.create k o) f) g (q, p) = (q, λ r. WritesIn-then (f r) g (p r))
    WritesIn-then (call (Call.update k o) f) g (q, p) = (q, λ r. WritesIn-then (f r) g (p r))
    WritesIn-then (call (Call.delete k) f) g p = λ r. WritesIn-then (f r) g (p r)
    WritesIn-then (list ns f) g p = λ l. WritesIn-then (f l) g (p l)
    WritesIn-then (current_resource_version f) g p = λ v. WritesIn-then (f v) g (p v)

    pub then-Keeps : (h : Handler A) (g : A → Outcome B) → Keeps h → Keeps (h >>= λ a. done (g a))
    then-Keeps h g p = record { within = WritesIn-then h g p.within }

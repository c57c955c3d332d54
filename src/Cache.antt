-- ===== src/Cache.antt =====
-- What the program uses of Django's cache, for values of one type. Keys that were set are kept until
-- they time out: a cache that evicts keys earlier is not covered.
use django_saas_kit.Base.{ℕ, String, Option, some, none, ◌≡◌, refl, ltb, str_eq, if◌then◌else◌, ◌+◌}

pub record Cache (V : Type 0) : Type 1 where
  pub Store : Type 0
  -- `cache.get(key)`, at a time
  pub get : ℕ → String → Store → Option V
  -- `cache.set(key, value, timeout)`, at a time
  pub set : ℕ → String → V → ℕ → Store → Store
  pub delete : String → Store → Store
  pub get-set :
      (now later : ℕ) (k key : String) (v : V) (timeout : ℕ) (c : Store)
      → get later key (set now k v timeout c) ≡ (
          if str_eq k key
          then (if ltb later (now + timeout) then some v else none)
          else get later key c)
  pub get-delete :
      (later : ℕ) (k key : String) (c : Store)
      → get later key (delete k c) ≡ (if str_eq k key then none else get later key c)

-- A cache in memory: what it answers at each time and key.
instance abbrev pub local_memory : {V : Type 0} → Cache V
local_memory {V} = record {
  Store = ℕ → String → Option V;
  get = λ now key c. c now key;
  set = λ now k v timeout c later key.
      if str_eq k key then (if ltb later (now + timeout) then some v else none) else c later key;
  delete = λ k c later key. if str_eq k key then none else c later key;
  get-set = λ now later k key v timeout c. refl;
  get-delete = λ later k key c. refl;
}

-- ===== src/Tenants/Freshness.antt =====
-- How long the cache may answer for a host what the database no longer says.
use django_saas_kit.Text.{append}
use django_saas_kit.Models.{Tenant, Db}
use django_saas_kit.Cache.{Cache}
use django_saas_kit.Tenants.Middleware.{
  tenant_cache_ttl, negative_cache_ttl, found, fill, from_cache, tenant_not_found, resolve_host,
  lookup, Cached, cache_key,
}
use django_saas_kit.Orm.{Orm}
use django_saas_kit.Base.{
  true, arith, ◌<◌, Option-cases, false, ltb, ◌⊎◌, eq_iff, ◌≤◌, ◌+◌, Bool-cases, List, ℕ, str_eq,
  String, [], ◌∷◌, refl, ◌≡◌, none, some, inl, inr,
}

module _ ⦃orm : Orm⦄ where
  -- What the cache should keep for a host.
  abbrev answer : String → Db → Cached
  answer host db = elim (lookup host db) [ none ↦ tenant_not_found | some tenant ↦ found tenant ]

cache_key_injective : (a b : String) → cache_key a ≡ cache_key b → a ≡ b
unfolding cache_key append
cache_key_injective a b e = cc

cache_key_same : (a b : String) → str_eq (cache_key a) (cache_key b) ≡ str_eq a b
cache_key_same a b = elim (Bool-cases (str_eq a b)) [
  | inl same ↦
      let p : a ≡ b = (eq_iff a b).0 same in
      rw (p, (eq_iff (cache_key b) (cache_key b)).1 refl, (eq_iff b b).1 refl) refl
  | inr apart ↦ elim (Bool-cases (str_eq (cache_key a) (cache_key b))) [
    | inr other ↦ rw (other, apart)
    | inl same ↦
        let p : a ≡ b = cache_key_injective a b ((eq_iff (cache_key a) (cache_key b)).0 same) in
        let e : str_eq a b ≡ true = (eq_iff a b).1 p in absurd (cc (e, apart))
  ]
]

module _ ⦃orm : Orm⦄ ⦃cache : Cache Cached⦄ where
  -- From a time on, the cache answers for every host what the database says, or nothing.
  abbrev pub Agrees : ℕ → Db → cache.Store → Type 0
  Agrees from db c =
      (later : ℕ) (host : String)
      → from ≤ later
      → (cache.get later (cache_key host) c ≡ none)
        ⊎ (cache.get later (cache_key host) c ≡ some (answer host db))

  -- From a time on, the cache answers for no host.
  abbrev pub IsSpent : ℕ → cache.Store → Type 0
  IsSpent from c =
      (later : ℕ) (host : String) → from ≤ later → cache.get later (cache_key host) c ≡ none

  set-Agrees :
      (from now ttl : ℕ) (host : String) (db : Db) (c : cache.Store)
      → Agrees from db c
      → Agrees from db (cache.set now (cache_key host) (answer host db) ttl c)
  set-Agrees from now ttl host db c h later host' le =
      rw (cache.get-set, cache_key_same)
        (elim (Bool-cases (str_eq host host')) [
          | inr other ↦ rw other (h later host' le)
          | inl same ↦
              let p : host ≡ host' = (eq_iff host host').0 same in
              elim (Bool-cases (ltb later (now + ttl))) [
                | inl kept ↦ rw (same, kept, ← p) (inr refl)
                | inr gone ↦ rw (same, gone) (inl refl)
              ]
        ])

  resolve_host-Agrees :
      (from now : ℕ) (host : String) (db : Db) (c : cache.Store)
      → Agrees from db c
      → Agrees from db (resolve_host now host db c).1
  unfolding resolve_host from_cache fill
  resolve_host-Agrees from now host db c h =
      elim (Option-cases (cache.get now (cache_key host) c)) [
        | inr (tenant_not_found, e) ↦ rw e h
        | inr (found tenant, e) ↦ rw e h
        | inl e ↦
            let fresh : (ttl : ℕ)
                → Agrees from db (cache.set now (cache_key host) (answer host db) ttl c) =
              λ ttl. set-Agrees from now ttl host db c h in
            elim (Option-cases (lookup host db)) [
              | inl unknown ↦
                  let k = rw (answer, unknown) at fresh in rw (e, unknown) (k negative_cache_ttl)
              | inr (tenant, known) ↦
                  let k = rw (answer, known) at fresh in rw (e, known) (k tenant_cache_ttl)
            ]
      ]

  set-IsSpent :
      (from now ttl : ℕ) (host : String) (v : Cached) (c : cache.Store)
      → now + ttl ≤ from
      → IsSpent from c
      → IsSpent from (cache.set now (cache_key host) v ttl c)
  set-IsSpent from now ttl host v c in_time h later host' le =
      let gone : ltb later (now + ttl) ≡ false = ground arith in
      rw (cache.get-set, cache_key_same, gone, h later host' le) (ground arith)

  resolve_host-IsSpent :
      (changed now : ℕ) (host : String) (db : Db) (c : cache.Store)
      → now ≤ changed
      → IsSpent (changed + 300) c
      → IsSpent (changed + 300) (resolve_host now host db c).1
  unfolding resolve_host from_cache fill
  resolve_host-IsSpent changed now host db c before h =
      elim (Option-cases (cache.get now (cache_key host) c)) [
        | inr (tenant_not_found, e) ↦ rw e h
        | inr (found tenant, e) ↦ rw e h
        | inl e ↦ elim (Option-cases (lookup host db)) [
          | inl unknown ↦
              rw (e, unknown)
                (set-IsSpent (changed + 300) now negative_cache_ttl host tenant_not_found c
                  (omega arith) h)
          | inr (tenant, known) ↦
              rw (e, known)
                (set-IsSpent (changed + 300) now tenant_cache_ttl host (found tenant) c
                  (omega arith) h)
        ]
      ]

  -- The answer, where the cache agrees with the database.
  pub resolve_host-eq-lookup :
      (from now : ℕ) (host : String) (db : Db) (c : cache.Store)
      → Agrees from db c
      → from ≤ now
      → (resolve_host now host db c).0 ≡ lookup host db
  unfolding resolve_host from_cache fill
  resolve_host-eq-lookup from now host db c h le = elim (h now host le) [
    | inl empty ↦ elim (Option-cases (lookup host db)) [
      | inl unknown ↦ rw (empty, unknown)
      | inr (tenant, known) ↦ rw (empty, known)
    ]
    | inr kept ↦ elim (Option-cases (lookup host db)) [
      | inl unknown ↦ let k = rw (answer, unknown) at kept in rw (k, unknown)
      | inr (tenant, known) ↦ let k = rw (answer, known) at kept in rw (k, known)
    ]
  ]

  -- The hosts of requests, each with its time.
  unfoldable pub resolve_all : List (ℕ × String) → Db → cache.Store → cache.Store
  resolve_all [] db c = c
  resolve_all ((now, host) ∷ l) db c = resolve_all l db (resolve_host now host db c).1

  abbrev pub AllBefore : ℕ → List (ℕ × String) → Type 0
  AllBefore changed [] = Unit
  AllBefore changed ((now, host) ∷ l) = (now ≤ changed) × AllBefore changed l

  resolve_all-Agrees :
      (from : ℕ) (l : List (ℕ × String)) (db : Db) (c : cache.Store)
      → Agrees from db c
      → Agrees from db (resolve_all l db c)
  unfolding resolve_all
  resolve_all-Agrees from [] db c h = h
  resolve_all-Agrees from ((now, host) ∷ l) db c h =
      resolve_all-Agrees from l db _ (resolve_host-Agrees from now host db c h)

  resolve_all-IsSpent :
      (changed : ℕ) (l : List (ℕ × String)) (db : Db) (c : cache.Store)
      → AllBefore changed l
      → IsSpent (changed + 300) c
      → IsSpent (changed + 300) (resolve_all l db c)
  unfolding resolve_all
  resolve_all-IsSpent changed [] db c before h = h
  resolve_all-IsSpent changed ((now, host) ∷ l) db c before h =
      resolve_all-IsSpent changed l db _ before.1
        (resolve_host-IsSpent changed now host db c before.0 h)

  -- The database changes from `old` to `new` at a time: whatever hosts were looked up before the
  -- change, and whatever hosts after it, 300 seconds after the change every host is resolved as the
  -- new database says. At first the cache has no entry that outlives this time.
  pub change_seen :
      (changed now : ℕ) (old new : Db) (earlier later : List (ℕ × String)) (host : String)
      (c : cache.Store)
      → IsSpent (changed + 300) c
      → AllBefore changed earlier
      → changed + 300 ≤ now
      → (resolve_host now host new (resolve_all later new (resolve_all earlier old c))).0
        ≡ lookup host new
  change_seen changed now old new earlier later host c empty before le =
      let spent = resolve_all-IsSpent changed earlier old c before empty in
      resolve_host-eq-lookup (changed + 300) now host new _
        (resolve_all-Agrees (changed + 300) later new _ (λ t h e. inl (spent t h e))) le

  -- Until then the change may go unseen: a tenant that was resolved for a host when the cache had
  -- no entry is the answer for this host in the 300 seconds that follow, also where the new
  -- database has deactivated it, or moved or deleted the domain.
  pub change_unseen :
      (now later : ℕ) (host : String) (tenant : Tenant) (old new : Db) (c : cache.Store)
      → cache.get now (cache_key host) c ≡ none
      → lookup host old ≡ some tenant
      → later < now + 300
      → let c' = (resolve_host now host old c).1 in
        resolve_host later host new c' ≡ (some tenant, c')
  unfolding resolve_host from_cache fill
  change_unseen now later host tenant old new c empty known soon =
      let kept : ltb later (now + 300) ≡ true = ground arith in
      rw (empty, known, cache.get-set, cache_key_same, (eq_iff host host).1 refl, kept) refl

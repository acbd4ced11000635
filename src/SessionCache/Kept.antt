-- ===== src/SessionCache/Kept.antt =====
-- backend/src/session-cache.ts: how long a promise stays in the cache.
use datapm.Common.{
  String, Bool, true, false, Option, none, some, List, [], ◌∷◌, ◌==◌, ◌≡◌, ◌⊎◌, subst, refl, sym,
  ap, ◌∙◌, inl, inr, Bool-cases, eq_iff, eq_refl, All,
}
use datapm.SessionCache.Store.{
  Promise, resolved, Cache, clean, entry, Fetch, Session, lookup, set, clear, store_to_cache,
  load_new, load_found, load_data_async,
}
use datapm.SessionCache.Loads.{
  Entity, store_package_to_cache, store_catalog_to_cache, load_package, load_catalog_by_slug,
}
use datapm.SessionCache.Keys.{data_key_for_package_id, data_key_for_catalog_slug}

module _ {A : Type 0} where
  lookup-set : (k : String) (p : Promise A) (c : Cache A) → lookup k (set k p c) ≡ some p
  unfolding lookup set
  lookup-set k p clean = rw (eq_refl k)
  lookup-set k p (entry j q c) = elim (Bool-cases (j == k)) [
    | inl e ↦ rw (e, e)
    | inr e ↦ rw (e, e) (lookup-set k p c)
  ]

  lookup-set_other :
      (k j : String) (p : Promise A) (c : Cache A)
      → (j == k) ≡ false
      → lookup k (set j p c) ≡ lookup k c
  unfolding lookup set
  lookup-set_other k j p clean n = rw n
  lookup-set_other k j p (entry i q c) n = elim (Bool-cases (i == j)) [
    | inl e ↦
        let i≡j = (eq_iff i j).0 e in let m = subst (λ x. (x == k) ≡ false) (sym i≡j) n in rw (e, m)
    | inr e ↦ elim (Bool-cases (i == k)) [
      | inl t ↦ rw (e, t)
      | inr f ↦ rw (e, f) (lookup-set_other k j p c n)
    ]
  ]

-- What a request does with its cache.
pub data Action (A W : Type 0) : Type 0 where
  clearing : Action A W
  storing : String → A → Action A W
  loading : Option String → Fetch A W → Bool → Action A W

module _ {A W : Type 0} where
  -- One call of an operation of the cache.
  unfoldable pub act : Action A W → Session A W → Session A W
  unfolding clear store_to_cache load_data_async
  act clearing s = clear s
  act (storing k value) s = store_to_cache k value s
  act (loading k fetch force) s = (load_data_async k fetch force s).1

  unfoldable pub run : List (Action A W) → Session A W → Session A W
  unfolding act
  run [] s = s
  run (x ∷ xs) s = run xs (act x s)

  -- The call neither clears the cache, nor stores under the key, nor forces a reload of it.
  abbrev pub Keeps : String → Action A W → Type 0
  Keeps k clearing = ⊥
  Keeps k (storing j value) = (j == k) ≡ false
  Keeps k (loading none fetch force) = Unit
  Keeps k (loading (some j) fetch force) = ((j == k) ≡ false) ⊎ (force ≡ false)

  load_found-keeps :
      (k j : String) (p : Promise A) (found : Option (Promise A)) (fetch : Fetch A W) (force : Bool)
      (s : Session A W)
      → found ≡ lookup j s.cache
      → lookup k s.cache ≡ some p
      → ((j == k) ≡ false) ⊎ (force ≡ false)
      → lookup k (load_found j found fetch force s).1.cache ≡ some p
  unfolding load_found load_new
  load_found-keeps k j p none fetch force s e h (inl n) =
      rw (lookup-set_other k j (fetch s.world).0 s.cache n) h
  load_found-keeps k j p none fetch force s e h (inr n) = elim (Bool-cases (j == k)) [
    | inl t ↦
        let j≡k = (eq_iff j k).0 t in absurd (none≢some (e ∙ ap (λ x. lookup x s.cache) j≡k ∙ h))
    | inr f ↦ rw (lookup-set_other k j (fetch s.world).0 s.cache f) h
  ]
    where
      none≢some : none ≡ some p → ⊥
      none≢some q = cc
  load_found-keeps k j p (some q) fetch true s e h (inl n) =
      rw (lookup-set_other k j (fetch s.world).0 s.cache n) h
  load_found-keeps k j p (some q) fetch true s e h (inr n) = cc
  load_found-keeps k j p (some q) fetch false s e h n = h

  act-Keeps :
      (k : String) (p : Promise A) (x : Action A W) (s : Session A W)
      → Keeps k x
      → lookup k s.cache ≡ some p
      → lookup k (act x s).cache ≡ some p
  unfolding act store_to_cache load_data_async
  act-Keeps k p clearing s n h = elim n [ ]
  act-Keeps k p (storing j value) s n h = rw (lookup-set_other k j (resolved value) s.cache n) h
  act-Keeps k p (loading none fetch force) s n h = h
  act-Keeps k p (loading (some j) fetch force) s n h =
      load_found-keeps k j p (lookup j s.cache) fetch force s refl h n

  run-Keeps :
      (k : String) (p : Promise A) (xs : List (Action A W)) (s : Session A W)
      → All (Keeps k) xs
      → lookup k s.cache ≡ some p
      → lookup k (run xs s).cache ≡ some p
  unfolding run
  run-Keeps k p [] s n h = h
  run-Keeps k p (x ∷ xs) s (n, ns) h = run-Keeps k p xs (act x s) ns (act-Keeps k p x s n h)

  load-hit :
      (k : String) (p : Promise A) (fetch : Fetch A W) (s : Session A W)
      → lookup k s.cache ≡ some p
      → load_data_async (some k) fetch false s ≡ (some p, s)
  unfolding load_data_async load_found
  load-hit k p fetch s h = rw h

  load-first :
      (k : String) (fetch : Fetch A W) (force : Bool) (s : Session A W)
      → (p : Promise A) × ((load_data_async (some k) fetch force s).0 ≡ some p)
        × (lookup k (load_data_async (some k) fetch force s).1.cache ≡ some p)
  unfolding load_data_async load_found load_new
  load-first k fetch force s = found (lookup k s.cache) force refl
    where
      found :
          (o : Option (Promise A)) (force : Bool)
          → o ≡ lookup k s.cache
          → (p : Promise A) × ((load_found k o fetch force s).0 ≡ some p)
            × (lookup k (load_found k o fetch force s).1.cache ≡ some p)
      found none force e = ((fetch s.world).0, refl, lookup-set k (fetch s.world).0 s.cache)
      found (some p) true e = ((fetch s.world).0, refl, lookup-set k (fetch s.world).0 s.cache)
      found (some p) false e = (p, refl, sym e)

  -- After a load of a key, forced or not, and after any calls that neither clear the cache, nor
  -- store under that key, nor force a reload of it, a load of the key that is not forced returns
  -- the promise of the first load, resolved or rejected, and changes neither the cache nor the
  -- world: the function that it is given is not called.
  pub load-loaded_before :
      (k : String) (fetch : Fetch A W) (force : Bool) (s : Session A W) (xs : List (Action A W))
      (fetch₂ : Fetch A W)
      → All (Keeps k) xs
      → load_data_async (some k) fetch₂ false (run xs (load_data_async (some k) fetch force s).1)
        ≡ (
          (load_data_async (some k) fetch force s).0,
          run xs (load_data_async (some k) fetch force s).1,
        )
  load-loaded_before k fetch force s xs fetch₂ n =
      let (p, e, h) = load-first k fetch force s in
      let first = load_data_async (some k) fetch force s in
      load-hit k p fetch₂ (run xs first.1) (run-Keeps k p xs first.1 n h)
      ∙ ap (λ o. (o, run xs first.1)) (sym e)

module _ {A W : Type 0} where
  -- A package that `storePackageToCache` has put in the cache is what `loadPackage` returns for its
  -- id, and a catalog that `storeCatalogToCache` has put there what `loadCatalogBySlug` returns for
  -- its slug, after any calls that neither clear the cache, nor store under either key, nor force a
  -- reload of either; the loads call no function and change nothing.
  pub stored_entities-load :
      (entity : Entity A) (s : Session (Entity A) W) (xs : List (Action (Entity A) W))
      (fetch : Fetch (Entity A) W)
      → All (Keeps (data_key_for_package_id entity.id)) xs
      → All (Keeps (data_key_for_catalog_slug entity.slug)) xs
      → (load_package entity.id fetch false (run xs (store_package_to_cache entity s))
          ≡ (some (resolved entity), run xs (store_package_to_cache entity s)))
        × (load_catalog_by_slug entity.slug fetch false (run xs (store_catalog_to_cache entity s))
            ≡ (some (resolved entity), run xs (store_catalog_to_cache entity s)))
  unfolding store_package_to_cache store_catalog_to_cache store_to_cache load_package
      load_catalog_by_slug
  stored_entities-load entity s xs fetch n m =
      let package_key = data_key_for_package_id entity.id in
      let catalog_key = data_key_for_catalog_slug entity.slug in
      let p = resolved entity in
      (
        load-hit package_key p fetch _
            (run-Keeps package_key p xs _ n (lookup-set package_key p s.cache)),
        load-hit catalog_key p fetch _
            (run-Keeps catalog_key p xs _ m (lookup-set catalog_key p s.cache)),
      )

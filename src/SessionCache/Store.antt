-- ===== src/SessionCache/Store.antt =====
-- backend/src/session-cache.ts: the map of promises, `storeToCache` and `loadDataAsync`. A promise is
-- given by what it settles with, and a function that makes one also changes the world (the
-- database) that it reads. A function that throws at once is one whose promise is rejected.
use datapm.Common.{String, Bool, not, Option, none, some, ◌==◌, if◌then◌else◌}

pub data Promise (A : Type 0) : Type 0 where
  resolved : A → Promise A
  rejected : String → Promise A

-- `Map<string, Promise<unknown>>`
pub data Cache (A : Type 0) : Type 0 where
  clean : Cache A
  entry : String → Promise A → Cache A → Cache A

-- `() => Promise<A>`
abbrev pub Fetch : Type 0 → Type 0 → Type 0
Fetch A W = W → Promise A × W

-- The cache and the world.
pub record Session (A W : Type 0) : Type 0 where
  pub cache : Cache A
  pub world : W

module _ {A : Type 0} where
  -- `Map.get`
  unfoldable pub lookup : String → Cache A → Option (Promise A)
  lookup k clean = none
  lookup k (entry j p c) = if j == k then some p else lookup k c

  -- `Map.set`
  unfoldable pub set : String → Promise A → Cache A → Cache A
  set k p clean = entry k p clean
  set k p (entry j q c) = if j == k then entry j p c else entry j q (set k p c)

module _ {A W : Type 0} where
  unfoldable pub clear : Session A W → Session A W
  clear s = record { cache = clean; world = s.world }

  unfoldable pub store_to_cache : String → A → Session A W → Session A W
  unfolding set
  store_to_cache k value s = record { cache = set k (resolved value) s.cache; world = s.world }

  -- A new promise, which the cache keeps whatever it settles with.
  unfoldable pub load_new : String → Promise A × W → Session A W → Option (Promise A) × Session A W
  unfolding set
  load_new k made s = (some made.0, record { cache = set k made.0 s.cache; world = made.1 })

  -- The cached promise, if there is one and no reload is forced.
  unfoldable pub load_found :
      String
      → Option (Promise A)
      → Fetch A W
      → Bool
      → Session A W
      → Option (Promise A) × Session A W
  unfolding load_new
  load_found k none fetch force s = load_new k (fetch s.world) s
  load_found k (some p) fetch force s =
      if not force then (some p, s) else load_new k (fetch s.world) s

  unfoldable pub load_data_async :
      Option String → Fetch A W → Bool → Session A W → Option (Promise A) × Session A W
  unfolding lookup load_found
  load_data_async none fetch force s = (none, s)
  load_data_async (some k) fetch force s = load_found k (lookup k s.cache) fetch force s

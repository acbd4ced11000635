-- ===== src/Tests/Streams.antt =====
-- The transforms and the session cache at concrete inputs.
use datapm.Common.{ℕ, true, false, some, List, [], ◌∷◌, ◌≡◌, refl, ◌+◌, All, inl, inr, arith}
use datapm.Transforms.Chunks.{concat}
use datapm.Transforms.Batching
use datapm.Transforms.Batching.{
  Event, chunk, timer_ends, an_array, a_value, incoming, Sized, run-conserves,
}
use datapm.Transforms.ByteOffset
use datapm.Transforms.ByteOffset.{run-drops}
use datapm.SessionCache.Store.{resolved, rejected, Fetch, Session, clean, load_data_async}
use datapm.SessionCache.Loads.{
  Entity, store_package_to_cache, store_catalog_to_cache, load_package, load_catalog_by_slug,
}
use datapm.SessionCache.Kept.{
  Action, storing, loading, run, load-loaded_before, stored_entities-load,
}

abbrev events : List (Event ℕ)
events =
    chunk (an_array (1 ∷ 2 ∷ 3 ∷ []))
    ∷ timer_ends
    ∷ chunk (a_value 4)
    ∷ timer_ends
    ∷ chunk (a_value 5)
    ∷ []

abbrev batching : Batching.Batching ℕ
batching = record { buffer = 0 ∷ []; max_size = 2; timeout = true }

batched :
    Batching.run events batching
    ≡ some (
      (0 ∷ 1 ∷ []) ∷ (2 ∷ 3 ∷ []) ∷ (4 ∷ []) ∷ (5 ∷ []) ∷ [],
      record { buffer = []; max_size = 2; timeout = false },
    )
unfolding Batching.run
batched = refl

run-conserves_example :
    (batches : List (List ℕ)) × (final : Batching.Batching ℕ) × (Batching.run events batching
      ≡ some (batches, final))
    × (concat batches ≡ 0 ∷ 1 ∷ 2 ∷ 3 ∷ 4 ∷ 5 ∷ [])
    × All (Sized 2) batches
    × (final.buffer ≡ [])
    × (final.timeout ≡ false)
run-conserves_example = run-conserves events batching (omega arith)

run-drops_example :
    concat {A = ℕ} (
      ByteOffset.run
        ((1 ∷ 2 ∷ []) ∷ (3 ∷ 4 ∷ 5 ∷ []) ∷ (6 ∷ []) ∷ [])
        (record { start_offset = 3; current_offset = 0 }))
    ≡ 4 ∷ 5 ∷ 6 ∷ []
run-drops_example = run-drops 3 ((1 ∷ 2 ∷ []) ∷ (3 ∷ 4 ∷ 5 ∷ []) ∷ (6 ∷ []) ∷ [])

-- A world that counts the calls.
abbrev failing : Fetch ℕ ℕ
failing world = (rejected "timeout", world + 1)

abbrev succeeding : Fetch ℕ ℕ
succeeding world = (resolved world, world + 1)

abbrev fresh : Session ℕ ℕ
fresh = record { cache = clean; world = 0 }

abbrev others : List (Action ℕ ℕ)
others =
    storing "USER_ID-3" 9
    ∷ loading (some "USER_ID-4") succeeding true
    ∷ loading (some "USER_ID-2") succeeding false
    ∷ []

load-loaded_before_example :
    load_data_async
      (some "USER_ID-2")
      succeeding
      false
      (run others (load_data_async (some "USER_ID-2") failing false fresh).1)
    ≡ (
      (load_data_async (some "USER_ID-2") failing false fresh).0,
      run others (load_data_async (some "USER_ID-2") failing false fresh).1,
    )
load-loaded_before_example =
    load-loaded_before "USER_ID-2" failing false fresh others succeeding
      (refl, (inl refl, (inr refl, tt)))

abbrev entity : Entity ℕ
entity = record { id = record { text = "7" }; slug = "maps"; rest = 5 }

abbrev counted : Fetch (Entity ℕ) ℕ
counted world = (rejected "timeout", world + 1)

abbrev empty_session : Session (Entity ℕ) ℕ
empty_session = record { cache = clean; world = 0 }

abbrev later : List (Action (Entity ℕ) ℕ)
later = loading (some "GROUP_ID-7") counted true ∷ []

stored_entities-load_example :
    (load_package entity.id counted false (run later (store_package_to_cache entity empty_session))
      ≡ (some (resolved entity), run later (store_package_to_cache entity empty_session)))
    × (load_catalog_by_slug entity.slug counted false
          (run later (store_catalog_to_cache entity empty_session))
        ≡ (some (resolved entity), run later (store_catalog_to_cache entity empty_session)))
stored_entities-load_example =
    stored_entities-load entity empty_session later counted (inl refl, tt) (inl refl, tt)

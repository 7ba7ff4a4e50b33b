-- ===== src/Witnesses/LruCache.antt =====
-- The theorem on core/src/cache/lru_cache.h at a concrete input.
use native.Mathlib.Decide.{ℕ_discrete}
use anychat_sdk.Prelude.{ℕ, ◌≡◌, ◌≢◌, arith, List, [], ◌∷◌, none}
use anychat_sdk.Cache.LruCache.{create}
use anychat_sdk.Cache.LruCache.Run.{Call, gets, puts, answers, spec_answers, lru_refines}

-- The first key is used again, so that the third evicts the second.
abbrev calls : List (Call ℕ ℕ)
calls = puts 1 10 ∷ puts 2 20 ∷ gets 1 ∷ puts 3 30 ∷ gets 2 ∷ gets 1 ∷ []

lru_refines_example :
    (answers ℕ_discrete calls (create 2) ≡ spec_answers ℕ_discrete 2 calls [])
    × (answers ℕ_discrete calls (create 2) ≢ none)
lru_refines_example = lru_refines ℕ_discrete 2 calls (omega arith)

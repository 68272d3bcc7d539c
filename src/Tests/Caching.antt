-- ===== src/Tests/Caching.antt =====
-- The block cache at work.
use btc_rpc_proxy.Prelude.{ℕ, ◌≡◌, refl, some, none, List, [], ◌∷◌, arith, ℕ_discrete}
use btc_rpc_proxy.Cache.Loop.{rounds, end, IsEnd, rounds-evict}
use btc_rpc_proxy.Cache.{Inner, BlockCache, new, enabled, stats, get, insert}
use btc_rpc_proxy.Cache.Dict.{total}
use btc_rpc_proxy.Cache.Lru
use btc_rpc_proxy.Cache.Laws.{IsValid, view, new-IsValid}
use btc_rpc_proxy.Cache.Refines.{insert-IsValid}
use btc_rpc_proxy.Cache.Runs.{Call, gets, inserts, run, model, run-model}

-- Room for three bytes.
abbrev calls : List (Call ℕ)
calls =
    inserts 1 (7 ∷ 7 ∷ []) ∷ inserts 2 (8 ∷ []) ∷ gets 1 ∷ inserts 3 (9 ∷ []) ∷ gets 2 ∷ gets 1 ∷ []

abbrev held_one : BlockCache ℕ
held_one = insert ℕ_discrete (new 3) 1 (7 ∷ 7 ∷ [])

new-IsValid_3 : IsValid ℕ_discrete (new 3)
new-IsValid_3 = new-IsValid ℕ_discrete 3 (omega arith)

run-model_example :
    IsValid ℕ_discrete (run ℕ_discrete (new 3) calls).0
    × (view ℕ_discrete (run ℕ_discrete (new 3) calls).0 ≡ (model ℕ_discrete 3 [] calls).0)
    × ((run ℕ_discrete (new 3) calls).1 ≡ (model ℕ_discrete 3 [] calls).1)
run-model_example = run-model ℕ_discrete 3 calls (omega arith) (omega arith)

-- The entry used last stays, and the other makes room.
calls_answers : (model ℕ_discrete 3 [] calls).1 ≡ some (7 ∷ 7 ∷ []) ∷ none ∷ some (7 ∷ 7 ∷ []) ∷ []
unfolding model Lru.get btc_rpc_proxy.Cache.Dict.lookup Lru.insert Lru.trim total ℕ_discrete
    btc_rpc_proxy.Cache.Dict.remove
calls_answers = refl

held_one-IsValid : IsValid ℕ_discrete held_one
held_one-IsValid = insert-IsValid ℕ_discrete (new 3) 1 (7 ∷ 7 ∷ []) new-IsValid_3

-- A queue of three keys of which one has no block.
abbrev crowded : Inner ℕ
crowded = record { blocks = (1, 7 ∷ 7 ∷ []) ∷ (3, 9 ∷ []) ∷ []; order = 2 ∷ 1 ∷ 3 ∷ []; bytes = 3 }

rounds-evict_example :
    (rounds ℕ_discrete 2 4 crowded ≡ some (end ℕ_discrete 2 crowded))
    × IsEnd ℕ_discrete 2 (end ℕ_discrete 2 crowded)
rounds-evict_example = rounds-evict ℕ_discrete 2 4 crowded (omega arith)

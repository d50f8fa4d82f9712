-- ===== src/BuffPool/Tests.antt =====
-- Runs of buff_pool.c on a pool of two of three buffers, and its theorems there.
use randserver.Base.{
  ℕ, zero, suc, ◌<◌, ◌≡◌, ◌≢◌, refl, ◌⊎◌, Option, none, some, List, [], ◌∷◌, ◌++◌, length, get_or,
  arith,
}
use randserver.BuffPool.{BuffPool, Realloc, revive, new_buff, del_buff}
use randserver.BuffPool.Stock.{stock, IsValid, IsRealloc, revive_lem, new_buff_lem, del_buff_lem}

-- A `realloc` that fills new cells with 0.
abbrev resize : List ℕ → ℕ → List ℕ
resize xs zero = []
resize [] (suc n) = 0 ∷ resize [] n
resize (x ∷ xs) (suc n) = x ∷ resize xs n

abbrev memory : Realloc
memory xs n = some (resize xs n)

length-resize : (xs : List ℕ) (n : ℕ) → length (resize xs n) ≡ n
length-resize xs zero = refl
length-resize [] (suc n) = omega (arith, length-resize [] n)
length-resize (x ∷ xs) (suc n) = omega (arith, length-resize xs n)

get_or-resize :
    (xs : List ℕ) (n i : ℕ) → i < n → i < length xs → get_or (resize xs n) i 0 ≡ get_or xs i 0
get_or-resize xs zero i p q = absurd (omega arith)
get_or-resize [] (suc n) i p q = absurd (omega arith)
get_or-resize (x ∷ xs) (suc n) zero p q = refl
get_or-resize (x ∷ xs) (suc n) (suc i) p q = get_or-resize xs n i (omega arith) (omega arith)

memory-IsRealloc : IsRealloc memory
memory-IsRealloc xs n = (resize xs n, refl, length-resize xs n, get_or-resize xs n)

abbrev sample : BuffPool
sample = record { head = 16 ∷ 32 ∷ 0 ∷ []; buffer_size = 64; pool_cnt = 2; pool_max_cnt = 3 }

sample-IsValid : IsValid sample
sample-IsValid = record { within = omega arith; array = refl }

del_buff_lem_example :
    (freed : Option ℕ) × (pool' : BuffPool) × (del_buff sample 48 64 ≡ some (freed, pool'))
    × IsValid pool'
    × (((◌≡◌ {A = ℕ} 64 64) × (2 < 3) × (freed ≡ none) × (stock pool' ≡ 48 ∷ stock sample))
        ⊎ (((◌≢◌ {A = ℕ} 64 64) ⊎ (◌≡◌ {A = ℕ} 2 3)) × (freed ≡ some 48) × (pool' ≡ sample)))
del_buff_lem_example = del_buff_lem sample 48 64 sample-IsValid (λ e. absurd (omega arith))

new_buff_lem_example :
    (buff : ℕ) × (pool' : BuffPool) × (new_buff 96 sample 64 ≡ some (buff, pool'))
    × IsValid pool'
    × (((◌≡◌ {A = ℕ} 64 64) × (stock sample ≡ buff ∷ stock pool'))
        ⊎ (((◌≢◌ {A = ℕ} 64 64) ⊎ (stock sample ≡ [])) × (buff ≡ 96) × (pool' ≡ sample)))
new_buff_lem_example = new_buff_lem 96 sample 64 sample-IsValid

revive_lem_example :
    (freed : List ℕ) × (pool' : BuffPool) × (revive memory sample 1 ≡ some (freed, pool'))
    × IsValid pool'
    × (pool'.pool_max_cnt ≡ 1)
    × (freed ++ stock pool' ≡ stock sample)
revive_lem_example = revive_lem memory sample 1 memory-IsRealloc (omega arith) sample-IsValid

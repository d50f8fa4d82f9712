-- ===== src/Heap/Order.antt =====
-- The heap order, for both values of `big_head`.
use randserver.Base.{
  ℕ, zero, suc, ◌+◌, ◌-◌, ◌/◌, ◌≤◌, ◌<◌, ◌≡◌, Bool, true, false, List, length, set, ◌==◌,
  if◌then◌else◌, arith,
}
use randserver.Base.Int.{ℤ, pos_part, neg_part}
use randserver.Heap.{may_stay, beats}
use randserver.Heap.Cells.{at, occ}

abbrev pub gain : Bool → ℤ → ℕ
gain true a = neg_part a
gain false a = pos_part a

abbrev pub loss : Bool → ℤ → ℕ
loss true a = pos_part a
loss false a = neg_part a

-- `a` may stand above `b`: `b ≤ a` with `big_head`, and else `a ≤ b`.
abbrev pub Above : Bool → ℤ → ℤ → Type 0
Above big a b = gain big a + loss big b ≤ gain big b + loss big a

abbrev pub parent : ℕ → ℕ
parent c = (c - 1) / 2

-- Every edge of the tree in the first `n` cells is in order.
abbrev pub IsHeap : Bool → ℕ → List ℤ → Type 0
IsHeap big n xs = (c : ℕ) → 0 < c → c < n → Above big (at xs (parent c)) (at xs c)

pub may_stay-true : (big : Bool) (p key : ℤ) → may_stay big p key ≡ true → Above big p key
unfolding may_stay
may_stay-true true p key h = ground arith
may_stay-true false p key h = ground arith

pub may_stay-false : (big : Bool) (p key : ℤ) → may_stay big p key ≡ false → Above big key p
unfolding may_stay
may_stay-false true p key h = ground arith
may_stay-false false p key h = ground arith

pub beats-true : (big : Bool) (a b : ℤ) → beats big a b ≡ true → Above big a b
unfolding beats
beats-true true a b h = ground arith
beats-true false a b h = ground arith

pub beats-false : (big : Bool) (a b : ℤ) → beats big a b ≡ false → Above big b a
unfolding beats
beats-false true a b h = ground arith
beats-false false a b h = ground arith

root-Above_within :
    (k : ℕ) (big : Bool) (n : ℕ) (xs : List ℤ) (i : ℕ)
    → IsHeap big n xs
    → i < k
    → i < n
    → Above big (at xs 0) (at xs i)
root-Above_within zero big n xs i h f b = absurd (omega arith)
root-Above_within (suc k) big n xs zero h f b = omega arith
root-Above_within (suc k) big n xs (suc i) h f b = omega (
  arith,
  h (suc i) (omega arith) b,
  root-Above_within k big n xs (parent (suc i)) h (omega arith) (omega arith),
)

-- The first key of a heap may stand above every other.
pub root-Above :
    (big : Bool) (n : ℕ) (xs : List ℤ) (i : ℕ)
    → IsHeap big n xs
    → i < n
    → Above big (at xs 0) (at xs i)
root-Above big n xs i h b = root-Above_within (suc i) big n xs i h (omega arith) b

-- The block with `key` written at `i`, read at `j`.
abbrev pub virtual : List ℤ → ℕ → ℤ → ℕ → ℤ
virtual xs i key j = if i == j then key else at xs j

-- Where a loop ends: the key at `index` makes a heap of the same keys.
pub record Settled (big : Bool) (n : ℕ) (xs : List ℤ) (i : ℕ) (key : ℤ) (r : List ℤ × ℕ)
    : Type 0 where
  pub inside : r.1 < n
  pub length_kept : length r.0 ≡ length xs
  pub heap : IsHeap big n (set r.0 r.1 key)
  pub keys : (a : ℤ) → occ a n (set r.0 r.1 key) ≡ occ a n (set xs i key)

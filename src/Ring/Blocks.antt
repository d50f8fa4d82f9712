-- ===== src/Ring/Blocks.antt =====
-- Blocks that come from the pool and go back to it.
use randserver.Base.{
  ℕ, zero, suc, ◌+◌, ◌*◌, ◌%◌, ◌≤◌, ◌<◌, ◌≡◌, ◌≢◌, refl, sym, ap, ◌∙◌, subst, Option, some, none,
  arith, List, length, length-set, get_elem?, get_elem?-some, get_elem?-set, set, ◌==◌, ==→eq,
  some_inj, ◌>>=◌, Bool-cases, true, false, inl, inr,
}
use mathlib.Core.Option.{none-ne-some}
use native.Mathlib.Nat.{mod-lt, mod-add-mod}
use randserver.Ring.{Block, Pool, Ring, ensure, reclaim, gc_loop}
use randserver.Ring.Position.{mod_turn, round}
use randserver.Ring.Content.{Shape, entry, Held, with, set-Shape, entry-set}

-- A pool with memory left: it gives a block of the size that is asked for.
abbrev pub Serves {ℓ} : {A : Type ℓ} {S : Type 0} → Pool A S → Type ℓ
Serves {A = A} {S = S} pool =
    (s : S) (n : ℕ)
    → (b : Block A) × (s' : S) × (pool.new_buff s n ≡ (some b, s')) × (length b.cells ≡ n)

-- What stood in an array of blocks still stands there.
abbrev pub IsKept {ℓ} : {A : Type ℓ} → List (Option (Block A)) → List (Option (Block A)) → Type ℓ
IsKept {A = A} buffers buffers' =
    (j m : ℕ) (x : A) → entry buffers j m ≡ some x → entry buffers' j m ≡ some x

module _ {ℓ} {A : Type ℓ} where
  pub IsKept-Held :
      (ring : Ring A) (buffers : List (Option (Block A))) (r : ℕ) (q : List A)
      → IsKept ring.buffers buffers
      → Held ring r q
      → Held (with ring buffers) r q
  IsKept-Held ring buffers r q kept h i lt =
      let (x, at) = get_elem?-some q i lt in kept _ _ x (h i lt ∙ at) ∙ sym at

module _ {ℓ} {A : Type ℓ} {S : Type 0} (pool : Pool A S) where
  -- What `ensure` answers with memory left.
  abbrev pub Ensured : Ring A → ℕ → S → Type ℓ
  Ensured ring i s =
      (b : Block A) × (buffers : List (Option (Block A))) × (s' : S) × (ensure pool ring i s
        ≡ some (some b, with ring buffers, s'))
      × Shape (with ring buffers)
      × (get_elem? buffers i ≡ some (some b))
      × IsKept ring.buffers buffers

  IsKept-set :
      (buffers : List (Option (Block A))) (i : ℕ) (b : Block A)
      → i < length buffers
      → get_elem? buffers i ≡ some none
      → IsKept buffers (set buffers i (some b))
  IsKept-set buffers i b lt at j m x old = elim (Bool-cases (i == j)) [
    | inl same ↦ absurd (
        none-ne-some x (
          sym (ap (λ o. o >>= λ f. f >>= λ c. get_elem? c.cells m) at)
          ∙ rw (sym (==→eq i j same)) at old))
    | inr other ↦ entry-set buffers i b j m lt ∙ rw other old
  ]

  ensure_from :
      (ring : Ring A) (i : ℕ) (s : S) (found : Option (Block A))
      → Serves pool
      → Shape ring
      → i < ring.pool_cnt
      → get_elem? ring.buffers i ≡ some found
      → Ensured ring i s
  unfolding ensure
  ensure_from ring i s (some b) serves v lt at =
      (b, ring.buffers, s, rw at refl, v, at, λ j m x e. e)
  ensure_from ring i s none serves v lt at =
      let (b, s', e, len) = serves s ring.buffer_size in
      let inside : i < length ring.buffers = omega (arith, v.array) in
      let level : (i == i) ≡ true = ground arith in
      (
        b,
        set ring.buffers i (some b),
        s',
        rw (at, e) refl,
        set-Shape ring i b v lt len,
        get_elem?-set ring.buffers i i (some b) inside ∙ rw level refl,
        IsKept-set ring.buffers i b inside at,
      )

  -- The block at a place is there, or is fetched.
  pub ensure_lem :
      (ring : Ring A) (i : ℕ) (s : S)
      → Serves pool
      → Shape ring
      → i < ring.pool_cnt
      → Ensured ring i s
  ensure_lem ring i s serves v lt =
      let (found, at) = get_elem?-some ring.buffers i (omega (arith, v.array)) in
      ensure_from ring i s found serves v lt at

  -- What the loop of `buff_gc_help` leaves of the blocks: those that are not at a place from `f` to `g`,
  -- and the one at the writer's place.
  pub record Collected (n a f g : ℕ) (buffers buffers' : List (Option (Block A))) : Type ℓ where
    pub same_length : length buffers' ≡ length buffers
    pub nothing_new :
        (i : ℕ) (b : Block A)
        → get_elem? buffers' i ≡ some (some b)
        → get_elem? buffers i ≡ some (some b)
    pub left :
        (i : ℕ)
        → ((k : ℕ) → f ≤ k → k < g → k % n ≡ i → i ≡ a % n)
        → get_elem? buffers' i ≡ get_elem? buffers i

  Collected-refl :
      (n a f g : ℕ) (buffers : List (Option (Block A))) → Collected n a f g buffers buffers
  Collected-refl n a f g buffers = record {
    same_length = refl;
    nothing_new = λ i b e. e;
    left = λ i h. refl;
  }

  -- A place that is emptied.
  emptied :
      (n a f : ℕ) (buffers : List (Option (Block A)))
      → f % n < length buffers
      → f % n ≢ a % n
      → Collected n a f (f + 1) buffers (set buffers (f % n) none)
  emptied n a f buffers lt apart = record {
    same_length = length-set buffers (f % n) none;
    nothing_new = λ j b at.
        let found = sym (get_elem?-set buffers (f % n) j none lt) ∙ at in
        elim (Bool-cases (f % n == j)) [
          | inl same ↦ absurd (none-ne-some b (some_inj (rw same at found)))
          | inr other ↦ rw other at found
        ];
    left = λ j free. elim (Bool-cases (f % n == j)) [
      | inl same ↦
          absurd (apart (==→eq _ _ same ∙ free f (omega arith) (omega arith) (==→eq _ _ same)))
      | inr other ↦ get_elem?-set buffers (f % n) j none lt ∙ rw other refl
    ];
  }

  -- What one round of the loop answers.
  abbrev Reclaimed : ℕ → ℕ → ℕ → ℕ → List (Option (Block A)) → S → Type ℓ
  Reclaimed n bs a f buffers s =
      (cnt : ℕ) × (buffers' : List (Option (Block A))) × (s' : S) × (reclaim pool bs
          (f % n == a % n) buffers (f % n) s
        ≡ some (cnt, buffers', s'))
      × Collected n a f (f + 1) buffers buffers'

  reclaim_from :
      (n bs a f : ℕ) (buffers : List (Option (Block A))) (s : S) (found : Option (Block A))
      → f % n < length buffers
      → (f % n == a % n) ≡ false
      → get_elem? buffers (f % n) ≡ some found
      → Reclaimed n bs a f buffers s
  unfolding reclaim
  reclaim_from n bs a f buffers s none lt apart at =
      (0, buffers, s, rw (apart, at) refl, Collected-refl n a f (f + 1) buffers)
  reclaim_from n bs a f buffers s (some b) lt apart at = (
    1,
    set buffers (f % n) none,
    pool.del_buff s b bs,
    rw (apart, at) refl,
    emptied n a f buffers lt (λ e. ground arith),
  )

  reclaim_lem :
      (n bs a f : ℕ) (buffers : List (Option (Block A))) (s : S)
      → 0 < n
      → length buffers ≡ n
      → Reclaimed n bs a f buffers s
  unfolding reclaim
  reclaim_lem n bs a f buffers s pos len = elim (Bool-cases (f % n == a % n)) [
    | inl skip ↦ (0, buffers, s, rw skip refl, Collected-refl n a f (f + 1) buffers)
    | inr apart ↦
        let lt : f % n < length buffers = omega (arith, mod-lt f pos) in
        let (found, at) = get_elem?-some buffers (f % n) lt in
        reclaim_from n bs a f buffers s found lt apart at
  ]

  Collected-trans :
      (n a f g h : ℕ) (xs ys zs : List (Option (Block A)))
      → f ≤ g
      → g ≤ h
      → Collected n a f g xs ys
      → Collected n a g h ys zs
      → Collected n a f h xs zs
  Collected-trans n a f g h xs ys zs fg gh c d = record {
    same_length = d.same_length ∙ c.same_length;
    nothing_new = λ i b e. c.nothing_new i b (d.nothing_new i b e);
    left = λ i free.
        d.left i (λ k p q. free k (omega arith) q) ∙ c.left i (λ k p q. free k p (omega arith));
  }

  gc_step :
      (n bs hr hw free free' fuel : ℕ) (xs ys zs : List (Option (Block A))) (s s1 s2 : S)
      (cnt cnt' end : ℕ)
      → (free == hr) ≡ false
      → reclaim pool bs (free % n == hw % n) xs (free % n) s ≡ some (cnt, ys, s1)
      → (free + 1) % (2 * n) ≡ free'
      → gc_loop pool fuel n bs hr hw ys free' s1 ≡ some (cnt', end, zs, s2)
      → gc_loop pool (suc fuel) n bs hr hw xs free s ≡ some (cnt + cnt', end, zs, s2)
  unfolding gc_loop
  gc_step n bs hr hw free free' fuel xs ys zs s s1 s2 cnt cnt' end far e1 next e2 =
      rw (far, e1, next, e2) refl

  pub gc_loop_lem :
      (k n bs a f fuel hw : ℕ) (buffers : List (Option (Block A))) (s : S)
      → 0 < n
      → k ≤ n
      → k < fuel
      → hw % n ≡ a % n
      → length buffers ≡ n
      → (cnt : ℕ) × (buffers' : List (Option (Block A))) × (s' : S) × (gc_loop pool fuel n bs
            ((f + k + n) % (2 * n))
            hw
            buffers
            ((f + n) % (2 * n))
            s
          ≡ some (cnt, (f + k + n) % (2 * n), buffers', s'))
        × Collected n a f (f + k) buffers buffers'
  unfolding gc_loop
  gc_loop_lem k n bs a f zero hw buffers s pos le enough same len = absurd (omega arith)
  gc_loop_lem zero n bs a f (suc fuel) hw buffers s pos le enough same len =
      let none_more : f + 0 + n ≡ f + n = omega arith in
      let there : ((f + n) % (2 * n) == (f + n) % (2 * n)) ≡ true = ground arith in
      (0, buffers, s, rw (none_more, there) refl, Collected-refl n a f (f + 0) buffers)
  gc_loop_lem (suc k) n bs a f (suc fuel) hw buffers s pos le enough same len =
      let turn = mod_turn (f + n) (suc k) (f + suc k + n) (2 * n) (omega arith) (omega arith) in
      let far : ((f + n) % (2 * n) == (f + suc k + n) % (2 * n)) ≡ false = elim turn [
        | inl e ↦ ground arith
        | inr e ↦ ground arith
      ] in
      let next : ((f + n) % (2 * n) + 1) % (2 * n) ≡ (f + 1 + n) % (2 * n) =
        mod-add-mod (f + n) (2 * n) 1 ∙ ap (λ x. x % (2 * n)) (omega arith) in
      let end : f + suc k + n ≡ f + 1 + k + n = omega arith in
      let here = round n f in
      let (cnt, ys, s1, e1, c1) = reclaim_lem n bs a f buffers s pos len in
      let (cnt', zs, s2, e2, c2) =
        gc_loop_lem k n bs a (f + 1) fuel hw ys s1 pos (omega arith) (omega arith) same
          (c1.same_length ∙ len) in
      let joined : Collected n a f (f + 1 + k) buffers zs =
        Collected-trans n a f (f + 1) (f + 1 + k) buffers ys zs (omega arith) (omega arith) c1 c2 in
      (
        cnt + cnt',
        zs,
        s2,
        gc_step n bs ((f + suc k + n) % (2 * n)) hw ((f + n) % (2 * n)) ((f + 1 + n) % (2 * n)) fuel
            buffers ys zs s s1 s2 cnt cnt' ((f + suc k + n) % (2 * n)) far (rw (here, same) e1) next
            (rw end e2),
        subst (λ g. Collected n a f g buffers zs) (omega arith) joined,
      )

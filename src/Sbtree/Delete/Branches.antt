-- ===== src/Sbtree/Delete/Branches.antt =====
-- What each branch of `sb_tree_delete_node` answers.
use randserver.Base.{
  ℕ, ◌+◌, ◌-◌, ◌^◌, ◌≤◌, ◌<◌, ◌≡◌, refl, sym, ap, ◌∙◌, true, false, Bool-cases, inl, inr, ◌⊎◌,
  Option, none, some, List, [], ◌∷◌, ◌++◌, append_assoc, ltb, ◌==◌, ==→eq, if◌then◌else◌, ◌>>=◌,
  u32, arith,
}
use randserver.Sbtree.{Tree, leaf, node, Entry}
use randserver.Sbtree.Shape.{inorder, count}
use randserver.Sbtree.Order.{IsSorted, IsSorted-Parts}
use randserver.Sbtree.Count.{occurrences, occurrences-append, occurrences-AllLe, occurrences-AllGe}
use randserver.Sbtree.Delete.{
  Deleted, root_entry, only_child, refill, relink_left, relink_right, delete_node,
}
use randserver.Sbtree.Delete.Last.{HasSizes, rebuild, refill_lem, delete_last}

-- What a deletion answers: no entry has the key and none is gone, or one entry with it is gone.
pub record Absent (key : ℕ) (t : Tree) (o : Option Deleted) : Type 0 where
  pub rest : Tree
  pub answer : o ≡ some (none, rest)
  pub sizes : HasSizes rest
  pub entries : inorder rest ≡ inorder t
  pub counted : count rest ≡ count t
  pub unused : occurrences key (inorder t) ≡ 0

pub record Gone (key : ℕ) (t : Tree) (o : Option Deleted) : Type 0 where
  pub record_found : Entry
  pub value : ℕ
  pub before : List Entry
  pub after : List Entry
  pub rest : Tree
  pub answer : o ≡ some (some record_found, rest)
  pub sizes : HasSizes rest
  pub held : inorder t ≡ before ++ (key, value) ∷ after
  pub entries : inorder rest ≡ before ++ after
  pub counted : count t ≡ count rest + 1

abbrev pub Outcome : ℕ → Tree → Option Deleted → Type 0
Outcome key t o = Absent key t o ⊎ Gone key t o

empty_leaf : (t : Tree) → count t ≡ 0 → t ≡ leaf
empty_leaf leaf e = refl
empty_leaf (node l k v s r) e = absurd (omega arith)

-- The branches of the node that has the key.
delete_lone :
    (k v s : ℕ) (l r : Tree)
    → HasSizes (node l k v s r)
    → s ≡ 2
    → Gone k (node l k v s r) (refill k k v s leaf (only_child l r, leaf))
unfolding only_child root_entry
delete_lone k v s leaf leaf h e = absurd (omega arith)
delete_lone k v s leaf (node rl rk rv rs rr) h e =
    let (t, et, bt) = refill_lem k k v s leaf (rk, rv) leaf tt tt (omega arith) (omega arith) in
    record {
      record_found = (rk, rv);
      value = v;
      before = [];
      after = (rk, rv) ∷ [];
      rest = t;
      answer = et;
      sizes = bt.sizes;
      held = rw (empty_leaf rl (omega arith), empty_leaf rr (omega arith)) refl;
      entries = bt.entries;
      counted = omega (arith, bt.counted);
    }
delete_lone k v s (node ll lk lv ls lr) r h e =
    let (t, et, bt) = refill_lem k k v s leaf (lk, lv) leaf tt tt (omega arith) (omega arith) in
    record {
      record_found = (lk, lv);
      value = v;
      before = (lk, lv) ∷ [];
      after = [];
      rest = t;
      answer = et;
      sizes = bt.sizes;
      held =
          rw (empty_leaf ll (omega arith), empty_leaf lr (omega arith), empty_leaf r (omega arith))
            refl;
      entries = bt.entries;
      counted = omega (arith, bt.counted);
    }

delete_inner :
    (k v s : ℕ) (l r : Tree)
    → HasSizes (node l k v s r)
    → 1 ≤ count l
    → s < 2 ^ 32
    → Gone k (node l k v s r) (delete_node l k true >>= refill k k v s r)
delete_inner k v s l r h pos b =
    let (e, l', el, trimmed) = delete_last l k h.0 (omega arith) pos in
    let (hl, il, cl) = trimmed in
    let (t, et, bt) = refill_lem k k v s r e l' hl h.1 (omega arith) b in
    record {
      record_found = e;
      value = v;
      before = inorder l;
      after = inorder r;
      rest = t;
      answer = rw el et;
      sizes = bt.sizes;
      held = refl;
      entries = bt.entries ∙ rw il (sym (append_assoc (inorder l') _ _));
      counted = omega (arith, bt.counted);
    }

-- The branches that go down.
pub delete_low :
    (key k v s : ℕ) (l r : Tree)
    → HasSizes (node l k v s r)
    → IsSorted (inorder (node l k v s r))
    → s < 2 ^ 32
    → key < k
    → Outcome key l (delete_node l key false)
    → Outcome key (node l k v s r) (delete_node l key false >>= relink_left key k v s r)
unfolding relink_left occurrences
delete_low key k v s l r h o b lt (inl gone) =
    let parts = IsSorted-Parts (inorder l) (k, v) (inorder r) o in
    let (t, et, bt) =
      rebuild gone.rest k v s r (ltb key k) gone.sizes h.1 (omega (arith, gone.counted)) b in
    inl (record {
      rest = t;
      answer = rw (gone.answer, et) refl;
      sizes = bt.sizes;
      entries = bt.entries ∙ ap (λ es. es ++ (k, v) ∷ inorder r) gone.entries;
      counted = omega (arith, bt.counted, gone.counted);
      unused = ground (
        arith,
        gone.unused,
        occurrences-append key (inorder l) ((k, v) ∷ inorder r),
        occurrences-AllGe key k (inorder r) parts.above,
      );
    })
delete_low key k v s l r h o b lt (inr cut) =
    let (t, et, bt) =
      rebuild cut.rest k v (u32 (s + 2 ^ 32 - 1)) r (ltb key k) cut.sizes h.1
        (omega (arith, cut.counted)) (omega arith) in
    inr (record {
      record_found = cut.record_found;
      value = cut.value;
      before = cut.before;
      after = cut.after ++ (k, v) ∷ inorder r;
      rest = t;
      answer = rw (cut.answer, et) refl;
      sizes = bt.sizes;
      held = rw cut.held (append_assoc cut.before _ _);
      entries = bt.entries ∙ rw cut.entries (append_assoc cut.before _ _);
      counted = omega (arith, bt.counted, cut.counted);
    })

pub delete_high :
    (key k v s : ℕ) (l r : Tree)
    → HasSizes (node l k v s r)
    → IsSorted (inorder (node l k v s r))
    → s < 2 ^ 32
    → k < key
    → Outcome key r (delete_node r key false)
    → Outcome key (node l k v s r) (delete_node r key false >>= relink_right false key l k v s)
unfolding relink_right occurrences
delete_high key k v s l r h o b lt (inl gone) =
    let parts = IsSorted-Parts (inorder l) (k, v) (inorder r) o in
    let (t, et, bt) =
      rebuild l k v s gone.rest (ltb key k) h.0 gone.sizes (omega (arith, gone.counted)) b in
    inl (record {
      rest = t;
      answer = rw (gone.answer, et) refl;
      sizes = bt.sizes;
      entries = bt.entries ∙ ap (λ es. inorder l ++ (k, v) ∷ es) gone.entries;
      counted = omega (arith, bt.counted, gone.counted);
      unused = ground (
        arith,
        gone.unused,
        occurrences-append key (inorder l) ((k, v) ∷ inorder r),
        occurrences-AllLe key k (inorder l) parts.below,
      );
    })
delete_high key k v s l r h o b lt (inr cut) =
    let (t, et, bt) =
      rebuild l k v (u32 (s + 2 ^ 32 - 1)) cut.rest (ltb key k) h.0 cut.sizes
        (omega (arith, cut.counted)) (omega arith) in
    inr (record {
      record_found = cut.record_found;
      value = cut.value;
      before = inorder l ++ (k, v) ∷ cut.before;
      after = cut.after;
      rest = t;
      answer = rw (cut.answer, et) refl;
      sizes = bt.sizes;
      held = rw cut.held (sym (append_assoc (inorder l) _ _));
      entries = bt.entries ∙ rw cut.entries (sym (append_assoc (inorder l) _ _));
      counted = omega (arith, bt.counted, cut.counted);
    })

pub delete_here :
    (k v s : ℕ) (l r : Tree)
    → HasSizes (node l k v s r)
    → (1 ≤ count l) ⊎ (count r ≤ 1)
    → s < 2 ^ 32
    → Gone k (node l k v s r) (
        if s == 1
        then some (some (k, v), leaf)
        else if s == 2
        then refill k k v s leaf (only_child l r, leaf)
        else (delete_node l k true >>= refill k k v s r))
delete_here k v s l r h left b = elim (Bool-cases (s == 1)) [
  | inl one ↦ rw one (record {
    record_found = (k, v);
    value = v;
    before = [];
    after = [];
    rest = leaf;
    answer = refl;
    sizes = tt;
    held =
        rw
          (empty_leaf l (omega (arith, ==→eq _ _ one)), empty_leaf r (omega (arith, ==→eq _ _ one)))
          refl;
    entries = refl;
    counted = omega (arith, ==→eq _ _ one);
  })
  | inr more ↦ elim (Bool-cases (s == 2)) [
    | inl two ↦ rw (more, two) (delete_lone k v s l r h (==→eq _ _ two))
    | inr many ↦ rw (more, many) (delete_inner k v s l r h (ground arith) b)
  ]
]

-- ===== src/Sbtree/Delete/Last.antt =====
-- Repairs on the way back up, and the last entry of a subtree taken out.
use randserver.Base.{
  ℕ, ◌+◌, ◌-◌, ◌^◌, ◌≤◌, ◌<◌, ◌≡◌, refl, sym, ◌∙◌, Bool, true, false, inl, ◌⊎◌, some, [], ◌∷◌, ◌++◌,
  append_assoc, ltb, u32, arith,
}
use randserver.Sbtree.{Tree, leaf, node, Entry}
use randserver.Sbtree.Shape.{inorder, count, HasShape}
use randserver.Sbtree.Maintain.{maintain, maintain-Kept}
use randserver.Sbtree.Delete.{refill, delete_node}

-- A node of more than two entries has a left child: what `sb_tree_delete_node` relies on where it
-- takes the replacement from the left subtree.
abbrev pub HasLefts : Tree → Type 0
HasLefts leaf = Unit
HasLefts (node l k v s r) = HasLefts l × HasLefts r × ((1 ≤ count l) ⊎ (count r ≤ 1))

-- The sizes are right; nothing is asked of the balance.
abbrev pub HasSizes : Tree → Type 0
HasSizes = HasShape false

pub record Rebuilt (l : Tree) (e : Entry) (r t : Tree) : Type 0 where
  pub sizes : HasSizes t
  pub entries : inorder t ≡ inorder l ++ e ∷ inorder r
  pub counted : count t ≡ count l + count r + 1

pub rebuild :
    (l : Tree) (k v s : ℕ) (r : Tree) (d : Bool)
    → HasSizes l
    → HasSizes r
    → s ≡ count l + count r + 1
    → s < 2 ^ 32
    → (t : Tree) × (maintain (node l k v s r) d ≡ some t) × Rebuilt l (k, v) r t
rebuild l k v s r d hl hr e b =
    let (t, et, kt) =
      maintain-Kept false (node l k v s r) d (hl, hr, e, inl refl, inl refl) (omega arith) in
    (t, et, record { sizes = kt.shape; entries = kt.same; counted = kt.counted })

repair_again :
    (l : Tree) (e : Entry) (r t : Tree) (d : Bool)
    → Rebuilt l e r t
    → count t < 2 ^ 32
    → (t' : Tree) × (maintain t d ≡ some t') × Rebuilt l e r t'
repair_again l e r leaf d h b =
    let (t', et, kt) = maintain-Kept false leaf d tt b in
    (
      t',
      et,
      record { sizes = kt.shape; entries = kt.same ∙ h.entries; counted = kt.counted ∙ h.counted },
    )
repair_again l e r (node a k v s c) d h b =
    let (t', et, kt) =
      maintain-Kept false (node a k v s c) d (h.sizes.0, h.sizes.1, h.sizes.2, inl refl, inl refl)
        b in
    (
      t',
      et,
      record { sizes = kt.shape; entries = kt.same ∙ h.entries; counted = kt.counted ∙ h.counted },
    )

pub refill_lem :
    (key k v s : ℕ) (r : Tree) (e : Entry) (l : Tree)
    → HasSizes l
    → HasSizes r
    → s ≡ count l + count r + 2
    → s < 2 ^ 32
    → (t : Tree) × (refill key k v s r (some e, l) ≡ some (some e, t)) × Rebuilt l e r t
unfolding refill
refill_lem key k v s r e l hl hr es b =
    let (t, et, bt) =
      rebuild l e.0 e.1 (u32 (s + 2 ^ 32 - 1)) r true hl hr (omega arith) (omega arith) in
    let (t', et', bt') = repair_again l e r t (ltb key e.0) bt (omega (arith, bt.counted)) in
    (t', rw (et, et') refl, bt')

-- The last entry comes out.
abbrev Trimmed : Tree → Entry → Tree → Type 0
Trimmed t e t' = HasSizes t' × (inorder t ≡ inorder t' ++ e ∷ []) × (count t ≡ count t' + 1)

pub delete_last :
    (t : Tree) (key : ℕ)
    → HasSizes t
    → count t < 2 ^ 32
    → 1 ≤ count t
    → (e : Entry) × (t' : Tree) × (delete_node t key true ≡ some (some e, t')) × Trimmed t e t'
unfolding delete_node
delete_last leaf key h b pos = absurd (omega arith)
delete_last (node l k v s leaf) key h b pos = ((k, v), l, refl, (h.0, refl, omega arith))
delete_last (node l k v s (node rl rk rv rs rr)) key h b pos =
    let r = node rl rk rv rs rr in
    let (e, r', er, (hr, ir, cr)) =
      delete_last (node rl rk rv rs rr) key h.1 (omega arith) (omega arith) in
    let (t', et, bt) =
      rebuild l k v (u32 (s + 2 ^ 32 - 1)) r' false h.0 hr (omega arith) (omega arith) in
    (
      e,
      t',
      rw (er, et) refl,
      (
        bt.sizes,
        rw (ir, bt.entries) (sym (append_assoc (inorder l) _ _)),
        omega (arith, bt.counted),
      ),
    )

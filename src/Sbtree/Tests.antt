-- ===== src/Sbtree/Tests.antt =====
-- Runs of sbtree.c on a tree of four nodes, and its theorems there.
use randserver.Base.{
  ℕ, ◌+◌, ◌≡◌, refl, Bool, true, false, ◌⊎◌, Option, none, some, List, [], ◌∷◌, ◌++◌, get_elem?,
  ◌>>=◌, arith,
}
use randserver.Sbtree.{
  Tree, leaf, node, Entry, main_tain, settle, rotate_deeper, left_rotate, right_rotate, node_size,
}
use randserver.Sbtree.Shape.{inorder, HasShape, Kept}
use randserver.Sbtree.Maintain.{maintain, main_tain-Kept}
use randserver.Sbtree.Order.{IsSorted, place}
use randserver.Sbtree.Count.{occurrences}
use randserver.Sbtree.Insert.{insert, insert_node, insert_lem}
use randserver.Sbtree.Query.{find, find_cnt, index, find_lem, find_cnt_lem, index_lem}
use randserver.Sbtree.Delete.{delete, delete_node}
use randserver.Sbtree.Delete.Last.{HasLefts, HasSizes}
use randserver.Sbtree.Delete.Laws.{delete_lem}
use randserver.Sbtree.Undo.{delete-insert}
use randserver.Sbtree.Clean.{Nodes, null, at, clean, times, addresses, clean_lem}

abbrev one : ℕ → Tree
one k = node leaf k (k + 100) 1 leaf

abbrev sample : Tree
sample = node (node (one 2) 4 104 2 leaf) 6 106 4 (one 6)

abbrev sample_entries : List Entry
sample_entries = (2, 102) ∷ (4, 104) ∷ (6, 106) ∷ (6, 106) ∷ []

-- A chain that `sb_tree_main_tain` has to turn.
abbrev chain : Tree
chain = node (node (one 1) 2 102 2 leaf) 3 103 3 leaf

sample-HasShape : HasShape true sample
sample-HasShape = ground arith

sample-HasSizes : HasSizes sample
sample-HasSizes = ground arith

sample-HasLefts : HasLefts sample
sample-HasLefts = ground arith

sample-IsSorted : IsSorted (inorder sample)
sample-IsSorted = ground arith

insert_lem_example :
    (t' : Tree) × (insert true sample 5 9 ≡ some (t', true))
    × HasShape true t'
    × IsSorted (inorder t')
    × (inorder t' ≡ place 5 9 (inorder sample))
    × (insert false sample 5 9 ≡ some (sample, false))
insert_lem_example = insert_lem true sample 5 9 sample-HasShape sample-IsSorted (omega arith)

delete_lem_example :
    (t' : Tree) × HasSizes t'
    × (((delete sample 6 ≡ some (t', false))
          × (occurrences 6 (inorder sample) ≡ 0)
          × (inorder t' ≡ inorder sample))
        ⊎ ((v : ℕ) × (xs : List Entry) × (ys : List Entry) × (delete sample 6 ≡ some (t', true))
            × (inorder sample ≡ xs ++ (6, v) ∷ ys)
            × (inorder t' ≡ xs ++ ys)))
delete_lem_example =
    delete_lem sample 6 sample-HasSizes sample-HasLefts sample-IsSorted (omega arith)

delete-insert_example :
    (t1 : Tree) × (t2 : Tree) × (w : ℕ) × (xs : List Entry) × (ys : List Entry) × (insert true
        sample 5 9
      ≡ some (t1, true))
    × (delete t1 5 ≡ some (t2, true))
    × (place 5 9 (inorder sample) ≡ xs ++ (5, w) ∷ ys)
    × (inorder t2 ≡ xs ++ ys)
delete-insert_example = delete-insert sample 5 9 sample-HasShape sample-IsSorted (omega arith)

main_tain-Kept_example : (t' : Tree) × (main_tain 20 chain false ≡ some t') × Kept true chain t'
main_tain-Kept_example =
    main_tain-Kept true 20 chain false (ground arith) (omega arith) (omega arith)

index_lem_example : index sample 2 ≡ some (get_elem? (inorder sample) 2)
index_lem_example = index_lem true sample 2 sample-HasShape (omega arith)

find_lem_example :
    ((find sample 4 ≡ none) × (occurrences 4 (inorder sample) ≡ 0))
    ⊎ ((v : ℕ) × (xs : List Entry) × (ys : List Entry) × (find sample 4 ≡ some (4, v))
        × (inorder sample ≡ xs ++ (4, v) ∷ ys))
find_lem_example = find_lem sample 4 sample-IsSorted

find_cnt_lem_example : find_cnt sample 6 ≡ occurrences 6 (inorder sample)
find_cnt_lem_example = find_cnt_lem sample 6 sample-IsSorted (omega arith)

abbrev three_nodes : Nodes
three_nodes = at 64 (at 32 null null) (at 96 null null)

clean_lem_example :
    (freed : List ℕ) × (clean [] three_nodes ≡ some (freed, null))
    × ((x : ℕ) → times x freed ≡ times x (addresses three_nodes))
clean_lem_example = clean_lem three_nodes (λ x. ground arith)

clean_order : clean [] three_nodes ≡ some (64 ∷ 96 ∷ 32 ∷ [], null)
unfolding clean
clean_order = refl

-- An ordered tree with right sizes, which is not of good shape, and the same behind an insertion.
abbrev lopsided : Tree
lopsided =
    node leaf 5 105 7 (node (node (one 7) 8 108 2 leaf) 10 110 6 (node (one 12) 13 113 3 (one 14)))

lopsided-HasSizes : HasSizes lopsided
lopsided-HasSizes = ground arith

abbrev inserted : Option (Tree × Bool)
inserted = insert true lopsided 5 9

abbrev lost : Option Bool
lost = inserted >>= λ (t, done). delete t 5 >>= λ (t', answer). some answer

-- Deleting the key that was just inserted answers 0.
lost_lem : lost ≡ some false
unfolding insert insert_node delete delete_node maintain main_tain settle rotate_deeper left_rotate
    right_rotate node_size
lost_lem = refl

-- An empty subtree beside five balanced nodes, and the result of the repair: 0 still stands with an
-- empty subtree beside two nodes.
abbrev far : Tree
far = node leaf 0 100 6 (node (node (one 1) 2 102 2 leaf) 3 103 5 (node (one 4) 5 105 2 leaf))

far_maintained :
    maintain far true
    ≡ some
        (node (node leaf 0 100 3 (node (one 1) 2 102 2 leaf)) 3 103 6 (node (one 4) 5 105 2 leaf))
unfolding maintain main_tain settle rotate_deeper left_rotate right_rotate node_size
far_maintained = refl

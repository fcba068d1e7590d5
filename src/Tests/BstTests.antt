-- ===== src/Tests/BstTests.antt =====
-- The search tree at a tree of five keys.
use ant_http.Bst.Entries.{entries, free_cb-root, for_each-fold, fold}
use ant_http.Bst.Lookup.{find-delete_ne}
use ant_http.Bst.Order.{IsOrdered, bst_delete-IsOrdered}
use ant_http.Bst.{Tree, leaf, node, bst_find, bst_find_min, bst_delete, bst_for_each, bst_free_cb}
use ant_http.Prelude.{ℕ, ltb, pos, negsuc, some, List, [], ◌∷◌, ◌≡◌, refl, true, arith}

abbrev sample : Tree ℕ
sample =
    node (node leaf (negsuc 1) 10 leaf) (pos 3) 11
      (node (node leaf (pos 4) 12 leaf) (pos 7) 13 (node leaf (pos 9) 14 leaf))

sample-IsOrdered : IsOrdered sample
sample-IsOrdered = omega arith

delete_root :
    bst_delete sample (pos 3)
    ≡ node
        (node leaf (negsuc 1) 10 leaf)
        (pos 4)
        12
        (node leaf (pos 7) 13 (node leaf (pos 9) 14 leaf))
unfolding bst_delete bst_find_min
delete_root = refl

sample_has : bst_find sample (pos 3) ≡ some 11
unfolding bst_find
sample_has = refl

bst_delete-IsOrdered_example : IsOrdered (bst_delete sample (pos 3))
bst_delete-IsOrdered_example = bst_delete-IsOrdered sample (pos 3) sample-IsOrdered

find-delete_ne_example : bst_find (bst_delete sample (pos 3)) (pos 4) ≡ bst_find sample (pos 4)
find-delete_ne_example = find-delete_ne sample (pos 3) (pos 4) sample-IsOrdered (λ e. ground arith)

for_each-fold_example :
    bst_for_each sample (λ k v (s : List ℕ). v ∷ s) [] ≡ fold (entries sample) (λ k v s. v ∷ s) []
for_each-fold_example = for_each-fold sample (λ k v s. v ∷ s) []

free_cb-root_example : bst_free_cb (ltb 10) sample true ≡ 11 ∷ []
free_cb-root_example =
    free_cb-root (ltb 10) (node leaf (negsuc 1) 10 leaf) (pos 3) 11
      (node (node leaf (pos 4) 12 leaf) (pos 7) 13 (node leaf (pos 9) 14 leaf))

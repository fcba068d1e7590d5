-- ===== src/Bst/Size.antt =====
-- How many nodes `bst_insert` adds and `bst_delete` frees.
use ant_http.Prelude.{◌+◌, ℤ, Option, none, some, arith, ◌≡◌, refl}
use ant_http.Bst.{
  Tree, leaf, node, bst_insert, bst_delete, bst_find, bst_find_min, key_or, delete_here, is_leaf,
}
use ant_http.Bst.Entries.{size}
use ant_http.Bst.Lookup.{find-find_min}
use ant_http.Bst.Order.{IsOrdered, bst_find_min-some}

module _ {A : Type 0} where
  -- A new key adds one node.
  pub size-insert_new :
      (t : Tree A) (x : ℤ) (w : A) → bst_find t x ≡ none → size (bst_insert t x w) ≡ size t + 1
  unfolding size bst_insert bst_find
  size-insert_new leaf x w h = omega arith
  size-insert_new (node l k v r) x w h =
      ground (arith, size-insert_new l x w, size-insert_new r x w)

  -- A key that is there adds none: its data is overwritten.
  pub size-insert_old :
      (t : Tree A) (x : ℤ) (w u : A) → bst_find t x ≡ some u → size (bst_insert t x w) ≡ size t
  unfolding size bst_insert bst_find
  size-insert_old leaf x w u h = cc
  size-insert_old (node l k v r) x w u h =
      ground (arith, size-insert_old l x w u, size-insert_old r x w u)

  size-delete_here :
      (l r : Tree A) (k x : ℤ) (v : A) (m : Option (ℤ × A))
      → bst_find_min r ≡ m
      → IsOrdered r
      → ((y : ℤ) (u : A) → bst_find r y ≡ some u → size (bst_delete r y) + 1 ≡ size r)
      → size (delete_here l r m (bst_delete r (key_or m x))) + 1 ≡ size (node l k v r)
  unfolding size delete_here key_or
  size-delete_here leaf r k x v m e s ih = omega arith
  size-delete_here (node ll lk lv lr) leaf k x v m e s ih = omega arith
  size-delete_here (node ll lk lv lr) (node rl rk rv rr) k x v none e s ih =
      let (m, found) = bst_find_min-some (node rl rk rv rr) (unfold is_leaf in refl) in cc
  size-delete_here (node ll lk lv lr) (node rl rk rv rr) k x v (some (mk, mv)) e s ih =
      omega (arith, ih mk mv (find-find_min (node rl rk rv rr) mk mv s e))

  -- Deleting a key that is in a search tree frees exactly one node.
  pub size-delete :
      (t : Tree A) (x : ℤ) (w : A)
      → IsOrdered t
      → bst_find t x ≡ some w
      → size (bst_delete t x) + 1 ≡ size t
  unfolding size bst_delete bst_find
  size-delete leaf x w s h = cc
  size-delete (node l k v r) x w s h =
      let here =
        size-delete_here l r k x v (bst_find_min r) refl s.3 (λ y u. size-delete r y u s.3) in
      ground (arith, size-delete l x w s.2, size-delete r x w s.3, here)

  -- Deleting a key that is not there changes nothing.
  pub delete_absent : (t : Tree A) (x : ℤ) → bst_find t x ≡ none → bst_delete t x ≡ t
  unfolding bst_delete bst_find
  delete_absent leaf x h = refl
  delete_absent (node l k v r) x h = ground (arith, delete_absent l x, delete_absent r x)

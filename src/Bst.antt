-- ===== src/Bst.antt =====
-- lib/bst.c: the binary search tree in which the scheduler keeps its tasks and its poll list.
-- A node is `bst_node_t`, NULL is `leaf`; `key` is a C int and `data` a pointer of any type.
-- A function that returns the new root returns the new tree.
pub mod Order
pub mod Lookup
pub mod Entries
pub mod Size
use ant_http.Prelude.{
  ℕ, ℤ, ltb_ℤ, if◌then◌else◌, Option, none, some, List, [], ◌∷◌, ◌++◌, Bool, true, false, not, ◌&&◌,
}

pub data Tree {ℓ} (A : Type ℓ) : Type ℓ where
  leaf : Tree A
  node : Tree A → ℤ → A → Tree A → Tree A

module _ {ℓ} {A : Type ℓ} where
  unfoldable pub bst_insert : Tree A → ℤ → A → Tree A
  bst_insert leaf key value = node leaf key value leaf
  bst_insert (node l k v r) key value =
      let left = bst_insert l key value in
      let right = bst_insert r key value in
      if ltb_ℤ key k
      then node left k v r
      else if ltb_ℤ k key
      then node l k v right
      else node l k value r

  -- The node that `bst_find_min` points to, as its key and data.
  unfoldable pub bst_find_min : Tree A → Option (ℤ × A)
  bst_find_min leaf = none
  bst_find_min (node leaf k v r) = some (k, v)
  bst_find_min (node (node ll lk lv lr) k v r) = bst_find_min (node ll lk lv lr)

  unfoldable pub bst_find_max : Tree A → Option (ℤ × A)
  bst_find_max leaf = none
  bst_find_max (node l k v leaf) = some (k, v)
  bst_find_max (node l k v (node rl rk rv rr)) = bst_find_max (node rl rk rv rr)

  unfoldable pub bst_find : Tree A → ℤ → Option A
  bst_find leaf x = none
  bst_find (node l k v r) x =
      let left = bst_find l x in
      let right = bst_find r x in if ltb_ℤ x k then left else if ltb_ℤ k x then right else some v

  -- The third branch: `temp` is the least node of the right subtree, and `rest` is the right
  -- subtree after `bst_delete(root->right, temp->key)`.
  unfoldable pub replace_root : Tree A → Option (ℤ × A) → Tree A → Tree A
  replace_root l none rest = rest
  replace_root l (some (k, v)) rest = node l k v rest

  -- The last branch: at most one subtree is there.
  unfoldable pub splice : Tree A → Tree A → Tree A
  splice leaf r = r
  splice (node ll lk lv lr) r = node ll lk lv lr

  unfoldable pub key_or : Option (ℤ × A) → ℤ → ℤ
  key_or none x = x
  key_or (some (k, v)) x = k

  unfoldable pub is_leaf : Tree A → Bool
  is_leaf leaf = true
  is_leaf (node l k v r) = false

  unfoldable pub delete_here : Tree A → Tree A → Option (ℤ × A) → Tree A → Tree A
  unfolding replace_root splice is_leaf
  delete_here l r temp rest =
      if not (is_leaf l) && not (is_leaf r) then replace_root l temp rest else splice l r

  unfoldable pub bst_delete : Tree A → ℤ → Tree A
  unfolding delete_here key_or
  bst_delete leaf x = leaf
  bst_delete (node l k v r) x =
      let left = bst_delete l x in
      let right = bst_delete r x in
      let temp = bst_find_min r in
      let rest = bst_delete r (key_or temp x) in
      if ltb_ℤ x k
      then node left k v r
      else if ltb_ℤ k x
      then node l k v right
      else delete_here l r temp rest

  -- `callback` runs on each node, its state is what the `args` point to.
  unfoldable pub bst_for_each {κ} : {S : Type κ} → Tree A → (ℤ → A → S → S) → S → S
  bst_for_each leaf callback s = s
  bst_for_each (node l k v r) callback s =
      bst_for_each r callback (callback k v (bst_for_each l callback s))

  -- The data that `cb` is called on, in order; `has_data` tells which data are not NULL. The
  -- recursive calls are `bst_free`, a macro for `bst_free_cb` with no callback.
  unfoldable pub bst_free_cb : (A → Bool) → Tree A → Bool → List A
  bst_free_cb has_data leaf cb = []
  bst_free_cb has_data (node l k v r) cb =
      bst_free_cb has_data l false
      ++ bst_free_cb has_data r false
      ++ (if cb && has_data v then v ∷ [] else [])

-- ===== src/Bst/Order.antt =====
-- The order of a search tree: keys to the left are smaller, keys to the right are greater.
use ant_http.Prelude.{ℤ, ◌<ℤ◌, Option, none, some, arith, ◌≡◌, refl, false}
use ant_http.Bst.{
  Tree, leaf, node, bst_insert, bst_delete, bst_find_min, key_or, replace_root, delete_here,
  is_leaf,
}

module _ {ℓ} {A : Type ℓ} where
  abbrev pub AllKeys {κ} : (ℤ → Type κ) → Tree A → Type κ
  AllKeys P leaf = Unit
  AllKeys P (node l k v r) = AllKeys P l × P k × AllKeys P r

  abbrev pub IsOrdered : Tree A → Type 0
  IsOrdered leaf = Unit
  IsOrdered (node l k v r) =
      AllKeys (λ x. x <ℤ k) l × AllKeys (λ x. k <ℤ x) r × IsOrdered l × IsOrdered r

  pub AllKeys-imp {κ μ} :
      {P : ℤ → Type κ} {Q : ℤ → Type μ}
      → ((k : ℤ) → P k → Q k)
      → (t : Tree A) → AllKeys P t
      → AllKeys Q t
  AllKeys-imp f leaf a = tt
  AllKeys-imp f (node l k v r) (pl, pk, pr) = (AllKeys-imp f l pl, f k pk, AllKeys-imp f r pr)

  pub AllKeys-insert {κ} :
      (P : ℤ → Type κ) (t : Tree A) (x : ℤ) (w : A)
      → P x
      → AllKeys P t
      → AllKeys P (bst_insert t x w)
  unfolding bst_insert
  AllKeys-insert P leaf x w p a = (tt, p, tt)
  AllKeys-insert P (node l k v r) x w p a =
      ground (arith, AllKeys-insert P l x w, AllKeys-insert P r x w)

  -- Inserting keeps a search tree ordered.
  pub bst_insert-IsOrdered :
      (t : Tree A) (x : ℤ) (w : A) → IsOrdered t → IsOrdered (bst_insert t x w)
  unfolding bst_insert
  bst_insert-IsOrdered leaf x w s = (tt, tt, tt, tt)
  bst_insert-IsOrdered (node l k v r) x w s = ground (
    arith,
    bst_insert-IsOrdered l x w,
    bst_insert-IsOrdered r x w,
    AllKeys-insert (λ y. y <ℤ k) l x w,
    AllKeys-insert (λ y. k <ℤ y) r x w,
  )

  -- The least entry that `bst_find_min` finds stands at a key of the tree.
  abbrev pub AtKey {κ} : (ℤ → Type κ) → Option (ℤ × A) → Type κ
  AtKey P none = Unit
  AtKey P (some (k, v)) = P k

  pub bst_find_min-AtKey {κ} :
      (P : ℤ → Type κ) (t : Tree A) → AllKeys P t → AtKey P (bst_find_min t)
  unfolding bst_find_min
  bst_find_min-AtKey P leaf a = tt
  bst_find_min-AtKey P (node leaf k v r) a = a.1
  bst_find_min-AtKey P (node (node ll lk lv lr) k v r) a =
      bst_find_min-AtKey P (node ll lk lv lr) a.0

  pub AllKeys-delete_here {κ} :
      (P : ℤ → Type κ) (l r : Tree A) (m : Option (ℤ × A)) (rest : Tree A)
      → AllKeys P l
      → AllKeys P r
      → AtKey P m
      → AllKeys P rest
      → AllKeys P (delete_here l r m rest)
  unfolding delete_here
  AllKeys-delete_here P leaf r m rest a b c d = b
  AllKeys-delete_here P (node ll lk lv lr) leaf m rest a b c d = a
  AllKeys-delete_here P (node ll lk lv lr) (node rl rk rv rr) none rest a b c d = d
  AllKeys-delete_here P (node ll lk lv lr) (node rl rk rv rr) (some (k, v)) rest a b c d = (a, c, d)

  pub AllKeys-delete {κ} :
      (P : ℤ → Type κ) (t : Tree A) (x : ℤ) → AllKeys P t → AllKeys P (bst_delete t x)
  unfolding bst_delete
  AllKeys-delete P leaf x a = tt
  AllKeys-delete P (node l k v r) x a =
      let m = bst_find_min r in
      let rest = bst_delete r (key_or m x) in
      ground (
        arith,
        AllKeys-delete P l x,
        AllKeys-delete P r x,
        AllKeys-delete_here P l r m rest a.0 a.2 (bst_find_min-AtKey P r a.2)
            (AllKeys-delete P r (key_or m x) a.2),
      )

  -- `root->left && root->right` finds a least node on the right.
  pub bst_find_min-some : (t : Tree A) → is_leaf t ≡ false → (m : ℤ × A) × (bst_find_min t ≡ some m)
  unfolding bst_find_min is_leaf
  bst_find_min-some leaf h = cc
  bst_find_min-some (node leaf k v r) h = ((k, v), refl)
  bst_find_min-some (node (node ll lk lv lr) k v r) h = bst_find_min-some (node ll lk lv lr) refl

  -- Without its least key a search tree lies above that key.
  pub bst_delete_min-above :
      (t : Tree A) (mk : ℤ) (mv : A)
      → bst_find_min t ≡ some (mk, mv)
      → IsOrdered t
      → AllKeys (λ y. mk <ℤ y) (bst_delete t mk)
  unfolding bst_find_min bst_delete
  bst_delete_min-above leaf mk mv e s = tt
  bst_delete_min-above (node leaf k v r) mk mv e s = ground arith
  bst_delete_min-above (node (node ll lk lv lr) k v r) mk mv e s =
      let low : mk <ℤ k = rw e at (bst_find_min-AtKey (λ y. y <ℤ k) (node ll lk lv lr) s.0) in
      let right = AllKeys-imp {Q = λ y. mk <ℤ y} (λ y h. omega arith) r s.1 in
      ground (arith, bst_delete_min-above (node ll lk lv lr) mk mv e s.2)

  delete_here-IsOrdered :
      (l r : Tree A) (k x : ℤ) (v : A)
      → IsOrdered (node l k v r)
      → ((y : ℤ) → IsOrdered (bst_delete r y))
      → IsOrdered (delete_here l r (bst_find_min r) (bst_delete r (key_or (bst_find_min r) x)))
  unfolding delete_here key_or bst_find_min-some
  delete_here-IsOrdered leaf r k x v s ih = s.3
  delete_here-IsOrdered (node ll lk lv lr) leaf k x v s ih = s.2
  delete_here-IsOrdered (node ll lk lv lr) (node rl rk rv rr) k x v s ih =
      let t = node rl rk rv rr in
      let ((mk, mv), e) = bst_find_min-some t (unfold is_leaf in refl) in
      let high : k <ℤ mk = rw e at (bst_find_min-AtKey (λ y. k <ℤ y) t s.1) in
      rw (e, replace_root, key_or)
        (
          AllKeys-imp (λ y h. omega arith) (node ll lk lv lr) s.0,
          bst_delete_min-above t mk mv e s.3,
          s.2,
          ih mk,
        )

  -- Deleting keeps a search tree ordered.
  pub bst_delete-IsOrdered : (t : Tree A) (x : ℤ) → IsOrdered t → IsOrdered (bst_delete t x)
  unfolding bst_delete
  bst_delete-IsOrdered leaf x s = tt
  bst_delete-IsOrdered (node l k v r) x s = ground (
    arith,
    bst_delete-IsOrdered l x,
    bst_delete-IsOrdered r x,
    AllKeys-delete (λ y. y <ℤ k) l x,
    AllKeys-delete (λ y. k <ℤ y) r x,
    delete_here-IsOrdered l r k x v s (λ y. bst_delete-IsOrdered r y s.3),
  )

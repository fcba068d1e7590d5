-- ===== src/Bst/Lookup.antt =====
-- What `bst_find` reads after `bst_insert` and `bst_delete`.
use ant_http.Prelude.{
  ℤ, ◌<ℤ◌, ltb_ℤ, eq_of_not_lt, ne_of_lt, ne_of_gt, Option, none, some, arith, ◌≡◌, ◌≢◌, refl,
  Bool-cases, false, inl, inr,
}
use ant_http.Bst.{
  Tree, leaf, node, bst_insert, bst_delete, bst_find, bst_find_min, key_or, delete_here, is_leaf,
}
use ant_http.Bst.Order.{
  AllKeys, IsOrdered, AllKeys-imp, bst_find_min-AtKey, bst_find_min-some, AllKeys-delete_here,
  AllKeys-delete, bst_delete_min-above,
}

module _ {A : Type 0} where
  -- The key that was inserted reads back its data, in any tree.
  pub find-insert_self : (t : Tree A) (x : ℤ) (w : A) → bst_find (bst_insert t x w) x ≡ some w
  unfolding bst_find bst_insert
  find-insert_self leaf x w = ground arith
  find-insert_self (node l k v r) x w =
      ground (arith, find-insert_self l x w, find-insert_self r x w)

  -- After `bst_insert`, every other key reads as before.
  pub find-insert_ne :
      (t : Tree A) (x y : ℤ) (w : A) → y ≢ x → bst_find (bst_insert t x w) y ≡ bst_find t y
  unfolding bst_find bst_insert
  find-insert_ne leaf x y w n = ground (arith, eq_of_not_lt y x)
  find-insert_ne (node l k v r) x y w n =
      ground
        (arith, find-insert_ne l x y w, find-insert_ne r x y w, eq_of_not_lt x k, eq_of_not_lt y k)

  -- The second of two insertions under one key wins.
  pub insert-insert :
      (t : Tree A) (x : ℤ) (v w : A) → bst_insert (bst_insert t x v) x w ≡ bst_insert t x w
  unfolding bst_insert
  insert-insert leaf x v w = ground arith
  insert-insert (node l k u r) x v w = ground (arith, insert-insert l x v w, insert-insert r x v w)

  pub find_absent : (t : Tree A) (p : ℤ) → AllKeys (λ k. k ≢ p) t → bst_find t p ≡ none
  unfolding bst_find
  find_absent leaf p a = refl
  find_absent (node l k v r) p a =
      ground (arith, find_absent l p, find_absent r p, eq_of_not_lt k p)

  find_below : (t : Tree A) (b p : ℤ) → AllKeys (λ k. k <ℤ b) t → b <ℤ p → bst_find t p ≡ none
  find_below t b p a h =
      find_absent t p (AllKeys-imp {Q = λ k. k ≢ p} (λ k q. ne_of_lt k p (omega arith)) t a)

  find_above : (t : Tree A) (b p : ℤ) → AllKeys (λ k. b <ℤ k) t → p <ℤ b → bst_find t p ≡ none
  find_above t b p a h =
      find_absent t p (AllKeys-imp {Q = λ k. k ≢ p} (λ k q. ne_of_gt k p (omega arith)) t a)

  pub find_from :
      (t : Tree A) (b p : ℤ) → AllKeys (λ k. b <ℤ k) t → ltb_ℤ b p ≡ false → bst_find t p ≡ none
  find_from t b p a h =
      find_absent t p (AllKeys-imp {Q = λ k. k ≢ p} (λ k q. ne_of_gt k p (ground arith)) t a)

  pub find_upto :
      (t : Tree A) (b p : ℤ) → AllKeys (λ k. k <ℤ b) t → ltb_ℤ p b ≡ false → bst_find t p ≡ none
  find_upto t b p a h =
      find_absent t p (AllKeys-imp {Q = λ k. k ≢ p} (λ k q. ne_of_lt k p (ground arith)) t a)

  -- The least entry of a search tree is one that `bst_find` finds.
  pub find-find_min :
      (t : Tree A) (mk : ℤ) (mv : A)
      → IsOrdered t
      → bst_find_min t ≡ some (mk, mv)
      → bst_find t mk ≡ some mv
  unfolding bst_find bst_find_min
  find-find_min leaf mk mv s e = cc
  find-find_min (node leaf k v r) mk mv s e = ground arith
  find-find_min (node (node ll lk lv lr) k v r) mk mv s e =
      let low : mk <ℤ k = rw e at (bst_find_min-AtKey (λ y. y <ℤ k) (node ll lk lv lr) s.0) in
      ground (arith, find-find_min (node ll lk lv lr) mk mv s.2 e)

  -- Removing the root of a search tree leaves no entry at its key.
  find-delete_here_self :
      (l r : Tree A) (k : ℤ) (v : A)
      → IsOrdered (node l k v r)
      → bst_find (delete_here l r (bst_find_min r) (bst_delete r (key_or (bst_find_min r) k))) k
        ≡ none
  find-delete_here_self l r k v s =
      let m = bst_find_min r in
      let y = key_or m k in
      let left = AllKeys-imp {Q = λ y. y ≢ k} (λ y h. ne_of_lt y k h) l s.0 in
      let right = AllKeys-imp {Q = λ y. y ≢ k} (λ y h. ne_of_gt y k h) r s.1 in
      find_absent _ k (
        AllKeys-delete_here (λ y. y ≢ k) l r m (bst_delete r y) left right
          (bst_find_min-AtKey (λ y. y ≢ k) r right) (AllKeys-delete (λ y. y ≢ k) r y right))

  -- A deleted key is gone from a search tree.
  pub find-delete_self : (t : Tree A) (x : ℤ) → IsOrdered t → bst_find (bst_delete t x) x ≡ none
  unfolding bst_find bst_delete
  find-delete_self leaf x s = refl
  find-delete_self (node l k v r) x s = ground (
    arith,
    find-delete_self l x,
    find-delete_self r x,
    find-delete_here_self l r k v s,
    eq_of_not_lt x k,
  )

  -- The root entry goes, and the least entry of the right subtree takes its place.
  find-replaced :
      (l r rest : Tree A) (k mk p : ℤ) (v mv : A)
      → IsOrdered (node l k v r)
      → p ≢ k
      → k <ℤ mk
      → bst_find r mk ≡ some mv
      → AllKeys (λ y. mk <ℤ y) rest
      → (p ≢ mk → bst_find rest p ≡ bst_find r p)
      → bst_find (node l mk mv rest) p ≡ bst_find (node l k v r) p
  unfolding bst_find
  find-replaced l r rest k mk p v mv s n high found above ih = ground (
    arith,
    eq_of_not_lt p k,
    eq_of_not_lt p mk,
    ne_of_lt p mk,
    ne_of_gt p mk,
    find_below l k p s.0,
    find_above rest mk p above,
  )

  find-delete_here_ne :
      (l r : Tree A) (k p x : ℤ) (v : A) (m : Option (ℤ × A))
      → bst_find_min r ≡ m
      → IsOrdered (node l k v r)
      → p ≢ k
      → ((y : ℤ) → p ≢ y → bst_find (bst_delete r y) p ≡ bst_find r p)
      → bst_find (delete_here l r m (bst_delete r (key_or m x))) p ≡ bst_find (node l k v r) p
  unfolding bst_find delete_here key_or
  find-delete_here_ne leaf r k p x v m e s n ih =
      ground (arith, eq_of_not_lt p k, find_above r k p s.1)
  find-delete_here_ne (node ll lk lv lr) leaf k p x v m e s n ih =
      ground (arith, eq_of_not_lt p k, find_below (node ll lk lv lr) k p s.0)
  find-delete_here_ne (node ll lk lv lr) (node rl rk rv rr) k p x v none e s n ih =
      let (m, found) = bst_find_min-some (node rl rk rv rr) (unfold is_leaf in refl) in cc
  find-delete_here_ne (node ll lk lv lr) (node rl rk rv rr) k p x v (some (mk, mv)) e s n ih =
      let l = node ll lk lv lr in
      let r = node rl rk rv rr in
      let high : k <ℤ mk = rw e at (bst_find_min-AtKey (λ y. k <ℤ y) r s.1) in
      find-replaced l r (bst_delete r mk) k mk p v mv s n high (find-find_min r mk mv s.3 e)
        (bst_delete_min-above r mk mv e s.3) (ih mk)

  -- In a search tree, every other key reads as before after `bst_delete`.
  pub find-delete_ne :
      (t : Tree A) (x p : ℤ) → IsOrdered t → p ≢ x → bst_find (bst_delete t x) p ≡ bst_find t p
  unfolding bst_find bst_delete
  find-delete_ne leaf x p s n = refl
  find-delete_ne (node l k v r) x p s n =
      let ih = λ (y : ℤ). find-delete_ne r y p s.3 in
      elim (Bool-cases (ltb_ℤ x k)) [
        | inl below ↦ rw below (ground (arith, find-delete_ne l x p))
        | inr above ↦ elim (Bool-cases (ltb_ℤ k x)) [
          | inl over ↦ rw (above, over) (ground (arith, find-delete_ne r x p))
          | inr same ↦
              rw (above, same)
                (find-delete_here_ne l r k p x v (bst_find_min r) refl s
                  (rw (eq_of_not_lt x k above same) at n) ih)
        ]
      ]

-- ===== src/Bst/Entries.antt =====
-- `bst_for_each`, `bst_free_cb`, and the least and the greatest entry, through the list of entries.
use ant_http.Prelude.{
  Bool, if◌then◌else◌, ℕ, ◌+◌, ℤ, ◌<ℤ◌, true, false, List, [], ◌∷◌, ◌++◌, length, length-append,
  All, All-append, All-imp, ◌≡◌, ◌∙◌, refl, sym, ap, arith,
}
use ant_http.Bst.{Tree, leaf, node, bst_for_each, bst_free_cb}
use ant_http.Bst.Order.{AllKeys, IsOrdered}

module _ {ℓ} {A : Type ℓ} where
  -- The entries from left to right.
  unfoldable pub entries : Tree A → List (ℤ × A)
  entries leaf = []
  entries (node l k v r) = entries l ++ ((k, v) ∷ entries r)

  unfoldable pub fold {κ} : {S : Type κ} → List (ℤ × A) → (ℤ → A → S → S) → S → S
  fold [] f s = s
  fold ((k, v) ∷ es) f s = fold es f (f k v s)

  fold-append {κ} :
      {S : Type κ} (xs ys : List (ℤ × A)) (f : ℤ → A → S → S) (s : S)
      → fold (xs ++ ys) f s ≡ fold ys f (fold xs f s)
  unfolding fold
  fold-append [] ys f s = refl
  fold-append ((k, v) ∷ xs) ys f s = fold-append xs ys f (f k v s)

  -- The callback runs once on each entry, from left to right.
  pub for_each-fold {κ} :
      {S : Type κ} (t : Tree A) (f : ℤ → A → S → S) (s : S)
      → bst_for_each t f s ≡ fold (entries t) f s
  unfolding bst_for_each entries fold
  for_each-fold leaf f s = refl
  for_each-fold (node l k v r) f s =
      for_each-fold r f (f k v (bst_for_each l f s))
      ∙ ap (λ u. fold (entries r) f (f k v u)) (for_each-fold l f s)
      ∙ sym (fold-append (entries l) ((k, v) ∷ entries r) f s)

  -- The freed data when `bst_free_cb` is called with no callback.
  free_cb-none : (has_data : A → Bool) (t : Tree A) → bst_free_cb has_data t false ≡ []
  unfolding bst_free_cb
  free_cb-none has_data leaf = refl
  free_cb-none has_data (node l k v r) = rw (free_cb-none has_data l, free_cb-none has_data r)

  -- With a callback, `bst_free_cb` runs it on the data of the root, where it has some, and on nothing
  -- else.
  pub free_cb-root :
      (has_data : A → Bool) (l : Tree A) (k : ℤ) (v : A) (r : Tree A)
      → bst_free_cb has_data (node l k v r) true ≡ (if has_data v then v ∷ [] else [])
  unfolding bst_free_cb
  free_cb-root has_data l k v r = rw (free_cb-none has_data l, free_cb-none has_data r)

  unfoldable pub size : Tree A → ℕ
  size leaf = 0
  size (node l k v r) = size l + size r + 1

  pub length-entries : (t : Tree A) → length (entries t) ≡ size t
  unfolding entries size
  length-entries leaf = refl
  length-entries (node l k v r) =
      rw length-append (omega (arith, length-entries l, length-entries r))

  pub All-entries {κ} : (P : ℤ → Type κ) (t : Tree A) → AllKeys P t → All (λ e. P e.0) (entries t)
  unfolding entries
  All-entries P leaf a = tt
  All-entries P (node l k v r) (al, ak, ar) =
      All-append (λ e. P e.0) (entries l) ((k, v) ∷ entries r) (All-entries P l al)
        (ak, All-entries P r ar)

  -- Strictly ascending keys.
  abbrev pub IsAscending : List (ℤ × A) → Type 0
  IsAscending [] = Unit
  IsAscending ((k, v) ∷ es) = All (λ e. k <ℤ e.0) es × IsAscending es

  append-IsAscending :
      (xs : List (ℤ × A)) (k : ℤ) (v : A) (ys : List (ℤ × A))
      → IsAscending xs
      → All (λ e. e.0 <ℤ k) xs
      → All (λ e. k <ℤ e.0) ys
      → IsAscending ys
      → IsAscending (xs ++ (k, v) ∷ ys)
  append-IsAscending [] k v ys a b c d = (c, d)
  append-IsAscending ((j, w) ∷ xs) k v ys (a, rest) (b, bs) c d = (
    All-append (λ e. j <ℤ e.0) xs ((k, v) ∷ ys) a
        (b, All-imp {P = λ e. k <ℤ e.0} (λ e h. omega arith) ys c),
    append-IsAscending xs k v ys rest bs c d,
  )

  -- `bst_for_each` meets the keys of a search tree in ascending order.
  pub entries-IsAscending : (t : Tree A) → IsOrdered t → IsAscending (entries t)
  unfolding entries
  entries-IsAscending leaf s = tt
  entries-IsAscending (node l k v r) (below, above, sl, sr) =
      append-IsAscending (entries l) k v (entries r) (entries-IsAscending l sl)
        (All-entries (λ y. y <ℤ k) l below) (All-entries (λ y. k <ℤ y) r above)
        (entries-IsAscending r sr)

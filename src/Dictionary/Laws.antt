-- ===== src/Dictionary/Laws.antt =====
-- The table as a map from keys to values: lookups after `dput` and `dremove`, and the invariant.
use mathlib.Core.List.{flatten}
use ant_http.Dictionary.Nodes.{
  IsDistinct, find_key-append, find_key-assign, unlink_rest, IsDistinct-append, IsDistinct-assign,
  IsDistinct-unlink, length-append_node, length-assign, length-unlink, unlink_found, unlink_absent,
}
use ant_http.Dictionary.{
  Chain, Dictionary, dict_n, find_key, chain_at, with_chain, dlookup, append_node, assign,
  put_el_with_key, dput, unlink, remove_from, dremove,
}
use ant_http.Prelude.{
  ℕ, zero, suc, ◌+◌, ◌-◌, ◌<◌, ◌==◌, Bytes, str_eq, str_eq_iff, str_eq_refl, if◌then◌else◌, Option,
  none, some, List, [], ◌∷◌, length, length-append, get_or, set, replicate, length-set,
  length-replicate, get_or-set_self, get_or-set_ne, ◌≡◌, ◌≢◌, refl, sym, ap, ◌∙◌, arith, false,
  Option-cases, inl, inr,
}
use ant_http.Utils.Hash.{hash, hash-lt}

length-flatten-set {ℓ} :
    {A : Type ℓ} (cs : List (List A)) (i : ℕ) (c : List A)
    → i < length cs
    → length (flatten (set cs i c)) + length (get_or cs i []) ≡ length (flatten cs) + length c
unfolding flatten
length-flatten-set [] i c h = absurd (omega arith)
length-flatten-set (x ∷ cs) zero c h =
    omega (arith, length-append c (flatten cs), length-append x (flatten cs))
length-flatten-set (x ∷ cs) (suc i) c h =
    simp length-append (omega (arith, length-flatten-set cs i c (omega arith)))

pub get_or-replicate {ℓ} : {A : Type ℓ} (n i : ℕ) → get_or {A = List A} (replicate n []) i [] ≡ []
get_or-replicate zero i = refl
get_or-replicate (suc n) zero = refl
get_or-replicate (suc n) (suc i) = get_or-replicate n i

flatten-replicate {ℓ} : {A : Type ℓ} (n : ℕ) → flatten {A = A} (replicate n []) ≡ []
unfolding flatten
flatten-replicate zero = refl
flatten-replicate (suc n) = flatten-replicate n

module _ {V : Type 0} where
  -- The node that a lookup found.
  abbrev pub node_of : Bytes → Option (Option V) → Option (Bytes × Option V)
  node_of k none = none
  node_of k (some w) = some (k, w)

  pub record IsValid (d : Dictionary V) : Type 0 where
    pub width : length d.map ≡ d.cap
    pub positive : 0 < d.cap
    pub distinct : (i : ℕ) → IsDistinct (get_or d.map i [])
    pub placed : (j : Bytes) (i : ℕ) → hash j d.cap ≢ i → find_key j (get_or d.map i []) ≡ none
    pub counted : d.size ≡ length (flatten d.map)

  get_or-set_cases :
      (cs : List (Chain V)) (i j : ℕ) (c : Chain V)
      → i < length cs
      → get_or (set cs i c) j [] ≡ (if i == j then c else get_or cs j [])
  get_or-set_cases cs i j c h =
      ground (arith, get_or-set_self cs i c [] h, get_or-set_ne cs i j c [])

  hash-bound : (d : Dictionary V) (k : Bytes) → IsValid d → hash k d.cap < length d.map
  hash-bound d k v = rw v.width (hash-lt k d.cap v.positive)

  -- One chain of a valid table is replaced by one that differs only in whether and how it holds `k`.
  with_chain-IsValid :
      (d : Dictionary V) (k : Bytes) (c : Chain V) (n : ℕ)
      → IsValid d
      → IsDistinct c
      → ((j : Bytes) → str_eq j k ≡ false → find_key j c ≡ find_key j (chain_at d k))
      → n + length (chain_at d k) ≡ d.size + length c
      → IsValid (record (with_chain d k c) { size = n })
  with_chain-IsValid d k c n v dc same size =
      let b = hash-bound d k v in
      record {
        width = length-set d.map _ c ∙ v.width;
        positive = v.positive;
        distinct = λ i. rw (get_or-set_cases d.map _ i c b) (ground (arith, v.distinct i));
        placed = λ j i ne.
            rw (get_or-set_cases d.map _ i c b)
              (ground (arith, v.placed j i ne, same j, str_eq_iff j k));
        counted = omega (arith, v.counted, length-flatten-set d.map _ c b);
      }

  dlookup-with_chain :
      (d : Dictionary V) (k j : Bytes) (c : Chain V) (n : ℕ) (w : Option (Option V))
      → IsValid d
      → find_key j c ≡ (if str_eq j k then w else find_key j (chain_at d k))
      → dlookup (record (with_chain d k c) { size = n }) j ≡ (if str_eq j k then w else dlookup d j)
  unfolding dlookup
  dlookup-with_chain d k j c n w v e =
      rw (get_or-set_cases d.map _ (hash j d.cap) c (hash-bound d k v))
        (ground (arith, str_eq_iff j k, e))

  find_key-chain_at :
      (d : Dictionary V) (k : Bytes) (o : Option (Option V))
      → dlookup d k ≡ o
      → find_key k (chain_at d k) ≡ o
  unfolding dlookup
  find_key-chain_at d k o h = h

  put_el_found :
      (d : Dictionary V) (k : Bytes) (w : Option V) → dlookup d k ≡ some w → put_el_with_key d k ≡ d
  unfolding put_el_with_key
  put_el_found d k w e = rw (e, put_el_with_key)

  put_el_absent :
      (d : Dictionary V) (k : Bytes)
      → dlookup d k ≡ none
      → put_el_with_key d k
        ≡ record (with_chain d k (append_node k none (chain_at d k))) { size = d.size + 1 }
  unfolding put_el_with_key
  put_el_absent d k e = rw (e, put_el_with_key)

  -- The node of the key is there after `__put_el_with_key`, and the other keys read as before.
  put_el-node :
      (d : Dictionary V) (k : Bytes)
      → IsValid d
      → IsValid (put_el_with_key d k)
        × ((w : Option V) × (dlookup (put_el_with_key d k) k ≡ some w))
        × ((j : Bytes) → str_eq j k ≡ false → dlookup (put_el_with_key d k) j ≡ dlookup d j)
  put_el-node d k v = elim (Option-cases (dlookup d k)) [
    | inr (w, e) ↦ rw (put_el_found d k w e) (v, (w, e), λ j ne. refl)
    | inl e ↦
        let c = chain_at d k in
        let absent = find_key-chain_at d k none e in
        let look = λ (j : Bytes).
          dlookup-with_chain d k j (append_node k none c) (d.size + 1) (some none) v
            (find_key-append j k none c absent) in
        rw (put_el_absent d k e) (
          with_chain-IsValid d k (append_node k none c) (d.size + 1) v
              (IsDistinct-append k none c absent (v.distinct _))
              (λ j ne. find_key-append j k none c absent ∙ (rw ne))
              (omega (arith, length-append_node k none c)),
          (none, look k ∙ (rw (str_eq_refl k))),
          λ j ne. look j ∙ (rw ne),
        )
  ]

  -- In a valid table, `dput` binds the key to the value and changes no other binding.
  pub dlookup-dput :
      (d : Dictionary V) (k j : Bytes) (value : Option V)
      → IsValid d
      → dlookup (dput d k value).0 j ≡ (if str_eq j k then some value else dlookup d j)
  unfolding dput
  dlookup-dput d k j value v =
      let d₁ = put_el_with_key d k in
      let (v₁, (w, found), others) = put_el-node d k v in
      let c = chain_at d₁ k in
      dlookup-with_chain d₁ k j (assign k value c) d₁.size (some value) v₁
        (find_key-assign j k value w c (find_key-chain_at d₁ k (some w) found))
      ∙ ground (arith, others j)

  -- `dput` keeps a valid table valid.
  pub dput-IsValid :
      (d : Dictionary V) (k : Bytes) (value : Option V) → IsValid d → IsValid (dput d k value).0
  unfolding dput
  dput-IsValid d k value v =
      let d₁ = put_el_with_key d k in
      let (v₁, (w, found), others) = put_el-node d k v in
      let c = chain_at d₁ k in
      let there = find_key-chain_at d₁ k (some w) found in
      with_chain-IsValid d₁ k (assign k value c) d₁.size v₁
        (IsDistinct-assign k value w c there (v₁.distinct _))
        (λ j ne. find_key-assign j k value w c there ∙ (rw ne))
        (omega (arith, length-assign k value c))

  -- In a valid table, `dremove` returns the node of the key, with its value, unbinds the key and
  -- changes no other binding; the table stays valid, also where the key is not there.
  pub dremove-removes :
      (d : Dictionary V) (k j : Bytes)
      → IsValid d
      → ((dremove d k).0 ≡ node_of k (dlookup d k))
        × (dlookup (dremove d k).1 j ≡ (if str_eq j k then none else dlookup d j))
        × IsValid (dremove d k).1
  unfolding dremove remove_from
  dremove-removes d k j v =
      let c = chain_at d k in
      elim (Option-cases (dlookup d k)) [
        | inl e ↦
            let gone = unlink_absent k c (find_key-chain_at d k none e) in
            rw (gone, e) (refl, ground (arith, str_eq_iff j k), v)
        | inr (w, e) ↦
            let out = unlink_found k c w (find_key-chain_at d k (some w) e) in
            rw (out, e)
              (
                refl,
                dlookup-with_chain d k j (unlink k c).1 (d.size - 1) none v
                    (unlink_rest j k c (v.distinct _)),
                with_chain-IsValid d k (unlink k c).1 (d.size - 1) v
                    (IsDistinct-unlink k c (v.distinct _))
                    (λ j ne. unlink_rest j k c (v.distinct _) ∙ (rw ne))
                    (omega (
                      arith,
                      v.counted,
                      length-unlink k c (k, w) out,
                      length-flatten-set d.map _ [] (hash-bound d k v),
                    )),
              )
      ]

  -- A new table is valid and empty.
  pub dict_n-IsValid : (n : ℕ) → 0 < n → IsValid (dict_n n)
  unfolding dict_n
  dict_n-IsValid n h = record {
    width = length-replicate n [];
    positive = h;
    distinct = λ i. rw (get_or-replicate n i) tt;
    placed = λ j i ne. rw (get_or-replicate n i) (unfold find_key in refl);
    counted = sym (ap length (flatten-replicate n));
  }

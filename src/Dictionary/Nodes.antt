-- ===== src/Dictionary/Nodes.antt =====
-- One chain of the table.
use ant_http.Dictionary.{Chain, find_key, append_node, assign, unlink}
use ant_http.Prelude.{
  ◌+◌, Bytes, str_eq, str_eq_iff, if◌then◌else◌, Option, none, some, [], ◌∷◌, length, ◌≡◌, refl,
  arith,
}

module _ {V : Type 0} where
  -- No two nodes have one key.
  abbrev pub IsDistinct : Chain V → Type 0
  IsDistinct [] = Unit
  IsDistinct ((k, v) ∷ c) = (find_key k c ≡ none) × IsDistinct c

  pub find_key-append :
      (j k : Bytes) (v : Option V) (c : Chain V)
      → find_key k c ≡ none
      → find_key j (append_node k v c) ≡ (if str_eq j k then some v else find_key j c)
  unfolding find_key append_node
  find_key-append j k v [] h = refl
  find_key-append j k v ((i, w) ∷ c) h =
      ground (arith, find_key-append j k v c, str_eq_iff j k, str_eq_iff k i, str_eq_iff j i)

  pub find_key-assign :
      (j k : Bytes) (v w : Option V) (c : Chain V)
      → find_key k c ≡ some w
      → find_key j (assign k v c) ≡ (if str_eq j k then some v else find_key j c)
  unfolding find_key assign
  find_key-assign j k v w [] h = cc
  find_key-assign j k v w ((i, u) ∷ c) h =
      ground (arith, find_key-assign j k v w c, str_eq_iff j k, str_eq_iff k i, str_eq_iff j i)

  pub unlink_rest :
      (j k : Bytes) (c : Chain V)
      → IsDistinct c
      → find_key j (unlink k c).1 ≡ (if str_eq j k then none else find_key j c)
  unfolding find_key unlink
  unlink_rest j k [] d = ground arith
  unlink_rest j k ((i, u) ∷ c) d =
      ground (arith, unlink_rest j k c, str_eq_iff j k, str_eq_iff k i, str_eq_iff j i)

  pub IsDistinct-append :
      (k : Bytes) (v : Option V) (c : Chain V)
      → find_key k c ≡ none
      → IsDistinct c
      → IsDistinct (append_node k v c)
  unfolding append_node find_key
  IsDistinct-append k v [] h d = (refl, tt)
  IsDistinct-append k v ((i, u) ∷ c) h d =
      ground
        (arith, IsDistinct-append k v c, find_key-append i k v c, str_eq_iff i k, str_eq_iff k i)

  pub IsDistinct-assign :
      (k : Bytes) (v w : Option V) (c : Chain V)
      → find_key k c ≡ some w
      → IsDistinct c
      → IsDistinct (assign k v c)
  unfolding assign find_key
  IsDistinct-assign k v w [] h d = tt
  IsDistinct-assign k v w ((i, u) ∷ c) h d =
      ground (
        arith,
        IsDistinct-assign k v w c,
        find_key-assign i k v w c,
        str_eq_iff i k,
        str_eq_iff k i,
      )

  pub IsDistinct-unlink : (k : Bytes) (c : Chain V) → IsDistinct c → IsDistinct (unlink k c).1
  unfolding unlink find_key
  IsDistinct-unlink k [] d = tt
  IsDistinct-unlink k ((i, u) ∷ c) d = ground (arith, IsDistinct-unlink k c, unlink_rest i k c)

  pub length-append_node :
      (k : Bytes) (v : Option V) (c : Chain V) → length (append_node k v c) ≡ length c + 1
  unfolding append_node
  length-append_node k v [] = refl
  length-append_node k v (e ∷ c) = omega (arith, length-append_node k v c)

  pub length-assign : (k : Bytes) (v : Option V) (c : Chain V) → length (assign k v c) ≡ length c
  unfolding assign
  length-assign k v [] = refl
  length-assign k v ((i, u) ∷ c) = ground (arith, length-assign k v c)

  pub length-unlink :
      (k : Bytes) (c : Chain V) (e : Bytes × Option V)
      → (unlink k c).0 ≡ some e
      → length (unlink k c).1 + 1 ≡ length c
  unfolding unlink
  length-unlink k [] e h = cc
  length-unlink k ((i, u) ∷ c) e h = ground (arith, length-unlink k c e)

  pub unlink_found :
      (k : Bytes) (c : Chain V) (w : Option V)
      → find_key k c ≡ some w
      → (unlink k c).0 ≡ some (k, w)
  unfolding unlink find_key
  unlink_found k [] w h = cc
  unlink_found k ((i, u) ∷ c) w h = ground (arith, unlink_found k c w, str_eq_iff k i)

  pub unlink_absent : (k : Bytes) (c : Chain V) → find_key k c ≡ none → (unlink k c).0 ≡ none
  unfolding unlink find_key
  unlink_absent k [] h = refl
  unlink_absent k ((i, u) ∷ c) h = ground (arith, unlink_absent k c)

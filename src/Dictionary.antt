-- ===== src/Dictionary.antt =====
-- lib/dictionary.c: the chained hash table of strings that holds headers, requests and
-- configuration. A node is its key and its value, a `void*` that may be NULL; a node has a key.
-- Memory does not run out. What a call frees is part of its result.
pub mod Nodes
pub mod Laws
use ant_http.Prelude.{
  ℕ, ◌+◌, ◌-◌, Bytes, str_eq, if◌then◌else◌, Option, none, some, List, [], ◌∷◌, ◌++◌, get_or, set,
  replicate,
}
use ant_http.Utils.Hash.{hash}

abbrev pub Chain : Type 0 → Type 0
Chain V = List (Bytes × Option V)

pub record Dictionary (V : Type 0) : Type 0 where
  pub cap : ℕ
  pub map : List (Chain V)
  pub size : ℕ

abbrev pub default_size : ℕ
default_size = 16

module _ {V : Type 0} where
  unfoldable pub dict_n : ℕ → Dictionary V
  dict_n size = record { cap = size; map = replicate size []; size = 0 }

  unfoldable pub dict : Dictionary V
  unfolding dict_n
  dict = dict_n default_size

  unfoldable pub find_key : Bytes → Chain V → Option (Option V)
  find_key key [] = none
  find_key key ((k, v) ∷ c) = if str_eq key k then some v else find_key key c

  abbrev pub chain_at : Dictionary V → Bytes → Chain V
  chain_at d key = get_or d.map (hash key d.cap) []

  -- The value of the node that is found.
  unfoldable pub dlookup : Dictionary V → Bytes → Option (Option V)
  unfolding find_key
  dlookup d key = find_key key (chain_at d key)

  unfoldable pub append_node : Bytes → Option V → Chain V → Chain V
  append_node key value [] = (key, value) ∷ []
  append_node key value (e ∷ c) = e ∷ append_node key value c

  unfoldable pub assign : Bytes → Option V → Chain V → Chain V
  assign key value [] = []
  assign key value ((k, v) ∷ c) =
      if str_eq key k then (k, value) ∷ c else (k, v) ∷ assign key value c

  abbrev pub with_chain : Dictionary V → Bytes → Chain V → Dictionary V
  with_chain d key c = record d { map = set d.map (hash key d.cap) c }

  -- Adds a node with a NULL value at the end of its chain, if there is none with the key.
  unfoldable pub put_el_with_key : Dictionary V → Bytes → Dictionary V
  unfolding append_node
  put_el_with_key d key = elim (dlookup d key) [
    | some v ↦ d
    | none ↦ record (with_chain d key (append_node key none (chain_at d key))) { size = d.size + 1 }
  ]

  -- `if (np->value && value) free(np->value)`
  unfoldable pub freed_value : Option (Option V) → Option V → List V
  freed_value (some (some old)) (some value) = old ∷ []
  freed_value (some (some old)) none = []
  freed_value (some none) value = []
  freed_value none value = []

  -- The table and the values that were freed.
  unfoldable pub dput : Dictionary V → Bytes → Option V → Dictionary V × List V
  unfolding put_el_with_key freed_value assign
  dput d key value =
      let d₁ = put_el_with_key d key in
      (with_chain d₁ key (assign key value (chain_at d₁ key)), freed_value (dlookup d₁ key) value)

  -- The node that leaves the chain, and the rest.
  unfoldable pub unlink : Bytes → Chain V → Option (Bytes × Option V) × Chain V
  unlink key [] = (none, [])
  unlink key ((k, v) ∷ c) =
      let (found, rest) = unlink key c in
      if str_eq key k then (some (k, v), c) else (found, (k, v) ∷ rest)

  unfoldable pub remove_from :
      Dictionary V
      → Bytes
      → Option (Bytes × Option V)
      → Chain V
      → Option (Bytes × Option V) × Dictionary V
  remove_from d key none rest = (none, d)
  remove_from d key (some e) rest = (some e, record (with_chain d key rest) { size = d.size - 1 })

  -- The node that is returned to the caller, and the table.
  unfoldable pub dremove : Dictionary V → Bytes → Option (Bytes × Option V) × Dictionary V
  unfolding unlink remove_from
  dremove d key = let r = unlink key (chain_at d key) in remove_from d key r.0 r.1

  unfoldable pub value_of : Option (Option V) → Option V
  value_of none = none
  value_of (some v) = v

  unfoldable pub dvalue : Dictionary V → Bytes → Option V
  unfolding dlookup value_of
  dvalue d key = value_of (dlookup d key)

  -- What `free_association` frees beside the node and its key.
  unfoldable pub free_association : Chain V → List V
  free_association [] = []
  free_association ((k, none) ∷ c) = free_association c
  free_association ((k, some v) ∷ c) = v ∷ free_association c

  unfoldable pub free_chains : List (Chain V) → List V
  unfolding free_association
  free_chains [] = []
  free_chains (c ∷ cs) = free_association c ++ free_chains cs

  unfoldable pub freedict : Dictionary V → List V
  unfolding free_chains
  freedict d = free_chains d.map

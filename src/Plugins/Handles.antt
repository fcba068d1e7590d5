-- ===== src/Plugins/Handles.antt =====
-- plugin_manager.c: which libraries are opened by loads, and which are closed when all are unloaded.
use ant_http.Dictionary.{Chain, dict}
use ant_http.Dictionary.Laws.{dict_n-IsValid}
use mathlib.Core.List.{flatten}
use ant_http.Plugins.{
  Context, PluginEntry, PluginTable, PluginConfig, Libraries, PluginCall, opened, created, dropped,
  closed, hash_size, find_entry, plugin_lookup, antd_plugin_ctx_lookup, if_ready, file_name,
  replace_entry, chain_of, load_known, load_opened, load_file, antd_plugin_load,
}
use ant_http.Plugins.Unload.{
  drop_contexts, antd_plugin_entry_drop, unload_chain, unload_chains, antd_unload_all_plugin,
}
use ant_http.Plugins.Again.{IsTable, Named, context_for-IsKept, find_entry-Named, opens, some_entry}
use ant_http.Plugins.Count.{count, antd_plugin_load-Adds}
use ant_http.Plugins.Load.{All-get_or, in_table}
use ant_http.Prelude.{
  ℕ, zero, suc, ◌+◌, ◌<◌, ◌==◌, str_eq, if◌then◌else◌, Bytes, Option, none, some, List, [], ◌∷◌,
  ◌++◌, get_or, set, length, if-both, Bool-cases, inl, inr, ◌≡◌, refl, sym, ap, ◌∙◌, subst, arith,
}
use ant_http.Utils.Hash.{hash}

-- 1 for the library that is counted.
abbrev one_if : ℕ → ℕ → ℕ
one_if n m = if n == m then 1 else 0

-- How often the library `n` is opened, and closed.
abbrev pub opens_of : ℕ → List PluginCall → ℕ
opens_of n [] = 0
opens_of n (opened m ∷ calls) = one_if n m + opens_of n calls
opens_of n (created m s ∷ calls) = opens_of n calls
opens_of n (dropped m s ∷ calls) = opens_of n calls
opens_of n (closed m ∷ calls) = opens_of n calls

abbrev pub closes_of : ℕ → List PluginCall → ℕ
closes_of n [] = 0
closes_of n (opened m ∷ calls) = closes_of n calls
closes_of n (created m s ∷ calls) = closes_of n calls
closes_of n (dropped m s ∷ calls) = closes_of n calls
closes_of n (closed m ∷ calls) = one_if n m + closes_of n calls

-- How many entries hold the library `n`.
abbrev held : ℕ → List PluginEntry → ℕ
held n [] = 0
held n (np ∷ c) = one_if n np.library + held n c

abbrev held_in : ℕ → PluginTable → ℕ
held_in n [] = 0
held_in n (c ∷ table) = held n c + held_in n table

opens_of-quiet : (n : ℕ) (calls : List PluginCall) → opens calls ≡ 0 → opens_of n calls ≡ 0
opens_of-quiet n [] h = refl
opens_of-quiet n (opened m ∷ calls) h = absurd (omega arith)
opens_of-quiet n (created m s ∷ calls) h = opens_of-quiet n calls h
opens_of-quiet n (dropped m s ∷ calls) h = opens_of-quiet n calls h
opens_of-quiet n (closed m ∷ calls) h = opens_of-quiet n calls h

opens_of-append :
    (n : ℕ) (xs ys : List PluginCall) → opens_of n (xs ++ ys) ≡ opens_of n xs + opens_of n ys
opens_of-append n [] ys = omega arith
opens_of-append n (opened m ∷ xs) ys = omega (arith, opens_of-append n xs ys)
opens_of-append n (created m s ∷ xs) ys = opens_of-append n xs ys
opens_of-append n (dropped m s ∷ xs) ys = opens_of-append n xs ys
opens_of-append n (closed m ∷ xs) ys = opens_of-append n xs ys

closes_of-append :
    (n : ℕ) (xs ys : List PluginCall) → closes_of n (xs ++ ys) ≡ closes_of n xs + closes_of n ys
closes_of-append n [] ys = omega arith
closes_of-append n (opened m ∷ xs) ys = closes_of-append n xs ys
closes_of-append n (created m s ∷ xs) ys = closes_of-append n xs ys
closes_of-append n (dropped m s ∷ xs) ys = closes_of-append n xs ys
closes_of-append n (closed m ∷ xs) ys = omega (arith, closes_of-append n xs ys)

held_none : (n : ℕ) (c : List PluginEntry) → length c ≡ 0 → held n c ≡ 0
held_none n [] h = refl
held_none n (np ∷ c) h = absurd (omega arith)

held_in-empty : (n : ℕ) (table : PluginTable) → count table ≡ 0 → held_in n table ≡ 0
unfolding count
held_in-empty n [] h = refl
held_in-empty n (c ∷ table) h =
    omega (arith, held_none n c (omega arith), held_in-empty n table (omega arith))

held_in-set :
    (n : ℕ) (table : PluginTable) (i : ℕ) (c : List PluginEntry)
    → i < length table
    → held_in n (set table i c) + held n (get_or table i []) ≡ held_in n table + held n c
held_in-set n [] i c h = absurd (omega arith)
held_in-set n (x ∷ table) zero c h = omega arith
held_in-set n (x ∷ table) (suc i) c h = omega (arith, held_in-set n table i c (omega arith))

-- The entry that is replaced is the one that was found, and holds the same library.
held-replace_entry :
    (n : ℕ) (np np₁ : PluginEntry) (c : List PluginEntry)
    → find_entry np₁.name c ≡ some np
    → np₁.library ≡ np.library
    → held n (replace_entry np₁ c) ≡ held n c
unfolding find_entry replace_entry
held-replace_entry n np np₁ [] f e = cc
held-replace_entry n np np₁ (x ∷ c) f e = elim (Bool-cases (str_eq np₁.name x.name)) [
  | inl y ↦
      rw y
        (ap (λ m. one_if n m + held n c) (e ∙ ap (λ z. z.library) (sym (some_entry (rw y at f)))))
  | inr other ↦
      rw other (ap (λ k. one_if n x.library + k) (held-replace_entry n np np₁ c (rw other at f) e))
]

-- A load leaves an entry more for the library that it opened.
abbrev Holds : ℕ → PluginTable → PluginTable → List PluginCall → Type 0
Holds n table table' calls = held_in n table' ≡ held_in n table + opens_of n calls

load_known-Holds :
    (n : ℕ) (g : PluginConfig) (l : Libraries) (table : PluginTable) (name : Bytes)
    (np : PluginEntry)
    → IsTable table
    → Named np.name (some np)
    → find_entry np.name (chain_of table np.name) ≡ some np
    → let (ctx, table', calls) = load_known g l table name np in Holds n table table' calls
unfolding load_known
load_known-Holds n g l table name np t (e, v) f =
    let k = context_for-IsKept g l np name v in
    let found = if_ready (antd_plugin_ctx_lookup g l np name) in
    let chain = chain_of table np.name in
    omega (
      arith,
      held_in-set n table (hash np.name hash_size) (replace_entry found.1 chain)
          (in_table table np.name t),
      held-replace_entry n np found.1 chain (ap (λ s. find_entry s chain) k.looked.same_name ∙ f)
          k.looked.same_library,
      opens_of-quiet n found.2 k.looked.quiet,
    )

load_opened-Holds :
    (n : ℕ) (g : PluginConfig) (l : Libraries) (table : PluginTable) (name file : Bytes)
    (o : Option ℕ)
    → IsTable table
    → let (ctx, table', calls) = load_opened g l table name file o in Holds n table table' calls
unfolding load_opened
load_opened-Holds n g l table name file none t = omega arith
load_opened-Holds n g l table name file (some library) t =
    let np : PluginEntry = record { name = file; library = library; instances = dict } in
    let k = context_for-IsKept g l np name (unfold dict in dict_n-IsValid 16 (omega arith)) in
    let found = if_ready (antd_plugin_ctx_lookup g l np name) in
    omega (
      arith,
      held_in-set n table (hash name hash_size) (found.1 ∷ chain_of table name)
          (in_table table name t),
      ap (λ m. one_if n m) k.looked.same_library,
      opens_of-quiet n found.2 k.looked.quiet,
    )

load_file-Holds :
    (n : ℕ) (g : PluginConfig) (l : Libraries) (table : PluginTable) (name file : Bytes)
    (o : Option PluginEntry)
    → IsTable table
    → plugin_lookup table file ≡ o
    → let (ctx, table', calls) = load_file g l table name file o in Holds n table table' calls
unfolding load_file plugin_lookup
load_file-Holds n g l table name file none t f = load_opened-Holds n g l table name file _ t
load_file-Holds n g l table name file (some np) t f =
    let (e, v) = subst (Named file) f (
      find_entry-Named file (chain_of table file)
        (All-get_or table (hash file hash_size) t.valid)) in
    load_known-Holds n g l table name np t (refl, v)
      (ap (λ s. find_entry s (chain_of table s)) e ∙ f)

-- Plugins that are loaded one after the other, with the calls of all loads.
unfoldable pub loads :
    PluginConfig → Libraries → List Bytes → PluginTable → PluginTable × List PluginCall
loads g l [] table = (table, [])
loads g l (name ∷ names) table =
    let (ctx, table', calls) = antd_plugin_load g l table name in
    let (last, more) = loads g l names table' in (last, calls ++ more)

loads-Holds :
    (n : ℕ) (g : PluginConfig) (l : Libraries) (names : List Bytes) (table : PluginTable)
    → IsTable table
    → let (last, calls) = loads g l names table in Holds n table last calls
unfolding loads antd_plugin_load
loads-Holds n g l [] table t = omega arith
loads-Holds n g l (name ∷ names) table t =
    let (t', e) = antd_plugin_load-Adds g l table name t in
    let loaded = antd_plugin_load g l table name in
    omega (
      arith,
      load_file-Holds n g l table name (file_name g name) _ t refl,
      loads-Holds n g l names loaded.1 t',
      opens_of-append n loaded.2 (loads g l names loaded.1).1,
    )

closes_of-drop_contexts :
    (n library : ℕ) (c : Chain Context) → closes_of n (drop_contexts library c) ≡ 0
unfolding drop_contexts
closes_of-drop_contexts n library [] = refl
closes_of-drop_contexts n library ((k, none) ∷ c) = closes_of-drop_contexts n library c
closes_of-drop_contexts n library ((k, some ctx) ∷ c) =
    if-both (λ calls. closes_of n calls ≡ 0) ctx.has_drop (closes_of-drop_contexts n library c)
      (closes_of-drop_contexts n library c)

closes_of-unload_chain : (n : ℕ) (c : List PluginEntry) → closes_of n (unload_chain c) ≡ held n c
unfolding unload_chain antd_plugin_entry_drop
closes_of-unload_chain n [] = refl
closes_of-unload_chain n (np ∷ c) =
    let contexts = drop_contexts np.library (flatten np.instances.map) in
    omega (
      arith,
      closes_of-append n (contexts ++ (closed np.library ∷ [])) (unload_chain c),
      closes_of-append n contexts (closed np.library ∷ []),
      closes_of-drop_contexts n np.library (flatten np.instances.map),
      closes_of-unload_chain n c,
    )

closes_of-unload_chains :
    (n : ℕ) (table : PluginTable) → closes_of n (unload_chains table) ≡ held_in n table
unfolding unload_chains
closes_of-unload_chains n [] = refl
closes_of-unload_chains n (c ∷ table) = omega (
  arith,
  closes_of-append n (unload_chain c) (unload_chains table),
  closes_of-unload_chain n c,
  closes_of-unload_chains n table,
)

-- After any plugins were loaded into an empty table, unloading all closes each library as often as the
-- loads opened it, and no other library.
pub antd_unload_all_plugin-closes :
    (g : PluginConfig) (l : Libraries) (names : List Bytes) (table : PluginTable) (n : ℕ)
    → IsTable table
    → count table ≡ 0
    → let (last, calls) = loads g l names table in
      closes_of n (antd_unload_all_plugin last).1 ≡ opens_of n calls
unfolding antd_unload_all_plugin
antd_unload_all_plugin-closes g l names table n t e = omega (
  arith,
  closes_of-unload_chains n (loads g l names table).0,
  loads-Holds n g l names table t,
  held_in-empty n table e,
)

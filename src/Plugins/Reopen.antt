-- ===== src/Plugins/Reopen.antt =====
-- plugin_manager.c: `antd_plugin_load` where a plugin's two names hash to different chains.
use ant_http.Dictionary.{dict}
use ant_http.Dictionary.Laws.{dict_n-IsValid}
use ant_http.Plugins.{
  PluginEntry, PluginTable, PluginConfig, Libraries, hash_size, plugin_lookup,
  antd_plugin_ctx_lookup, if_ready, file_name, plugin_path, chain_of, load_opened, load_file,
  antd_plugin_load, find_entry,
}
use ant_http.Plugins.Again.{IsTable, context_for-IsKept, opens}
use ant_http.Prelude.{
  ℕ, zero, suc, ◌+◌, Bytes, none, some, [], ◌∷◌, get_or-set_ne, replicate, ◌≡◌, ◌≢◌, refl, sym, ap,
  ◌∙◌, subst, arith,
}
use ant_http.Utils.Hash.{hash}
use ant_http.Plugins.Count.{count, load_all, count-load_all}

opened-missing :
    (g : PluginConfig) (l : Libraries) (table : PluginTable) (name file : Bytes) (library : ℕ)
    → hash name hash_size ≢ hash file hash_size
    → plugin_lookup table file ≡ none
    → let (ctx, table', calls) = load_opened g l table name file (some library) in
      (plugin_lookup table' file ≡ none) × (opens calls ≡ 1)
unfolding load_opened plugin_lookup
opened-missing g l table name file library h f =
    let np : PluginEntry = record { name = file; library = library; instances = dict } in
    let k = context_for-IsKept g l np name (unfold dict in dict_n-IsValid 16 (omega arith)) in
    let np₁ = (if_ready (antd_plugin_ctx_lookup g l np name)).1 in
    (
      ap (find_entry file) (
            get_or-set_ne table (hash name hash_size) (hash file hash_size)
              (np₁ ∷ chain_of table name) [] h)
          ∙ f,
      ap suc k.looked.quiet,
    )

load-missing :
    (g : PluginConfig) (l : Libraries) (table : PluginTable) (name : Bytes) (library : ℕ)
    → hash name hash_size ≢ hash (file_name g name) hash_size
    → l.open_library (plugin_path g (file_name g name)) ≡ some library
    → plugin_lookup table (file_name g name) ≡ none
    → let (ctx, table', calls) = antd_plugin_load g l table name in
      (plugin_lookup table' (file_name g name) ≡ none) × (opens calls ≡ 1)
unfolding antd_plugin_load load_file
load-missing g l table name library h o f =
    let file = file_name g name in
    subst (λ r. (plugin_lookup r.1 file ≡ none) × (opens r.2 ≡ 1))
      (sym (ap (load_file g l table name file) f ∙ ap (load_opened g l table name file) o))
      (opened-missing g l table name file library h f)

-- The same plugin loaded `n` times.
unfoldable pub load_times : PluginConfig → Libraries → ℕ → Bytes → PluginTable → PluginTable × ℕ
unfolding load_all
load_times g l n name table = load_all g l (replicate n name) table

count-load_times :
    (g : PluginConfig) (l : Libraries) (n : ℕ) (name : Bytes) (table : PluginTable)
    → IsTable table
    → count (load_times g l n name table).0 ≡ count table + (load_times g l n name table).1
unfolding load_times
count-load_times g l n name table t = count-load_all g l (replicate n name) table t

times_opened :
    (g : PluginConfig) (l : Libraries) (n : ℕ) (name : Bytes) (table : PluginTable) (library : ℕ)
    → hash name hash_size ≢ hash (file_name g name) hash_size
    → l.open_library (plugin_path g (file_name g name)) ≡ some library
    → plugin_lookup table (file_name g name) ≡ none
    → (load_times g l n name table).1 ≡ n
unfolding load_times load_all
times_opened g l zero name table library h o f = refl
times_opened g l (suc n) name table library h o f =
    let (f', e) = load-missing g l table name library h o f in
    omega (arith, e, times_opened g l n name (antd_plugin_load g l table name).1 library h o f')

-- A plugin whose file hashes to another chain than the name that it is loaded by is not found again,
-- although its entry is there: from a table without it, `n` loads open its library `n` times and add
-- `n` entries, where the library can be opened.
pub antd_plugin_load-reopens :
    (g : PluginConfig) (l : Libraries) (n : ℕ) (name : Bytes) (table : PluginTable) (library : ℕ)
    → IsTable table
    → hash name hash_size ≢ hash (file_name g name) hash_size
    → l.open_library (plugin_path g (file_name g name)) ≡ some library
    → plugin_lookup table (file_name g name) ≡ none
    → let (last, opened_times) = load_times g l n name table in
      (opened_times ≡ n) × (count last ≡ count table + n)
antd_plugin_load-reopens g l n name table library t h o f =
    let e = times_opened g l n name table library h o f in
    (e, omega (arith, e, count-load_times g l n name table t))

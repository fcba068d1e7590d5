-- ===== src/Plugins/Count.antt =====
-- plugin_manager.c: the entries of the table against the libraries that are opened and closed.
use ant_http.Dictionary.{dict}
use ant_http.Dictionary.Laws.{IsValid, dict_n-IsValid}
use ant_http.Plugins.{
  PluginEntry, PluginTable, PluginConfig, Libraries, PluginCall, hash_size, plugin_lookup,
  antd_plugin_ctx_lookup, if_ready, file_name, replace_entry, chain_of, load_known, load_opened,
  load_file, antd_plugin_load,
}
use ant_http.Plugins.Again.{IsTable, Named, context_for-IsKept, find_entry-Named, opens}
use ant_http.Plugins.Load.{All-get_or, All-set, All-replace_entry, in_table}
use ant_http.Prelude.{
  ℕ, zero, suc, ◌+◌, ◌<◌, Bytes, Option, none, some, List, [], ◌∷◌, get_or, set, length, length-set,
  ◌≡◌, refl, ◌∙◌, subst, arith,
}
use ant_http.Utils.Hash.{hash}

-- The entries of a table.
unfoldable pub count : PluginTable → ℕ
count [] = 0
count (c ∷ table) = length c + count table

count-set :
    (table : PluginTable) (i : ℕ) (c : List PluginEntry)
    → i < length table
    → count (set table i c) + length (get_or table i []) ≡ count table + length c
unfolding count
count-set [] i c h = absurd (omega arith)
count-set (x ∷ table) zero c h = omega arith
count-set (x ∷ table) (suc i) c h = omega (arith, count-set table i c (omega arith))

length-replace_entry :
    (np : PluginEntry) (c : List PluginEntry) → length (replace_entry np c) ≡ length c
unfolding replace_entry
length-replace_entry np [] = refl
length-replace_entry np (e ∷ c) = ground (arith, length-replace_entry np c)

-- What a load leaves: a well-formed table, with one more entry for each library that was opened.
abbrev pub Adds : PluginTable → PluginTable → List PluginCall → Type 0
Adds table table' calls = IsTable table' × (count table' ≡ count table + opens calls)

load_known-Adds :
    (g : PluginConfig) (l : Libraries) (table : PluginTable) (name : Bytes) (np : PluginEntry)
    → IsTable table
    → IsValid np.instances
    → let (ctx, table', calls) = load_known g l table name np in Adds table table' calls
unfolding load_known
load_known-Adds g l table name np t v =
    let k = context_for-IsKept g l np name v in
    let i = hash np.name hash_size in
    let np₁ = (if_ready (antd_plugin_ctx_lookup g l np name)).1 in
    let chain = chain_of table np.name in
    let c = replace_entry np₁ chain in
    (
      record {
        width = length-set table i c ∙ t.width;
        valid =
            All-set table i c t.valid
              (All-replace_entry np₁ chain k.looked.valid (All-get_or table i t.valid));
      },
      omega (
        arith,
        count-set table i c (in_table table np.name t),
        length-replace_entry np₁ chain,
        k.looked.quiet,
      ),
    )

load_opened-Adds :
    (g : PluginConfig) (l : Libraries) (table : PluginTable) (name file : Bytes) (o : Option ℕ)
    → IsTable table
    → let (ctx, table', calls) = load_opened g l table name file o in Adds table table' calls
unfolding load_opened
load_opened-Adds g l table name file none t = (t, omega arith)
load_opened-Adds g l table name file (some library) t =
    let np : PluginEntry = record { name = file; library = library; instances = dict } in
    let k = context_for-IsKept g l np name (unfold dict in dict_n-IsValid 16 (omega arith)) in
    let i = hash name hash_size in
    let np₁ = (if_ready (antd_plugin_ctx_lookup g l np name)).1 in
    let c = np₁ ∷ chain_of table name in
    (
      record {
        width = length-set table i c ∙ t.width;
        valid = All-set table i c t.valid (k.looked.valid, All-get_or table i t.valid);
      },
      omega (arith, count-set table i c (in_table table name t), k.looked.quiet),
    )

load_file-Adds :
    (g : PluginConfig) (l : Libraries) (table : PluginTable) (name file : Bytes)
    (o : Option PluginEntry)
    → IsTable table
    → plugin_lookup table file ≡ o
    → let (ctx, table', calls) = load_file g l table name file o in Adds table table' calls
unfolding load_file plugin_lookup
load_file-Adds g l table name file none t f = load_opened-Adds g l table name file _ t
load_file-Adds g l table name file (some np) t f =
    let (_, v) = subst (Named file) f (
      find_entry-Named file (chain_of table file)
        (All-get_or table (hash file hash_size) t.valid)) in
    load_known-Adds g l table name np t v

-- A load keeps the table well-formed, and adds as many entries as it opens libraries, whatever the
-- plugin does and whether or not a context is given.
pub antd_plugin_load-Adds :
    (g : PluginConfig) (l : Libraries) (table : PluginTable) (name : Bytes)
    → IsTable table
    → let (ctx, table', calls) = antd_plugin_load g l table name in Adds table table' calls
unfolding antd_plugin_load
antd_plugin_load-Adds g l table name t = load_file-Adds g l table name (file_name g name) _ t refl

-- Plugins that are loaded one after the other.
unfoldable pub load_all : PluginConfig → Libraries → List Bytes → PluginTable → PluginTable × ℕ
load_all g l [] table = (table, 0)
load_all g l (name ∷ names) table =
    let (ctx, table', calls) = antd_plugin_load g l table name in
    let (last, n) = load_all g l names table' in (last, opens calls + n)

pub count-load_all :
    (g : PluginConfig) (l : Libraries) (names : List Bytes) (table : PluginTable)
    → IsTable table
    → let (last, n) = load_all g l names table in count last ≡ count table + n
unfolding load_all
count-load_all g l [] table t = omega arith
count-load_all g l (name ∷ names) table t =
    let (t', e) = antd_plugin_load-Adds g l table name t in
    omega (arith, e, count-load_all g l names (antd_plugin_load g l table name).1 t')

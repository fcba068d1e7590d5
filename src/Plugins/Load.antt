-- ===== src/Plugins/Load.antt =====
-- plugin_manager.c: `antd_plugin_load` a second time, and the table that it leaves.
use ant_http.Dictionary.{dict, dvalue}
use ant_http.Dictionary.Laws.{IsValid, dict_n-IsValid}
use ant_http.Plugins.{
  Context, PluginEntry, PluginTable, PluginConfig, Libraries, hash_size, find_entry, plugin_lookup,
  antd_plugin_ctx_lookup, if_ready, is_ready, file_name, replace_entry, plugin_path, chain_of,
  load_known, load_opened, load_file, antd_plugin_load,
}
use ant_http.Plugins.Again.{
  HasInstances, IsTable, context_for-IsKept, context_for-again, find_entry-Named, find_entry-first,
  find_entry-replace_entry, replace_entry-same, Named,
}
use ant_http.Prelude.{
  ℕ, zero, suc, ◌<◌, Bytes, true, Option, none, some, List, [], ◌∷◌, All, get_or, set, length,
  get_or-set_self, ◌≡◌, refl, sym, ap, ◌∙◌, subst, arith,
}
use ant_http.Utils.Hash.{hash, hash-lt}

-- The context stands ready under the file's name.
record Stands (g : PluginConfig) (table : PluginTable) (name : Bytes) (ctx : Context) : Type 0 where
  entry : PluginEntry
  found : plugin_lookup table (file_name g name) ≡ some entry
  named : entry.name ≡ file_name g name
  held : dvalue entry.instances name ≡ some ctx
  usable : is_ready ctx.status ≡ true

pub set_same : (table : PluginTable) (i : ℕ) → set table i (get_or table i []) ≡ table
set_same [] i = refl
set_same (c ∷ table) zero = refl
set_same (c ∷ table) (suc i) = ap (λ t. c ∷ t) (set_same table i)

pub All-get_or :
    (table : PluginTable) (i : ℕ)
    → All (All HasInstances) table
    → All HasInstances (get_or table i [])
All-get_or [] i h = tt
All-get_or (c ∷ table) zero (h, _) = h
All-get_or (c ∷ table) (suc i) (_, h) = All-get_or table i h

pub All-set :
    (table : PluginTable) (i : ℕ) (c : List PluginEntry)
    → All (All HasInstances) table
    → All HasInstances c
    → All (All HasInstances) (set table i c)
All-set [] i c h k = tt
All-set (x ∷ table) zero c (_, h) k = (k, h)
All-set (x ∷ table) (suc i) c (x', h) k = (x', All-set table i c h k)

pub All-replace_entry :
    (np : PluginEntry) (c : List PluginEntry)
    → IsValid np.instances
    → All HasInstances c
    → All HasInstances (replace_entry np c)
unfolding replace_entry
All-replace_entry np [] v h = tt
All-replace_entry np (e ∷ c) v (k, h) = ground (arith, All-replace_entry np c v h)

Stands-load :
    (g : PluginConfig) (l : Libraries) (table : PluginTable) (name : Bytes) (ctx : Context)
    → Stands g table name ctx
    → antd_plugin_load g l table name ≡ (some ctx, table, [])
unfolding antd_plugin_load load_file load_known plugin_lookup
Stands-load g l table name ctx s =
    let np = s.entry in
    let i = hash np.name hash_size in
    let found : find_entry np.name (chain_of table np.name) ≡ some np =
      subst (λ n. find_entry n (chain_of table n) ≡ some np) (sym s.named) s.found in
    ap (load_file g l table name (file_name g name)) s.found
    ∙ ap (λ q. (q.0, set table i (replace_entry q.1 (chain_of table np.name)), q.2))
        (context_for-again g l np name ctx s.held s.usable)
    ∙ ap (λ t. (some ctx, t, []))
        (ap (set table i) (replace_entry-same np (chain_of table np.name) found) ∙ set_same table i)

pub in_table : (table : PluginTable) (s : Bytes) → IsTable table → hash s hash_size < length table
in_table table s t = omega (arith, t.width, hash-lt s hash_size (omega arith))

load_known-Stands :
    (g : PluginConfig) (l : Libraries) (table : PluginTable) (name : Bytes) (np : PluginEntry)
    (ctx : Context)
    → IsTable table
    → plugin_lookup table (file_name g name) ≡ some np
    → (load_known g l table name np).0 ≡ some ctx
    → Stands g (load_known g l table name np).1 name ctx
unfolding load_known plugin_lookup
load_known-Stands g l table name np ctx t f e =
    let file = file_name g name in
    let chain = chain_of table file in
    let (named, v) =
      subst (Named file) f
        (find_entry-Named file chain (All-get_or table (hash file hash_size) t.valid)) in
    let k = context_for-IsKept g l np name v in
    let np₁ = (if_ready (antd_plugin_ctx_lookup g l np name)).1 in
    let named₁ = k.looked.same_name ∙ named in
    let here = subst (λ s. find_entry s chain ≡ some np) (sym named₁) f in
    record {
      entry = np₁;
      found =
          ap
            (λ s. find_entry file (
              get_or (set table (hash s hash_size) (replace_entry np₁ (chain_of table s)))
                (hash file hash_size) []))
            named
          ∙ ap (find_entry file) (
              get_or-set_self table (hash file hash_size) (replace_entry np₁ chain) []
                (in_table table file t))
          ∙ subst (λ s. find_entry s (replace_entry np₁ chain) ≡ some np₁) named₁
              (find_entry-replace_entry np np₁ chain here);
      named = named₁;
      held = k.looked.kept ctx e;
      usable = k.usable ctx e;
    }

load_opened-Stands :
    (g : PluginConfig) (l : Libraries) (table : PluginTable) (name : Bytes) (o : Option ℕ)
    (ctx : Context)
    → IsTable table
    → hash name hash_size ≡ hash (file_name g name) hash_size
    → (load_opened g l table name (file_name g name) o).0 ≡ some ctx
    → Stands g (load_opened g l table name (file_name g name) o).1 name ctx
unfolding load_opened plugin_lookup
load_opened-Stands g l table name none ctx t h e = cc
load_opened-Stands g l table name (some library) ctx t h e =
    let file = file_name g name in
    let np : PluginEntry = record { name = file; library = library; instances = dict } in
    let k = context_for-IsKept g l np name (unfold dict in dict_n-IsValid 16 (omega arith)) in
    let np₁ = (if_ready (antd_plugin_ctx_lookup g l np name)).1 in
    let chain = np₁ ∷ chain_of table name in
    record {
      entry = np₁;
      found =
          ap (λ i. find_entry file (get_or (set table (hash name hash_size) chain) i [])) (sym h)
          ∙ ap (find_entry file)
              (get_or-set_self table (hash name hash_size) chain [] (in_table table name t))
          ∙ find_entry-first file np₁ (chain_of table name) k.looked.same_name;
      named = k.looked.same_name;
      held = k.looked.kept ctx e;
      usable = k.usable ctx e;
    }

load_file-Stands :
    (g : PluginConfig) (l : Libraries) (table : PluginTable) (name : Bytes) (o : Option PluginEntry)
    (ctx : Context)
    → IsTable table
    → hash name hash_size ≡ hash (file_name g name) hash_size
    → plugin_lookup table (file_name g name) ≡ o
    → (load_file g l table name (file_name g name) o).0 ≡ some ctx
    → Stands g (load_file g l table name (file_name g name) o).1 name ctx
unfolding load_file
load_file-Stands g l table name none ctx t h f e =
    load_opened-Stands g l table name (l.open_library (plugin_path g (file_name g name))) ctx t h e
load_file-Stands g l table name (some np) ctx t h f e =
    load_known-Stands g l table name np ctx t f e

-- Where a plugin's file hashes to the same chain as the name that it is loaded by, as it does when
-- they are equal, a load that gave a context is repeated without effect: the second load gives the
-- same context, leaves the table as it is, and calls into no library.
pub antd_plugin_load-again :
    (g : PluginConfig) (l : Libraries) (table : PluginTable) (name : Bytes) (ctx : Context)
    → IsTable table
    → hash name hash_size ≡ hash (file_name g name) hash_size
    → (antd_plugin_load g l table name).0 ≡ some ctx
    → antd_plugin_load g l (antd_plugin_load g l table name).1 name
      ≡ (some ctx, (antd_plugin_load g l table name).1, [])
antd_plugin_load-again g l table name ctx t h e =
    Stands-load g l (antd_plugin_load g l table name).1 name ctx
      (unfold antd_plugin_load in load_file-Stands g l table name _ ctx t h refl e)

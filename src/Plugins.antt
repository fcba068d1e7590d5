-- ===== src/Plugins.antt =====
-- plugin_manager.c and lib/plugin.c: the table of loaded plugins and the contexts of their instances.
-- What `dlopen`, `dlsym` and a plugin's `create` do stands outside: they are arguments. Memory does not
-- run out.
pub mod Unload
pub mod Again
pub mod Load
pub mod Count
pub mod Handles
pub mod Reopen
use mathlib.Core.List.{flatten}
use ant_http.Dictionary.{Dictionary, Chain, dict, dput, dvalue}
use ant_http.Prelude.{
  ℕ, Bytes, codes, str_eq, Bool, true, false, if◌then◌else◌, Option, none, some, List, [], ◌∷◌,
  ◌++◌, get_or, set, replicate, take,
}
use ant_http.Utils.Hash.{hash}

-- ANTD_PLUGIN_INIT and so on.
pub data PluginStatus : Type 0 where
  plugin_init : PluginStatus
  plugin_ready : PluginStatus
  plugin_panic : PluginStatus

-- `struct _plugin_ctx_t`; what `data` points to is a number. The three functions are known by the
-- library that they come from: `has_drop` says that `drop` was found.
pub record Context : Type 0 where
  pub name : Bytes
  pub basedir : Bytes
  pub tmpdir : Bytes
  pub raw_body : Bool
  pub status : PluginStatus
  pub config : Option (Dictionary Bytes)
  pub data_of : Option ℕ
  pub has_drop : Bool

-- `struct plugin_entry` in the table; the chain is a list.
pub record PluginEntry : Type 0 where
  pub name : Bytes
  pub library : ℕ
  pub instances : Dictionary Context

abbrev pub PluginTable : Type 0
PluginTable = List (List PluginEntry)

abbrev pub hash_size : ℕ
hash_size = 1024

-- The parts of `g_server_config` that plugins use.
pub record PluginConfig : Type 0 where
  pub plugins_dir : Bytes
  pub plugins_ext : Bytes
  pub tmpdir : Bytes
  pub plugins : Dictionary (Dictionary Bytes)

-- What a plugin's `create` sets and returns.
pub record Created : Type 0 where
  pub raw_body : Bool
  pub status : PluginStatus
  pub data_of : Option ℕ

-- A library that `dlopen` gives for a path, whether `dlsym` finds a name in it, and what its `create`
-- makes of a context.
pub record Libraries : Type 0 where
  pub open_library : Bytes → Option ℕ
  pub symbol : ℕ → Bytes → Bool
  pub create : ℕ → Context → Created

-- The calls into a library.
pub data PluginCall : Type 0 where
  opened : ℕ → PluginCall
  created : ℕ → Bytes → PluginCall
  dropped : ℕ → Bytes → PluginCall
  closed : ℕ → PluginCall

unfoldable pub find_entry : Bytes → List PluginEntry → Option PluginEntry
find_entry s [] = none
find_entry s (np ∷ c) = let later = find_entry s c in if str_eq s np.name then some np else later

unfoldable pub plugin_lookup : PluginTable → Bytes → Option PluginEntry
unfolding find_entry
plugin_lookup table s = find_entry s (get_or table (hash s hash_size) [])

-- The entry without the context, which is freed, and the call of `drop`.
unfoldable pub antd_plugin_ctx_drop : PluginEntry → Context → PluginEntry × List PluginCall
antd_plugin_ctx_drop np ctx = (
  record np { instances = (dput np.instances ctx.name none).0 },
  if ctx.has_drop then dropped np.library ctx.name ∷ [] else [],
)

unfoldable pub new_context : PluginConfig → Bytes → Context
new_context g name = record {
  name = name;
  basedir = g.plugins_dir;
  tmpdir = g.tmpdir;
  raw_body = false;
  status = plugin_init;
  config = dvalue g.plugins name;
  data_of = none;
  has_drop = false;
}

-- What a lookup or a load leaves: the context, the entry or the table, and the calls.
abbrev pub Looked : Type 0
Looked = Option Context × PluginEntry × List PluginCall

unfoldable pub without_context : List PluginCall → PluginEntry × List PluginCall → Looked
without_context before (np, calls) = (none, np, before ++ calls)

unfoldable pub is_panic : PluginStatus → Bool
is_panic plugin_init = false
is_panic plugin_ready = false
is_panic plugin_panic = true

unfoldable pub is_ready : PluginStatus → Bool
is_ready plugin_init = false
is_ready plugin_ready = true
is_ready plugin_panic = false

-- Once `create` was run; it reaches the context only through lib/plugin.c.
unfoldable pub after_create : PluginEntry → Bytes → Context → Created → Looked
unfolding without_context antd_plugin_ctx_drop is_panic
after_create np name ctx made =
    let calls = created np.library name ∷ [] in
    let made_ctx = record ctx { raw_body = made.raw_body; data_of = made.data_of } in
    let panicked = record made_ctx { status = made.status } in
    let ready = record made_ctx { status = plugin_ready } in
    let stored = record np { instances = (dput np.instances name (some ready)).0 } in
    if is_panic made.status
    then without_context calls (antd_plugin_ctx_drop np panicked)
    else (some ready, stored, calls)

unfoldable pub create_context : PluginConfig → Libraries → PluginEntry → Bytes → Looked
unfolding after_create new_context
create_context g l np name =
    let ctx = new_context g name in
    let with_drop = record ctx { has_drop = true } in
    if l.symbol np.library (codes "handle")
    then if l.symbol np.library (codes "drop")
      then if l.symbol np.library (codes "create")
        then after_create np name with_drop (l.create np.library with_drop)
        else without_context [] (antd_plugin_ctx_drop np with_drop)
      else without_context [] (antd_plugin_ctx_drop np ctx)
    else without_context [] (antd_plugin_ctx_drop np ctx)

unfoldable pub known_or_new :
    PluginConfig → Libraries → PluginEntry → Bytes → Option Context → Looked
unfolding create_context
known_or_new g l np name none = create_context g l np name
known_or_new g l np name (some ctx) = (some ctx, np, [])

unfoldable pub antd_plugin_ctx_lookup : PluginConfig → Libraries → PluginEntry → Bytes → Looked
unfolding known_or_new
antd_plugin_ctx_lookup g l np name = known_or_new g l np name (dvalue np.instances name)

-- A context that is not ready any more is dropped.
unfoldable pub if_ready : Looked → Looked
unfolding without_context antd_plugin_ctx_drop is_ready
if_ready (none, np, calls) = (none, np, calls)
if_ready (some ctx, np, calls) =
    if is_ready ctx.status
    then (some ctx, np, calls)
    else without_context calls (antd_plugin_ctx_drop np ctx)

unfoldable pub file_name : PluginConfig → Bytes → Bytes
file_name g name = elim (dvalue g.plugins name) [
  | none ↦ name
  | some conf ↦ elim (dvalue conf (codes "name")) [ none ↦ name | some file ↦ file ]
]

-- The entry is changed where it stands: the first of its name in its chain.
unfoldable pub replace_entry : PluginEntry → List PluginEntry → List PluginEntry
replace_entry np [] = []
replace_entry np (e ∷ c) =
    let later = replace_entry np c in if str_eq np.name e.name then np ∷ c else e ∷ later

unfoldable pub plugin_path : PluginConfig → Bytes → Bytes
plugin_path g file = take 1023 (g.plugins_dir ++ (b'/' ∷ (file ++ g.plugins_ext)))

abbrev pub Loaded : Type 0
Loaded = Option Context × PluginTable × List PluginCall

abbrev pub chain_of : PluginTable → Bytes → List PluginEntry
chain_of table s = get_or table (hash s hash_size) []

-- With an entry that was found under its file's name.
unfoldable pub load_known : PluginConfig → Libraries → PluginTable → Bytes → PluginEntry → Loaded
unfolding if_ready antd_plugin_ctx_lookup replace_entry
load_known g l table name np =
    let (ctx, np₁, calls) = if_ready (antd_plugin_ctx_lookup g l np name) in
    (ctx, set table (hash np.name hash_size) (replace_entry np₁ (chain_of table np.name)), calls)

-- The new entry stands first in the chain of the instance's name.
unfoldable pub load_opened :
    PluginConfig → Libraries → PluginTable → Bytes → Bytes → Option ℕ → Loaded
unfolding if_ready antd_plugin_ctx_lookup dict
load_opened g l table name file none = (none, table, [])
load_opened g l table name file (some library) =
    let np : PluginEntry = record { name = file; library = library; instances = dict } in
    let (ctx, np₁, calls) = if_ready (antd_plugin_ctx_lookup g l np name) in
    (ctx, set table (hash name hash_size) (np₁ ∷ chain_of table name), opened library ∷ calls)

unfoldable pub load_file :
    PluginConfig → Libraries → PluginTable → Bytes → Bytes → Option PluginEntry → Loaded
unfolding load_known load_opened plugin_path
load_file g l table name file none =
    load_opened g l table name file (l.open_library (plugin_path g file))
load_file g l table name file (some np) = load_known g l table name np

unfoldable pub antd_plugin_load : PluginConfig → Libraries → PluginTable → Bytes → Loaded
unfolding load_file plugin_lookup file_name
antd_plugin_load g l table name =
    let file = file_name g name in load_file g l table name file (plugin_lookup table file)

-- ===== src/Config/Defaults.antt =====
-- config.c: the tables that `load_config` starts from, and those that `init_plugins` leaves.
use mathlib.Core.List.{flatten}
use ant_http.Config.{default_config, with_mimes, basic_mimes}
use ant_http.Config.Load.{
  Started, add_types, add_handlers, autoload, start_plugins, init_plugins, plugin_config,
}
use ant_http.Config.Tables.{HoldsAll, IsConfig}
use ant_http.Decode.Tokens.{tokens}
use ant_http.Dictionary.{Dictionary, Chain, dict, dict_n, dvalue, dlookup, find_key}
use ant_http.Dictionary.Laws.{IsValid, dput-IsValid, dict_n-IsValid, get_or-replicate}
use ant_http.Plugins.{PluginConfig, PluginTable, Libraries}
use ant_http.Prelude.{
  Bytes, String, codes, starts_with, length, Bool, true, false, Option, none, some, List, [], ◌∷◌,
  if-both, ◌==◌, ◌≡◌, refl, sym, ◌∙◌, subst, arith,
}
use ant_http.Request.{Config}
use ant_http.Utils.Hash.{hash}
use ant_http.Utils.Trim.{trim}

pub none-some {ℓ} : {A : Type ℓ} {a : A} → none ≡ some a → ⊥
none-some e = cc

module _ {V : Type 0} where
  dict-nothing : (k : Bytes) → dvalue {V = V} dict k ≡ none
  unfolding dvalue dlookup dict dict_n find_key
  dict-nothing k = rw (get_or-replicate {A = Bytes × Option V} 16 (hash k 16)) refl

  dict-HoldsAll : (P : V → Type 0) → HoldsAll P dict
  dict-HoldsAll P = record {
    valid = unfold dict in dict_n-IsValid 16 (omega arith);
    values = λ k v e. absurd (none-some (sym (dict-nothing k) ∙ e));
  }

with_mimes-IsValid :
    (ms : List (String × String)) (d : Dictionary Bytes) → IsValid d → IsValid (with_mimes ms d)
unfolding with_mimes
with_mimes-IsValid [] d v = v
with_mimes-IsValid ((type, exts) ∷ ms) d v =
    with_mimes-IsValid ms _ (dput-IsValid d (codes type) (some (codes exts)) v)

pub default_config-IsConfig : IsConfig default_config
default_config-IsConfig = record {
  handlers = unfold dict in dict_n-IsValid 16 (omega arith);
  mimes = with_mimes-IsValid basic_mimes dict (unfold dict in dict_n-IsValid 16 (omega arith));
  ports = dict-HoldsAll (λ p. IsValid p.rules);
  plugins = dict-HoldsAll (λ p. IsValid p);
}

add_types-IsValid :
    (plugin : Bytes) (ts : List Bytes) (d : Dictionary Bytes)
    → IsValid d
    → IsValid (add_types plugin ts d)
unfolding add_types
add_types-IsValid plugin [] d v = v
add_types-IsValid plugin (t ∷ ts) d v =
    add_types-IsValid plugin ts _
      (if-both IsValid (length (trim t b' ') == 0) v (dput-IsValid d (trim t b' ') (some plugin) v))

add_handlers-IsValid :
    (plugin : Bytes) (c : Chain Bytes) (d : Dictionary Bytes)
    → IsValid d
    → IsValid (add_handlers plugin c d)
unfolding add_handlers
add_handlers-IsValid plugin [] d v = v
add_handlers-IsValid plugin ((k, none) ∷ c) d v = add_handlers-IsValid plugin c d v
add_handlers-IsValid plugin ((k, some s) ∷ c) d v = add_handlers-IsValid plugin c _ (
    if-both IsValid (starts_with (codes "file_type") k)
      (add_types-IsValid plugin (tokens b',' s) d v) v)

autoload-handlers :
    (g : PluginConfig) (l : Libraries) (b : Bool) (name : Bytes) (s : Started)
    → (autoload g l b name s).0 ≡ s.0
unfolding autoload
autoload-handlers g l false name s = refl
autoload-handlers g l true name (d, table, calls) = refl

start_plugins-IsValid :
    (g : PluginConfig) (l : Libraries) (c : Chain (Dictionary Bytes)) (s : Started)
    → IsValid s.0
    → IsValid (start_plugins g l c s).0
unfolding start_plugins
start_plugins-IsValid g l [] s v = v
start_plugins-IsValid g l ((name, none) ∷ c) s v = start_plugins-IsValid g l c s v
start_plugins-IsValid g l ((name, some conf) ∷ c) (d, table, calls) v =
    start_plugins-IsValid g l c _ (
      subst IsValid (sym (autoload-handlers g l _ name _))
        (add_handlers-IsValid name (flatten conf.map) d v))

pub init_plugins-IsConfig :
    (l : Libraries) (table : PluginTable) (g : Config)
    → IsConfig g
    → IsConfig (init_plugins l table g).0
unfolding init_plugins
init_plugins-IsConfig l table g h = record {
  handlers =
      start_plugins-IsValid (plugin_config g) l (flatten g.plugins.map) (g.handlers, table, [])
        h.handlers;
  mimes = h.mimes;
  ports = h.ports;
  plugins = h.plugins;
}

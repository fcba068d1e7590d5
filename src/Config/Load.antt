-- ===== src/Config/Load.antt =====
-- config.c: `init_plugins` and `load_config`.
use mathlib.Core.List.{flatten}
use ant_http.Decode.Tokens.{tokens}
use ant_http.Dictionary.{Dictionary, Chain, dput, dvalue}
use ant_http.Plugins.{PluginConfig, PluginTable, PluginCall, Libraries, antd_plugin_load}
use ant_http.Prelude.{
  ◌==◌, Bytes, codes, starts_with, Bool, true, false, ◌||◌, if◌then◌else◌, Option, none, some, List,
  [], ◌∷◌, ◌++◌, length,
}
use ant_http.Request.{Config, Outcome, done, ◌>>=◌}
use ant_http.Utils.Trim.{trim}
use ant_http.Config.{Paths, Setting, with_settings, default_config}

-- The tokens of `file_type`, each with the plugin as its handler.
unfoldable pub add_types : Bytes → List Bytes → Dictionary Bytes → Dictionary Bytes
unfolding trim
add_types plugin [] d = d
add_types plugin (t ∷ ts) d =
    let type = trim t b' ' in
    add_types plugin ts (if length type == 0 then d else (dput d type (some plugin)).0)

unfoldable pub add_handlers : Bytes → Chain Bytes → Dictionary Bytes → Dictionary Bytes
unfolding add_types tokens
add_handlers plugin [] d = d
add_handlers plugin ((k, none) ∷ c) d = add_handlers plugin c d
add_handlers plugin ((k, some v) ∷ c) d =
    add_handlers plugin c
      (if starts_with (codes "file_type") k then add_types plugin (tokens b',' v) d else d)

-- `strncmp(value, "true", 3)` looks at three bytes only.
unfoldable pub is_autoload : Option Bytes → Bool
is_autoload none = false
is_autoload (some v) = starts_with (codes "1") v || starts_with (codes "tru") v

-- The handlers, the plugins that were loaded, and the calls.
abbrev pub Started : Type 0
Started = Dictionary Bytes × PluginTable × List PluginCall

unfoldable pub autoload : PluginConfig → Libraries → Bool → Bytes → Started → Started
autoload g l false name s = s
autoload g l true name (d, table, calls) =
    let (ctx, table', more) = antd_plugin_load g l table name in (d, table', calls ++ more)

unfoldable pub start_plugins :
    PluginConfig → Libraries → Chain (Dictionary Bytes) → Started → Started
unfolding autoload is_autoload add_handlers
start_plugins g l [] s = s
start_plugins g l ((name, none) ∷ c) s = start_plugins g l c s
start_plugins g l ((name, some conf) ∷ c) (d, table, calls) =
    let d' = add_handlers name (flatten conf.map) d in
    start_plugins g l c
      (autoload g l (is_autoload (dvalue conf (codes "autoload"))) name (d', table, calls))

abbrev pub plugin_config : Config → PluginConfig
plugin_config g = record {
  plugins_dir = g.plugins_dir;
  plugins_ext = g.plugins_ext;
  tmpdir = g.tmpdir;
  plugins = g.plugins;
}

unfoldable pub init_plugins :
    Libraries → PluginTable → Config → Config × PluginTable × List PluginCall
unfolding start_plugins
init_plugins l table g =
    let (d, table', calls) =
      start_plugins (plugin_config g) l (flatten g.plugins.map) (g.handlers, table, []) in
    (record g { handlers = d }, table', calls)

-- The file's settings; there are none where it cannot be read.
unfoldable pub load_config :
    Paths
    → Libraries
    → PluginTable
    → Option (List Setting)
    → Outcome (Config × PluginTable × List PluginCall)
unfolding with_settings init_plugins
load_config w l table none = done (init_plugins l table default_config)
load_config w l table (some settings) =
    with_settings w settings default_config >>= (λ g. done (init_plugins l table g))

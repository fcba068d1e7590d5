-- ===== src/Config.antt =====
-- config.c: the settings of the server. What the ini parser reads is a list of settings; regular
-- expressions, `realpath` and the loading of libraries stand outside: they are arguments. The
-- directories that settings make or empty are not modelled, and compression is left out.
pub mod Load
pub mod Tables
pub mod Valid
pub mod Defaults
pub mod Ports
pub mod Says
use mathlib.Core.List.{flatten}
use ant_http.Decode.Rules.{Regex, group}
use ant_http.Decode.Tokens.{tokens}
use ant_http.Dictionary.{Dictionary, Chain, dict, dict_n, dput, dvalue}
use ant_http.Plugins.{PluginConfig, PluginTable, PluginCall, Libraries, antd_plugin_load}
use ant_http.Prelude.{
  ℕ, zero, suc, ◌==◌, leb, ℤ, pos, negsuc, Bytes, String, codes, str_eq, starts_with, Bool, true,
  false, ◌||◌, ◌&&◌, if◌then◌else◌, Option, none, some, List, [], ◌∷◌, ◌++◌, length, take, drop,
}
use ant_http.Request.{Port, Config, ip_4, ip_6, ip_all, Outcome, done, overrun, ◌>>=◌}
use ant_http.Utils.Decimal.{atoi}
use ant_http.Utils.Trim.{trim}

-- `_mimes`
abbrev pub basic_mimes : List (String × String)
basic_mimes =
    ("image/bmp", "bmp")
    ∷ ("image/jpeg", "jpg,jpeg")
    ∷ ("text/css", "css")
    ∷ ("text/markdown", "md")
    ∷ ("text/csv", "csv")
    ∷ ("application/pdf", "pdf")
    ∷ ("image/gif", "gif")
    ∷ ("text/html", "html")
    ∷ ("application/json", "json")
    ∷ ("application/javascript", "js")
    ∷ ("image/png", "png")
    ∷ ("text/plain", "txt")
    ∷ ("application/xhtml+xml", "xhtml")
    ∷ ("application/xml", "xml")
    ∷ ("image/svg+xml", "svg")
    ∷ []

unfoldable pub with_mimes : List (String × String) → Dictionary Bytes → Dictionary Bytes
with_mimes [] d = d
with_mimes ((type, exts) ∷ ms) d = with_mimes ms (dput d (codes type) (some (codes exts))).0

abbrev pub default_config : Config
default_config = record {
  plugins_dir = codes "plugins/";
  plugins_ext = codes ".so";
  db_path = codes "databases/";
  tmpdir = codes "/tmp/";
  stat_fifo_path = [];
  handlers = dict;
  backlog = pos 1000;
  maxcon = pos 100;
  connection = pos 0;
  n_workers = pos 4;
  scheduler_timeout = pos 30;
  max_upload_size = pos 10000000;
  enable_ssl = pos 0;
  sslcert = codes "cert.pem";
  sslkey = codes "key.pem";
  ssl_cipher = none;
  debug_enable = pos 0;
  mimes = with_mimes basic_mimes dict;
  ports = dict;
  plugins = dict;
}

-- Regular expressions, and the path that `realpath` gives once the directory was made.
pub record Paths : Type 0 where
  pub regex : Regex
  pub realpath : Bytes → Option Bytes

unfoldable pub path_or : Option Bytes → Bytes → Bytes
path_or none old = old
path_or (some path) old = path

-- The settings of the section SERVER; `none` where there is no such setting.
unfoldable pub server_setting : Paths → Bytes → Bytes → Config → Option Config
unfolding path_or
server_setting w name value g =
    if str_eq name (codes "plugins")
    then some (record g { plugins_dir = path_or (w.realpath value) g.plugins_dir })
    else if str_eq name (codes "plugins_ext")
    then some (record g { plugins_ext = value })
    else if str_eq name (codes "tmpdir")
    then some (record g { tmpdir = path_or (w.realpath value) g.tmpdir })
    else if str_eq name (codes "statistic_fifo")
    then some (record g { stat_fifo_path = value })
    else if str_eq name (codes "max_upload_size")
    then some (record g { max_upload_size = atoi value })
    else if str_eq name (codes "maxcon")
    then some (record g { maxcon = atoi value })
    else if str_eq name (codes "backlog")
    then some (record g { backlog = atoi value })
    else if str_eq name (codes "workers")
    then some (record g { n_workers = atoi value })
    else if str_eq name (codes "debug_enable")
    then some (record g { debug_enable = atoi value })
    else if str_eq name (codes "scheduler_timeout")
    then some (record g { scheduler_timeout = atoi value })
    else if str_eq name (codes "ssl.cert")
    then some (record g { sslcert = value })
    else if str_eq name (codes "ssl.key")
    then some (record g { sslkey = value })
    else if str_eq name (codes "ssl.cipher")
    then some (record g { ssl_cipher = some value })
    else none

unfoldable pub new_port : Bytes → Port
unfolding dict_n
new_port key = record {
  port = atoi key;
  use_ssl = none;
  htdocs = none;
  plugins = none;
  sock = negsuc 0;
  type = ip_all;
  rules = dict_n 1;
}

unfoldable pub port_or_new : Bytes → Option Port → Port
unfolding new_port
port_or_new key none = new_port key
port_or_new key (some p) = p

unfoldable pub port_setting : Paths → Bytes → Bytes → Port → Port
unfolding path_or
port_setting w name value p =
    if str_eq name (codes "htdocs")
    then record p { htdocs = some (path_or (w.realpath value) value) }
    else if str_eq name (codes "plugins")
    then record p { plugins = some value }
    else if str_eq name (codes "ssl.enable")
    then record p { use_ssl = some (atoi value) }
    else if str_eq name (codes "protocol")
    then if str_eq value (codes "ipv4")
      then record p { type = ip_4 }
      else if str_eq value (codes "ipv6")
      then record p { type = ip_6 }
      else p
    else record p { rules = (dput p.rules name (some value)).0 }

unfoldable pub is_null : ℤ → Bool
is_null (pos n) = n == 0
is_null (negsuc n) = false

-- `if (p->usessl) pconfig->enable_ssl = 1;`
unfoldable pub ssl_of : Bytes → Bytes → ℤ → ℤ
unfolding is_null
ssl_of name value old =
    if str_eq name (codes "ssl.enable") then if is_null (atoi value) then old else pos 1 else old

-- The table holds a pointer to the port: the port is changed where it stands.
unfoldable pub set_port : Paths → Bytes → Bytes → Bytes → Config → Config
unfolding port_or_new port_setting ssl_of
set_port w key name value g =
    let p = port_setting w name value (port_or_new key (dvalue g.ports key)) in
    record g { ports = (dput g.ports key (some p)).0; enable_ssl = ssl_of name value g.enable_ssl }

unfoldable pub plugin_or_new : Option (Dictionary Bytes) → Dictionary Bytes
unfolding dict
plugin_or_new none = dict
plugin_or_new (some p) = p

unfoldable pub set_plugin : Bytes → Bytes → Bytes → Config → Config
unfolding plugin_or_new
set_plugin key name value g =
    let p = (dput (plugin_or_new (dvalue g.plugins key)) name (some value)).0 in
    record g { plugins = (dput g.plugins key (some p)).0 }

-- The group of a section's name, which has to fit `buf` with its NUL.
unfoldable pub in_buffer : Bytes → Outcome Bytes
in_buffer key = if leb 255 (length key) then overrun else done key

unfoldable pub plugin_section :
    Bytes → Bytes → Bytes → Config → Option (List (ℕ × ℕ)) → Outcome (Config × Bool)
unfolding set_plugin in_buffer
plugin_section section name value g none = done (g, false)
plugin_section section name value g (some ms) =
    in_buffer (group section ms 1) >>= (λ key. done (set_plugin key name value g, true))

unfoldable pub port_section :
    Paths → Bytes → Bytes → Bytes → Config → Option (List (ℕ × ℕ)) → Outcome (Config × Bool)
unfolding set_port in_buffer plugin_section
port_section w section name value g none =
    plugin_section section name value g (w.regex (codes "PLUGIN:\\s*(.*)") section)
port_section w section name value g (some ms) =
    in_buffer (group section ms 1) >>= (λ key. done (set_port w key name value g, true))

unfoldable pub other_section : Paths → Bytes → Bytes → Bytes → Config → Outcome (Config × Bool)
unfolding port_section
other_section w section name value g =
    if str_eq section (codes "MIMES")
    then done (record g { mimes = (dput g.mimes name (some value)).0 }, true)
    else port_section w section name value g (w.regex (codes "PORT:\\s*([0-9]+)") section)

unfoldable pub known_setting :
    Paths → Bytes → Bytes → Bytes → Config → Option Config → Outcome (Config × Bool)
unfolding other_section
known_setting w section name value g none = other_section w section name value g
known_setting w section name value g (some g₁) = done (g₁, true)

-- The settings, and whether the section and the name are known.
unfoldable pub config_handler : Paths → Config → Bytes → Bytes → Bytes → Outcome (Config × Bool)
unfolding known_setting server_setting
config_handler w g section name value =
    known_setting w section name value g
      (if str_eq section (codes "SERVER") then server_setting w name value g else none)

pub record Setting : Type 0 where
  pub section : Bytes
  pub name : Bytes
  pub value : Bytes

-- The calls that the parser makes; a setting that is not known is passed over.
unfoldable pub with_settings : Paths → List Setting → Config → Outcome Config
unfolding config_handler
with_settings w [] g = done g
with_settings w (s ∷ ss) g =
    config_handler w g s.section s.name s.value >>= (λ r. with_settings w ss r.0)

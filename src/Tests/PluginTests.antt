-- ===== src/Tests/PluginTests.antt =====
-- Plugins and settings on concrete tables.
use ant_http.Config.{Paths, Setting}
use ant_http.Config.Load.{load_config}
use ant_http.Config.Ports.{IsOfPort, Leaves, SaysOf, load_config-SaysOf}
use ant_http.Config.Valid.{FitsSection}
use ant_http.Config.Tables.{IsConfig, OnDone}
use ant_http.Decode.Rules.{Regex, group}
use ant_http.Dictionary.{Dictionary, dict, dict_n, dput, dvalue}
use ant_http.Plugins.{
  plugin_ready, plugin_init, Context, PluginEntry, PluginTable, PluginConfig, Libraries, hash_size,
  file_name, plugin_lookup, antd_plugin_load,
}
use ant_http.Plugins.Unload.{antd_unload_all_plugin}
use ant_http.Plugins.Again.{HasInstances, IsTable}
use ant_http.Plugins.Count.{count}
use ant_http.Plugins.Handles.{opens_of, closes_of, loads, antd_unload_all_plugin-closes}
use ant_http.Plugins.Load.{antd_plugin_load-again}
use ant_http.Plugins.Reopen.{load_times, antd_plugin_load-reopens}
use ant_http.Prelude.{
  ℕ, zero, suc, ◌+◌, codes, true, false, starts_with, str_eq, if◌then◌else◌, none, some, inl, inr,
  List, [], ◌∷◌, All, replicate, length-replicate, sym, ap, ◌∙◌, ◌≡◌, ◌≢◌, refl, arith,
}
use ant_http.Utils.Hash.{hash}

abbrev libraries : Libraries
libraries = record {
  open_library = λ path. some 5;
  symbol = λ library name. true;
  create = λ library ctx. record { raw_body = false; status = plugin_init; data_of = none };
}

abbrev no_settings : PluginConfig
no_settings = record {
  plugins_dir = codes "p";
  plugins_ext = codes ".so";
  tmpdir = codes "/t";
  plugins = dict;
}

abbrev table : PluginTable
table = replicate hash_size []

no_entries : (n : ℕ) → All (All HasInstances) (replicate n [])
no_entries zero = tt
no_entries (suc n) = (tt, no_entries n)

table-IsTable : IsTable table
table-IsTable = record {
  width = length-replicate {A = List PluginEntry} hash_size [];
  valid = no_entries hash_size;
}

count_none : (n : ℕ) → count (replicate n []) ≡ 0
unfolding count
count_none zero = refl
count_none (suc n) = omega (arith, count_none n)

abbrev loaded : Context
loaded = record {
  name = codes "a";
  basedir = codes "p";
  tmpdir = codes "/t";
  raw_body = false;
  status = plugin_ready;
  config = none;
  data_of = none;
  has_drop = true;
}

same_name : file_name no_settings (codes "a") ≡ codes "a"
unfolding file_name dvalue dict ant_http.Utils.Hash.hash ant_http.Dictionary.find_key
    ant_http.Dictionary.value_of
same_name = refl

loads_a : (antd_plugin_load no_settings libraries table (codes "a")).0 ≡ some loaded
unfolding antd_plugin_load hash dvalue
loads_a = refl

antd_plugin_load-again_example :
    antd_plugin_load no_settings libraries
      (antd_plugin_load no_settings libraries table (codes "a")).1
      (codes "a")
    ≡ (some loaded, (antd_plugin_load no_settings libraries table (codes "a")).1, [])
antd_plugin_load-again_example =
    antd_plugin_load-again no_settings libraries table (codes "a") loaded table-IsTable
      (ap (λ n. hash n hash_size) (sym same_name)) loads_a

antd_unload_all_plugin-closes_example :
    closes_of 5
      (antd_unload_all_plugin
        (loads no_settings libraries (codes "a" ∷ codes "b" ∷ codes "a" ∷ []) table).0).1
    ≡ opens_of 5 (loads no_settings libraries (codes "a" ∷ codes "b" ∷ codes "a" ∷ []) table).1
antd_unload_all_plugin-closes_example =
    antd_unload_all_plugin-closes no_settings libraries (codes "a" ∷ codes "b" ∷ codes "a" ∷ [])
      table 5 table-IsTable (count_none hash_size)

-- A plugin `a` that stands in the file `b`.
abbrev in_file_b : PluginConfig
in_file_b = record no_settings {
  plugins = (dput dict (codes "a") (some (dput dict (codes "name") (some (codes "b"))).0)).0;
}

named_b : file_name in_file_b (codes "a") ≡ codes "b"
unfolding file_name dvalue dict hash dput str_eq
named_b = refl

other_chain : hash (codes "a") hash_size ≢ hash (file_name in_file_b (codes "a")) hash_size
unfolding hash
other_chain e = absurd (distinct (e ∙ ap (λ n. hash n hash_size) named_b))
  where
    distinct : ◌≡◌ {A = ℕ} 97 98 → ⊥
    distinct h = omega arith

not_there : plugin_lookup table (file_name in_file_b (codes "a")) ≡ none
unfolding plugin_lookup hash
not_there = ap (plugin_lookup table) named_b

antd_plugin_load-reopens_example :
    ((load_times in_file_b libraries 2 (codes "a") table).1 ≡ 2)
    × (count (load_times in_file_b libraries 2 (codes "a") table).0 ≡ count table + 2)
antd_plugin_load-reopens_example =
    antd_plugin_load-reopens in_file_b libraries 2 (codes "a") table 5 table-IsTable other_chain
      refl not_there

abbrev section_regex : Regex
section_regex pattern text =
    if starts_with (codes "PORT") pattern
    then if starts_with (codes "PORT") text then some ((0, 7) ∷ (5, 7) ∷ []) else none
    else none

abbrev paths : Paths
paths = record { regex = section_regex; realpath = λ path. some path }

abbrev port_setting_of : Setting
port_setting_of = record { section = codes "PORT:80"; name = codes "htdocs"; value = codes "/www" }

abbrev worker_setting : Setting
worker_setting = record { section = codes "SERVER"; name = codes "workers"; value = codes "2" }

-- Another setting of the port, and one of another port.
abbrev rule_setting : Setting
rule_setting = record { section = codes "PORT:80"; name = codes "/(.*)"; value = codes "/b" }

abbrev other_port_setting : Setting
other_port_setting = record {
  section = codes "PORT:90";
  name = codes "htdocs";
  value = codes "/other";
}

abbrev settings : List Setting
settings = worker_setting ∷ port_setting_of ∷ rule_setting ∷ other_port_setting ∷ []

settings_fit : All (λ s. FitsSection paths s.section) settings
unfolding starts_with group
settings_fit = ((tt, tt), ((omega arith, tt), ((omega arith, tt), ((omega arith, tt), tt))))

of_port : IsOfPort paths port_setting_of (codes "80")
unfolding starts_with str_eq group
of_port = (refl, refl, ((0, 7) ∷ (5, 7) ∷ [], refl, refl))

later_settings :
    All (Leaves paths port_setting_of (codes "80")) (rule_setting ∷ other_port_setting ∷ [])
unfolding starts_with str_eq group
later_settings = (inl refl, (inr (inr ((0, 7) ∷ (5, 7) ∷ [], refl, refl)), tt))

load_config-SaysOf_example :
    OnDone
      (λ r. IsConfig r.0 × SaysOf paths port_setting_of (codes "80") r.0)
      (load_config paths libraries table (some settings))
load_config-SaysOf_example =
    load_config-SaysOf paths libraries table (worker_setting ∷ []) port_setting_of
      (rule_setting ∷ other_port_setting ∷ []) (codes "80") settings_fit of_port later_settings

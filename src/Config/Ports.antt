-- ===== src/Config/Ports.antt =====
-- config.c: `load_config`, and the ports that its settings name.

use ant_http.Config.{
  Paths, Setting, default_config, set_port, in_buffer, port_section, other_section, known_setting,
  config_handler, with_settings, port_or_new, port_setting,
}
use ant_http.Config.Load.{load_config}
use ant_http.Config.Valid.{
  FitsGroup, FitsSection, set_port-IsConfig, in_buffer-fits, config_handler-Next, Next,
  port_or_new-IsValid,
}
use ant_http.Config.Tables.{IsConfig, OnDone, OnDone-bind, dvalue-dput}
use ant_http.Config.Says.{Says, port_setting-Says, port_setting-kept}
use ant_http.Decode.Rules.{group}
use ant_http.Dictionary.{dvalue}
use ant_http.Plugins.{PluginTable, Libraries}
use ant_http.Prelude.{
  ◌<◌, ℕ, Bytes, codes, str_eq, str_eq_refl, str_eq_iff, if◌then◌else◌, Bool-cases, ◌⊎◌, inl, inr,
  ap, length, false, none, some, List, [], ◌∷◌, ◌++◌, All, ◌≡◌, refl, sym, ◌∙◌, subst,
}
use ant_http.Request.{Port, Config}
use ant_http.Config.Defaults.{none-some, default_config-IsConfig, init_plugins-IsConfig}

-- The setting stands in the section of a port.
abbrev pub IsOfPort : Paths → Setting → Bytes → Type 0
IsOfPort w s key =
    (str_eq s.section (codes "SERVER") ≡ false)
    × (str_eq s.section (codes "MIMES") ≡ false)
    × ((ms : List (ℕ × ℕ)) × (w.regex (codes "PORT:\\s*([0-9]+)") s.section ≡ some ms)
        × (group s.section ms 1 ≡ key))

-- The section of a setting is not that of the port.
abbrev pub IsOfOther : Paths → Setting → Bytes → Type 0
IsOfOther w s key =
    (w.regex (codes "PORT:\\s*([0-9]+)") s.section ≡ none)
    ⊎ ((ms : List (ℕ × ℕ)) × (w.regex (codes "PORT:\\s*([0-9]+)") s.section ≡ some ms)
        × (str_eq key (group s.section ms 1) ≡ false))

-- A later setting of another name, or of another section.
abbrev pub Leaves : Paths → Setting → Bytes → Setting → Type 0
Leaves w s key r = (str_eq s.name r.name ≡ false) ⊎ IsOfOther w r key

-- The settings have the port, and it is as the setting says.
abbrev pub SaysOf : Paths → Setting → Bytes → Config → Type 0
SaysOf w s key g = (p : Port) × (dvalue g.ports key ≡ some p) × Says w s.name s.value p

-- The port of a table in which one was put.
dvalue-set_port :
    (w : Paths) (k name value j : Bytes) (g : Config)
    → IsConfig g
    → dvalue (set_port w k name value g).ports j ≡ (
        if str_eq j k
        then some (port_setting w name value (port_or_new k (dvalue g.ports k)))
        else dvalue g.ports j)
unfolding set_port
dvalue-set_port w k name value j g h = dvalue-dput g.ports k j _ h.ports.valid

set_port-SaysOf :
    (w : Paths) (s : Setting) (key : Bytes) (g : Config)
    → IsConfig g
    → SaysOf w s key (set_port w key s.name s.value g)
set_port-SaysOf w s key g h =
    let old = port_or_new key (dvalue g.ports key) in
    (
      port_setting w s.name s.value old,
      dvalue-set_port w key s.name s.value key g h ∙ rw (str_eq_refl key) refl,
      port_setting-Says w s.name s.value old (port_or_new-IsValid key g h),
    )

config_handler-SaysOf :
    (w : Paths) (g : Config) (s : Setting) (key : Bytes)
    → IsConfig g
    → FitsSection w s.section
    → IsOfPort w s key
    → OnDone (λ r. IsConfig r.0 × SaysOf w s key r.0) (config_handler w g s.section s.name s.value)
unfolding config_handler known_setting other_section port_section
config_handler-SaysOf w g s key h (f, _) (n, n', (ms, e, k)) =
    let group_fits : length (group s.section ms 1) < 255 = subst (FitsGroup s.section) e f in
    rw (n, n', e)
      (OnDone-bind (λ key'. key' ≡ group s.section ms 1) (λ r. IsConfig r.0 × SaysOf w s key r.0)
        (in_buffer (group s.section ms 1)) _ (in_buffer-fits (group s.section ms 1) group_fits)
        (λ key' e'. (
          set_port-IsConfig w key' s.name s.value g h,
          subst (λ j. SaysOf w s j (set_port w key' s.name s.value g)) (e' ∙ k)
              (set_port-SaysOf w s key' g h),
        )))

-- A setting of the port `k` leaves what is said of the port `key`, where it has another name or is of
-- another port.
set_port-kept :
    (w : Paths) (s r : Setting) (key k : Bytes) (g : Config)
    → IsConfig g
    → (str_eq s.name r.name ≡ false) ⊎ (str_eq key k ≡ false)
    → SaysOf w s key g
    → SaysOf w s key (set_port w k r.name r.value g)
unfolding port_or_new
set_port-kept w s r key k g h other (p, e, says) =
    let put = dvalue-set_port w k r.name r.value key g h in
    elim (Bool-cases (str_eq key k)) [
      | inr n ↦ (p, put ∙ rw n e, says)
      | inl y ↦ elim other [
        | inr n ↦ absurd cc
        | inl n ↦
            let there = subst (λ j. dvalue g.ports j ≡ some p) ((str_eq_iff key k).0 y) e in
            (
              port_setting w r.name r.value p,
              put ∙ rw (y, there) refl,
              port_setting-kept w s.name s.value p r.name r.value (h.ports.values key p e) n says,
            )
      ]
    ]

some_list : {a b : List (ℕ × ℕ)} → some a ≡ some b → a ≡ b
some_list e = cc

-- Whether the other setting changes a port, and that not `key`.
not_of_port :
    (w : Paths) (s r : Setting) (key : Bytes) (ms : List (ℕ × ℕ))
    → w.regex (codes "PORT:\\s*([0-9]+)") r.section ≡ some ms
    → Leaves w s key r
    → (str_eq s.name r.name ≡ false) ⊎ (str_eq key (group r.section ms 1) ≡ false)
not_of_port w s r key ms e (inl n) = inl n
not_of_port w s r key ms e (inr (inl none_there)) = absurd (none-some (sym none_there ∙ e))
not_of_port w s r key ms e (inr (inr (ms', e', n))) =
    inr (subst (λ m. str_eq key (group r.section m 1) ≡ false) (some_list (sym e' ∙ e)) n)

Next-SaysOf :
    (w : Paths) (s r : Setting) (key : Bytes) (g g' : Config)
    → Leaves w s key r
    → IsConfig g
    → SaysOf w s key g
    → Next w r.section r.name r.value g g'
    → SaysOf w s key g'
Next-SaysOf w s r key g g' leaves h (p, e, says) n = elim n.ports [
  | inl same ↦ (p, ap (λ d. dvalue d key) same ∙ e, says)
  | inr (ms, found, put) ↦
      let (q, e', says') =
        set_port-kept w s r key (group r.section ms 1) g h (not_of_port w s r key ms found leaves)
          (p, e, says) in
      (q, ap (λ d. dvalue d key) put ∙ e', says')
]

with_settings-kept :
    (w : Paths) (s : Setting) (key : Bytes) (rest : List Setting) (g : Config)
    → All (λ r. FitsSection w r.section) rest
    → All (Leaves w s key) rest
    → IsConfig g
    → SaysOf w s key g
    → OnDone (λ g'. IsConfig g' × SaysOf w s key g') (with_settings w rest g)
unfolding with_settings
with_settings-kept w s key [] g f l h p = (h, p)
with_settings-kept w s key (r ∷ rest) g (f, fs) (l, ls) h p =
    OnDone-bind (λ r'. Next w r.section r.name r.value g r'.0)
      (λ g'. IsConfig g' × SaysOf w s key g') (config_handler w g r.section r.name r.value) _
      (config_handler-Next w g r.section r.name r.value f h)
      (λ r' n.
        with_settings-kept w s key rest r'.0 fs ls n.config (Next-SaysOf w s r key g r'.0 l h p n))

with_settings-SaysOf :
    (w : Paths) (before : List Setting) (s : Setting) (rest : List Setting) (key : Bytes)
    (g : Config)
    → All (λ s. FitsSection w s.section) (before ++ s ∷ rest)
    → IsOfPort w s key
    → All (Leaves w s key) rest
    → IsConfig g
    → OnDone (λ g'. IsConfig g' × SaysOf w s key g') (with_settings w (before ++ s ∷ rest) g)
unfolding with_settings
with_settings-SaysOf w [] s rest key g (f, fs) o l h =
    OnDone-bind (λ r. IsConfig r.0 × SaysOf w s key r.0) (λ g'. IsConfig g' × SaysOf w s key g')
      (config_handler w g s.section s.name s.value) _ (config_handler-SaysOf w g s key h f o)
      (λ r (h', p). with_settings-kept w s key rest r.0 fs l h' p)
with_settings-SaysOf w (b ∷ before) s rest key g (f, fs) o l h =
    OnDone-bind (λ r. Next w b.section b.name b.value g r.0) (λ g'. IsConfig g' × SaysOf w s key g')
      (config_handler w g b.section b.name b.value) _
      (config_handler-Next w g b.section b.name b.value f h)
      (λ r n. with_settings-SaysOf w before s rest key r.0 fs o l n.config)

-- If the groups of its sections' names fit their buffer, the settings of a file are loaded, and every
-- table of them is well-formed. For a setting in the section of a port that no later setting of the
-- same name and port follows, the loaded port is as the setting says: its directory is the real path of
-- the value, or the value where it has none; `plugins` and `ssl.enable` are set from it, and
-- `protocol` where it is `ipv4` or `ipv6`; under any other name the port's rules hold the value.
pub load_config-SaysOf :
    (w : Paths) (l : Libraries) (table : PluginTable) (before : List Setting) (s : Setting)
    (rest : List Setting) (key : Bytes)
    → All (λ s. FitsSection w s.section) (before ++ s ∷ rest)
    → IsOfPort w s key
    → All (Leaves w s key) rest
    → OnDone
        (λ r. IsConfig r.0 × SaysOf w s key r.0)
        (load_config w l table (some (before ++ s ∷ rest)))
unfolding load_config
load_config-SaysOf w l table before s rest key f o later =
    OnDone-bind (λ g. IsConfig g × SaysOf w s key g) (λ r. IsConfig r.0 × SaysOf w s key r.0)
      (with_settings w (before ++ s ∷ rest) default_config) _
      (with_settings-SaysOf w before s rest key default_config f o later default_config-IsConfig)
      (λ g (h, p). (init_plugins-IsConfig l table g h, p))

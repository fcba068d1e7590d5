-- ===== src/Config/Valid.antt =====
-- config.c: the tables of the settings, whatever is set.
use ant_http.Config.{
  Paths, server_setting, new_port, port_or_new, port_setting, set_port, plugin_or_new, set_plugin,
  in_buffer, plugin_section, port_section, other_section, known_setting, config_handler,
}
use ant_http.Decode.Rules.{group}
use ant_http.Dictionary.{dict, dput, dvalue}
use ant_http.Dictionary.Laws.{IsValid, dput-IsValid, dict_n-IsValid}
use ant_http.Prelude.{
  ℕ, Bytes, codes, str_eq, leb, length, Option, none, some, List, Bool-cases, Option-cases, if-both,
  inl, inr, ◌⊎◌, ◌<◌, ◌≡◌, refl, sym, ap, subst, arith,
}
use ant_http.Request.{Port, Config}
use ant_http.Config.Tables.{HoldsAll, dput-HoldsAll, IsConfig, OnDone, OnDone-bind}

abbrev OnSome {ℓ κ} : {A : Type ℓ} → (A → Type κ) → Option A → Type κ
OnSome P none = Unit
OnSome P (some a) = P a

-- A setting of the section SERVER changes no table.
abbrev pub SameTables : Config → Config → Type 0
SameTables g g' =
    (g'.handlers ≡ g.handlers)
    × (g'.mimes ≡ g.mimes)
    × (g'.ports ≡ g.ports)
    × (g'.plugins ≡ g.plugins)

pub server_setting-SameTables :
    (w : Paths) (name value : Bytes) (g : Config)
    → OnSome (SameTables g) (server_setting w name value g)
unfolding server_setting
server_setting-SameTables w name value g =
    let P : Option Config → Type 0 = OnSome (SameTables g) in
    if-both P (str_eq name (codes "plugins")) (refl, refl, refl, refl)
      (if-both P (str_eq name (codes "plugins_ext")) (refl, refl, refl, refl)
        (if-both P (str_eq name (codes "tmpdir")) (refl, refl, refl, refl)
          (if-both P (str_eq name (codes "statistic_fifo")) (refl, refl, refl, refl)
            (if-both P (str_eq name (codes "max_upload_size")) (refl, refl, refl, refl)
              (if-both P (str_eq name (codes "maxcon")) (refl, refl, refl, refl)
                (if-both P (str_eq name (codes "backlog")) (refl, refl, refl, refl)
                  (if-both P (str_eq name (codes "workers")) (refl, refl, refl, refl)
                    (if-both P (str_eq name (codes "debug_enable")) (refl, refl, refl, refl)
                      (if-both P (str_eq name (codes "scheduler_timeout")) (refl, refl, refl, refl)
                        (if-both P (str_eq name (codes "ssl.cert")) (refl, refl, refl, refl)
                          (if-both P (str_eq name (codes "ssl.key")) (refl, refl, refl, refl)
                            (if-both P (str_eq name (codes "ssl.cipher")) (refl, refl, refl, refl)
                              (tt)))))))))))))

IsConfig-SameTables : (g g' : Config) → SameTables g g' → IsConfig g → IsConfig g'
IsConfig-SameTables g g' (a, b, c, d) h = record {
  handlers = subst IsValid (sym a) h.handlers;
  mimes = subst IsValid (sym b) h.mimes;
  ports = subst (HoldsAll (λ p. IsValid p.rules)) (sym c) h.ports;
  plugins = subst (HoldsAll (λ p. IsValid p)) (sym d) h.plugins;
}

pub port_or_new-IsValid :
    (key : Bytes) (g : Config) → IsConfig g → IsValid (port_or_new key (dvalue g.ports key)).rules
unfolding port_or_new new_port
port_or_new-IsValid key g h = elim (Option-cases (dvalue g.ports key)) [
  | inl n ↦ rw n (dict_n-IsValid 1 (omega arith))
  | inr (p, e) ↦ rw e (h.ports.values key p e)
]

plugin_or_new-IsValid :
    (key : Bytes) (g : Config) → IsConfig g → IsValid (plugin_or_new (dvalue g.plugins key))
unfolding plugin_or_new dict
plugin_or_new-IsValid key g h = elim (Option-cases (dvalue g.plugins key)) [
  | inl n ↦ rw n (dict_n-IsValid 16 (omega arith))
  | inr (p, e) ↦ rw e (h.plugins.values key p e)
]

port_setting-IsValid :
    (w : Paths) (name value : Bytes) (p : Port)
    → IsValid p.rules
    → IsValid (port_setting w name value p).rules
unfolding port_setting
port_setting-IsValid w name value p h =
    let P : Port → Type 0 = λ p. IsValid p.rules in
    if-both P (str_eq name (codes "htdocs")) h (
      if-both P (str_eq name (codes "plugins")) h (
        if-both P (str_eq name (codes "ssl.enable")) h (
          if-both P (str_eq name (codes "protocol"))
            (if-both P (str_eq value (codes "ipv4")) h
              (if-both P (str_eq value (codes "ipv6")) h h))
            (dput-IsValid p.rules name (some value) h))))

pub set_port-IsConfig :
    (w : Paths) (key name value : Bytes) (g : Config)
    → IsConfig g
    → IsConfig (set_port w key name value g)
unfolding set_port
set_port-IsConfig w key name value g h = record {
  handlers = h.handlers;
  mimes = h.mimes;
  ports =
      dput-HoldsAll (λ p. IsValid p.rules) g.ports key _ h.ports
        (port_setting-IsValid w name value _ (port_or_new-IsValid key g h));
  plugins = h.plugins;
}

set_plugin-IsConfig :
    (key name value : Bytes) (g : Config) → IsConfig g → IsConfig (set_plugin key name value g)
unfolding set_plugin
set_plugin-IsConfig key name value g h = record {
  handlers = h.handlers;
  mimes = h.mimes;
  ports = h.ports;
  plugins =
      dput-HoldsAll (λ p. IsValid p) g.plugins key _ h.plugins
        (dput-IsValid _ name _ (plugin_or_new-IsValid key g h));
}

-- The group of a section's name fits the buffer.
abbrev pub FitsGroup : Bytes → Option (List (ℕ × ℕ)) → Type 0
FitsGroup section none = Unit
FitsGroup section (some ms) = length (group section ms 1) < 255

abbrev pub FitsSection : Paths → Bytes → Type 0
FitsSection w section =
    FitsGroup section (w.regex (codes "PORT:\\s*([0-9]+)") section)
    × FitsGroup section (w.regex (codes "PLUGIN:\\s*(.*)") section)

pub in_buffer-fits : (key : Bytes) → length key < 255 → OnDone (λ k. k ≡ key) (in_buffer key)
unfolding in_buffer
in_buffer-fits key h = elim (Bool-cases (leb 255 (length key))) [
  | inl y ↦ absurd (ground arith)
  | inr n ↦ rw n refl
]

-- What a setting leaves: well-formed tables, and the ports that were there, but that a setting of a port
-- changes that port, or makes it.
pub record Next (w : Paths) (section name value : Bytes) (g g' : Config) : Type 0 where
  pub config : IsConfig g'
  pub ports :
      (g'.ports ≡ g.ports)
      ⊎ ((ms : List (ℕ × ℕ)) × (w.regex (codes "PORT:\\s*([0-9]+)") section ≡ some ms)
          × (g'.ports ≡ (set_port w (group section ms 1) name value g).ports))

pub same_ports :
    {w : Paths} {section name value : Bytes} (g g' : Config)
    → g'.ports ≡ g.ports
    → IsConfig g'
    → Next w section name value g g'
same_ports g g' e h = record { config = h; ports = inl e }

plugin_section-Next :
    (w : Paths) (section name value : Bytes) (g : Config) (o : Option (List (ℕ × ℕ)))
    → FitsGroup section o
    → IsConfig g
    → OnDone (λ r. Next w section name value g r.0) (plugin_section section name value g o)
unfolding plugin_section
plugin_section-Next w section name value g none f h = same_ports g g refl h
plugin_section-Next w section name value g (some ms) f h =
    OnDone-bind (λ k. k ≡ group section ms 1) (λ r. Next w section name value g r.0)
      (in_buffer (group section ms 1)) _ (in_buffer-fits (group section ms 1) f)
      (λ key _.
        same_ports g (set_plugin key name value g) (unfold set_plugin in refl)
          (set_plugin-IsConfig key name value g h))

port_section-Next :
    (w : Paths) (section name value : Bytes) (g : Config) (o : Option (List (ℕ × ℕ)))
    → w.regex (codes "PORT:\\s*([0-9]+)") section ≡ o
    → FitsGroup section o
    → FitsGroup section (w.regex (codes "PLUGIN:\\s*(.*)") section)
    → IsConfig g
    → OnDone (λ r. Next w section name value g r.0) (port_section w section name value g o)
unfolding port_section
port_section-Next w section name value g none e f f' h =
    plugin_section-Next w section name value g _ f' h
port_section-Next w section name value g (some ms) e f f' h =
    OnDone-bind (λ k. k ≡ group section ms 1) (λ r. Next w section name value g r.0)
      (in_buffer (group section ms 1)) _ (in_buffer-fits (group section ms 1) f)
      (λ key k. record {
        config = set_port-IsConfig w key name value g h;
        ports = inr (ms, e, ap (λ j. (set_port w j name value g).ports) k);
      })

other_section-Next :
    (w : Paths) (section name value : Bytes) (g : Config)
    → FitsSection w section
    → IsConfig g
    → OnDone (λ r. Next w section name value g r.0) (other_section w section name value g)
unfolding other_section
other_section-Next w section name value g (f, f') h =
    if-both (OnDone (λ r. Next w section name value g r.0)) (str_eq section (codes "MIMES"))
      (same_ports g (record g { mimes = (dput g.mimes name (some value)).0 }) refl
        record {
          handlers = h.handlers;
          mimes = dput-IsValid g.mimes name (some value) h.mimes;
          ports = h.ports;
          plugins = h.plugins;
        })
      (port_section-Next w section name value g _ refl f f' h)

pub known_setting-Next :
    (w : Paths) (section name value : Bytes) (g : Config) (o : Option Config)
    → OnSome (SameTables g) o
    → FitsSection w section
    → IsConfig g
    → OnDone (λ r. Next w section name value g r.0) (known_setting w section name value g o)
unfolding known_setting
known_setting-Next w section name value g none s f h = other_section-Next w section name value g f h
known_setting-Next w section name value g (some g₁) s f h =
    same_ports g g₁ s.2 (IsConfig-SameTables g g₁ s h)

-- Where the group of a section's name fits its buffer, every setting, known or not, is handled and
-- leaves well-formed tables.
pub config_handler-Next :
    (w : Paths) (g : Config) (section name value : Bytes)
    → FitsSection w section
    → IsConfig g
    → OnDone (λ r. Next w section name value g r.0) (config_handler w g section name value)
unfolding config_handler
config_handler-Next w g section name value f h =
    known_setting-Next w section name value g _
      (if-both (OnSome (SameTables g)) (str_eq section (codes "SERVER"))
        (server_setting-SameTables w name value g) tt)
      f h

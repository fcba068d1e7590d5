-- ===== src/Config/Says.antt =====
-- config.c: what a setting of a port says of the port.
use ant_http.Config.{Paths, port_setting, path_or}
use ant_http.Config.Tables.{dvalue-dput}
use ant_http.Dictionary.{dput, dvalue}
use ant_http.Dictionary.Laws.{IsValid}
use ant_http.Prelude.{
  Bytes, codes, str_eq, str_eq_iff, str_eq_refl, Bool, true, false, if◌then◌else◌, Option, none,
  some, Bool-cases, ◌⊎◌, inl, inr, ◌≡◌, refl, ◌∙◌, subst,
}
use ant_http.Request.{Port, Proto, ip_4, ip_6}
use ant_http.Utils.Decimal.{atoi}

-- The directory is the real path of the value, or the value where it has none.
abbrev IsDirectory : Paths → Bytes → Option Bytes → Type 0
IsDirectory w value dir =
    ((path : Bytes) × (w.realpath value ≡ some path) × (dir ≡ some path))
    ⊎ ((w.realpath value ≡ none) × (dir ≡ some value))

abbrev IsProtocol : Bytes → Proto → Type 0
IsProtocol value type =
    if str_eq value (codes "ipv4")
    then type ≡ ip_4
    else if str_eq value (codes "ipv6")
    then type ≡ ip_6
    else Unit

-- The port is as the setting says: every name that is not one of four is that of a rule.
unfoldable pub Says : Paths → Bytes → Bytes → Port → Type 0
Says w name value p =
    if str_eq name (codes "htdocs")
    then IsDirectory w value p.htdocs
    else if str_eq name (codes "plugins")
    then p.plugins ≡ some value
    else if str_eq name (codes "ssl.enable")
    then p.use_ssl ≡ some (atoi value)
    else if str_eq name (codes "protocol")
    then IsProtocol value p.type
    else dvalue p.rules name ≡ some value

real_path :
    (w : Paths) (value : Bytes) (o : Option Bytes)
    → w.realpath value ≡ o
    → IsDirectory w value (some (path_or o value))
unfolding path_or
real_path w value none e = inr (e, refl)
real_path w value (some path) e = inl (path, e, refl)

-- The setting takes effect.
pub port_setting-Says :
    (w : Paths) (name value : Bytes) (p : Port)
    → IsValid p.rules
    → Says w name value (port_setting w name value p)
unfolding Says port_setting
port_setting-Says w name value p v = elim (Bool-cases (str_eq name (codes "htdocs"))) [
  | inl y ↦ rw y (real_path w value (w.realpath value) refl)
  | inr n ↦ rw n (elim (Bool-cases (str_eq name (codes "plugins"))) [
    | inl y ↦ rw y refl
    | inr n' ↦ rw n' (elim (Bool-cases (str_eq name (codes "ssl.enable"))) [
      | inl y ↦ rw y refl
      | inr m ↦ rw m (elim (Bool-cases (str_eq name (codes "protocol"))) [
        | inl y ↦ rw y (elim (Bool-cases (str_eq value (codes "ipv4"))) [
          | inl z ↦ rw z refl
          | inr k ↦ rw k (elim (Bool-cases (str_eq value (codes "ipv6"))) [
            | inl z ↦ rw z refl
            | inr k' ↦ rw k' tt
          ])
        ])
        | inr m' ↦ rw m' (dvalue-dput p.rules name name value v ∙ rw (str_eq_refl name) refl)
      ])
    ])
  ])
]

if_map :
    {P P' Q Q' : Type 0} (b : Bool)
    → (P → P')
    → (Q → Q')
    → (if b then P else Q)
    → if b then P' else Q'
if_map true f g x = f x
if_map false f g x = g x

if_skip :
    (P P' : Type 0) {Q Q' : Type 0} (b : Bool)
    → b ≡ false
    → (Q → Q')
    → (if b then P else Q)
    → if b then P' else Q'
if_skip P P' true e g x = absurd cc
if_skip P P' false e g x = g x

other_name :
    (name name' c : Bytes)
    → str_eq name name' ≡ false
    → str_eq name' c ≡ true
    → str_eq name c ≡ false
other_name name name' c n y = subst (λ k. str_eq name k ≡ false) ((str_eq_iff name' c).0 y) n

module _ (w : Paths) (name value : Bytes) (p : Port) where
  Says-htdocs :
      (dir : Option Bytes)
      → str_eq name (codes "htdocs") ≡ false
      → Says w name value p
      → Says w name value (record p { htdocs = dir })
  unfolding Says
  Says-htdocs dir n = if_skip _ _ (str_eq name (codes "htdocs")) n (λ x. x)

  Says-plugins :
      (text : Option Bytes)
      → str_eq name (codes "plugins") ≡ false
      → Says w name value p
      → Says w name value (record p { plugins = text })
  unfolding Says
  Says-plugins text n =
      if_map (str_eq name (codes "htdocs")) (λ x. x)
        (if_skip _ _ (str_eq name (codes "plugins")) n (λ x. x))

  Says-ssl :
      (text : Bytes)
      → str_eq name (codes "ssl.enable") ≡ false
      → Says w name value p
      → Says w name value (record p { use_ssl = some (atoi text) })
  unfolding Says
  Says-ssl text n =
      if_map (str_eq name (codes "htdocs")) (λ x. x)
        (if_map (str_eq name (codes "plugins")) (λ x. x)
          (if_skip _ _ (str_eq name (codes "ssl.enable")) n (λ x. x)))

  Says-type :
      (type : Proto)
      → str_eq name (codes "protocol") ≡ false
      → Says w name value p
      → Says w name value (record p { type = type })
  unfolding Says
  Says-type type n =
      if_map (str_eq name (codes "htdocs")) (λ x. x)
        (if_map (str_eq name (codes "plugins")) (λ x. x)
          (if_map (str_eq name (codes "ssl.enable")) (λ x. x)
            (if_skip _ _ (str_eq name (codes "protocol")) n (λ x. x))))

  Says-rule :
      (name' value' : Bytes)
      → IsValid p.rules
      → str_eq name name' ≡ false
      → Says w name value p
      → Says w name value (record p { rules = (dput p.rules name' (some value')).0 })
  unfolding Says
  Says-rule name' value' v n =
      if_map (str_eq name (codes "htdocs")) (λ x. x)
        (if_map (str_eq name (codes "plugins")) (λ x. x)
          (if_map (str_eq name (codes "ssl.enable")) (λ x. x)
            (if_map (str_eq name (codes "protocol")) (λ x. x)
              (λ e. dvalue-dput p.rules name' name value' v ∙ rw n e))))

  -- A setting with another name leaves it as it is.
  pub port_setting-kept :
      (name' value' : Bytes)
      → IsValid p.rules
      → str_eq name name' ≡ false
      → Says w name value p
      → Says w name value (port_setting w name' value' p)
  unfolding port_setting
  port_setting-kept name' value' v n s =
      let other : (c : Bytes) → str_eq name' c ≡ true → str_eq name c ≡ false =
        λ c. other_name name name' c n in
      elim (Bool-cases (str_eq name' (codes "htdocs"))) [
        | inl y ↦ rw y (Says-htdocs _ (other _ y) s)
        | inr a ↦ rw a (elim (Bool-cases (str_eq name' (codes "plugins"))) [
          | inl y ↦ rw y (Says-plugins _ (other _ y) s)
          | inr b ↦ rw b (elim (Bool-cases (str_eq name' (codes "ssl.enable"))) [
            | inl y ↦ rw y (Says-ssl value' (other _ y) s)
            | inr c ↦ rw c (elim (Bool-cases (str_eq name' (codes "protocol"))) [
              | inl y ↦ rw y (elim (Bool-cases (str_eq value' (codes "ipv4"))) [
                | inl z ↦ rw z (Says-type ip_4 (other _ y) s)
                | inr d ↦ rw d (elim (Bool-cases (str_eq value' (codes "ipv6"))) [
                  | inl z ↦ rw z (Says-type ip_6 (other _ y) s)
                  | inr e ↦ rw e s
                ])
              ])
              | inr d ↦ rw d (Says-rule name' value' v n s)
            ])
          ])
        ])
      ]

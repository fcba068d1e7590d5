-- ===== src/Config/Tables.antt =====
-- config.c: well-formed tables of settings.

use ant_http.Dictionary.{Dictionary, dput, dvalue}
use ant_http.Dictionary.Laws.{IsValid, dlookup-dput, dput-IsValid}
use ant_http.Prelude.{
  Bytes, str_eq, if◌then◌else◌, some, Bool-cases, inl, inr, ◌≡◌, refl, sym, ◌∙◌, subst,
}
use ant_http.Request.{Config, Outcome, done, ◌>>=◌}

-- A table whose values all have a property.
pub record HoldsAll {V : Type 0} (P : V → Type 0) (d : Dictionary V) : Type 0 where
  pub valid : IsValid d
  pub values : (k : Bytes) (v : V) → dvalue d k ≡ some v → P v

module _ {V : Type 0} where
  pub dvalue-dput :
      (d : Dictionary V) (k j : Bytes) (v : V)
      → IsValid d
      → dvalue (dput d k (some v)).0 j ≡ (if str_eq j k then some v else dvalue d j)
  unfolding dvalue
  dvalue-dput d k j v h = elim (Bool-cases (str_eq j k)) [
    | inl y ↦ rw (dlookup-dput d k j (some v) h, y) refl
    | inr n ↦ rw (dlookup-dput d k j (some v) h, n) refl
  ]

  some_eq : {a b : V} → some a ≡ some b → a ≡ b
  some_eq e = cc

  pub dput-HoldsAll :
      (P : V → Type 0) (d : Dictionary V) (k : Bytes) (v : V)
      → HoldsAll P d
      → P v
      → HoldsAll P (dput d k (some v)).0
  dput-HoldsAll P d k v h p = record {
    valid = dput-IsValid d k (some v) h.valid;
    values = λ j u e.
        let e' : (if str_eq j k then some v else dvalue d j) ≡ some u =
          sym (dvalue-dput d k j v h.valid) ∙ e in
        elim (Bool-cases (str_eq j k)) [
          | inl y ↦ subst P (some_eq (rw y at e')) p
          | inr n ↦ h.values j u (rw n at e')
        ];
  }

-- Every table of the settings is well-formed.
pub record IsConfig (g : Config) : Type 0 where
  pub handlers : IsValid g.handlers
  pub mimes : IsValid g.mimes
  pub ports : HoldsAll (λ p. IsValid p.rules) g.ports
  pub plugins : HoldsAll (λ p. IsValid p) g.plugins

-- A result is returned, and has a property.
abbrev pub OnDone {ℓ} : {A : Type ℓ} → (A → Type 0) → Outcome A → Type 0
OnDone P (done a) = P a
OnDone P Outcome.null_text = ⊥
OnDone P Outcome.overrun = ⊥
OnDone P Outcome.no_fuel = ⊥

pub OnDone-bind {ℓ κ} :
    {A : Type ℓ} {B : Type κ} (P : A → Type 0) (Q : B → Type 0) (o : Outcome A) (f : A → Outcome B)
    → OnDone P o
    → ((a : A) → P a → OnDone Q (f a))
    → OnDone Q (o >>= f)
OnDone-bind P Q (done a) f h k = k a h
OnDone-bind P Q Outcome.null_text f h k = absurd h
OnDone-bind P Q Outcome.overrun f h k = absurd h
OnDone-bind P Q Outcome.no_fuel f h k = absurd h

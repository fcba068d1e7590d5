-- ===== src/Plugins/Again.antt =====
-- plugin_manager.c: `antd_plugin_load`, once a plugin was loaded.
use ant_http.Dictionary.{Dictionary, dvalue, dput}
use ant_http.Dictionary.Laws.{IsValid, dlookup-dput, dput-IsValid}
use ant_http.Plugins.{
  Context, PluginEntry, PluginTable, PluginConfig, Libraries, PluginCall, opened, created, dropped,
  closed, Created, Looked, hash_size, find_entry, antd_plugin_ctx_drop, without_context,
  after_create, new_context, create_context, known_or_new, antd_plugin_ctx_lookup, if_ready,
  is_ready, is_panic, replace_entry,
}
use ant_http.Prelude.{
  ℕ, suc, ◌+◌, Bytes, codes, str_eq, str_eq_refl, str_eq_iff, if-both, Bool, true, Option, none,
  some, List, [], ◌∷◌, ◌++◌, All, length, Bool-cases, Option-cases, inl, inr, ◌≡◌, refl, sym, ap,
  ◌∙◌, arith,
}

abbrev pub HasInstances : PluginEntry → Type 0
HasInstances np = IsValid np.instances

-- Every chain has its place, and every table of instances is well-formed.
pub record IsTable (table : PluginTable) : Type 0 where
  pub width : length table ≡ hash_size
  pub valid : All (All HasInstances) table

dvalue-dput :
    (d : Dictionary Context) (k : Bytes) (v : Option Context)
    → IsValid d
    → dvalue (dput d k v).0 k ≡ v
unfolding dvalue
dvalue-dput d k v h = rw (dlookup-dput d k k v h, str_eq_refl k) refl

-- How many libraries are opened.
abbrev pub opens : List PluginCall → ℕ
opens [] = 0
opens (opened n ∷ calls) = suc (opens calls)
opens (created n s ∷ calls) = opens calls
opens (dropped n s ∷ calls) = opens calls
opens (closed n ∷ calls) = opens calls

opens-append : (xs ys : List PluginCall) → opens (xs ++ ys) ≡ opens xs + opens ys
opens-append [] ys = omega arith
opens-append (opened n ∷ xs) ys = omega (arith, opens-append xs ys)
opens-append (created n s ∷ xs) ys = opens-append xs ys
opens-append (dropped n s ∷ xs) ys = opens-append xs ys
opens-append (closed n ∷ xs) ys = opens-append xs ys

-- What a lookup leaves: the entry is that of before, and holds the context that was given; no library
-- was opened.
pub record IsLooked (np : PluginEntry) (name : Bytes) (r : Looked) : Type 0 where
  pub same_name : r.1.name ≡ np.name
  pub same_library : r.1.library ≡ np.library
  pub valid : IsValid r.1.instances
  pub quiet : opens r.2 ≡ 0
  pub kept : (ctx : Context) → r.0 ≡ some ctx → dvalue r.1.instances name ≡ some ctx

opens-drop : (np : PluginEntry) (ctx : Context) → opens (antd_plugin_ctx_drop np ctx).1 ≡ 0
unfolding antd_plugin_ctx_drop
opens-drop np ctx = if-both (λ calls. opens calls ≡ 0) ctx.has_drop refl refl

without_context-IsLooked :
    (np : PluginEntry) (name : Bytes) (calls : List PluginCall) (ctx : Context) (np₁ : PluginEntry)
    → IsValid np₁.instances
    → np₁.name ≡ np.name
    → np₁.library ≡ np.library
    → opens calls ≡ 0
    → IsLooked np name (without_context calls (antd_plugin_ctx_drop np₁ ctx))
unfolding without_context antd_plugin_ctx_drop
without_context-IsLooked np name calls ctx np₁ v e e' q = record {
  same_name = e;
  same_library = e';
  quiet = opens-append calls _ ∙ omega (arith, q, opens-drop np₁ ctx);
  valid = dput-IsValid np₁.instances ctx.name none v;
  kept = λ c n. cc;
}

after_create-IsLooked :
    (np : PluginEntry) (name : Bytes) (ctx : Context) (made : Created)
    → IsValid np.instances
    → IsLooked np name (after_create np name ctx made)
unfolding after_create
after_create-IsLooked np name ctx made v = elim (Bool-cases (is_panic made.status)) [
  | inl y ↦ rw y (
      without_context-IsLooked np name (created np.library name ∷ [])
        (record ctx { raw_body = made.raw_body; data_of = made.data_of; status = made.status }) np v
        refl refl refl)
  | inr n ↦ rw n record {
    same_name = refl;
    same_library = refl;
    quiet = refl;
    valid = dput-IsValid np.instances name _ v;
    kept = λ c e. dvalue-dput np.instances name _ v ∙ e;
  }
]

create_context-IsLooked :
    (g : PluginConfig) (l : Libraries) (np : PluginEntry) (name : Bytes)
    → IsValid np.instances
    → IsLooked np name (create_context g l np name)
unfolding create_context
create_context-IsLooked g l np name v =
    let ctx = new_context g name in
    let with_drop = record ctx { has_drop = true } in
    let missing : (x : Context)
        → IsLooked np name (without_context [] (antd_plugin_ctx_drop np x)) =
      λ x. without_context-IsLooked np name [] x np v refl refl refl in
    if-both (IsLooked np name) (l.symbol np.library (codes "handle"))
      (if-both (IsLooked np name) (l.symbol np.library (codes "drop"))
        (if-both (IsLooked np name) (l.symbol np.library (codes "create"))
          (after_create-IsLooked np name with_drop (l.create np.library with_drop) v)
          (missing with_drop))
        (missing ctx))
      (missing ctx)

lookup-IsLooked :
    (g : PluginConfig) (l : Libraries) (np : PluginEntry) (name : Bytes)
    → IsValid np.instances
    → IsLooked np name (antd_plugin_ctx_lookup g l np name)
unfolding antd_plugin_ctx_lookup known_or_new
lookup-IsLooked g l np name v = elim (Option-cases (dvalue np.instances name)) [
  | inl none_there ↦ rw none_there (create_context-IsLooked g l np name v)
  | inr (ctx, there) ↦ rw there record {
    same_name = refl;
    same_library = refl;
    valid = v;
    quiet = refl;
    kept = λ c e. there ∙ e;
  }
]

-- A context that is given is ready, and the same entry gives it again.
pub record IsKept (np : PluginEntry) (name : Bytes) (r : Looked) : Type 0 where
  pub looked : IsLooked np name r
  pub usable : (ctx : Context) → r.0 ≡ some ctx → is_ready ctx.status ≡ true

-- Whether the context, if there is one, is ready.
abbrev ready_in : Option Context → Bool
ready_in none = true
ready_in (some ctx) = is_ready ctx.status

if_ready-IsKept :
    (np : PluginEntry) (name : Bytes) (r : Looked)
    → IsLooked np name r
    → IsKept np name (if_ready r)
unfolding if_ready
if_ready-IsKept np name (none, np₁, calls) h = record { looked = h; usable = λ c e. cc }
if_ready-IsKept np name (some ctx, np₁, calls) h = elim (Bool-cases (is_ready ctx.status)) [
  | inl y ↦ rw y record { looked = h; usable = λ c e. ap (λ o. ready_in o) (sym e) ∙ y }
  | inr n ↦ rw n record {
    looked =
        without_context-IsLooked np name calls ctx np₁ h.valid h.same_name h.same_library h.quiet;
    usable = λ c e. unfold without_context antd_plugin_ctx_drop in cc;
  }
]

pub context_for-IsKept :
    (g : PluginConfig) (l : Libraries) (np : PluginEntry) (name : Bytes)
    → IsValid np.instances
    → IsKept np name (if_ready (antd_plugin_ctx_lookup g l np name))
context_for-IsKept g l np name v = if_ready-IsKept np name _ (lookup-IsLooked g l np name v)

-- The second time nothing is created or dropped.
pub context_for-again :
    (g : PluginConfig) (l : Libraries) (np : PluginEntry) (name : Bytes) (ctx : Context)
    → dvalue np.instances name ≡ some ctx
    → is_ready ctx.status ≡ true
    → if_ready (antd_plugin_ctx_lookup g l np name) ≡ (some ctx, np, [])
unfolding if_ready antd_plugin_ctx_lookup known_or_new
context_for-again g l np name ctx e y = rw (e, y) refl

-- An entry that was looked for by its name.
abbrev pub Named : Bytes → Option PluginEntry → Type 0
Named s none = Unit
Named s (some np) = (np.name ≡ s) × IsValid np.instances

pub find_entry-Named :
    (s : Bytes) (c : List PluginEntry) → All HasInstances c → Named s (find_entry s c)
unfolding find_entry
find_entry-Named s [] h = tt
find_entry-Named s (n ∷ c) (v, h) = elim (Bool-cases (str_eq s n.name)) [
  | inl y ↦ rw y (sym ((str_eq_iff s n.name).0 y), v)
  | inr other ↦ rw other (find_entry-Named s c h)
]

pub find_entry-first :
    (s : Bytes) (np : PluginEntry) (c : List PluginEntry)
    → np.name ≡ s
    → find_entry s (np ∷ c) ≡ some np
unfolding find_entry
find_entry-first s np c e = rw (e, str_eq_refl s) refl

pub find_entry-replace_entry :
    (np np₁ : PluginEntry) (c : List PluginEntry)
    → find_entry np₁.name c ≡ some np
    → find_entry np₁.name (replace_entry np₁ c) ≡ some np₁
unfolding find_entry replace_entry
find_entry-replace_entry np np₁ [] f = cc
find_entry-replace_entry np np₁ (n ∷ c) f = elim (Bool-cases (str_eq np₁.name n.name)) [
  | inl y ↦ rw y (find_entry-first np₁.name np₁ c refl)
  | inr other ↦ rw (other, other) (find_entry-replace_entry np np₁ c (rw other at f))
]

pub some_entry : {a b : PluginEntry} → some a ≡ some b → a ≡ b
some_entry e = cc

pub replace_entry-same :
    (np : PluginEntry) (c : List PluginEntry)
    → find_entry np.name c ≡ some np
    → replace_entry np c ≡ c
unfolding find_entry replace_entry
replace_entry-same np [] f = refl
replace_entry-same np (n ∷ c) f = elim (Bool-cases (str_eq np.name n.name)) [
  | inl y ↦ rw y (ap (λ m. m ∷ c) (sym (some_entry (rw y at f))))
  | inr other ↦ rw other (ap (λ r. n ∷ r) (replace_entry-same np c (rw other at f)))
]

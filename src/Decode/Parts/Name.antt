-- ===== src/Decode/Parts/Name.antt =====
-- decode.c: the name of a part, from the text of its Content-Disposition.
use ant_http.Decode.Parts.{
  PartName, disposition, unquoted, with_value, with_token, with_tokens, part_name_of,
}
use ant_http.Decode.Parts.Lines.{line_of}
use ant_http.Decode.Tokens.{IsWithout, tokens, tokens-join, join, strsep_whole}
use ant_http.Prelude.{
  ℕ, ◌==◌, Bytes, codes, str_eq, Bool, true, not, ◌&&◌, none, some, [], ◌∷◌, ◌++◌, append_assoc,
  All-append, IsText, ◌≡◌, ◌≢◌, refl, sym, ap, ◌∙◌, arith,
}
use ant_http.Utils.Trim.{trim}
use ant_http.Utils.Trim.Ends.{trim_copies_of, trim_whole, trim_quotes, ends_snoc}

abbrev pub is_without : ℕ → Bytes → Bool
is_without d [] = true
is_without d (c ∷ s) = not (c == d) && is_without d s

pub is_without_lem : (d : ℕ) (s : Bytes) → is_without d s ≡ true → IsWithout d s
is_without_lem d [] h = tt
is_without_lem d (c ∷ s) h = (ground arith, is_without_lem d s (ground arith))

-- A name that stands between quotes.
abbrev pub IsFieldName : Bytes → Type 0
IsFieldName name =
    (name ≢ [])
    × IsText name
    × IsWithout b';' name
    × IsWithout b'=' name
    × IsWithout b'"' name
    × IsWithout b'\n' name

-- `Content-Disposition: form-data; name="..."`, and the return before the newline.
abbrev pub form_data : Bytes
form_data = disposition ++ codes " form-data"

abbrev pub quoted : Bytes → Bytes
quoted s = b'"' ∷ (s ++ (b'"' ∷ []))

abbrev pub name_token : Bytes → Bytes
name_token name = codes " name=" ++ (quoted name ++ (b'\r' ∷ []))

abbrev pub field_head : Bytes → Bytes
field_head name = form_data ++ (b';' ∷ name_token name)

unquoted-quoted :
    (name : Bytes) → IsFieldName name → unquoted (quoted name ++ (b'\r' ∷ b'\n' ∷ [])) ≡ name
unfolding unquoted
unquoted-quoted name (ne, _, _, _, q, n) =
    let Q = quoted name in
    let split = sym (append_assoc Q (b'\r' ∷ []) (b'\n' ∷ [])) in
    let s₁ : trim (Q ++ (b'\r' ∷ b'\n' ∷ [])) b' ' ≡ (Q ++ (b'\r' ∷ [])) ++ (b'\n' ∷ []) =
      ap (λ t. trim t b' ') split
      ∙ trim_whole b' ' ((Q ++ (b'\r' ∷ [])) ++ (b'\n' ∷ [])) (λ e. cc) (λ e. omega arith)
          (ends_snoc b' ' (Q ++ (b'\r' ∷ [])) b'\n' (λ e. omega arith)) in
    let s₂ =
      trim_copies_of b'\n' 1 (Q ++ (b'\r' ∷ [])) (λ e. cc) (λ e. omega arith)
        (ends_snoc b'\n' Q b'\r' (λ e. omega arith)) in
    let s₃ =
      trim_copies_of b'\r' 1 Q (λ e. cc) (λ e. omega arith)
        (ends_snoc b'\r' (b'"' ∷ name) b'"' (λ e. omega arith)) in
    ap (λ t. trim (trim (trim t b'\n') b'\r') b'"') s₁
    ∙ ap (λ t. trim (trim t b'\r') b'"') s₂
    ∙ ap (λ t. trim t b'"') s₃
    ∙ trim_quotes b'"' name ne q

form_data-token : (p : PartName) → with_token form_data p ≡ p
unfolding with_token with_value
form_data-token p = refl

-- The text behind the key and its `=`.
abbrev behind_key : Bytes → Bytes
behind_key name = quoted name ++ (b'\r' ∷ b'\n' ∷ [])

behind_key-IsWithout :
    (d : ℕ) (name : Bytes)
    → IsWithout d name
    → b'"' ≢ d
    → b'\r' ≢ d
    → b'\n' ≢ d
    → IsWithout d (behind_key name)
behind_key-IsWithout d name h q r n = (
  q,
  All-append (λ c. c ≢ d) (name ++ (b'"' ∷ [])) (b'\r' ∷ b'\n' ∷ [])
      (All-append (λ c. c ≢ d) name (b'"' ∷ []) h (q, tt)) (r, (n, tt)),
)

name_token-value :
    (name : Bytes) (p : PartName)
    → IsFieldName name
    → with_token (codes " name=" ++ behind_key name) p ≡ record p { name = some name }
unfolding with_token with_value str_eq
name_token-value name p (ne, t, s, e, q, n) =
    let w =
      strsep_whole b'=' (behind_key name) (
        behind_key-IsWithout b'=' name e (λ h. omega arith) (λ h. omega arith)
          (λ h. omega arith)) in
    ap (λ r. record p { name = some (unquoted r.0) }) w
    ∙ ap (λ v. record p { name = some v }) (unquoted-quoted name (ne, t, s, e, q, n))

head-join :
    (name : Bytes)
    → line_of (field_head name) ≡ join b';' (form_data ∷ (codes " name=" ++ behind_key name) ∷ [])
unfolding join
head-join name =
    ap (λ r. form_data ++ (b';' ∷ (codes " name=" ++ r)))
      (append_assoc (quoted name) (b'\r' ∷ []) (b'\n' ∷ []))

-- The name is read back, and there is no file name.
pub part_name-field_head :
    (name : Bytes)
    → IsFieldName name
    → part_name_of (line_of (field_head name)) ≡ record { name = some name; file = none }
unfolding part_name_of with_tokens
part_name-field_head name (ne, t, s, e, q, n) =
    let without =
      All-append (λ c. c ≢ b';') (codes " name=") (behind_key name)
        (is_without_lem b';' (codes " name=") refl)
        (behind_key-IsWithout b';' name s (λ h. omega arith) (λ h. omega arith)
          (λ h. omega arith)) in
    ap (λ l. with_tokens l record { name = none; file = none })
      (ap (tokens b';') (head-join name)
        ∙ tokens-join b';' form_data ((codes " name=" ++ behind_key name) ∷ [])
            (is_without_lem b';' form_data refl, (without, tt)))
    ∙ name_token-value name record { name = none; file = none } (ne, t, s, e, q, n)

-- ===== src/Decode/Tokens.antt =====
-- decode.c: the loops `while ((token = strsep(&s, ...)))`.
use ant_http.Prelude.{
  ℕ, ◌==◌, Bytes, if◌then◌else◌, Option, none, some, List, [], ◌∷◌, ◌++◌, All, Bool-cases, inl, inr,
  ◌≡◌, ◌≢◌, refl, ap, ◌∙◌, arith,
}
use ant_http.Utils.Trim.{strsep}

unfoldable pub onto_first : ℕ → List Bytes → List Bytes
onto_first c [] = (c ∷ []) ∷ []
onto_first c (t ∷ ts) = (c ∷ t) ∷ ts

-- The tokens that the loop sees, in order.
unfoldable pub tokens : ℕ → Bytes → List Bytes
unfolding onto_first
tokens delim [] = [] ∷ []
tokens delim (c ∷ s) =
    let later = tokens delim s in if c == delim then [] ∷ later else onto_first c later

abbrev pub tokens_after : ℕ → Option Bytes → List Bytes
tokens_after delim none = []
tokens_after delim (some s) = tokens delim s

-- The list is that of repeated calls of `strsep`.
pub tokens-strsep :
    (delim : ℕ) (s : Bytes)
    → tokens delim s ≡ (strsep delim s).0 ∷ tokens_after delim (strsep delim s).1
unfolding tokens strsep
tokens-strsep delim [] = refl
tokens-strsep delim (c ∷ s) = elim (Bool-cases (c == delim)) [
  | inl y ↦ rw y refl
  | inr n ↦ rw n (ap (onto_first c) (tokens-strsep delim s))
]

abbrev pub IsWithout : ℕ → Bytes → Type 0
IsWithout delim = All (λ c. c ≢ delim)

-- A text without the delimiter is one token.
pub strsep_whole : (delim : ℕ) (s : Bytes) → IsWithout delim s → strsep delim s ≡ (s, none)
unfolding strsep
strsep_whole delim [] h = refl
strsep_whole delim (c ∷ s) (h, hs) = ground (arith, strsep_whole delim s)

-- The token ends at the first delimiter.
pub strsep-append :
    (delim : ℕ) (s t : Bytes) → IsWithout delim s → strsep delim (s ++ delim ∷ t) ≡ (s, some t)
unfolding strsep
strsep-append delim [] t h = ground arith
strsep-append delim (c ∷ s) t (h, hs) = ground (arith, strsep-append delim s t)

-- Texts with the delimiter between them.
unfoldable pub join : ℕ → List Bytes → Bytes
join delim [] = []
join delim (s ∷ []) = s
join delim (s ∷ t ∷ ts) = s ++ (delim ∷ join delim (t ∷ ts))

-- Joined texts fall into the same texts again.
pub tokens-join :
    (delim : ℕ) (s : Bytes) (ts : List Bytes)
    → All (IsWithout delim) (s ∷ ts)
    → tokens delim (join delim (s ∷ ts)) ≡ s ∷ ts
unfolding join
tokens-join delim s [] (h, _) = tokens-strsep delim s ∙ rw (strsep_whole delim s h) refl
tokens-join delim s (t ∷ ts) (h, hs) =
    tokens-strsep delim (s ++ (delim ∷ join delim (t ∷ ts)))
    ∙ rw (strsep-append delim s (join delim (t ∷ ts)) h)
        (ap (λ r. s ∷ r) (tokens-join delim t ts hs))

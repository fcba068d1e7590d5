-- ===== src/Utils/Trim.antt =====
-- lib/utils.c: `trim` and `verify_header`, and the C library's `strsep`, `toupper` and `atoi`.
pub mod Ends
use ant_http.Prelude.{
  ℕ, zero, suc, ◌+◌, ◌-◌, ◌≤◌, ◌<◌, leb, ◌==◌, ==_iff, Bytes, codes, Bool, true, ◌&&◌,
  if◌then◌else◌, Option, none, some, [], ◌∷◌, ◌++◌, append_assoc, append-nil, length, get_or, take,
  replicate, Bool-cases, inl, inr, ◌≡◌, ◌≢◌, refl, sym, ap, ◌∙◌, arith,
}

-- `while (l > 0 && p[l - 1] == delim) p[--l] = 0;`
unfoldable pub trim_end : ℕ → Bytes → ℕ → Bytes
trim_end delim s zero = []
trim_end delim s (suc l) =
    let shorter = trim_end delim s l in if get_or s l 0 == delim then shorter else take (suc l) s

-- `while (*p && *p == delim) ++p, --l;`
unfoldable pub trim_start : ℕ → Bytes → Bytes
trim_start delim [] = []
trim_start delim (c ∷ s) = let rest = trim_start delim s in if c == delim then rest else c ∷ s

unfoldable pub trim : Bytes → ℕ → Bytes
unfolding trim_end trim_start
trim s delim = trim_start delim (trim_end delim s (length s))

-- `strsep` with one delimiter: the token, and the rest unless the text has come to its end.
unfoldable pub strsep : ℕ → Bytes → Bytes × Option Bytes
strsep delim [] = ([], none)
strsep delim (c ∷ s) =
    let (token, rest) = strsep delim s in if c == delim then ([], some s) else (c ∷ token, rest)

unfoldable pub to_upper : ℕ → ℕ
to_upper c = if leb b'a' c && leb c b'z' then c - 32 else c

unfoldable pub to_lower : ℕ → ℕ
to_lower c = if leb b'A' c && leb c b'Z' then c + 32 else c

-- The loop of `verify_header`; `first` says that the byte begins a word.
unfoldable pub capitalize : Bool → Bytes → Bytes
unfolding to_upper
capitalize first [] = []
capitalize first (c ∷ s) =
    let c' = if first then to_upper c else c in c' ∷ capitalize (c' == b'-') s

unfoldable pub verify_header : Bytes → Bytes
unfolding capitalize
verify_header k = capitalize true k

trim_test : trim (codes "  a b ") b' ' ≡ codes "a b"
unfolding trim
trim_test = refl

verify_header_test : verify_header (codes "content-length") ≡ codes "Content-Length"
unfolding verify_header
verify_header_test = refl

abbrev pub StartsWithout : ℕ → Bytes → Type 0
StartsWithout d [] = Unit
StartsWithout d (c ∷ s) = c ≢ d

abbrev pub EndsWithout : ℕ → Bytes → Type 0
EndsWithout d [] = Unit
EndsWithout d (c ∷ []) = c ≢ d
EndsWithout d (c ∷ e ∷ s) = EndsWithout d (e ∷ s)

take-suc : (s : Bytes) (l : ℕ) → l < length s → take (suc l) s ≡ take l s ++ get_or s l 0 ∷ []
take-suc [] l h = absurd (omega arith)
take-suc (c ∷ s) zero h = refl
take-suc (c ∷ s) (suc l) h = ap (λ t. c ∷ t) (take-suc s l (omega arith))

EndsWithout-take :
    (d : ℕ) (s : Bytes) (l : ℕ) → l < length s → get_or s l 0 ≢ d → EndsWithout d (take (suc l) s)
EndsWithout-take d [] l h n = tt
EndsWithout-take d (c ∷ s) zero h n = n
EndsWithout-take d (c ∷ []) (suc l) h n = absurd (omega arith)
EndsWithout-take d (c ∷ e ∷ s) (suc l) h n = EndsWithout-take d (e ∷ s) l (omega arith) n

replicate-snoc : (n d : ℕ) → replicate n d ++ d ∷ [] ≡ d ∷ replicate n d
replicate-snoc zero d = refl
replicate-snoc (suc n) d = ap (λ t. d ∷ t) (replicate-snoc n d)

trim_end_parts :
    (d : ℕ) (s : Bytes) (l : ℕ)
    → l ≤ length s
    → (n : ℕ) × (take l s ≡ trim_end d s l ++ replicate n d) × EndsWithout d (trim_end d s l)
unfolding trim_end
trim_end_parts d s zero h = (0, refl, tt)
trim_end_parts d s (suc l) h = elim (Bool-cases (get_or s l 0 == d)) [
  | inl same ↦
      let (n, parts, ends) = trim_end_parts d s l (omega arith) in
      let last = ap (λ c. take l s ++ c ∷ []) ((==_iff (get_or s l 0) d).0 same) in
      rw same (
        suc n,
        take-suc s l (omega arith)
            ∙ last
            ∙ ap (λ t. t ++ d ∷ []) parts
            ∙ append_assoc (trim_end d s l) (replicate n d) (d ∷ [])
            ∙ ap (λ t. trim_end d s l ++ t) (replicate-snoc n d),
        ends,
      )
  | inr other ↦ rw other (
    0,
    sym (append-nil (take (suc l) s)),
    EndsWithout-take d s l (omega arith) (λ e. ground arith),
  )
]

trim_start_parts :
    (d : ℕ) (s : Bytes)
    → (n : ℕ) × (s ≡ replicate n d ++ trim_start d s) × StartsWithout d (trim_start d s)
unfolding trim_start
trim_start_parts d [] = (0, refl, tt)
trim_start_parts d (c ∷ s) = elim (Bool-cases (c == d)) [
  | inl same ↦
      let (n, parts, starts) = trim_start_parts d s in
      rw same (suc n, ap (λ x. x ∷ s) ((==_iff c d).0 same) ∙ ap (λ t. d ∷ t) parts, starts)
  | inr other ↦ rw other (0, refl, λ e. ground arith)
]

trim_start-EndsWithout : (d : ℕ) (s : Bytes) → EndsWithout d s → EndsWithout d (trim_start d s)
unfolding trim_start
trim_start-EndsWithout d [] h = tt
trim_start-EndsWithout d (c ∷ []) h = ground arith
trim_start-EndsWithout d (c ∷ e ∷ s) h = elim (Bool-cases (c == d)) [
  | inl same ↦ rw same (trim_start-EndsWithout d (e ∷ s) h)
  | inr other ↦ rw other h
]

take-length : (s : Bytes) → take (length s) s ≡ s
take-length [] = refl
take-length (c ∷ s) = ap (λ t. c ∷ t) (take-length s)

-- `trim` takes copies of the delimiter off both ends and nothing else, and leaves a text that
-- neither starts nor ends with the delimiter.
pub trim_parts :
    (s : Bytes) (d : ℕ)
    → (a b : ℕ) × (s ≡ replicate a d ++ (trim s d ++ replicate b d))
      × StartsWithout d (trim s d)
      × EndsWithout d (trim s d)
unfolding trim
trim_parts s d =
    let (b, tail_parts, ends) = trim_end_parts d s (length s) (omega arith) in
    let (a, head_parts, starts) = trim_start_parts d (trim_end d s (length s)) in
    let t = trim_start d (trim_end d s (length s)) in
    (
      a,
      b,
      sym (take-length s)
          ∙ tail_parts
          ∙ ap (λ u. u ++ replicate b d) head_parts
          ∙ append_assoc (replicate a d) t (replicate b d),
      starts,
      trim_start-EndsWithout d _ ends,
    )

-- ===== src/Utils/Trim/Ends.antt =====
-- lib/utils.c: `trim` on a text that ends in copies of the delimiter.
use ant_http.Prelude.{
  ℕ, zero, suc, Bytes, [], ◌∷◌, ◌++◌, replicate, All, append-nil, append_assoc, subst, ◌≡◌, ◌≢◌,
  refl, sym, ap, ◌∙◌,
}
use ant_http.Utils.Trim.{StartsWithout, EndsWithout, trim, trim_parts}

cons_head : {c c' : ℕ} {s s' : Bytes} → c ∷ s ≡ c' ∷ s' → c ≡ c'
cons_head e = cc

cons_tail : {c c' : ℕ} {s s' : Bytes} → c ∷ s ≡ c' ∷ s' → s ≡ s'
cons_tail e = cc

-- Copies of the delimiter only do not end in another byte.
not_copies :
    (d n b c : ℕ) (y : Bytes) → EndsWithout d (c ∷ y) → replicate n d ≢ c ∷ y ++ replicate b d
not_copies d zero b c y h e = cc
not_copies d (suc n) b c [] h e = h (sym (cons_head e))
not_copies d (suc n) b c (x ∷ y) h e = not_copies d n b x y h (cons_tail e)

ends_once :
    (d n b c c' : ℕ) (s y : Bytes)
    → EndsWithout d (c ∷ s)
    → EndsWithout d (c' ∷ y)
    → c ∷ s ++ replicate n d ≡ c' ∷ y ++ replicate b d
    → c ∷ s ≡ c' ∷ y
ends_once d n b c c' [] [] h h' e = ap (λ x. x ∷ []) (cons_head e)
ends_once d n b c c' [] (x ∷ y) h h' e = absurd (not_copies d n b x y h' (cons_tail e))
ends_once d n b c c' (x ∷ s) [] h h' e = absurd (not_copies d b n x s h (sym (cons_tail e)))
ends_once d n b c c' (x ∷ s) (x' ∷ y) h h' e =
    let r = ends_once d n b x x' s y h h' (cons_tail e) in
    ap (λ a. a ∷ x ∷ s) (cons_head e) ∙ ap (λ t. c' ∷ t) r

trimmed_once :
    (d n a b c : ℕ) (s y : Bytes)
    → StartsWithout d (c ∷ s)
    → EndsWithout d (c ∷ s)
    → EndsWithout d y
    → c ∷ s ++ replicate n d ≡ replicate a d ++ (y ++ replicate b d)
    → y ≡ c ∷ s
trimmed_once d n (suc a) b c s y h h' k e = absurd (h (cons_head e))
trimmed_once d n zero zero c s [] h h' k e = cc
trimmed_once d n zero (suc b) c s [] h h' k e = absurd (h (cons_head e))
trimmed_once d n zero b c s (x ∷ y) h h' k e = sym (ends_once d n b c x s y h' k e)

-- The copies at the end are taken off, and nothing else is, if the text before them neither starts
-- nor ends with the delimiter.
pub trim-copies :
    (d n c : ℕ) (s : Bytes)
    → StartsWithout d (c ∷ s)
    → EndsWithout d (c ∷ s)
    → trim (c ∷ s ++ replicate n d) d ≡ c ∷ s
trim-copies d n c s h h' =
    let (a, b, parts, starts, ends) = trim_parts (c ∷ s ++ replicate n d) d in
    trimmed_once d n a b c s _ h h' ends parts

pub ends_snoc : (d : ℕ) (s : Bytes) (c : ℕ) → c ≢ d → EndsWithout d (s ++ (c ∷ []))
ends_snoc d [] c h = h
ends_snoc d (x ∷ []) c h = h
ends_snoc d (x ∷ y ∷ s) c h = ends_snoc d (y ∷ s) c h

pub ends_whole : (d : ℕ) (s : Bytes) → All (λ c. c ≢ d) s → EndsWithout d s
ends_whole d [] h = tt
ends_whole d (x ∷ []) (h, _) = h
ends_whole d (x ∷ y ∷ s) (_, h) = ends_whole d (y ∷ s) h

-- `trim` leaves a text that neither starts nor ends with the delimiter, and takes copies off one.
pub trim_copies_of :
    (d n : ℕ) (s : Bytes)
    → s ≢ []
    → StartsWithout d s
    → EndsWithout d s
    → trim (s ++ replicate n d) d ≡ s
trim_copies_of d n [] ne h h' = absurd (ne refl)
trim_copies_of d n (x ∷ s) ne h h' = trim-copies d n x s h h'

pub trim_whole : (d : ℕ) (s : Bytes) → s ≢ [] → StartsWithout d s → EndsWithout d s → trim s d ≡ s
trim_whole d s ne h h' = ap (λ r. trim r d) (sym (append-nil s)) ∙ trim_copies_of d 0 s ne h h'

-- A word with a text behind it, which ends in `c`.
pub word_starts : (d : ℕ) (s t : Bytes) → s ≢ [] → All (λ c. c ≢ d) s → StartsWithout d (s ++ t)
word_starts d [] t ne h = absurd (ne refl)
word_starts d (x ∷ s) t ne (h, _) = h

pub append_ne : (s t : Bytes) → s ≢ [] → s ++ t ≢ []
append_ne [] t ne e = ne refl
append_ne (x ∷ s) t ne e = cc

pub trim_word :
    (d : ℕ) (s t : Bytes) (c : ℕ)
    → s ≢ []
    → All (λ c. c ≢ d) s
    → c ≢ d
    → trim (s ++ (t ++ (c ∷ []))) d ≡ s ++ (t ++ (c ∷ []))
trim_word d s t c ne h n =
    trim_whole d (s ++ (t ++ (c ∷ []))) (append_ne s _ ne) (word_starts d s _ ne h)
      (subst (EndsWithout d) (append_assoc s t (c ∷ [])) (ends_snoc d (s ++ t) c n))

-- What stands between two copies of the delimiter.
between :
    (d c : ℕ) (s : Bytes) (a b : ℕ) (y : Bytes)
    → StartsWithout d y
    → EndsWithout d y
    → All (λ x. x ≢ d) (c ∷ s)
    → d ∷ (c ∷ s ++ (d ∷ [])) ≡ replicate a d ++ (y ++ replicate b d)
    → y ≡ c ∷ s
between d c s (suc a) b y h h' k e =
    trimmed_once d 1 a b c s y k.0 (ends_whole d (c ∷ s) k) h' (cons_tail e)
between d c s zero zero [] h h' k e = absurd cc
between d c s zero (suc b) [] h h' k e =
    trimmed_once d 1 0 b c s [] k.0 (ends_whole d (c ∷ s) k) tt (cons_tail e)
between d c s zero b (x ∷ y) h h' k e = absurd (h (sym (cons_head e)))

-- One copy of the delimiter on each side is taken off.
pub trim_quotes :
    (d : ℕ) (s : Bytes) → s ≢ [] → All (λ c. c ≢ d) s → trim (d ∷ (s ++ (d ∷ []))) d ≡ s
trim_quotes d [] ne h = absurd (ne refl)
trim_quotes d (c ∷ s) ne h =
    let (a, b, parts, starts, ends) = trim_parts (d ∷ (c ∷ s ++ (d ∷ []))) d in
    between d c s a b _ starts ends h parts

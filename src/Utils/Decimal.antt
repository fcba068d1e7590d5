-- ===== src/Utils/Decimal.antt =====
-- The numbers that the program prints with `%d` and reads with `atoi`.
use ant_http.Prelude.{
  Bool-cases, inl, inr, ltb→lt, ℕ, zero, suc, ◌+◌, ◌-◌, ◌*◌, ◌/◌, ◌%◌, ◌≤◌, ◌<◌, leb, ltb, ◌==◌, ℤ,
  pos, negsuc, Bytes, Bool, ◌&&◌, ◌||◌, if◌then◌else◌, [], ◌∷◌, ◌++◌, All, ◌≡◌, refl, ap, ◌∙◌,
  arith,
}

unfoldable pub is_digit : ℕ → Bool
is_digit c = leb b'0' c && leb c b'9'

-- `%u`, on fuel above the number.
unfoldable pub decimal_loop : ℕ → ℕ → Bytes
decimal_loop zero n = []
decimal_loop (suc fuel) n =
    let front = decimal_loop fuel (n / 10) in
    if ltb n 10 then (n + b'0') ∷ [] else front ++ (n % 10 + b'0') ∷ []

unfoldable pub decimal : ℕ → Bytes
unfolding decimal_loop
decimal n = decimal_loop (suc n) n

-- `%d`
unfoldable pub decimal_ℤ : ℤ → Bytes
unfolding decimal
decimal_ℤ (pos n) = decimal n
decimal_ℤ (negsuc n) = b'-' ∷ decimal (suc n)

unfoldable pub digits_from : ℕ → Bytes → ℕ
unfolding is_digit
digits_from acc [] = acc
digits_from acc (c ∷ s) = if is_digit c then digits_from (acc * 10 + (c - b'0')) s else acc

unfoldable pub is_space : ℕ → Bool
is_space c = c == b' ' || (leb 9 c && leb c 13)

unfoldable pub negated : ℕ → ℤ
negated zero = pos 0
negated (suc n) = negsuc n

unfoldable pub signed_digits : Bytes → ℤ
unfolding digits_from negated
signed_digits [] = pos 0
signed_digits (c ∷ s) =
    if c == b'-'
    then negated (digits_from 0 s)
    else if c == b'+'
    then pos (digits_from 0 s)
    else pos (digits_from 0 (c ∷ s))

unfoldable pub skip_space : Bytes → Bytes
unfolding is_space
skip_space [] = []
skip_space (c ∷ s) = let rest = skip_space s in if is_space c then rest else c ∷ s

-- `atoi`, for a text whose number an `int` can hold.
unfoldable pub atoi : Bytes → ℤ
unfolding skip_space signed_digits
atoi s = signed_digits (skip_space s)

abbrev pub IsDigit : ℕ → Type 0
IsDigit c = (48 ≤ c) × (c ≤ 57)

digits_from-append :
    (acc : ℕ) (s t : Bytes)
    → All IsDigit s
    → digits_from acc (s ++ t) ≡ digits_from (digits_from acc s) t
unfolding digits_from
digits_from-append acc [] t h = refl
digits_from-append acc (c ∷ s) t (h, hs) =
    ground (arith, digits_from-append (acc * 10 + (c - 48)) s t hs)

All-snoc : (s : Bytes) (c : ℕ) → All IsDigit s → IsDigit c → All IsDigit (s ++ c ∷ [])
All-snoc [] c h k = (k, tt)
All-snoc (x ∷ s) c (h, hs) k = (h, All-snoc s c hs k)

decimal_loop-IsDigit : (fuel n : ℕ) → All IsDigit (decimal_loop fuel n)
unfolding decimal_loop
decimal_loop-IsDigit zero n = tt
decimal_loop-IsDigit (suc fuel) n = elim (Bool-cases (ltb n 10)) [
  | inl small ↦ rw small ((omega arith, ground arith), tt)
  | inr large ↦ rw large (
      All-snoc (decimal_loop fuel (n / 10)) (n % 10 + 48) (decimal_loop-IsDigit fuel (n / 10))
        (omega arith))
]

digits_from_digit : (acc d : ℕ) → d < 10 → digits_from acc ((d + 48) ∷ []) ≡ acc * 10 + d
unfolding digits_from
digits_from_digit acc d h = ground arith

decimal_loop-read : (fuel n : ℕ) → n < fuel → digits_from 0 (decimal_loop fuel n) ≡ n
unfolding decimal_loop
decimal_loop-read zero n h = absurd (omega arith)
decimal_loop-read (suc fuel) n h = elim (Bool-cases (ltb n 10)) [
  | inl small ↦ rw small (omega (arith, digits_from_digit 0 n (ltb→lt n 10 small)))
  | inr large ↦ rw large (
      digits_from-append 0 (decimal_loop fuel (n / 10)) ((n % 10 + 48) ∷ [])
        (decimal_loop-IsDigit fuel (n / 10))
      ∙ omega (
        arith,
        digits_from_digit (digits_from 0 (decimal_loop fuel (n / 10))) (n % 10),
        decimal_loop-read fuel (n / 10) (ground arith),
      ))
]

-- A printed number holds only digits.
pub decimal-IsDigit : (n : ℕ) → All IsDigit (decimal n)
unfolding decimal
decimal-IsDigit n = decimal_loop-IsDigit (suc n) n

atoi_digits : (s : Bytes) → All IsDigit s → atoi s ≡ pos (digits_from 0 s)
unfolding atoi skip_space
atoi_digits [] h = unfold digits_from signed_digits in refl
atoi_digits (c ∷ s) (h, hs) = ground arith

-- `atoi` reads back every number that `%d` printed.
pub atoi-decimal : (n : ℕ) → atoi (decimal n) ≡ pos n
atoi-decimal n =
    atoi_digits (decimal n) (decimal-IsDigit n)
    ∙ ap pos (unfold decimal in decimal_loop-read (suc n) n (omega arith))

-- ===== src/Prelude/Text.antt =====
-- C strings: the bytes before the terminating NUL.
use Prim.Native.Nat.{ℕ, ◌<◌, ◌+◌}
use Prim.Native.Char.{code}
use Prim.Native.String.{String}
use mathlib.Core.Bool.{Bool, true, false, ◌&&◌, ◌||◌}
use mathlib.Core.List.{List, [], ◌∷◌, ◌++◌}
use mathlib.Core.Logic.{◌↔◌}
use mathlib.Core.Path.{◌≡◌, refl}
use native.Mathlib.Omega.{arith}
use ant_http.Prelude.Lists.{All}
use ant_http.Prelude.Tests.{◌==◌, leb, if◌then◌else◌}

abbrev pub Bytes : Type 0
Bytes = List ℕ

-- The bytes of an ASCII literal.
abbrev pub codes : String → Bytes
codes String.[] = []
codes (String.◌∷◌ c s) = code c ∷ codes s

-- `strcmp(a, b) == 0`
unfoldable pub str_eq : Bytes → Bytes → Bool
str_eq [] [] = true
str_eq [] (b ∷ t) = false
str_eq (a ∷ s) [] = false
str_eq (a ∷ s) (b ∷ t) = a == b && str_eq s t

pub str_eq_iff : (s t : Bytes) → (str_eq s t ≡ true) ↔ (s ≡ t)
unfolding str_eq
str_eq_iff [] [] = ((λ _. refl), (λ _. refl))
str_eq_iff [] (b ∷ t) = ((λ h. cc), (λ h. cc))
str_eq_iff (a ∷ s) [] = ((λ h. cc), (λ h. cc))
str_eq_iff (a ∷ s) (b ∷ t) = ground (arith, str_eq_iff s t)

pub str_eq_refl : (s : Bytes) → str_eq s s ≡ true
str_eq_refl s = (str_eq_iff s s).1 refl

-- What a C string can hold.
abbrev pub IsText : Bytes → Type 0
IsText = All (λ c. (0 < c) × (c < 256))

-- The C string in a buffer: the bytes before its first NUL.
unfoldable pub c_string : Bytes → Bytes
c_string [] = []
c_string (c ∷ s) = if c == 0 then [] else c ∷ c_string s

pub c_string-IsText : (s t : Bytes) → IsText s → c_string (s ++ 0 ∷ t) ≡ s
unfolding c_string
c_string-IsText [] t h = refl
c_string-IsText (c ∷ s) t ((lo, hi), h) = ground (arith, c_string-IsText s t)

pub c_string_text : (s : Bytes) → IsText s → c_string s ≡ s
unfolding c_string
c_string_text [] h = refl
c_string_text (c ∷ s) ((lo, hi), h) = ground (arith, c_string_text s)

-- `strcasecmp(a, b) == 0`
unfoldable pub fold_case : ℕ → ℕ
fold_case c = if leb 65 c && leb c 90 then c + 32 else c

unfoldable pub str_case_eq : Bytes → Bytes → Bool
unfolding fold_case
str_case_eq [] [] = true
str_case_eq [] (b ∷ t) = false
str_case_eq (a ∷ s) [] = false
str_case_eq (a ∷ s) (b ∷ t) = fold_case a == fold_case b && str_case_eq s t

-- `strstr(s, word) != NULL`
unfoldable pub starts_with : Bytes → Bytes → Bool
starts_with [] s = true
starts_with (w ∷ word) [] = false
starts_with (w ∷ word) (c ∷ s) = w == c && starts_with word s

unfoldable pub has_part : Bytes → Bytes → Bool
unfolding starts_with
has_part word [] = starts_with word []
has_part word (c ∷ s) = starts_with word (c ∷ s) || has_part word s

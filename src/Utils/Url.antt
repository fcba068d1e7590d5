-- ===== src/Utils/Url.antt =====
-- lib/utils.c: `url_encode`, `url_decode`, `from_hex`, `to_hex`.
use Prim.Native.Nat.{bit_or}
use ant_http.Prelude.{
  scan, scan_sound, ℕ, ◌+◌, ◌-◌, ◌*◌, ◌/◌, ◌%◌, ◌≤◌, ◌<◌, leb, ◌==◌, ==_iff, Bytes, codes, IsText,
  Bool, true, false, ◌&&◌, ◌||◌, if◌then◌else◌, [], ◌∷◌, ◌++◌, All, All-append, length,
  length-append, get_or, Bool-cases, inl, inr, ◌≡◌, ◌≢◌, refl, ap, ◌∙◌, arith,
}
use ant_http.Utils.Decimal.{is_digit}
use ant_http.Utils.Trim.{to_lower}

unfoldable pub is_alnum : ℕ → Bool
unfolding is_digit
is_alnum c = is_digit c || leb b'a' c && leb c b'z' || leb b'A' c && leb c b'Z'

-- The result is a `char`, which wraps around for what is no digit.
unfoldable pub from_hex : ℕ → ℕ
unfolding is_digit to_lower
from_hex c = if is_digit c then c - b'0' else (to_lower c + 256 - b'a' + 10) % 256

unfoldable pub to_hex : ℕ → ℕ
to_hex c = get_or (codes "0123456789abcdef") (c % 16) 0

-- `from_hex(a) << 4 | from_hex(b)`, stored in a byte.
unfoldable pub hex_byte : ℕ → ℕ → ℕ
unfolding from_hex
hex_byte a b = bit_or (from_hex a * 16 % 256) (from_hex b)

-- A `%` with fewer than two bytes behind it is dropped.
unfoldable pub url_decode : Bytes → Bytes
unfolding hex_byte
url_decode [] = []
url_decode (c ∷ []) = if c == b'%' then [] else if c == b'+' then b' ' ∷ [] else c ∷ []
url_decode (c ∷ a ∷ []) =
    let rest = url_decode (a ∷ []) in
    if c == b'%' then rest else if c == b'+' then b' ' ∷ rest else c ∷ rest
url_decode (c ∷ a ∷ b ∷ s) =
    let rest = url_decode (a ∷ b ∷ s) in
    let coded = hex_byte a b ∷ url_decode s in
    if c == b'%' then coded else if c == b'+' then b' ' ∷ rest else c ∷ rest

unfoldable pub is_plain : ℕ → Bool
unfolding is_alnum
is_plain c = is_alnum c || c == b'-' || c == b'_' || c == b'.' || c == b'~'

unfoldable pub encode_byte : ℕ → Bytes
encode_byte c =
    if is_plain c
    then c ∷ []
    else if c == b' '
    then b'+' ∷ []
    else b'%' ∷ to_hex (c / 16) ∷ to_hex (c % 16) ∷ []

unfoldable pub url_encode : Bytes → Bytes
unfolding encode_byte
url_encode [] = []
url_encode (c ∷ s) = encode_byte c ++ url_encode s

url_test : url_decode (codes "a%2Fb+c%2") ≡ codes "a/b c2"
unfolding url_decode
url_test = refl

decode_plain : (c : ℕ) (s : Bytes) → c ≢ b'%' → c ≢ b'+' → url_decode (c ∷ s) ≡ c ∷ url_decode s
unfolding url_decode
decode_plain c [] p q = ground arith
decode_plain c (a ∷ []) p q = ground arith
decode_plain c (a ∷ b ∷ s) p q = ground arith

decode_plus : (s : Bytes) → url_decode (b'+' ∷ s) ≡ b' ' ∷ url_decode s
unfolding url_decode
decode_plus [] = refl
decode_plus (a ∷ []) = refl
decode_plus (a ∷ b ∷ s) = refl

hex_bytes : scan (λ c. hex_byte (to_hex (c / 16)) (to_hex (c % 16)) == c) 0 256 ≡ true
unfolding scan hex_byte to_hex
hex_bytes = refl

hex_byte-to_hex : (c : ℕ) → c < 256 → hex_byte (to_hex (c / 16)) (to_hex (c % 16)) ≡ c
hex_byte-to_hex c h = (==_iff _ c).0 (scan_sound _ 256 c hex_bytes h)

encode_byte_plain : (c : ℕ) → is_plain c ≡ true → encode_byte c ≡ c ∷ []
unfolding encode_byte
encode_byte_plain c h = ground arith

encode_byte_space : encode_byte b' ' ≡ b'+' ∷ []
unfolding encode_byte is_plain
encode_byte_space = refl

encode_byte_coded :
    (c : ℕ)
    → is_plain c ≡ false
    → c == b' ' ≡ false
    → encode_byte c ≡ b'%' ∷ to_hex (c / 16) ∷ to_hex (c % 16) ∷ []
unfolding encode_byte
encode_byte_coded c h k = ground arith

length-decode : (s : Bytes) → length (url_decode s) ≤ length s
unfolding url_decode
length-decode [] = omega arith
length-decode (c ∷ []) = ground arith
length-decode (c ∷ a ∷ []) = ground (arith, length-decode (a ∷ []))
length-decode (c ∷ a ∷ b ∷ s) = ground (arith, length-decode (a ∷ b ∷ s), length-decode s)

length-encode_byte : (c : ℕ) → length (encode_byte c) ≤ 3
unfolding encode_byte
length-encode_byte c = ground arith

length-encode : (s : Bytes) → length (url_encode s) ≤ 3 * length s
unfolding url_encode
length-encode [] = omega arith
length-encode (c ∷ s) =
    rw (length-append (encode_byte c)) (ground (arith, length-encode s, length-encode_byte c))

decode_coded : (a b : ℕ) (s : Bytes) → url_decode (b'%' ∷ a ∷ b ∷ s) ≡ hex_byte a b ∷ url_decode s
unfolding url_decode
decode_coded a b s = refl

is_plain-ne : (c : ℕ) → is_plain c ≡ true → (c ≢ b'%') × (c ≢ b'+')
unfolding is_plain
is_plain-ne c h = ground arith

decode-encode_byte :
    (c : ℕ) (s : Bytes) → c < 256 → url_decode (encode_byte c ++ s) ≡ c ∷ url_decode s
decode-encode_byte c s h = elim (Bool-cases (is_plain c)) [
  | inl plain ↦
      let (p, q) = is_plain-ne c plain in rw (encode_byte_plain c plain) (decode_plain c s p q)
  | inr coded ↦ elim (Bool-cases (c == b' ')) [
    | inl space ↦ rw ((==_iff c b' ').0 space) (rw (encode_byte_space) (decode_plus s))
    | inr other ↦
        rw (encode_byte_coded c coded other)
          (decode_coded _ _ s ∙ ap (λ x. x ∷ url_decode s) (hex_byte-to_hex c h))
  ]
]

-- Decoding gives back every text of bytes 1 to 255 that was encoded.
pub url_decode-encode : (s : Bytes) → IsText s → url_decode (url_encode s) ≡ s
unfolding url_encode
url_decode-encode [] h = unfold url_decode in refl
url_decode-encode (c ∷ s) ((lo, hi), h) =
    decode-encode_byte c (url_encode s) hi ∙ ap (λ t. c ∷ t) (url_decode-encode s h)

-- The buffers of the two functions are large enough: decoding makes no text longer, and encoding
-- makes it at most three times as long.
pub url_length :
    (s : Bytes) → (length (url_decode s) ≤ length s) × (length (url_encode s) ≤ 3 * length s)
url_length s = (length-decode s, length-encode s)

-- What encoded text is made of.
abbrev pub IsUrlByte : ℕ → Type 0
IsUrlByte c = (is_plain c || c == b'+' || c == b'%') ≡ true

hex_digits_plain : scan (λ c. is_plain (to_hex c)) 0 256 ≡ true
unfolding scan is_plain to_hex
hex_digits_plain = refl

to_hex-plain : (c : ℕ) → c < 256 → is_plain (to_hex c) ≡ true
to_hex-plain c h = scan_sound _ 256 c hex_digits_plain h

IsUrlByte-plain : (c : ℕ) → is_plain c ≡ true → IsUrlByte c
IsUrlByte-plain c h = rw h

encode_byte-IsUrl : (c : ℕ) → c < 256 → All IsUrlByte (encode_byte c)
encode_byte-IsUrl c h =
    let digit = λ (d : ℕ) (b : d < 256). IsUrlByte-plain (to_hex d) (to_hex-plain d b) in
    let one = digit (c / 16) (omega arith) in
    let two = digit (c % 16) (omega arith) in
    elim (Bool-cases (is_plain c)) [
      | inl plain ↦ rw (encode_byte_plain c plain) (IsUrlByte-plain c plain, tt)
      | inr coded ↦ elim (Bool-cases (c == b' ')) [
        | inl space ↦
            rw ((==_iff c b' ').0 space) (rw encode_byte_space (unfold is_plain in refl, tt))
        | inr other ↦
            rw (encode_byte_coded c coded other) (unfold is_plain in (refl, (one, (two, tt))))
      ]
    ]

-- The encoding of a text of bytes 1 to 255 holds only letters, digits and the bytes `-_.~+%`.
pub url_encode-IsUrl : (s : Bytes) → IsText s → All IsUrlByte (url_encode s)
unfolding url_encode
url_encode-IsUrl [] h = tt
url_encode-IsUrl (c ∷ s) ((lo, hi), h) =
    All-append IsUrlByte (encode_byte c) (url_encode s) (encode_byte-IsUrl c hi)
      (url_encode-IsUrl s h)

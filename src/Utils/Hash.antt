-- ===== src/Utils/Hash.antt =====
-- lib/utils.c: `simple_hash` and `hash`. `unsigned` has 32 bits and `char` is signed, as on x86.
use ant_http.Prelude.{
  ℕ, ◌+◌, ◌-◌, ◌*◌, ◌%◌, ◌^◌, ◌<◌, ltb, if◌then◌else◌, [], ◌∷◌, Bytes, arith, codes, ◌≡◌, refl,
}

-- A byte as a `char`, converted to `unsigned`.
unfoldable pub char_to_unsigned : ℕ → ℕ
char_to_unsigned b = if ltb b 128 then b else 2 ^ 32 + b - 256

unfoldable pub hash_from : ℕ → Bytes → ℕ
unfolding char_to_unsigned
hash_from hashval [] = hashval
hash_from hashval (c ∷ key) = hash_from ((char_to_unsigned c + 31 * hashval) % 2 ^ 32) key

unfoldable pub simple_hash : Bytes → ℕ
unfolding hash_from
simple_hash key = hash_from 0 key

-- `hash_size` is positive: the division by 0 is not defined.
unfoldable pub hash : Bytes → ℕ → ℕ
unfolding simple_hash
hash key hash_size = simple_hash key % hash_size

pub hash-lt : (key : Bytes) (n : ℕ) → 0 < n → hash key n < n
unfolding hash
hash-lt key n h = grind arith

hash_test : simple_hash (codes "ab") ≡ 97 * 31 + 98
unfolding simple_hash
hash_test = refl

-- ===== src/Ws/Masks.antt =====
-- lib/ws.c: masking and unmasking of payloads.
use Prim.Native.Nat.{bit_xor}
use ant_http.Prelude.{
  ℕ, zero, suc, ◌+◌, ◌%◌, ◌<◌, ◌==◌, ==_iff, Bytes, true, [], ◌∷◌, ◌++◌, length, get_or, All, scan,
  scan_sound, ◌≡◌, refl, ap, ◌∙◌, arith,
}
use ant_http.Ws.{mask_from}

xor_table : scan (λ x. scan (λ k. bit_xor (bit_xor x k) k == x) 0 256) 0 256 ≡ true
unfolding scan
xor_table = refl

xor_twice : (x k : ℕ) → x < 256 → k < 256 → bit_xor (bit_xor x k) k ≡ x
xor_twice x k h l = (==_iff _ x).0 (
    scan_sound _ 256 k
      (scan_sound (λ y. scan (λ j. bit_xor (bit_xor y j) j == y) 0 256) 256 x xor_table h) l)

get_or-byte : (key : Bytes) (i : ℕ) → All (λ k. k < 256) key → get_or key i 0 < 256
get_or-byte [] i h = omega arith
get_or-byte (k ∷ key) zero (h, hs) = h
get_or-byte (k ∷ key) (suc i) (h, hs) = get_or-byte key i hs

-- Masking a text of bytes twice with one key of bytes, from the same index on, gives it back.
pub mask_twice :
    (i : ℕ) (key s : Bytes)
    → All (λ k. k < 256) key
    → All (λ b. b < 256) s
    → mask_from i key (mask_from i key s) ≡ s
unfolding mask_from
mask_twice i key [] hk hs = refl
mask_twice i key (b ∷ s) hk (hb, hs) = λ j.
    xor_twice b (get_or key (i % 4) 0) hb (get_or-byte key (i % 4) hk) j
    ∷ mask_twice (suc i) key s hk hs j

pub length-mask_from : (i : ℕ) (key s : Bytes) → length (mask_from i key s) ≡ length s
unfolding mask_from
length-mask_from i key [] = refl
length-mask_from i key (b ∷ s) = ap suc (length-mask_from (suc i) key s)

mask_from-shift : (i k : ℕ) (key s : Bytes) → i % 4 ≡ k % 4 → mask_from i key s ≡ mask_from k key s
unfolding mask_from
mask_from-shift i k key [] h = refl
mask_from-shift i k key (b ∷ s) h =
    λ j. bit_xor b (get_or key (h j) 0) ∷ mask_from-shift (suc i) (suc k) key s (omega arith) j

mask_from-append :
    (i : ℕ) (key s t : Bytes)
    → mask_from i key (s ++ t) ≡ mask_from i key s ++ mask_from (i + length s) key t
unfolding mask_from
mask_from-append i key [] t = mask_from-shift i (i + 0) key t (omega arith)
mask_from-append i key (b ∷ s) t =
    ap (λ r. bit_xor b (get_or key (i % 4) 0) ∷ r)
      (mask_from-append (suc i) key s t
        ∙ ap (λ r. mask_from (suc i) key s ++ r)
            (mask_from-shift (suc i + length s) (i + suc (length s)) key t (omega arith)))

-- A payload that is read in two parts, each unmasked from index 0, is unmasked rightly where the
-- length of the first part is a multiple of four.
pub mask_parts :
    (key s t : Bytes)
    → length s % 4 ≡ 0
    → mask_from 0 key (s ++ t) ≡ mask_from 0 key s ++ mask_from 0 key t
mask_parts key s t h =
    mask_from-append 0 key s t
    ∙ ap (λ r. mask_from 0 key s ++ r) (mask_from-shift (0 + length s) 0 key t (omega arith))

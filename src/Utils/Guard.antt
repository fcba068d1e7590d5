-- ===== src/Utils/Guard.antt =====
-- lib/utils.c: `guard_read` and `guard_write` on a blocking descriptor. What the calls of `read` and
-- `write` return is a list, as for a connection; an answer that moved no byte has the result 0
-- or -1.
use ant_http.Handle.{Input, Output, put_back}
use ant_http.Handle.Sending.{prefix-take}
use ant_http.Prelude.{
  ℕ, ℤ, pos, negsuc, to_int, to_int-small, zero, suc, ◌+◌, ◌-◌, ◌^◌, ◌≤◌, ◌<◌, Bytes, Bool, true,
  false, Option, none, some, List, [], ◌∷◌, ◌++◌, length, take, drop, length-append, length-take,
  length-drop, take-append-drop, append-nil, ◌≡◌, refl, sym, ap, ◌∙◌, arith,
}

unfoldable pub read_first : Bytes → Option Bytes × List Input → Option Bytes × List Input
read_first s (none, q) = (none, q)
read_first s (some t, q) = (some (s ++ t), q)

-- `left` bytes are still wanted; the fuel bounds the calls by them.
unfoldable pub guard_read_loop : ℕ → ℕ → List Input → Option Bytes × List Input
guard_read_loop fuel zero q = (some [], q)
guard_read_loop zero (suc left) q = (none, q)
guard_read_loop (suc fuel) (suc left) [] = (none, [])
guard_read_loop (suc fuel) (suc left) (Input.no_input f ∷ q) = (none, q)
guard_read_loop (suc fuel) (suc left) (Input.chunk c cs ∷ q) =
    let got = take (suc left) (c ∷ cs) in
    read_first got
      (guard_read_loop fuel (suc left - length got) (put_back (drop (suc left) (c ∷ cs)) q))

-- A count of bytes that is negative as an `int` is a huge one for `read` and `write`: the kernel
-- refuses it.
unfoldable pub guard_read_of : ℤ → List Input → Option Bytes × List Input
guard_read_of (pos n) q = guard_read_loop n n q
guard_read_of (negsuc n) q = (none, q)

-- The bytes in the buffer, or `none` where the code returns -1. The `size_t` becomes an `int`.
unfoldable pub guard_read : ℕ → List Input → Option Bytes × List Input
unfolding to_int
guard_read size q = guard_read_of (to_int size) q

-- The bytes written so far, and whether all were: the code returns their number, or -1.
unfoldable pub wrote_first : Bytes → Bytes × Bool → Bytes × Bool
wrote_first s (t, done) = (s ++ t, done)

unfoldable pub guard_write_loop : ℕ → Bytes → List Output → Bytes × Bool
guard_write_loop fuel [] o = ([], true)
guard_write_loop zero (b ∷ s) o = ([], false)
guard_write_loop (suc fuel) (b ∷ s) [] = (b ∷ s, true)
guard_write_loop (suc fuel) (b ∷ s) (Output.no_output f ∷ o) = ([], false)
guard_write_loop (suc fuel) (b ∷ s) (Output.took k ∷ o) =
    wrote_first (take (suc k) (b ∷ s)) (guard_write_loop fuel (drop (suc k) (b ∷ s)) o)

unfoldable pub guard_write_of : ℤ → Bytes → List Output → Bytes × Bool
guard_write_of (pos n) s o = guard_write_loop n (take n s) o
guard_write_of (negsuc n) s o = ([], false)

-- Of a buffer that holds `size` bytes; the `size_t` becomes an `int`.
unfoldable pub guard_write : Bytes → List Output → Bytes × Bool
unfolding to_int
guard_write s o = guard_write_of (to_int (length s)) s o

-- The bytes that arrive before the first answer that moves none.
unfoldable pub ready : List Input → Bytes
ready [] = []
ready (Input.chunk c cs ∷ q) = c ∷ cs ++ ready q
ready (Input.no_input f ∷ q) = []

ready-put_back : (s : Bytes) (q : List Input) → ready (put_back s q) ≡ s ++ ready q
unfolding ready put_back
ready-put_back [] q = refl
ready-put_back (c ∷ s) q = refl

sub_zero : (n : ℕ) → n - 0 ≡ n
sub_zero n = omega arith

sub_suc : (n k : ℕ) → suc n - suc k ≡ n - k
sub_suc n k = omega arith

take_parts :
    (n : ℕ) (s t : Bytes)
    → take n s ++ take (n - length (take n s)) (drop n s ++ t) ≡ take n (s ++ t)
take_parts zero s t = refl
take_parts (suc n) [] t = ap (λ k. take k t) (sub_zero (suc n))
take_parts (suc n) (b ∷ s) t =
    ap (λ k. b ∷ take n s ++ take k (drop n s ++ t)) (sub_suc n (length (take n s)))
    ∙ ap (λ r. b ∷ r) (take_parts n s t)

ready-chunk :
    (c : ℕ) (cs : Bytes) (q : List Input) → ready (Input.chunk c cs ∷ q) ≡ (c ∷ cs) ++ ready q
unfolding ready
ready-chunk c cs q = refl

-- What is ready behind the bytes that a call took.
length-rest :
    (left c : ℕ) (cs : Bytes) (q : List Input)
    → length (ready (put_back (drop (suc left) (c ∷ cs)) q))
      ≡ (length (c ∷ cs) - suc left) + length (ready q)
length-rest left c cs q = omega (
  arith,
  ap length (ready-put_back (drop (suc left) (c ∷ cs)) q),
  length-append (drop (suc left) (c ∷ cs)) (ready q),
  length-drop (suc left) (c ∷ cs),
)

length-chunk :
    (c : ℕ) (cs : Bytes) (q : List Input)
    → length (ready (Input.chunk c cs ∷ q)) ≡ length (c ∷ cs) + length (ready q)
length-chunk c cs q =
    omega (arith, ap length (ready-chunk c cs q), length-append (c ∷ cs) (ready q))

read_first-some :
    (s t : Bytes) (r : Option Bytes × List Input)
    → r.0 ≡ some t
    → (read_first s r).0 ≡ some (s ++ t)
unfolding read_first
read_first-some s t (none, q) e = cc
read_first-some s t (some u, q) e = cc

read_first-none :
    (s : Bytes) (r : Option Bytes × List Input) → r.0 ≡ none → (read_first s r).0 ≡ none
unfolding read_first
read_first-none s (none, q) e = refl
read_first-none s (some u, q) e = cc

read_loop_enough :
    (fuel left : ℕ) (q : List Input)
    → left ≤ fuel
    → left ≤ length (ready q)
    → (guard_read_loop fuel left q).0 ≡ some (take left (ready q))
unfolding guard_read_loop
read_loop_enough fuel zero q h l = refl
read_loop_enough zero (suc left) q h l = absurd (omega arith)
read_loop_enough (suc fuel) (suc left) [] h l = unfold ready in absurd (omega arith)
read_loop_enough (suc fuel) (suc left) (Input.no_input f ∷ q) h l =
    unfold ready in absurd (omega arith)
read_loop_enough (suc fuel) (suc left) (Input.chunk c cs ∷ q) h l =
    let n = suc left in
    let got = take n (c ∷ cs) in
    let q' = put_back (drop n (c ∷ cs)) q in
    let left' = n - length got in
    let rec =
      read_loop_enough fuel left' q' (omega (arith, length-take n (c ∷ cs)))
        (omega (arith, l, length-rest left c cs q, length-chunk c cs q, length-take n (c ∷ cs))) in
    read_first-some got _ (guard_read_loop fuel left' q') rec
    ∙ ap some (
        ap (λ r. got ++ take left' r) (ready-put_back (drop n (c ∷ cs)) q)
        ∙ take_parts n (c ∷ cs) (ready q)
        ∙ ap (take n) (sym (ready-chunk c cs q)))

read_loop_short :
    (fuel left : ℕ) (q : List Input)
    → length (ready q) < left
    → (guard_read_loop fuel left q).0 ≡ none
unfolding guard_read_loop
read_loop_short fuel zero q l = absurd (omega arith)
read_loop_short zero (suc left) q l = refl
read_loop_short (suc fuel) (suc left) [] l = refl
read_loop_short (suc fuel) (suc left) (Input.no_input f ∷ q) l = refl
read_loop_short (suc fuel) (suc left) (Input.chunk c cs ∷ q) l =
    let n = suc left in
    let q' = put_back (drop n (c ∷ cs)) q in
    let left' = n - length (take n (c ∷ cs)) in
    read_first-none (take n (c ∷ cs)) (guard_read_loop fuel left' q') (
      read_loop_short fuel left' q'
        (omega (arith, l, length-rest left c cs q, length-chunk c cs q, length-take n (c ∷ cs))))

-- For a size below 2 ^ 31, `guard_read` fills its buffer with the next bytes where so many arrive
-- before the descriptor fails or closes, however they are cut into pieces, and fails where fewer
-- arrive.
pub guard_read-ready :
    (size : ℕ) (q : List Input)
    → size < 2 ^ 31
    → (size ≤ length (ready q) → (guard_read size q).0 ≡ some (take size (ready q)))
      × (length (ready q) < size → (guard_read size q).0 ≡ none)
unfolding guard_read guard_read_of
guard_read-ready size q small =
    rw (to_int-small size small)
      ((λ h. read_loop_enough size size q (omega arith) h), (λ h. read_loop_short size size q h))

take-length : (s : Bytes) → take (length s) s ≡ s
take-length [] = refl
take-length (b ∷ s) = ap (λ t. b ∷ t) (take-length s)

write_loop-prefix :
    (fuel : ℕ) (s : Bytes) (o : List Output)
    → length s ≤ fuel
    → let (w, done) = guard_write_loop fuel s o in
      ((done ≡ true) → w ≡ s) × ((later : Bytes) × (s ≡ w ++ later))
unfolding guard_write_loop wrote_first
write_loop-prefix fuel [] o h = ((λ y. refl), ([], refl))
write_loop-prefix zero (b ∷ s) o h = absurd (omega arith)
write_loop-prefix (suc fuel) (b ∷ s) [] h = ((λ y. refl), ([], sym (append-nil (b ∷ s))))
write_loop-prefix (suc fuel) (b ∷ s) (Output.no_output f ∷ o) h = ((λ y. cc), (b ∷ s, refl))
write_loop-prefix (suc fuel) (b ∷ s) (Output.took k ∷ o) h =
    let n = suc k in
    let (full, later) =
      write_loop-prefix fuel (drop n (b ∷ s)) o (omega (arith, length-drop n (b ∷ s))) in
    (
      (λ y. ap (λ r. take n (b ∷ s) ++ r) (full y) ∙ take-append-drop n (b ∷ s)),
      prefix-take n (b ∷ s) _ later,
    )

-- What `guard_write` writes of fewer than 2 ^ 31 bytes is a first part of them, and all of them
-- where it reports success.
pub guard_write-prefix :
    (s : Bytes) (o : List Output)
    → length s < 2 ^ 31
    → let (w, done) = guard_write s o in
      ((done ≡ true) → w ≡ s) × ((later : Bytes) × (s ≡ w ++ later))
unfolding guard_write guard_write_of
guard_write-prefix s o small =
    rw (to_int-small (length s) small, take-length s)
      (write_loop-prefix (length s) s o (omega arith))

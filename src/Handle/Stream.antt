-- ===== src/Handle/Stream.antt =====
-- lib/handle.c: what `antd_recv` and `antd_send` do to the bytes.
use ant_http.Handle.{
  Failure, Input, Conn, buff_len, recv_goes_on, put_back, prepend, recv_loop, io_result, antd_recv,
}
use ant_http.Prelude.{
  ℕ, zero, suc, ◌+◌, ◌-◌, ◌≤◌, min, ℤ, pos, Bytes, Bool, true, Option, none, List, [], ◌∷◌, ◌++◌,
  length, take, drop, length-take, length-drop, length-append, Bool-cases, ◌⊎◌, inl, inr, ◌≡◌, ◌≢◌,
  refl, sym, ap, ◌∙◌, arith,
}

-- All bytes that arrive.
unfoldable pub stream : List Input → Bytes
stream [] = []
stream (Input.chunk c cs ∷ q) = c ∷ cs ++ stream q
stream (Input.no_input f ∷ q) = stream q

-- No answer of the socket ends a loop of reads.
unfoldable pub IsOpen : Bool → List Input → Type 0
IsOpen ssl [] = Unit
IsOpen ssl (Input.chunk c cs ∷ q) = IsOpen ssl q
IsOpen ssl (Input.no_input f ∷ q) = (recv_goes_on ssl f ≡ true) × IsOpen ssl q

pub stream-chunk :
    (c : ℕ) (cs : Bytes) (q : List Input) → stream (Input.chunk c cs ∷ q) ≡ (c ∷ cs) ++ stream q
unfolding stream
stream-chunk c cs q = refl

pub stream-no_input : (f : Failure) (q : List Input) → stream (Input.no_input f ∷ q) ≡ stream q
unfolding stream
stream-no_input f q = refl

pub stream-put_back : (s : Bytes) (q : List Input) → stream (put_back s q) ≡ s ++ stream q
unfolding stream put_back
stream-put_back [] q = refl
stream-put_back (c ∷ s) q = refl

pub length-put_back : (s : Bytes) (q : List Input) → length (put_back s q) ≤ suc (length q)
unfolding put_back
length-put_back [] q = omega arith
length-put_back (c ∷ s) q = omega arith

put_back-IsOpen :
    (ssl : Bool) (s : Bytes) (q : List Input) → IsOpen ssl q → IsOpen ssl (put_back s q)
unfolding put_back IsOpen
put_back-IsOpen ssl [] q h = h
put_back-IsOpen ssl (c ∷ s) q h = h

pub take_split :
    (n : ℕ) (xs ys d e : Bytes) → drop n xs ++ ys ≡ d ++ e → xs ++ ys ≡ (take n xs ++ d) ++ e
take_split zero xs ys d e h = h
take_split (suc n) [] ys d e h = h
take_split (suc n) (x ∷ xs) ys d e h = ap (λ s. x ∷ s) (take_split n xs ys d e h)

recv_loop-stream :
    (fuel : ℕ) (ssl : Bool) (left : ℕ) (q : List Input)
    → let r = recv_loop fuel ssl left q in stream q ≡ r.data_in ++ stream r.rest
unfolding recv_loop prepend
recv_loop-stream zero ssl left q = refl
recv_loop-stream (suc fuel) ssl zero q = refl
recv_loop-stream (suc fuel) ssl (suc left) [] = refl
recv_loop-stream (suc fuel) ssl (suc left) (Input.no_input f ∷ q) =
    rw (stream-no_input f q) (elim (Bool-cases (recv_goes_on ssl f)) [
      | inl y ↦ rw y (recv_loop-stream fuel ssl (suc left) q)
      | inr n ↦ rw n refl
    ])
recv_loop-stream (suc fuel) ssl (suc left) (Input.chunk c cs ∷ q) =
    let n = min (suc left) buff_len in
    let rest =
      recv_loop-stream fuel ssl (suc left - length (take n (c ∷ cs)))
        (put_back (drop n (c ∷ cs)) q) in
    stream-chunk c cs q
    ∙ take_split n (c ∷ cs) (stream q) _ _ (sym (stream-put_back (drop n (c ∷ cs)) q) ∙ rest)

recv_loop-length :
    (fuel : ℕ) (ssl : Bool) (left : ℕ) (q : List Input)
    → length ((recv_loop fuel ssl left q).data_in) ≤ left
unfolding recv_loop prepend
recv_loop-length zero ssl left q = omega arith
recv_loop-length (suc fuel) ssl zero q = omega arith
recv_loop-length (suc fuel) ssl (suc left) [] = omega arith
recv_loop-length (suc fuel) ssl (suc left) (Input.no_input f ∷ q) =
    ground (arith, recv_loop-length fuel ssl (suc left) q)
recv_loop-length (suc fuel) ssl (suc left) (Input.chunk c cs ∷ q) =
    let n = min (suc left) buff_len in
    let got = take n (c ∷ cs) in
    let q' = put_back (drop n (c ∷ cs)) q in
    let left' = suc left - length got in
    omega (
      arith,
      length-append got ((recv_loop fuel ssl left' q').data_in),
      length-take n (c ∷ cs),
      recv_loop-length fuel ssl left' q',
    )

-- On fuel that covers the bytes asked for and the answers to come, the loop of reads ends: it has
-- all bytes that were asked for, or an answer of the socket stopped it.
pub recv_loop-total :
    (fuel : ℕ) (ssl : Bool) (left : ℕ) (q : List Input)
    → left + length q ≤ fuel
    → let r = recv_loop fuel ssl left q in (length r.data_in ≡ left) ⊎ (r.stopped ≢ none)
unfolding recv_loop prepend
recv_loop-total zero ssl left q h = inl (omega arith)
recv_loop-total (suc fuel) ssl zero q h = inl refl
recv_loop-total (suc fuel) ssl (suc left) [] h = inr (λ e. cc)
recv_loop-total (suc fuel) ssl (suc left) (Input.no_input f ∷ q) h =
    ground (arith, recv_loop-total fuel ssl (suc left) q)
recv_loop-total (suc fuel) ssl (suc left) (Input.chunk c cs ∷ q) h =
    let n = min (suc left) buff_len in
    let got = take n (c ∷ cs) in
    let q' = put_back (drop n (c ∷ cs)) q in
    let left' = suc left - length got in
    elim (recv_loop-total fuel ssl left' q'
      (omega (arith, length-take n (c ∷ cs), length-put_back (drop n (c ∷ cs)) q))) [
        | inl full ↦ inl (
            omega (
              arith,
              full,
              length-append got ((recv_loop fuel ssl left' q').data_in),
              length-take n (c ∷ cs),
            ))
        | inr stop ↦ inr stop
      ]

recv_loop-IsOpen :
    (fuel : ℕ) (ssl : Bool) (left : ℕ) (q : List Input)
    → left + length q ≤ fuel
    → left ≤ length (stream q)
    → IsOpen ssl q
    → let r = recv_loop fuel ssl left q in (length r.data_in ≡ left) × IsOpen ssl r.rest
unfolding recv_loop prepend IsOpen
recv_loop-IsOpen zero ssl left q h l o = (omega arith, o)
recv_loop-IsOpen (suc fuel) ssl zero q h l o = (refl, o)
recv_loop-IsOpen (suc fuel) ssl (suc left) [] h l o = unfold stream in absurd (omega arith)
recv_loop-IsOpen (suc fuel) ssl (suc left) (Input.no_input f ∷ q) h l (go, o) =
    rw go (recv_loop-IsOpen fuel ssl (suc left) q (omega arith) (unfold stream in l) o)
recv_loop-IsOpen (suc fuel) ssl (suc left) (Input.chunk c cs ∷ q) h l o =
    let n = min (suc left) buff_len in
    let got = take n (c ∷ cs) in
    let q' = put_back (drop n (c ∷ cs)) q in
    let left' = suc left - length got in
    let (full, open') =
      recv_loop-IsOpen fuel ssl left' q'
        (omega (arith, length-take n (c ∷ cs), length-put_back (drop n (c ∷ cs)) q))
        (omega (
          arith,
          l,
          ap length (stream-chunk c cs q),
          length-append (c ∷ cs) (stream q),
          ap length (stream-put_back (drop n (c ∷ cs)) q),
          length-append (drop n (c ∷ cs)) (stream q),
          length-drop n (c ∷ cs),
          length-take n (c ∷ cs),
        ))
        (put_back-IsOpen ssl (drop n (c ∷ cs)) q o) in
    (
      omega (
        arith,
        full,
        length-append got ((recv_loop fuel ssl left' q').data_in),
        length-take n (c ∷ cs),
      ),
      open',
    )

io_result-cases :
    (s : Bytes) (stopped : Option ℤ) → (io_result (length s) stopped ≡ pos (length s)) ⊎ (s ≡ [])
unfolding io_result
io_result-cases [] stopped = inr refl
io_result-cases (b ∷ s) stopped = inl refl

recv_loop-result :
    (fuel : ℕ) (ssl : Bool) (left : ℕ) (q : List Input)
    → let r = recv_loop fuel ssl left q in
      length r.data_in ≡ left → io_result (length r.data_in) r.stopped ≡ pos left
unfolding recv_loop io_result
recv_loop-result zero ssl zero q full = refl
recv_loop-result (suc fuel) ssl zero q full = refl
recv_loop-result fuel ssl (suc left) q full = rw full refl

pub append-cancel {ℓ} :
    {A : Type ℓ} (xs ys as' bs : List A)
    → length xs ≡ length as'
    → xs ++ ys ≡ as' ++ bs
    → (xs ≡ as') × (ys ≡ bs)
append-cancel [] ys [] bs l e = (refl, e)
append-cancel [] ys (a ∷ as') bs l e = absurd (omega arith)
append-cancel (x ∷ xs) ys [] bs l e = absurd (omega arith)
append-cancel (x ∷ xs) ys (a ∷ as') bs l e =
    let (p, r) = append-cancel xs ys as' bs (omega arith) cc in (cc, r)

-- No byte is lost, repeated or reordered: what `antd_recv` returns and what is left are together
-- what was to come, and it returns at most `len` bytes. The result is their number, unless there
-- are none.
pub antd_recv-stream :
    (len : ℕ) (c : Conn)
    → let (n, got, c') = antd_recv len c in
      (stream c.input ≡ got ++ stream c'.input)
      × (length got ≤ len)
      × ((n ≡ pos (length got)) ⊎ (got ≡ []))
unfolding antd_recv
antd_recv-stream len c = (
  recv_loop-stream _ c.ssl len c.input,
  recv_loop-length _ c.ssl len c.input,
  io_result-cases _ _,
)

-- On a connection that no error ends, `antd_recv` returns the next bytes, as many as asked for,
-- where that many are to come.
pub antd_recv-exact :
    (c : Conn) (s later : Bytes)
    → IsOpen c.ssl c.input
    → stream c.input ≡ s ++ later
    → (q : List Input) × (antd_recv (length s) c ≡ (pos (length s), s, record c { input = q }))
      × (stream q ≡ later)
      × IsOpen c.ssl q
unfolding antd_recv
antd_recv-exact c s later o e =
    let fuel = length s + length c.input in
    let r = recv_loop fuel c.ssl (length s) c.input in
    let (full, open') =
      recv_loop-IsOpen fuel c.ssl (length s) c.input (omega arith)
        (omega (arith, ap length e, length-append s later)) o in
    let (p, left) =
      append-cancel r.data_in (stream r.rest) s later full
        (sym (recv_loop-stream fuel c.ssl (length s) c.input) ∙ e) in
    (
      r.rest,
      (λ i. (
        recv_loop-result fuel c.ssl (length s) c.input full i,
        p i,
        record c { input = r.rest },
      )),
      left,
      open',
    )

-- ===== src/Decode/Body/Form.antt =====
-- decode.c: the body of a form, as `post_data_decode` and `decode_post_request` read it.
use ant_http.Decode.Body.{
  post_loop, some_text, wanted, post_data_decode, form_read, with_params, decode_body,
}
use ant_http.Decode.Params.Back.{put_all, IsParam, query_text, decode_url_request-query_text}
use ant_http.Handle.{Input, Conn, put_back, buff_len, upto_error}
use ant_http.Handle.Stream.{
  stream, stream-put_back, stream-chunk, stream-no_input, length-put_back, take_split,
  append-cancel,
}
use ant_http.Prelude.{
  ℕ, zero, suc, ◌+◌, ◌-◌, ◌≤◌, min, pos, ltb_ℤ, Bytes, codes, c_string_text, has_part, IsText, Bool,
  true, false, ◌||◌, some, List, [], ◌∷◌, ◌++◌, length, take, drop, length-take, length-drop,
  length-append, All, Bool-cases, inl, inr, ◌≡◌, ◌≢◌, refl, sym, ap, ◌∙◌, arith,
}
use ant_http.Decode.Params.{decode_url_request}
use ant_http.Scheduler.Create.{antd_create_task, antd_task_bind_event}
use ant_http.Request.{Request, Moment, task_on, task_for}

-- No answer of the socket ends the loop.
unfoldable pub IsPatient : Bool → List Input → Type 0
IsPatient ssl [] = Unit
IsPatient ssl (Input.chunk c cs ∷ q) = IsPatient ssl q
IsPatient ssl (Input.no_input f ∷ q) =
    ((ltb_ℤ (upto_error ssl f) (pos 0) || f.expired) ≡ false) × IsPatient ssl q

put_back-IsPatient :
    (ssl : Bool) (s : Bytes) (q : List Input) → IsPatient ssl q → IsPatient ssl (put_back s q)
unfolding put_back IsPatient
put_back-IsPatient ssl [] q h = h
put_back-IsPatient ssl (c ∷ s) q h = h

post_loop-stream :
    (fuel : ℕ) (ssl : Bool) (left : ℕ) (q : List Input)
    → let (got, q') = post_loop fuel ssl left q in stream q ≡ got ++ stream q'
unfolding post_loop
post_loop-stream zero ssl left q = refl
post_loop-stream (suc fuel) ssl zero q = refl
post_loop-stream (suc fuel) ssl (suc left) [] = refl
post_loop-stream (suc fuel) ssl (suc left) (Input.no_input f ∷ q) =
    rw (stream-no_input f q) (elim (Bool-cases (ltb_ℤ (upto_error ssl f) (pos 0) || f.expired)) [
      | inl y ↦ rw y refl
      | inr n ↦ rw n (post_loop-stream fuel ssl (suc left) q)
    ])
post_loop-stream (suc fuel) ssl (suc left) (Input.chunk c cs ∷ q) =
    let n = min (suc left) buff_len in
    let rest =
      post_loop-stream fuel ssl (suc left - length (take n (c ∷ cs)))
        (put_back (drop n (c ∷ cs)) q) in
    stream-chunk c cs q
    ∙ take_split n (c ∷ cs) (stream q) _ _ (sym (stream-put_back (drop n (c ∷ cs)) q) ∙ rest)

post_loop-length :
    (fuel : ℕ) (ssl : Bool) (left : ℕ) (q : List Input)
    → length (post_loop fuel ssl left q).0 ≤ left
unfolding post_loop
post_loop-length zero ssl left q = omega arith
post_loop-length (suc fuel) ssl zero q = omega arith
post_loop-length (suc fuel) ssl (suc left) [] = omega arith
post_loop-length (suc fuel) ssl (suc left) (Input.no_input f ∷ q) =
    ground (arith, post_loop-length fuel ssl (suc left) q)
post_loop-length (suc fuel) ssl (suc left) (Input.chunk c cs ∷ q) =
    let n = min (suc left) buff_len in
    let got = take n (c ∷ cs) in
    let q' = put_back (drop n (c ∷ cs)) q in
    let left' = suc left - length got in
    omega (
      arith,
      length-append got (post_loop fuel ssl left' q').0,
      length-take n (c ∷ cs),
      post_loop-length fuel ssl left' q',
    )

post_loop-full :
    (fuel : ℕ) (ssl : Bool) (left : ℕ) (q : List Input)
    → left + length q ≤ fuel
    → left ≤ length (stream q)
    → IsPatient ssl q
    → length (post_loop fuel ssl left q).0 ≡ left
unfolding post_loop IsPatient
post_loop-full zero ssl left q h l p = omega arith
post_loop-full (suc fuel) ssl zero q h l p = refl
post_loop-full (suc fuel) ssl (suc left) [] h l p = unfold stream in absurd (omega arith)
post_loop-full (suc fuel) ssl (suc left) (Input.no_input f ∷ q) h l (go, p) =
    rw go (post_loop-full fuel ssl (suc left) q (omega arith) (unfold stream in l) p)
post_loop-full (suc fuel) ssl (suc left) (Input.chunk c cs ∷ q) h l p =
    let n = min (suc left) buff_len in
    let got = take n (c ∷ cs) in
    let q' = put_back (drop n (c ∷ cs)) q in
    let left' = suc left - length got in
    let full =
      post_loop-full fuel ssl left' q'
        (omega (arith, length-take n (c ∷ cs), length-put_back (drop n (c ∷ cs)) q))
        (omega (
          arith,
          l,
          ap length (stream-chunk c cs q),
          length-append (c ∷ cs) (stream q),
          ap length (stream-put_back (drop n (c ∷ cs)) q),
          length-append (drop n (c ∷ cs)) (stream q),
          length-drop n (c ∷ cs),
          length-take n (c ∷ cs),
        ))
        (put_back-IsPatient ssl (drop n (c ∷ cs)) q p) in
    omega (arith, full, length-append got (post_loop fuel ssl left' q').0, length-take n (c ∷ cs))

some_text-ne : (s : Bytes) → s ≢ [] → some_text s ≡ some s
unfolding some_text
some_text-ne [] ne = absurd (ne refl)
some_text-ne (c ∷ s) ne = refl

-- `post_data_decode` returns the next bytes, as many as asked for, where that many are to come, one
-- at least, and no answer of the socket ends the loop. What is behind them stays to be read.
pub post_data_decode-exact :
    (c : Conn) (s later : Bytes)
    → s ≢ []
    → IsPatient c.ssl c.input
    → stream c.input ≡ s ++ later
    → (q : List Input) × (post_data_decode (pos (length s)) c ≡ (some s, record c { input = q }))
      × (stream q ≡ later)
unfolding post_data_decode wanted
post_data_decode-exact c s later ne p e =
    let fuel = length s + length c.input in
    let (got, q) = post_loop fuel c.ssl (length s) c.input in
    let full =
      post_loop-full fuel c.ssl (length s) c.input (omega arith)
        (omega (arith, ap length e, length-append s later)) p in
    let (same, behind) =
      append-cancel got (stream q) s later full
        (sym (post_loop-stream fuel c.ssl (length s) c.input) ∙ e) in
    (
      q,
      ap (λ t. (some_text t, record c { input = q })) same
          ∙ ap (λ t. (t, record c { input = q })) (some_text-ne s ne),
      behind,
    )

-- A form whose texts are written down as a query, with its type and its length announced, is
-- decoded into the same parameters, if the query is not empty and no answer of the socket ends the
-- loop; what is behind the body stays to be read.
pub decode_body-query_text :
    (m : Moment) (ctype : Bytes) (rq : Request) (ps : List (Bytes × Bytes)) (later : Bytes)
    → has_part (codes "application/x-www-form-urlencoded") ctype ≡ true
    → All IsParam ps
    → IsText (query_text ps)
    → query_text ps ≢ []
    → IsPatient rq.conn.ssl rq.conn.input
    → stream rq.conn.input ≡ query_text ps ++ later
    → let t = decode_body m ctype (pos (length (query_text ps))) rq in
      (t.data_of.params ≡ put_all ps rq.params) × (stream t.data_of.conn.input ≡ later)
unfolding decode_body form_read with_params task_on task_for antd_create_task antd_task_bind_event
decode_body-query_text m ctype rq ps later is_form h text ne patient e =
    let (q, read, behind) = post_data_decode-exact rq.conn _ later ne patient e in
    rw is_form (
      rw read (
        ap (λ t. decode_url_request (some t) rq.params) (c_string_text (query_text ps) text)
            ∙ decode_url_request-query_text ps rq.params h,
        behind,
      ))

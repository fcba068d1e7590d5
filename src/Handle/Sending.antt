-- ===== src/Handle/Sending.antt =====
-- lib/handle.c: what `antd_send` and `__b` write.
use ant_http.Handle.{
  send_next, Output, Conn, Written, buff_len, send_goes_on, io_result, written_first, send_loop,
  antd_send, send_blocks, send_bytes,
}
use ant_http.Prelude.{
  ℕ, zero, suc, ◌+◌, ◌≤◌, min, pos, Bytes, Bool, true, none, List, [], ◌∷◌, ◌++◌, length, take,
  drop, take-append-drop, length-drop, append_assoc, append-nil, Bool-cases, inl, inr, ◌≡◌, refl,
  sym, ap, ◌∙◌, arith,
}

-- No answer of the socket ends a loop of writes.
unfoldable pub IsWritable : Bool → List Output → Type 0
IsWritable ssl [] = Unit
IsWritable ssl (Output.took k ∷ o) = IsWritable ssl o
IsWritable ssl (Output.no_output f ∷ o) = (send_goes_on ssl f ≡ true) × IsWritable ssl o

-- What follows a first part of a text follows it in the text.
pub prefix-take :
    (n : ℕ) (s w : Bytes)
    → (later : Bytes) × (drop n s ≡ w ++ later)
    → (later : Bytes) × (s ≡ (take n s ++ w) ++ later)
prefix-take n s w (later, e) = (
  later,
  sym (take-append-drop n s) ∙ ap (λ x. take n s ++ x) e ∙ sym (append_assoc (take n s) w later),
)

send_loop-prefix :
    (fuel : ℕ) (ssl : Bool) (s : Bytes) (o : List Output)
    → (later : Bytes) × (s ≡ (send_loop fuel ssl s o).data_out ++ later)
unfolding send_loop written_first
send_loop-prefix zero ssl s o = (s, refl)
send_loop-prefix (suc fuel) ssl [] o = ([], refl)
send_loop-prefix (suc fuel) ssl (b ∷ s) [] =
    prefix-take buff_len (b ∷ s) _ (send_loop-prefix fuel ssl (drop buff_len (b ∷ s)) [])
send_loop-prefix (suc fuel) ssl (b ∷ s) (Output.took k ∷ o) =
    prefix-take (min (suc k) buff_len) (b ∷ s) _
      (send_loop-prefix fuel ssl (drop (min (suc k) buff_len) (b ∷ s)) o)
send_loop-prefix (suc fuel) ssl (b ∷ s) (Output.no_output f ∷ o) =
    elim (Bool-cases (send_goes_on ssl f)) [
      | inl y ↦ rw y (send_loop-prefix fuel ssl (b ∷ s) o)
      | inr n ↦ rw n (b ∷ s, refl)
    ]

-- What a loop that is not stopped ends with.
Complete : Bool → Bytes → Written → Type 0
Complete ssl s w = (w.data_out ≡ s) × (w.stopped ≡ none) × IsWritable ssl w.later

Complete-take :
    (ssl : Bool) (n : ℕ) (s : Bytes) (w : Written)
    → Complete ssl (drop n s) w
    → Complete ssl s (written_first (take n s) w)
unfolding Complete written_first
Complete-take ssl n s w (p, q, r) = (ap (λ x. take n s ++ x) p ∙ take-append-drop n s, q, r)

send_loop-Complete :
    (fuel : ℕ) (ssl : Bool) (s : Bytes) (o : List Output)
    → length s + length o ≤ fuel
    → IsWritable ssl o
    → Complete ssl s (send_loop fuel ssl s o)
unfolding send_loop IsWritable
send_loop-Complete zero ssl [] o h w = unfold Complete in (refl, refl, w)
send_loop-Complete zero ssl (b ∷ s) o h w = absurd (omega arith)
send_loop-Complete (suc fuel) ssl [] o h w = unfold Complete in (refl, refl, w)
send_loop-Complete (suc fuel) ssl (b ∷ s) [] h w = Complete-take ssl buff_len (b ∷ s) _ (
    send_loop-Complete fuel ssl (drop buff_len (b ∷ s)) []
      (omega (arith, length-drop buff_len (b ∷ s))) w)
send_loop-Complete (suc fuel) ssl (b ∷ s) (Output.took k ∷ o) h w =
    let n = min (suc k) buff_len in
    Complete-take ssl n (b ∷ s) _
      (send_loop-Complete fuel ssl (drop n (b ∷ s)) o (omega (arith, length-drop n (b ∷ s))) w)
send_loop-Complete (suc fuel) ssl (b ∷ s) (Output.no_output f ∷ o) h (go, w) =
    rw go (send_loop-Complete fuel ssl (b ∷ s) o (omega arith) w)

-- What `antd_send` writes is a first part of the text, behind what was written before.
pub antd_send-prefix :
    (s : Bytes) (c : Conn)
    → (w : Bytes) × (later : Bytes) × (s ≡ w ++ later) × ((antd_send s c).1.sent ≡ c.sent ++ w)
unfolding antd_send
antd_send-prefix s c =
    let (later, e) = send_loop-prefix (length s + length c.output) c.ssl s c.output in
    (_, later, e, refl)

io_result-none : (n : ℕ) → io_result n none ≡ pos n
unfolding io_result
io_result-none zero = refl
io_result-none (suc n) = refl

-- On a connection that no error ends, `antd_send` writes the whole text and returns its length.
pub antd_send-all :
    (s : Bytes) (c : Conn)
    → IsWritable c.ssl c.output
    → (o : List Output) × (antd_send s c
        ≡ (pos (length s), record c { output = o; sent = c.sent ++ s }))
      × IsWritable c.ssl o
unfolding antd_send Complete
antd_send-all s c h =
    let (p, q, r) =
      send_loop-Complete (length s + length c.output) c.ssl s c.output (omega arith) h in
    let w = send_loop (length s + length c.output) c.ssl s c.output in
    (
      w.later,
      (λ i. (
        (ap (λ d. io_result (length d) w.stopped) p
              ∙ ap (io_result (length s)) q
              ∙ io_result-none (length s))
            i,
        record c { output = w.later; sent = c.sent ++ p i },
      )),
      r,
    )

send_blocks-step :
    (fuel : ℕ) (b : ℕ) (s : Bytes) (c c' : Conn) (n : ℕ)
    → antd_send (take buff_len (b ∷ s)) c ≡ (pos n, c')
    → send_blocks (suc fuel) (b ∷ s) c ≡ send_blocks fuel (drop buff_len (b ∷ s)) c'
unfolding send_blocks send_next
send_blocks-step fuel b s c c' n e = ap (send_next (send_blocks fuel (drop buff_len (b ∷ s)))) e

send_blocks-nil : (fuel : ℕ) (c : Conn) → send_blocks fuel [] c ≡ (true, c)
unfolding send_blocks
send_blocks-nil zero c = refl
send_blocks-nil (suc fuel) c = refl

send_blocks-all :
    (fuel : ℕ) (s : Bytes) (c : Conn)
    → length s ≤ fuel
    → IsWritable c.ssl c.output
    → (o : List Output) × (send_blocks fuel s c
        ≡ (true, record c { output = o; sent = c.sent ++ s }))
      × IsWritable c.ssl o
send_blocks-all fuel [] c h w = (
  c.output,
  send_blocks-nil fuel c ∙ ap (λ t. (true, record c { sent = t })) (sym (append-nil c.sent)),
  w,
)
send_blocks-all zero (b ∷ s) c h w = absurd (omega arith)
send_blocks-all (suc fuel) (b ∷ s) c h w =
    let (o, e, w') = antd_send-all (take buff_len (b ∷ s)) c w in
    let (o', e', w'') =
      send_blocks-all fuel (drop buff_len (b ∷ s))
        (record c { output = o; sent = c.sent ++ take buff_len (b ∷ s) })
        (omega (arith, length-drop buff_len (b ∷ s))) w' in
    (
      o',
      send_blocks-step fuel b s c _ _ e
          ∙ e'
          ∙ ap (λ t. (true, record c { output = o'; sent = t }))
              (append_assoc c.sent (take buff_len (b ∷ s)) (drop buff_len (b ∷ s))
                ∙ ap (λ t. c.sent ++ t) (take-append-drop buff_len (b ∷ s))),
      w'',
    )

-- On a connection that no error ends, `__b` writes the whole text in order and reports success.
pub send_bytes-all :
    (s : Bytes) (c : Conn)
    → IsWritable c.ssl c.output
    → (o : List Output) × (send_bytes s c ≡ (true, record c { output = o; sent = c.sent ++ s }))
      × IsWritable c.ssl o
unfolding send_bytes
send_bytes-all s c h = send_blocks-all (length s) s c (omega arith) h

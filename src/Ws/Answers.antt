-- ===== src/Ws/Answers.antt =====
-- lib/ws.c: the frames that answer a PING or a CLOSE.
use ant_http.Handle.{Output, Conn}
use ant_http.Handle.Sending.{IsWritable}
use ant_http.Handle.Stream.{stream, IsOpen}
use ant_http.Prelude.{
  ◌^◌, to_int, leb, false, length-append, ℕ, ◌/◌, ◌%◌, ◌<◌, ◌==◌, Bytes, true, if◌then◌else◌, List,
  [], ◌∷◌, ◌++◌, length, take, Bool-cases, inl, inr, ◌≡◌, refl, ap, ◌∙◌, arith,
}
use ant_http.Ws.{
  WsMsgHeader, ws_close, header_parts, send_parts, apply_mask, ws_send_frame, ws_send_close,
  pong_answer, ws_pong,
}
use ant_http.Request.{overrun}
use ant_http.Ws.Payloads.{read_size-all, length-apply_mask, frame, joined-frame, ws_read_data-exact}
use ant_http.Ws.Headers.{send_parts-all}

-- The header with the key that `ws_send_frame` puts in it.
unfoldable pub keyed : WsMsgHeader → Bytes → WsMsgHeader
keyed h key = record h { mask_key = if h.mask == 0 then h.mask_key else key }

take_append : (s t : Bytes) → take (length s) (s ++ t) ≡ s
take_append [] t = refl
take_append (b ∷ s) t = ap (λ r. b ∷ r) (take_append s t)

apply_mask-keyed :
    (mask : ℕ) (k key s : Bytes)
    → apply_mask mask key s ≡ apply_mask mask (if mask == 0 then k else key) s
unfolding apply_mask
apply_mask-keyed mask k key s = elim (Bool-cases (mask == 0)) [
  | inl y ↦ rw y refl
  | inr n ↦ rw n refl
]

-- What `ws_send_frame` writes of a buffer that starts with the payload `s`.
ws_send_frame-keyed :
    (key s t : Bytes) (h : WsMsgHeader) (c : Conn)
    → h.plen ≡ length s
    → IsWritable c.ssl c.output
    → (o : List Output) × (ws_send_frame key (s ++ t) h c
        ≡ (true, record c { output = o; sent = c.sent ++ frame (keyed h key) s }))
      × IsWritable c.ssl o
unfolding ws_send_frame frame keyed
ws_send_frame-keyed key s t h c l w =
    let p = apply_mask h.mask (if h.mask == 0 then h.mask_key else key) s in
    let (o, e, w') = send_parts-all (header_parts (keyed h key) ++ p ∷ []) c w in
    (
      o,
      ap (λ q. send_parts (header_parts (keyed h key) ++ q ∷ []) c)
            (ap (apply_mask h.mask key) (ap (λ n. take n (s ++ t)) l ∙ take_append s t)
              ∙ apply_mask-keyed h.mask h.mask_key key s)
          ∙ e
          ∙ ap (λ r. (true, record c { output = o; sent = c.sent ++ r }))
              (joined-frame (keyed h key) p),
      w',
    )

-- The header of an answer before its key is drawn.
abbrev pub answer_header : ℕ → ℕ → ℕ → WsMsgHeader
answer_header opcode plen mask = record {
  fin = 1;
  opcode = opcode;
  plen = plen;
  mask = mask;
  mask_key = [];
}

-- `ws_send_close` writes one CLOSE frame with the status as two bytes, on a connection that no error
-- ends.
pub ws_send_close-all :
    (key : Bytes) (status mask : ℕ) (c : Conn)
    → IsWritable c.ssl c.output
    → (o : List Output) × (ws_send_close key status mask c ≡ (
      true,
      record c {
        output = o;
        sent =
            c.sent
            ++ frame
                (keyed (answer_header ws_close 2 mask) key)
                (status / 256 % 256 ∷ status % 256 ∷ []);
      },
    ))
      × IsWritable c.ssl o
unfolding ws_send_close
ws_send_close-all key status mask c w =
    ws_send_frame-keyed key (status / 256 % 256 ∷ status % 256 ∷ []) []
      (answer_header ws_close 2 mask) c refl w

-- `ws_pong` writes a NUL behind the end of its buffer on every PING whose payload, of at least one byte
-- and fewer than 2 ^ 31, is read whole, which it is on a connection that no error ends and that has it.
pub ws_pong-overrun :
    (key garbage s later : Bytes) (h : WsMsgHeader) (mask : ℕ) (c : Conn)
    → h.plen ≡ length s
    → 0 < length s
    → length s < 2 ^ 31
    → IsOpen c.ssl c.input
    → stream c.input ≡ s ++ later
    → ws_pong key garbage h mask c ≡ overrun
unfolding ws_pong pong_answer
ws_pong-overrun key garbage s later h mask c l n small o e =
    let plain = apply_mask h.mask h.mask_key s in
    let (q, r, _, _) =
      ws_read_data-exact h (to_int h.plen) s c later
        (read_size-all h.plen (omega (arith, l, small))) l n o e in
    let longer : leb (length (plain ++ (0 ∷ []))) h.plen ≡ false =
      ground (arith, length-append plain (0 ∷ []), length-apply_mask h.mask h.mask_key s, l) in
    ap (pong_answer key garbage h.plen mask) r ∙ rw longer refl

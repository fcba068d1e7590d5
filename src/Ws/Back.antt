-- ===== src/Ws/Back.antt =====
-- lib/ws.c: a frame from `ws_send_frame` to `ws_read_header` and `ws_read_data`.
use ant_http.Handle.{Conn}
use ant_http.Handle.Sending.{IsWritable}
use ant_http.Handle.Stream.{stream, IsOpen}
use ant_http.Prelude.{
  ◌<◌, ◌^◌, ◌==◌, pos, negsuc, Bytes, true, if◌then◌else◌, some, [], ◌∷◌, ◌++◌, length, take,
  Bool-cases, inl, inr, append_assoc, All, ◌≡◌, ◌≢◌, refl, ap, ◌∙◌, arith,
}
use ant_http.Request.{done}
use ant_http.Ws.{
  WsMsgHeader, ws_close, ws_ping, header_parts, apply_mask, ws_send_frame, ws_read_header,
  ws_read_data,
}
use ant_http.Ws.Frames.{IsHeader, received, ws_read_header-Reads}
use ant_http.Ws.Headers.{joined, ReadsHeader-result}
use ant_http.Ws.Masks.{mask_twice}
use ant_http.Ws.Payloads.{
  frame, ws_send_frame-all, ws_read_data-exact, read_size-rest, length-apply_mask,
}

module _ (key garbage : Bytes) (h : WsMsgHeader) (valid : IsHeader h)
    (no_close : h.opcode ≢ ws_close) (no_ping : h.opcode ≢ ws_ping) where
  mask_back :
      (s : Bytes)
      → All (λ b. b < 256) s
      → All (λ k. k < 256) h.mask_key
      → apply_mask h.mask
          (if h.mask == 0 then take 4 garbage else h.mask_key)
          (apply_mask h.mask h.mask_key s)
        ≡ s
  unfolding apply_mask
  mask_back s hs hk = elim (Bool-cases (h.mask == 0)) [
    | inl y ↦ rw y refl
    | inr y ↦ rw y (mask_twice 0 h.mask_key s hk hs)
  ]

  frame-read :
      (s : Bytes) (c : Conn) (later : Bytes)
      → All (λ b. b < 256) s
      → All (λ k. k < 256) h.mask_key
      → h.plen ≡ length s
      → 0 < length s
      → length s < 2 ^ 31
      → IsOpen c.ssl c.input
      → stream c.input ≡ frame h s ++ later
      → (c' c'' : Conn) × (ws_read_header key garbage c ≡ done (some (received garbage h), c'))
        × (ws_read_data (received garbage h) (negsuc 0) c'
            ≡ (pos (length s), s ++ (0 ∷ []), record (received garbage h) { plen = 0 }, c''))
        × (stream c''.input ≡ later)
  unfolding frame received
  frame-read s c later hs hk l n small o e =
      let masked = apply_mask h.mask h.mask_key s in
      let (q, r, st, o') = ReadsHeader-result c _ _ _ (
        ws_read_header-Reads key garbage h valid no_close no_ping c (masked ++ later) o
          (e ∙ append_assoc (joined (header_parts h)) masked later)) in
      let (q', r', st', _) =
        ws_read_data-exact (received garbage h) (negsuc 0) masked (record c { input = q }) later
          (read_size-rest h.plen (omega (arith, l, small)))
          (omega (arith, l, length-apply_mask h.mask h.mask_key s))
          (omega (arith, n, length-apply_mask h.mask h.mask_key s)) o' st in
      (
        record c { input = q },
        record c { input = q' },
        r,
        r' ∙ (λ i. (
          pos (length-apply_mask h.mask h.mask_key s i),
          mask_back s hs hk i ++ (0 ∷ []),
          record (received garbage h) { plen = 0 },
          record c { input = q' },
        )),
        st',
      )

  -- What `ws_send_frame` writes to a connection that no error ends, `ws_read_header` and `ws_read_data`
  -- read back on one that no error ends: the header, whose key is the one that is drawn, or not
  -- initialised where there is no mask, and the payload as it was before masking, with a NUL behind it.
  -- The payload has at least one byte and fewer than 2 ^ 31, the header gives its length, its fields
  -- fit their bits, and its opcode is neither CLOSE nor PING. What follows the frame stays to be read.
  pub frame_back :
      (s : Bytes) (sender c : Conn) (later : Bytes)
      → All (λ b. b < 256) s
      → All (λ k. k < 256) h.mask_key
      → h.plen ≡ length s
      → 0 < length s
      → length s < 2 ^ 31
      → IsWritable sender.ssl sender.output
      → sender.sent ≡ []
      → IsOpen c.ssl c.input
      → stream c.input ≡ (ws_send_frame h.mask_key s h sender).1.sent ++ later
      → (c' c'' : Conn) × ((ws_send_frame h.mask_key s h sender).0 ≡ true)
        × (ws_read_header key garbage c ≡ done (some (received garbage h), c'))
        × (ws_read_data (received garbage h) (negsuc 0) c'
            ≡ (pos (length s), s ++ (0 ∷ []), record (received garbage h) { plen = 0 }, c''))
        × (stream c''.input ≡ later)
  frame_back s sender c later hs hk l n small w none_sent o e =
      let (out, sent, _) = ws_send_frame-all s h sender l w in
      let wire = ap (λ r. r.1.sent) sent ∙ ap (λ t. t ++ frame h s) none_sent in
      let (c', c'', header, payload, rest) =
        frame-read s c later hs hk l n small o (e ∙ ap (λ t. t ++ later) wire) in
      (c', c'', ap (λ r. r.0) sent, header, payload, rest)

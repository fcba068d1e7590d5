-- ===== src/Ws/Payloads.antt =====
-- lib/ws.c: the payload of a frame, written by `ws_send_frame` and read by `ws_read_data`.
use ant_http.Handle.{Input, Output, Conn, antd_recv}
use ant_http.Handle.Sending.{IsWritable}
use ant_http.Handle.Stream.{stream, IsOpen, antd_recv-exact}
use ant_http.Prelude.{
  ℕ, zero, suc, ◌<◌, ◌==◌, ℤ, pos, negsuc, pos_part, to_int, to_int-small, ◌^◌, Bytes, Bool, true,
  false, if◌then◌else◌, List, [], ◌∷◌, ◌++◌, length, take, Bool-cases, inl, inr, append-nil, ◌≡◌,
  refl, sym, ap, ◌∙◌, arith,
}
use ant_http.Ws.{
  WsMsgHeader, header_parts, send_parts, apply_mask, ws_send_frame, data_length, read_size, unmask,
  ws_read_data,
}
use ant_http.Ws.Headers.{joined, joined-append, send_parts-all}
use ant_http.Ws.Masks.{length-mask_from}

-- The bytes of a frame.
unfoldable pub frame : WsMsgHeader → Bytes → Bytes
frame h s = joined (header_parts h) ++ apply_mask h.mask h.mask_key s

take_all : (n : ℕ) (s : Bytes) → length s ≡ n → take n s ≡ s
take_all zero [] h = refl
take_all zero (b ∷ s) h = absurd (omega arith)
take_all (suc n) [] h = absurd (omega arith)
take_all (suc n) (b ∷ s) h = ap (λ t. b ∷ t) (take_all n s (omega arith))

if_same {ℓ} : {A : Type ℓ} (b : Bool) (x : A) → (if b then x else x) ≡ x
if_same true x = refl
if_same false x = refl

pub joined-frame :
    (h : WsMsgHeader) (p : Bytes) → joined (header_parts h ++ p ∷ []) ≡ joined (header_parts h) ++ p
joined-frame h p =
    joined-append (header_parts h) (p ∷ [])
    ∙ ap (λ t. joined (header_parts h) ++ t) (unfold joined in append-nil p)

-- On a connection that no error ends, `ws_send_frame` writes the bytes of the frame and succeeds;
-- the header already holds the key that is drawn, and its length is that of the payload.
pub ws_send_frame-all :
    (s : Bytes) (h : WsMsgHeader) (c : Conn)
    → h.plen ≡ length s
    → IsWritable c.ssl c.output
    → (o : List Output) × (ws_send_frame h.mask_key s h c
        ≡ (true, record c { output = o; sent = c.sent ++ frame h s }))
      × IsWritable c.ssl o
unfolding ws_send_frame frame
ws_send_frame-all s h c l w =
    let p = apply_mask h.mask h.mask_key s in
    let (o, e, w') = send_parts-all (header_parts h ++ p ∷ []) c w in
    (
      o,
      ap (λ ps. send_parts ps c)
            (λ i.
              header_parts (record h { mask_key = if_same (h.mask == 0) h.mask_key i })
              ++ apply_mask h.mask h.mask_key (take_all h.plen s (sym l) i) ∷ [])
          ∙ e
          ∙ ap (λ t. (true, record c { output = o; sent = c.sent ++ t })) (joined-frame h p),
      w',
    )

read_data-step :
    (h : WsMsgHeader) (len : ℤ) (c : Conn)
    → h.plen == 0 ≡ false
    → ws_read_data h len c ≡ unmask h (antd_recv (read_size len h.plen) c)
unfolding ws_read_data
read_data-step h len c e = rw e refl

-- The whole payload, where an `int` can hold its length.
pub read_size-rest : (plen : ℕ) → plen < 2 ^ 31 → read_size (negsuc 0) plen ≡ plen
unfolding read_size data_length
read_size-rest plen h = ap pos_part (to_int-small plen h)

pub read_size-all : (plen : ℕ) → plen < 2 ^ 31 → read_size (to_int plen) plen ≡ plen
unfolding read_size data_length
read_size-all plen h = rw (to_int-small plen h) (ground arith)

-- `ws_read_data` reads the rest of the payload, unmasks it, and writes a NUL behind it.
pub ws_read_data-exact :
    (h : WsMsgHeader) (len : ℤ) (s : Bytes) (c : Conn) (later : Bytes)
    → read_size len h.plen ≡ h.plen
    → h.plen ≡ length s
    → 0 < length s
    → IsOpen c.ssl c.input
    → stream c.input ≡ s ++ later
    → (q : List Input) × (ws_read_data h len c ≡ (
      pos (length s),
      apply_mask h.mask h.mask_key s ++ (0 ∷ []),
      record h { plen = 0 },
      record c { input = q },
    ))
      × (stream q ≡ later)
      × IsOpen c.ssl q
unfolding unmask
ws_read_data-exact h len [] c later r l n o e = absurd (omega arith)
ws_read_data-exact h len (b ∷ s) c later whole l n o e =
    let (q, r, st, o') = antd_recv-exact c (b ∷ s) later o e in
    (
      q,
      read_data-step h len c (ground arith)
          ∙ ap (λ k. unmask h (antd_recv k c)) (whole ∙ l)
          ∙ ap (unmask h) r
          ∙ ap
              (λ k. (
                pos (suc (length s)),
                apply_mask h.mask h.mask_key (b ∷ s) ++ (0 ∷ []),
                record h { plen = k },
                record c { input = q },
              ))
              (omega (arith, l)),
      st,
      o',
    )

pub length-apply_mask : (mask : ℕ) (key s : Bytes) → length (apply_mask mask key s) ≡ length s
unfolding apply_mask
length-apply_mask mask key s = elim (Bool-cases (mask == 0)) [
  | inl y ↦ rw y refl
  | inr y ↦ rw y (length-mask_from 0 key s)
]

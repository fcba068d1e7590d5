-- ===== src/Ws/Frames.antt =====
-- lib/ws.c: frames that one side writes and the other reads.
use ant_http.Handle.{Conn}
use ant_http.Handle.Stream.{stream, IsOpen}
use ant_http.Prelude.{
  ℕ, zero, suc, ◌+◌, ◌*◌, ◌/◌, ◌%◌, ◌^◌, ◌≤◌, ◌<◌, ◌==◌, Bytes, if◌then◌else◌, some, [], ◌∷◌, ◌++◌,
  length, take, drop, length-take, Bool-cases, inl, inr, append_assoc, append-nil, ◌≡◌, ◌≢◌, refl,
  ap, subst, ◌∙◌, arith,
}
use ant_http.Request.{done}
use ant_http.Ws.{
  WsMsgHeader, ws_close, ws_ping, bitv, length_parts, key_parts, header_parts, recv_into, read_key,
  answer_frame, read_fields, ws_read_header,
}
use ant_http.Ws.Headers.{
  joined, joined-append, Reads, Reads-here, ReadsHeader, ReadsHeader-then, ReadsHeader-here,
  recv_into-Reads, length_code, length_bytes, joined-length_parts, read_plen-Reads,
}

-- The fields fit their bits.
pub record IsHeader (h : WsMsgHeader) : Type 0 where
  pub fin_bit : h.fin < 2
  pub opcode_bits : h.opcode < 16
  pub plen_bits : h.plen < 2 ^ 32
  pub mask_bit : h.mask < 2
  pub key_length : length h.mask_key ≡ 4

-- The header that arrives: its key is not initialised where no key is sent.
unfoldable pub received : Bytes → WsMsgHeader → WsMsgHeader
received garbage h = record h { mask_key = if h.mask == 0 then take 4 garbage else h.mask_key }

drop_all : (n : ℕ) (s : Bytes) → length s ≤ n → drop n s ≡ []
drop_all zero [] h = refl
drop_all zero (b ∷ s) h = absurd (omega arith)
drop_all (suc n) [] h = refl
drop_all (suc n) (b ∷ s) h = drop_all n s (omega arith)

read_key-Reads :
    (garbage : Bytes) (mask : ℕ) (key : Bytes) (c : Conn) (later : Bytes)
    → length key ≡ 4
    → IsOpen c.ssl c.input
    → stream c.input ≡ joined (key_parts mask key) ++ later
    → Reads c (read_key garbage mask c) (if mask == 0 then take 4 garbage else key) later
unfolding read_key key_parts joined
read_key-Reads garbage mask [] c later l o e = absurd (omega arith)
read_key-Reads garbage mask (k ∷ key) c later l o e = elim (Bool-cases (mask == 0)) [
  | inl y ↦ rw y (Reads-here c _ later o (e ∙ rw y refl))
  | inr y ↦ rw y (
      subst (λ n. Reads c (recv_into (take 4 garbage) n c) (k ∷ key) later) l
        (subst (λ t. Reads c (recv_into (take 4 garbage) (suc (length key)) c) t later)
          (ap (λ t. (k ∷ key) ++ t)
              (drop_all (suc (length key)) (take 4 garbage) (omega (arith, length-take 4 garbage)))
            ∙ append-nil (k ∷ key))
          (recv_into-Reads (take 4 garbage) c k key later o (e ∙ rw (y, append-nil) refl))))
]

answer_frame-other :
    (key garbage : Bytes) (h : WsMsgHeader) (c : Conn)
    → h.opcode ≢ ws_close
    → h.opcode ≢ ws_ping
    → answer_frame key garbage h c ≡ done (some h, c)
unfolding answer_frame
answer_frame-other key garbage h c n m = ground arith

joined-header_parts :
    (h : WsMsgHeader)
    → joined (header_parts h)
      ≡ (h.fin * 128 + h.opcode) % 256
        ∷ (h.mask * 128 + length_code h.plen) % 256
        ∷ (length_bytes h.plen ++ joined (key_parts h.mask h.mask_key))
unfolding joined header_parts
joined-header_parts h =
    ap (λ s. (h.fin * 128 + h.opcode) % 256 ∷ s)
      (joined-append (length_parts h.mask h.plen) (key_parts h.mask h.mask_key)
        ∙ ap (λ s. s ++ joined (key_parts h.mask h.mask_key)) (joined-length_parts h.mask h.plen))

module _ (key garbage : Bytes) (h : WsMsgHeader) (valid : IsHeader h)
    (no_close : h.opcode ≢ ws_close) (no_ping : h.opcode ≢ ws_ping) where
  read_fields-Reads :
      (first second : ℕ) (c : Conn) (later : Bytes)
      → bitv first 7 ≡ h.fin
      → first % 16 ≡ h.opcode
      → bitv second 7 ≡ h.mask
      → second % 128 ≡ length_code h.plen
      → IsOpen c.ssl c.input
      → stream c.input ≡ length_bytes h.plen ++ (joined (key_parts h.mask h.mask_key) ++ later)
      → ReadsHeader c (read_fields key garbage first second c) (received garbage h) later
  unfolding read_fields received
  read_fields-Reads first second c later f p m l o e =
      rw (l, m, f, p)
        (ReadsHeader-then c _ _ _ _ _ later (read_plen-Reads garbage h.plen c _ valid.plen_bits o e)
          (λ q s o'.
            ReadsHeader-then (record c { input = q }) _ _ _ _ later later
              (read_key-Reads garbage h.mask h.mask_key (record c { input = q }) later
                valid.key_length o' s)
              (λ q' s' o''.
                rw
                  (answer_frame-other key garbage (received garbage h) (record c { input = q' })
                    no_close no_ping)
                  (ReadsHeader-here (record c { input = q' }) _ later o'' s'))))

  first_bits :
      (h.fin * 128 + h.opcode) % 256 / 2 ^ 6 % 2
        + (h.fin * 128 + h.opcode) % 256 / 2 ^ 5 % 2
        + (h.fin * 128 + h.opcode) % 256 / 2 ^ 4 % 2
      ≡ 0
  first_bits = omega (arith, valid.fin_bit, valid.opcode_bits)

  length_code-lt : length_code h.plen < 128
  unfolding length_code
  length_code-lt = ground arith

  -- A header whose fields fit their bits, and whose opcode is neither CLOSE nor PING, is read back
  -- from the bytes that `_send_header` writes for it, where no error ends the reads. The bytes
  -- behind it stay to be read.
  pub ws_read_header-Reads :
      (c : Conn) (later : Bytes)
      → IsOpen c.ssl c.input
      → stream c.input ≡ joined (header_parts h) ++ later
      → ReadsHeader c (ws_read_header key garbage c) (received garbage h) later
  unfolding ws_read_header
  ws_read_header-Reads c later o e =
      let first = (h.fin * 128 + h.opcode) % 256 in
      let second = (h.mask * 128 + length_code h.plen) % 256 in
      let tail = length_bytes h.plen ++ (joined (key_parts h.mask h.mask_key) ++ later) in
      ReadsHeader-then c _ _ _ _ (second ∷ tail) later
        (recv_into-Reads [] c first [] (second ∷ tail) o (
          e
          ∙ (ap (λ s. s ++ later) (joined-header_parts h)
              ∙ ap (λ s. first ∷ second ∷ s)
                  (append_assoc (length_bytes h.plen) (joined (key_parts h.mask h.mask_key))
                    later))))
        (λ q s o'. rw first_bits (
          ReadsHeader-then (record c { input = q }) _ _ _ _ tail later
            (recv_into-Reads [] (record c { input = q }) second [] tail o' s)
            (λ q' s' o''.
              read_fields-Reads first second (record c { input = q' }) later
                (omega (arith, valid.fin_bit, valid.opcode_bits))
                (omega (arith, valid.fin_bit, valid.opcode_bits))
                (omega (arith, valid.mask_bit, length_code-lt))
                (omega (arith, valid.mask_bit, length_code-lt)) o'' s')))

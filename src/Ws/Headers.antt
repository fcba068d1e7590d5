-- ===== src/Ws/Headers.antt =====
-- lib/ws.c: `_send_header` writes a header, and `ws_read_header` reads it back.
use ant_http.Handle.{Input, Output, Conn, antd_send}
use ant_http.Handle.Sending.{IsWritable, antd_send-all}
use ant_http.Handle.Stream.{stream, IsOpen, antd_recv-exact}
use ant_http.Prelude.{
  ltb→lt, subst, ℕ, suc, ◌+◌, ◌*◌, ◌/◌, ◌%◌, ◌^◌, ◌<◌, leb, ltb, ==_iff, pos, Bytes, true,
  if◌then◌else◌, Option, some, List, [], ◌∷◌, ◌++◌, length, drop, Bool-cases, inl, inr,
  append_assoc, append-nil, ◌≡◌, refl, sym, ap, ◌∙◌, arith,
}
use ant_http.Ws.{
  length_parts, after_part, send_parts, filled, recv_into, and_then, or_fail, read_plen,
  WsMsgHeader,
}
use ant_http.Request.{Outcome, done}

-- The bytes of some writes.
unfoldable pub joined : List Bytes → Bytes
joined [] = []
joined (p ∷ ps) = p ++ joined ps

pub joined-append : (ps qs : List Bytes) → joined (ps ++ qs) ≡ joined ps ++ joined qs
unfolding joined
joined-append [] qs = refl
joined-append (p ∷ ps) qs =
    ap (λ s. p ++ s) (joined-append ps qs) ∙ sym (append_assoc p (joined ps) (joined qs))

send_parts-step :
    (p : Bytes) (ps : List Bytes) (c c' : Conn)
    → antd_send p c ≡ (pos (length p), c')
    → send_parts (p ∷ ps) c ≡ send_parts ps c'
unfolding send_parts after_part
send_parts-step p ps c c' e =
    ap (after_part (length p) (send_parts ps)) e ∙ rw ((==_iff (length p) (length p)).1 refl) refl

-- On a connection that no error ends, the writes of a header or a frame all succeed, in order.
pub send_parts-all :
    (ps : List Bytes) (c : Conn)
    → IsWritable c.ssl c.output
    → (o : List Output) × (send_parts ps c
        ≡ (true, record c { output = o; sent = c.sent ++ joined ps }))
      × IsWritable c.ssl o
unfolding joined
send_parts-all [] c w = (
  c.output,
  unfold send_parts in ap (λ t. (true, record c { sent = t })) (sym (append-nil c.sent)),
  w,
)
send_parts-all (p ∷ ps) c w =
    let (o, e, w') = antd_send-all p c w in
    let (o', e', w'') = send_parts-all ps (record c { output = o; sent = c.sent ++ p }) w' in
    (
      o',
      send_parts-step p ps c _ e
          ∙ e'
          ∙ ap (λ t. (true, record c { output = o'; sent = t }))
              (append_assoc c.sent p (joined ps)),
      w'',
    )

-- The read that ended with `r` returned `a`, and `later` is left.
pub Reads {ℓ} : {A : Type ℓ} → Conn → Option A × Conn → A → Bytes → Type ℓ
Reads c r a later =
    (q : List Input) × (r ≡ (some a, record c { input = q })) × (stream q ≡ later) × IsOpen c.ssl q

pub Reads-then {ℓ κ} :
    {A : Type ℓ} {B : Type κ} (c : Conn) (r : Option A × Conn) (next : A → Conn → Option B × Conn)
    (a : A) (b : B) (mid later : Bytes)
    → Reads c r a mid
    → ((q : List Input)
        → stream q ≡ mid
        → IsOpen c.ssl q
        → Reads (record c { input = q }) (next a (record c { input = q })) b later)
    → Reads c (and_then r next) b later
unfolding and_then Reads
Reads-then c r next a b mid later (q, e, s, o) cont =
    let (q', e', s', o') = cont q s o in (q', ap (λ x. and_then x next) e ∙ e', s', o')

pub Reads-here {ℓ} :
    {A : Type ℓ} (c : Conn) (a : A) (later : Bytes)
    → IsOpen c.ssl c.input
    → stream c.input ≡ later
    → Reads c (some a, c) a later
unfolding Reads
Reads-here c a later o e = (c.input, refl, e, o)

-- The same of a read of a whole header, which may end in an answer to it.
pub ReadsHeader : Conn → Outcome (Option WsMsgHeader × Conn) → WsMsgHeader → Bytes → Type 0
ReadsHeader c r h later =
    (q : List Input) × (r ≡ done (some h, record c { input = q }))
    × (stream q ≡ later)
    × IsOpen c.ssl q

pub ReadsHeader-then {ℓ} :
    {A : Type ℓ} (c : Conn) (r : Option A × Conn)
    (next : A → Conn → Outcome (Option WsMsgHeader × Conn)) (a : A) (h : WsMsgHeader)
    (mid later : Bytes)
    → Reads c r a mid
    → ((q : List Input)
        → stream q ≡ mid
        → IsOpen c.ssl q
        → ReadsHeader (record c { input = q }) (next a (record c { input = q })) h later)
    → ReadsHeader c (or_fail r next) h later
unfolding or_fail Reads ReadsHeader
ReadsHeader-then c r next a h mid later (q, e, s, o) cont =
    let (q', e', s', o') = cont q s o in (q', ap (λ x. or_fail x next) e ∙ e', s', o')

pub ReadsHeader-here :
    (c : Conn) (h : WsMsgHeader) (later : Bytes)
    → IsOpen c.ssl c.input
    → stream c.input ≡ later
    → ReadsHeader c (done (some h, c)) h later
unfolding ReadsHeader
ReadsHeader-here c h later o e = (c.input, refl, e, o)

pub ReadsHeader-result :
    (c : Conn) (r : Outcome (Option WsMsgHeader × Conn)) (h : WsMsgHeader) (later : Bytes)
    → ReadsHeader c r h later
    → (q : List Input) × (r ≡ done (some h, record c { input = q }))
      × (stream q ≡ later)
      × IsOpen c.ssl q
unfolding ReadsHeader
ReadsHeader-result c r h later reads = reads

pub recv_into-Reads :
    (garbage : Bytes) (c : Conn) (b : ℕ) (s later : Bytes)
    → IsOpen c.ssl c.input
    → stream c.input ≡ (b ∷ s) ++ later
    → Reads c
        (recv_into garbage (suc (length s)) c)
        ((b ∷ s) ++ drop (suc (length s)) garbage)
        later
unfolding recv_into filled Reads
recv_into-Reads garbage c b s later o e =
    let (q, r, l, o') = antd_recv-exact c (b ∷ s) later o e in (q, ap (filled garbage) r, l, o')

-- The seven bits and the further bytes that carry a length.
unfoldable pub length_code : ℕ → ℕ
length_code plen = if leb plen 125 then plen else if ltb plen 65536 then 126 else 127

unfoldable pub length_bytes : ℕ → Bytes
length_bytes plen =
    if leb plen 125
    then []
    else if ltb plen 65536
    then plen / 256 % 256 ∷ plen % 256 ∷ []
    else 0
      ∷ 0
      ∷ 0
      ∷ 0
      ∷ plen / 2 ^ 24 % 256
      ∷ plen / 2 ^ 16 % 256
      ∷ plen / 256 % 256
      ∷ plen % 256
      ∷ []

pub joined-length_parts :
    (mask plen : ℕ)
    → joined (length_parts mask plen) ≡ (mask * 128 + length_code plen) % 256 ∷ length_bytes plen
unfolding joined length_parts length_code length_bytes
joined-length_parts mask plen = ground arith

read_plen_short :
    (garbage : Bytes) (plen : ℕ) (c : Conn) (later : Bytes)
    → leb plen 125 ≡ true
    → IsOpen c.ssl c.input
    → stream c.input ≡ later
    → Reads c (read_plen garbage plen c) plen later
unfolding read_plen Reads
read_plen_short garbage plen c later y o e = rw y (c.input, refl, e, o)

read_plen_medium :
    (garbage : Bytes) (a b : ℕ) (c : Conn) (later : Bytes)
    → IsOpen c.ssl c.input
    → stream c.input ≡ (a ∷ b ∷ []) ++ later
    → Reads c (read_plen garbage 126 c) (a * 256 + b) later
unfolding read_plen
read_plen_medium garbage a b c later o e =
    Reads-then c _ _ _ _ later later (recv_into-Reads garbage c a (b ∷ []) later o e)
      (λ q s o'. unfold Reads in (q, refl, s, o'))

read_plen_long :
    (garbage : Bytes) (x y z w : ℕ) (c : Conn) (later : Bytes)
    → IsOpen c.ssl c.input
    → stream c.input ≡ (0 ∷ 0 ∷ 0 ∷ 0 ∷ x ∷ y ∷ z ∷ w ∷ []) ++ later
    → Reads c (read_plen garbage 127 c) ((x * 2 ^ 24 + y * 2 ^ 16 + z * 256 + w) % 2 ^ 32) later
unfolding read_plen
read_plen_long garbage x y z w c later o e =
    Reads-then c _ _ _ _ later later
      (recv_into-Reads garbage c 0 (0 ∷ 0 ∷ 0 ∷ x ∷ y ∷ z ∷ w ∷ []) later o e)
      (λ q s o'. unfold Reads in (q, refl, s, o'))

byte_pair : (n : ℕ) → n < 65536 → n / 256 % 256 * 256 + n % 256 ≡ n
byte_pair n h = omega arith

four_bytes :
    (n : ℕ)
    → n < 2 ^ 32
    → (n / 2 ^ 24 % 256 * 2 ^ 24 + n / 2 ^ 16 % 256 * 2 ^ 16 + n / 256 % 256 * 256 + n % 256)
        % 2 ^ 32
      ≡ n
four_bytes n h = omega arith

pub read_plen-Reads :
    (garbage : Bytes) (plen : ℕ) (c : Conn) (later : Bytes)
    → plen < 2 ^ 32
    → IsOpen c.ssl c.input
    → stream c.input ≡ length_bytes plen ++ later
    → Reads c (read_plen garbage (length_code plen) c) plen later
unfolding length_code length_bytes
read_plen-Reads garbage plen c later h o e = elim (Bool-cases (leb plen 125)) [
  | inl y ↦ rw y (read_plen_short garbage plen c later y o (e ∙ rw y refl))
  | inr y ↦ elim (Bool-cases (ltb plen 65536)) [
    | inl z ↦
        rw (y, z)
          (subst (λ n. Reads c (read_plen garbage 126 c) n later)
            (byte_pair plen (ltb→lt plen 65536 z))
            (read_plen_medium garbage (plen / 256 % 256) (plen % 256) c later o
              (e ∙ rw (y, z) refl)))
    | inr z ↦
        rw (y, z)
          (subst (λ n. Reads c (read_plen garbage 127 c) n later) (four_bytes plen h)
            (read_plen_long garbage (plen / 2 ^ 24 % 256) (plen / 2 ^ 16 % 256) (plen / 256 % 256)
              (plen % 256) c later o (e ∙ rw (y, z) refl)))
  ]
]

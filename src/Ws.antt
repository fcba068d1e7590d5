-- ===== src/Ws.antt =====
-- lib/ws.c: frames of web sockets. `garbage` stands for memory that the code does not initialise,
-- `key` for what `ws_gen_mask_key` draws.
pub mod Payloads
pub mod Frames
pub mod Back
pub mod Masks
pub mod Headers
pub mod Answers
use Prim.Native.Nat.{bit_xor}
use ant_http.Handle.{Conn, antd_recv, antd_send}
use ant_http.Request.{Outcome, done, overrun, ◌>>=◌}
use ant_http.Prelude.{
  ℕ, zero, suc, ◌+◌, ◌-◌, ◌*◌, ◌/◌, ◌%◌, ◌^◌, ltb, leb, ◌==◌, ℤ, pos, negsuc, pos_part, to_int,
  ltb_ℤ, Bytes, Bool, true, false, not, ◌||◌, if◌then◌else◌, Option, none, some, List, [], ◌∷◌,
  ◌++◌, length, take, drop, get_or,
}

abbrev pub ws_text : ℕ
ws_text = 1

abbrev pub ws_bin : ℕ
ws_bin = 2

abbrev pub ws_close : ℕ
ws_close = 8

abbrev pub ws_ping : ℕ
ws_ping = 9

abbrev pub ws_pong_code : ℕ
ws_pong_code = 10

pub record WsMsgHeader : Type 0 where
  pub fin : ℕ
  pub opcode : ℕ
  pub plen : ℕ
  pub mask : ℕ
  pub mask_key : Bytes

-- `BITV(v, i)`
abbrev pub bitv : ℕ → ℕ → ℕ
bitv v i = v / 2 ^ i % 2

-- The writes of `_send_header`: the second byte with the bytes of the length, and the mask key.
unfoldable pub length_parts : ℕ → ℕ → List Bytes
length_parts mask plen =
    if leb plen 125
    then ((mask * 128 + plen) % 256 ∷ []) ∷ []
    else if ltb plen 65536
    then ((mask * 128 + 126) % 256 ∷ []) ∷ (plen / 256 % 256 ∷ plen % 256 ∷ []) ∷ []
    else ((mask * 128 + 127) % 256 ∷ [])
      ∷ (0
          ∷ 0
          ∷ 0
          ∷ 0
          ∷ plen / 2 ^ 24 % 256
          ∷ plen / 2 ^ 16 % 256
          ∷ plen / 256 % 256
          ∷ plen % 256
          ∷ [])
      ∷ []

unfoldable pub key_parts : ℕ → Bytes → List Bytes
key_parts mask key = if mask == 0 then [] else key ∷ []

unfoldable pub header_parts : WsMsgHeader → List Bytes
header_parts h =
    ((h.fin * 128 + h.opcode) % 256 ∷ [])
    ∷ (length_parts h.mask h.plen ++ key_parts h.mask h.mask_key)

-- `if (antd_send(client, part, n) != n) return -1;`
unfoldable pub after_part : ℕ → (Conn → Bool × Conn) → ℤ × Conn → Bool × Conn
after_part n next (pos k, c) = let r = next c in if k == n then r else (false, c)
after_part n next (negsuc k, c) = (false, c)

unfoldable pub send_parts : List Bytes → Conn → Bool × Conn
send_parts [] c = (true, c)
send_parts (p ∷ ps) c = after_part (length p) (send_parts ps) (antd_send p c)

-- True where the code returns 0.
unfoldable pub send_header : WsMsgHeader → Conn → Bool × Conn
send_header h c = send_parts (header_parts h) c

-- `data[i] ^ mask_key[i % 4]`, from index `i` on.
unfoldable pub mask_from : ℕ → Bytes → Bytes → Bytes
mask_from i key [] = []
mask_from i key (b ∷ s) = bit_xor b (get_or key (i % 4) 0) ∷ mask_from (suc i) key s

unfoldable pub apply_mask : ℕ → Bytes → Bytes → Bytes
apply_mask mask key s = if mask == 0 then s else mask_from 0 key s

-- `data` holds `plen` bytes at least. True where the code returns 0.
unfoldable pub ws_send_frame : Bytes → Bytes → WsMsgHeader → Conn → Bool × Conn
ws_send_frame key data_in h c =
    let h' = record h { mask_key = if h.mask == 0 then h.mask_key else key } in
    send_parts (header_parts h' ++ apply_mask h.mask key (take h.plen data_in) ∷ []) c

-- Any nonzero `mask` of a caller is stored as it is; the code passes 0 or 1.
unfoldable pub ws_send_text : Bytes → Bytes → ℕ → Conn → Bool × Conn
ws_send_text key s mask c =
    ws_send_frame key s
      record { fin = 1; opcode = ws_text; plen = length s; mask = mask; mask_key = [] } c

unfoldable pub ws_send_binary : Bytes → Bytes → ℕ → ℕ → Conn → Bool × Conn
ws_send_binary key s l mask c =
    ws_send_frame key s record { fin = 1; opcode = ws_bin; plen = l; mask = mask; mask_key = [] } c

unfoldable pub ws_send_ping : Bytes → Bytes → ℕ → Conn → Bool × Conn
ws_send_ping key echo mask c =
    ws_send_frame key echo
      record { fin = 1; opcode = ws_ping; plen = length echo; mask = mask; mask_key = [] } c

unfoldable pub ws_send_close : Bytes → ℕ → ℕ → Conn → Bool × Conn
ws_send_close key status mask c =
    ws_send_frame key (status / 256 % 256 ∷ status % 256 ∷ [])
      record { fin = 1; opcode = ws_close; plen = 2; mask = mask; mask_key = [] } c

-- `dlen`, in `int`s: the length that is asked for, or the rest of the payload.
unfoldable pub data_length : ℤ → ℕ → ℤ
unfolding to_int
data_length (negsuc zero) plen = to_int plen
data_length (negsuc (suc k)) plen =
    if ltb_ℤ (to_int plen) (negsuc (suc k)) then to_int plen else negsuc (suc k)
data_length (pos len) plen = if ltb_ℤ (to_int plen) (pos len) then to_int plen else pos len

-- A negative length makes `antd_recv` read nothing.
unfoldable pub read_size : ℤ → ℕ → ℕ
unfolding data_length
read_size len plen = pos_part (data_length len plen)

-- Behind the read: the result, the bytes that are written to `data`, a NUL behind those that were read,
-- the header and the connection.
unfoldable pub unmask : WsMsgHeader → ℤ × Bytes × Conn → ℤ × Bytes × WsMsgHeader × Conn
unmask h (pos zero, got, c) = (negsuc 0, [], h, c)
unmask h (pos (suc n), got, c) = (
  pos (suc n),
  apply_mask h.mask h.mask_key got ++ (0 ∷ []),
  record h { plen = h.plen - suc n },
  c,
)
unmask h (negsuc n, got, c) = (negsuc 0, [], h, c)

unfoldable pub ws_read_data : WsMsgHeader → ℤ → Conn → ℤ × Bytes × WsMsgHeader × Conn
ws_read_data h len c =
    let r = unmask h (antd_recv (read_size len h.plen) c) in
    if h.plen == 0 then (pos 0, [], h, c) else r

-- The answer to a ping, from a buffer of `plen` bytes, uninitialised, to which the bytes were written.
unfoldable pub pong_answer :
    Bytes → Bytes → ℕ → ℕ → ℤ × Bytes × WsMsgHeader × Conn → Outcome (WsMsgHeader × Conn)
pong_answer key garbage plen mask (pos n, bytes, h, c) =
    let data_out = bytes ++ drop (length bytes) garbage in
    let (_, c') =
      ws_send_frame key data_out
        record { fin = 1; opcode = ws_pong_code; plen = plen; mask = mask; mask_key = [] } c in
    if leb (length bytes) plen then done (h, c') else overrun
pong_answer key garbage plen mask (negsuc n, bytes, h, c) = done (h, c)

unfoldable pub ws_pong : Bytes → Bytes → WsMsgHeader → ℕ → Conn → Outcome (WsMsgHeader × Conn)
unfolding to_int
ws_pong key garbage h mask c =
    pong_answer key garbage h.plen mask (ws_read_data h (to_int h.plen) c)

-- A read into a buffer, which fails on a result of 0 or less.
unfoldable pub filled : Bytes → ℤ × Bytes × Conn → Option Bytes × Conn
filled garbage (pos zero, got, c) = (none, c)
filled garbage (pos (suc n), got, c) = (some (got ++ drop (length got) garbage), c)
filled garbage (negsuc n, got, c) = (none, c)

unfoldable pub recv_into : Bytes → ℕ → Conn → Option Bytes × Conn
recv_into garbage n c = filled garbage (antd_recv n c)

unfoldable pub and_then {ℓ κ} :
    {A : Type ℓ} {B : Type κ} → Option A × Conn → (A → Conn → Option B × Conn) → Option B × Conn
and_then (none, c) next = (none, c)
and_then (some a, c) next = next a c

unfoldable pub read_plen : Bytes → ℕ → Conn → Option ℕ × Conn
read_plen garbage len c =
    if leb len 125
    then (some len, c)
    else if len == 126
    then and_then (recv_into garbage 2 c) (λ b c'. (some (get_or b 0 0 * 256 + get_or b 1 0), c'))
    else and_then (recv_into garbage 8 c) (λ b c'. (
      some (
          (get_or b 4 0 * 2 ^ 24 + get_or b 5 0 * 2 ^ 16 + get_or b 6 0 * 256 + get_or b 7 0)
          % 2 ^ 32),
      c',
    ))

unfoldable pub read_key : Bytes → ℕ → Conn → Option Bytes × Conn
read_key garbage mask c =
    if mask == 0 then (some (take 4 garbage), c) else recv_into (take 4 garbage) 4 c

-- The `switch` on the opcode.
unfoldable pub answer_frame :
    Bytes → Bytes → WsMsgHeader → Conn → Outcome (Option WsMsgHeader × Conn)
answer_frame key garbage h c =
    let (_, closed) = ws_send_close key 1000 (if h.mask == 0 then 1 else 0) c in
    let ponged = ws_pong key garbage h (if h.mask == 0 then 1 else 0) c in
    if h.opcode == ws_close
    then done (some h, closed)
    else if h.opcode == ws_ping
    then ponged >>= (λ (h', c'). done (some h', c'))
    else done (some h, c)

-- The part of a header that was read, or the end with no header.
unfoldable pub or_fail {ℓ} :
    {A : Type ℓ}
    → Option A × Conn
    → (A → Conn → Outcome (Option WsMsgHeader × Conn))
    → Outcome (Option WsMsgHeader × Conn)
or_fail (none, c) next = done (none, c)
or_fail (some a, c) next = next a c

unfoldable pub read_fields : Bytes → Bytes → ℕ → ℕ → Conn → Outcome (Option WsMsgHeader × Conn)
read_fields key garbage first second c = or_fail (read_plen garbage (second % 128) c) (λ plen c'.
    or_fail (read_key garbage (bitv second 7) c') (λ mask_key c''.
      answer_frame key garbage
        record {
          fin = bitv first 7;
          opcode = first % 16;
          plen = plen;
          mask = bitv second 7;
          mask_key = mask_key;
        }
        c''))

unfoldable pub ws_read_header : Bytes → Bytes → Conn → Outcome (Option WsMsgHeader × Conn)
ws_read_header key garbage c = or_fail (recv_into [] 1 c) (λ b c'.
    let first = get_or b 0 0 in
    let rest =
      or_fail (recv_into [] 1 c') (λ b' c''. read_fields key garbage first (get_or b' 0 0) c'') in
    if bitv first 6 + bitv first 5 + bitv first 4 == 0 then rest else done (none, c'))

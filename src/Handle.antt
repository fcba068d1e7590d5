-- ===== src/Handle.antt =====
-- lib/handle.c: `antd_send`, `antd_recv`, `antd_recv_upto`, `read_buf`, `__b`. The kernel and the
-- TLS library stand outside: what their calls return, in order, is the `input` and `output` of a
-- connection. Compression is left out.
pub mod Status
pub mod Stream
pub mod Sending
pub mod Lines
pub mod NextLine
pub mod Response
pub mod Rendering
use ant_http.Prelude.{
  ℕ, zero, suc, ◌+◌, ◌-◌, ltb, leb, ◌==◌, min, ℤ, pos, negsuc, ltb_ℤ, Bytes, Bool, true, false, not,
  ◌||◌, if◌then◌else◌, Option, none, some, List, [], ◌∷◌, ◌++◌, length, take, drop,
}

-- What `SSL_get_error` tells of a call that moved no byte.
pub data SslError : Type 0 where
  ssl_none : SslError
  ssl_zero_return : SslError
  ssl_want_read : SslError
  ssl_want_write : SslError
  ssl_other : SslError

-- A call of `send`, `recv`, `SSL_write` or `SSL_read` that moved no byte: its result, whether more
-- than MAX_IO_WAIT_TIME went by since the last byte, whether `errno` is EAGAIN or EWOULDBLOCK, the
-- TLS error, and whether the `poll` that may follow ended without an error.
pub record Failure : Type 0 where
  pub result : ℤ
  pub expired : Bool
  pub again : Bool
  pub ssl_error : SslError
  pub polled : Bool

-- The bytes that arrive together, never none.
pub data Input : Type 0 where
  chunk : ℕ → Bytes → Input
  no_input : Failure → Input

-- `took n`: a call writes n + 1 bytes, or all it was given where that is less.
pub data Output : Type 0 where
  took : ℕ → Output
  no_output : Failure → Output

-- `input` ends where the peer has closed. From the end of `output` on, all is written.
pub record Conn : Type 0 where
  pub ssl : Bool
  pub input : List Input
  pub output : List Output
  pub sent : Bytes

abbrev pub buff_len : ℕ
buff_len = 1024

-- The `switch` of the TLS loops.
unfoldable pub ssl_goes_on : Failure → Bool
ssl_goes_on f = elim f.ssl_error [
  | ssl_none ↦ true
  | ssl_zero_return ↦ false
  | ssl_want_read ↦ f.polled
  | ssl_want_write ↦ f.polled
  | ssl_other ↦ false
]

unfoldable pub recv_goes_on : Bool → Failure → Bool
recv_goes_on ssl f = if f.expired then false else if ssl then ssl_goes_on f else f.again

unfoldable pub send_goes_on : Bool → Failure → Bool
send_goes_on ssl f =
    if f.expired
    then false
    else if ssl
    then ssl_goes_on f
    else not (ltb_ℤ f.result (pos 0)) || f.again

-- What a loop of reads returned: the bytes, the result that stopped it early, the input left.
pub record Received : Type 0 where
  pub data_in : Bytes
  pub stopped : Option ℤ
  pub rest : List Input

unfoldable pub put_back : Bytes → List Input → List Input
put_back [] q = q
put_back (c ∷ cs) q = chunk c cs ∷ q

unfoldable pub prepend : Bytes → Received → Received
prepend s r = record r { data_in = s ++ r.data_in }

-- `left` bytes are still wanted; one call asks for at most BUFFLEN.
unfoldable pub recv_loop : ℕ → Bool → ℕ → List Input → Received
recv_loop zero ssl left q = record { data_in = []; stopped = none; rest = q }
recv_loop (suc fuel) ssl zero q = record { data_in = []; stopped = none; rest = q }
recv_loop (suc fuel) ssl (suc left) [] = record { data_in = []; stopped = some (pos 0); rest = [] }
recv_loop (suc fuel) ssl (suc left) (no_input f ∷ q) =
    let again = recv_loop fuel ssl (suc left) q in
    if recv_goes_on ssl f then again else record { data_in = []; stopped = some f.result; rest = q }
recv_loop (suc fuel) ssl (suc left) (chunk c cs ∷ q) =
    let n = min (suc left) buff_len in
    let got = take n (c ∷ cs) in
    prepend got (recv_loop fuel ssl (suc left - length got) (put_back (drop n (c ∷ cs)) q))

-- `if (read == 0) read = received;`
unfoldable pub io_result : ℕ → Option ℤ → ℤ
io_result zero none = pos 0
io_result zero (some r) = r
io_result (suc n) stopped = pos (suc n)

unfoldable pub antd_recv : ℕ → Conn → ℤ × Bytes × Conn
antd_recv len c =
    let r = recv_loop (len + length c.input) c.ssl len c.input in
    (io_result (length r.data_in) r.stopped, r.data_in, record c { input = r.rest })

-- One call.
unfoldable pub upto_error : Bool → Failure → ℤ
upto_error ssl f =
    if ssl
    then elim f.ssl_error [
      | ssl_none ↦ pos 0
      | ssl_zero_return ↦ negsuc 0
      | ssl_want_read ↦ pos 0
      | ssl_want_write ↦ pos 0
      | ssl_other ↦ negsuc 0
    ]
    else if ltb_ℤ f.result (pos 0)
    then if f.again then pos 0 else negsuc 0
    else negsuc 0

unfoldable pub recv_once : Bool → ℕ → List Input → ℤ × Bytes × List Input
recv_once ssl len [] = (negsuc 0, [], [])
recv_once ssl len (no_input f ∷ q) = (upto_error ssl f, [], q)
recv_once ssl len (chunk c cs ∷ q) =
    let got = take len (c ∷ cs) in (pos (length got), got, put_back (drop len (c ∷ cs)) q)

unfoldable pub antd_recv_upto : ℕ → Conn → ℤ × Bytes × Conn
antd_recv_upto len c =
    let (n, got, q) = recv_once c.ssl len c.input in (n, got, record c { input = q })

-- What a loop of writes did: the bytes written, the result that stopped it early, the rest.
pub record Written : Type 0 where
  pub data_out : Bytes
  pub stopped : Option ℤ
  pub later : List Output

unfoldable pub written_first : Bytes → Written → Written
written_first s w = record w { data_out = s ++ w.data_out }

unfoldable pub send_loop : ℕ → Bool → Bytes → List Output → Written
send_loop zero ssl s o = record { data_out = []; stopped = none; later = o }
send_loop (suc fuel) ssl [] o = record { data_out = []; stopped = none; later = o }
send_loop (suc fuel) ssl (b ∷ s) [] =
    written_first (take buff_len (b ∷ s)) (send_loop fuel ssl (drop buff_len (b ∷ s)) [])
send_loop (suc fuel) ssl (b ∷ s) (took k ∷ o) =
    let n = min (suc k) buff_len in
    written_first (take n (b ∷ s)) (send_loop fuel ssl (drop n (b ∷ s)) o)
send_loop (suc fuel) ssl (b ∷ s) (no_output f ∷ o) =
    let again = send_loop fuel ssl (b ∷ s) o in
    if send_goes_on ssl f
    then again
    else record { data_out = []; stopped = some f.result; later = o }

unfoldable pub antd_send : Bytes → Conn → ℤ × Conn
antd_send s c =
    let w = send_loop (length s + length c.output) c.ssl s c.output in
    (
      io_result (length w.data_out) w.stopped,
      record c { output = w.later; sent = c.sent ++ w.data_out },
    )

-- One round of `__b` behind its write: it gives up where the write returned -1, and goes on with
-- the next block otherwise, however much was written.
unfoldable pub send_next : (Conn → Bool × Conn) → ℤ × Conn → Bool × Conn
send_next next (pos k, c) = next c
send_next next (negsuc k, c) = let r = next c in if k == 0 then (false, c) else r

-- `__b`; the fuel bounds the rounds by the bytes.
unfoldable pub send_blocks : ℕ → Bytes → Conn → Bool × Conn
send_blocks zero s c = (true, c)
send_blocks (suc fuel) [] c = (true, c)
send_blocks (suc fuel) (b ∷ s) c =
    send_next (send_blocks fuel (drop buff_len (b ∷ s))) (antd_send (take buff_len (b ∷ s)) c)

unfoldable pub send_bytes : Bytes → Conn → Bool × Conn
send_bytes s c = send_blocks (length s) s c

-- The line behind a read of one byte, with what the later rounds give.
unfoldable pub line_from : Bytes → Conn → Bytes × Conn → Bytes × Conn
line_from [] c later = ([], c)
line_from (b ∷ _) c (line, c') = if b == b'\n' then (b ∷ [], c) else (b ∷ line, c')

-- `read_buf` with `room` bytes left besides the NUL.
unfoldable pub read_line : ℕ → Conn → Bytes × Conn
read_line zero c = ([], c)
read_line (suc room) c = let (n, got, c') = antd_recv 1 c in line_from got c' (read_line room c')

unfoldable pub read_buf : ℕ → Conn → Bytes × Conn
read_buf size c = read_line (size - 1) c

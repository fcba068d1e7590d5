-- ===== src/Tests/ConnTests.antt =====
-- Reads, writes and frames on concrete connections.
use ant_http.Handle.{
  SslError, Failure, Input, Output, Conn, recv_goes_on, send_goes_on, antd_recv, antd_recv_upto,
  recv_once, send_bytes,
}
use ant_http.Handle.Sending.{IsWritable, send_bytes-all}
use ant_http.Handle.Stream.{stream, IsOpen, antd_recv-stream, antd_recv-exact}
use ant_http.Prelude.{
  ◌<◌, take, ◌≤◌, pos, negsuc, codes, true, false, none, some, List, [], ◌∷◌, ◌++◌, length, ◌≡◌,
  ◌⊎◌, refl, sym, ap, ◌∙◌, arith,
}
use ant_http.Utils.Guard.{
  ready, read_first, guard_read_loop, guard_read, guard_read_of, guard_read-ready,
}
use ant_http.Ws.{
  ws_pong, ws_send_frame, WsMsgHeader, header_parts, length_parts, key_parts, apply_mask, mask_from,
  ws_read_header, ws_read_data,
}
use ant_http.Ws.Frames.{IsHeader, received}
use ant_http.Ws.Back.{frame_back}
use ant_http.Request.{done, overrun}
use ant_http.Ws.Payloads.{frame, ws_send_frame-all}
use ant_http.Ws.Answers.{ws_pong-overrun}
use ant_http.Ws.Headers.{joined}

-- No data for now; the next call may bring some.
abbrev not_yet : Failure
not_yet = record {
  result = negsuc 0;
  expired = false;
  again = true;
  ssl_error = SslError.ssl_none;
  polled = true;
}

abbrev header : WsMsgHeader
header = record { fin = 1; opcode = 1; plen = 2; mask = 1; mask_key = 1 ∷ 2 ∷ 3 ∷ 4 ∷ [] }

-- The frame of `header` with "hi", in two pieces.
abbrev conn : Conn
conn = record {
  ssl = false;
  input =
      Input.chunk 129 (130 ∷ 1 ∷ [])
      ∷ Input.no_input not_yet
      ∷ Input.chunk 2 (3 ∷ 4 ∷ 105 ∷ 107 ∷ [])
      ∷ [];
  output = Output.took 0 ∷ Output.no_output not_yet ∷ [];
  sent = [];
}

conn-IsOpen : IsOpen conn.ssl conn.input
unfolding IsOpen recv_goes_on
conn-IsOpen = (refl, tt)

conn-IsWritable : IsWritable conn.ssl conn.output
unfolding IsWritable send_goes_on
conn-IsWritable = (refl, tt)

header-IsHeader : IsHeader header
header-IsHeader = record {
  fin_bit = omega arith;
  opcode_bits = omega arith;
  plen_bits = omega arith;
  mask_bit = omega arith;
  key_length = refl;
}

frame_test : stream conn.input ≡ frame header (codes "hi") ++ []
unfolding stream frame joined header_parts length_parts key_parts apply_mask mask_from
frame_test = refl

header_test :
    stream conn.input
    ≡ joined (header_parts header) ++ apply_mask 1 (1 ∷ 2 ∷ 3 ∷ 4 ∷ []) (codes "hi")
unfolding stream joined header_parts length_parts key_parts apply_mask mask_from
header_test = refl

-- One call of `recv` returns what has arrived, at most what was asked for.
upto_test : (antd_recv_upto 2 conn).1 ≡ 129 ∷ 130 ∷ []
unfolding antd_recv_upto recv_once
upto_test = refl

sent_test :
    stream conn.input ≡ (ws_send_frame header.mask_key (codes "hi") header conn).1.sent ++ []
sent_test =
    let (o, e, _) = ws_send_frame-all (codes "hi") header conn refl conn-IsWritable in
    frame_test ∙ ap (λ r. r.1.sent ++ []) (sym e)

frame_back_example :
    (c' c'' : Conn) × ((ws_send_frame header.mask_key (codes "hi") header conn).0 ≡ true)
    × (ws_read_header [] [] conn ≡ done (some (received [] header), c'))
    × (ws_read_data (received [] header) (negsuc 0) c'
        ≡ (pos 2, codes "hi" ++ (0 ∷ []), record (received [] header) { plen = 0 }, c''))
    × (stream c''.input ≡ [])
frame_back_example =
    frame_back [] [] header header-IsHeader (λ e. absurd (omega arith)) (λ e. absurd (omega arith))
      (codes "hi") conn conn [] (omega arith) (omega arith) refl (omega arith) (omega arith)
      conn-IsWritable refl conn-IsOpen sent_test

antd_recv-stream_example :
    let (n, got, c') = antd_recv 5 conn in
    (stream conn.input ≡ got ++ stream c'.input)
    × (length got ≤ 5)
    × ((n ≡ pos (length got)) ⊎ (got ≡ []))
antd_recv-stream_example = antd_recv-stream 5 conn

antd_recv-exact_example :
    (q : List Input) × (antd_recv 8 conn
      ≡ (pos 8, frame header (codes "hi"), record conn { input = q }))
    × (stream q ≡ [])
    × IsOpen false q
unfolding frame joined header_parts length_parts key_parts apply_mask mask_from
antd_recv-exact_example = antd_recv-exact conn (frame header (codes "hi")) [] conn-IsOpen frame_test

send_bytes-all_example :
    (o : List Output) × (send_bytes (codes "abc") conn
      ≡ (true, record conn { output = o; sent = codes "abc" }))
    × IsWritable false o
send_bytes-all_example = send_bytes-all (codes "abc") conn conn-IsWritable

guard_read-ready_example :
    (2 ≤ length (ready conn.input) → (guard_read 2 conn.input).0 ≡ some (take 2 (ready conn.input)))
    × (length (ready conn.input) < 2 → (guard_read 2 conn.input).0 ≡ none)
guard_read-ready_example = guard_read-ready 2 conn.input (omega arith)

guard_read_test : (guard_read 2 conn.input).0 ≡ some (129 ∷ 130 ∷ [])
unfolding guard_read guard_read_of guard_read_loop read_first
guard_read_test = refl

-- The header of a PING whose payload is all that `conn` brings.
abbrev ping : WsMsgHeader
ping = record header { opcode = 9; plen = 8 }

ws_pong-overrun_example : ws_pong (codes "keys") [] ping 0 conn ≡ overrun
unfolding stream
ws_pong-overrun_example =
    ws_pong-overrun (codes "keys") [] (stream conn.input) [] ping 0 conn refl (omega arith)
      (omega arith) conn-IsOpen refl

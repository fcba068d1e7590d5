-- ===== src/Server/Accept.antt =====
-- server.c: `accept_request`.
pub mod Line
pub mod Parsed
use ant_http.Handle.{read_buf, buff_len}
use ant_http.Prelude.{
  ◌+◌, ℤ, pos, negsuc, Bytes, c_string, Bool, true, false, not, ◌&&◌, ◌||◌, if◌then◌else◌, Option,
  none, some,
}
use ant_http.Request.{
  ClientState, client_accept, client_handshake, client_proto_check, accept_request,
  decode_request_header, Request, Moment, RequestTask, readable, writable, task_on, put_field,
  refuse,
}
use ant_http.Scheduler.{is_zero}
use ant_http.Utils.Trim.{strsep, trim}
use ant_http.Utils.Url.{url_decode}

-- The result of `poll` on the client's socket; `broken` is POLLERR or POLLHUP.
pub record Polled : Type 0 where
  pub sel : ℤ
  pub broken : Bool
  pub can_read : Bool
  pub can_write : Bool

-- How `SSL_accept` ends: done, to be called again, or failed.
pub data Handshake : Type 0 where
  shaken : Handshake
  wants_more : Handshake
  failed : Handshake

unfoldable pub is_accepting : ClientState → Bool
is_accepting client_accept = true
is_accepting _ = false

unfoldable pub is_error : ℤ → Bool
is_error (pos n) = false
is_error (negsuc n) = true

-- The path is what stands before the first `?` of the target.
unfoldable pub put_request : Bytes → Bytes → Request → Request
unfolding strsep put_field
put_request target protocol rq =
    let rq₁ = put_field "PROTOCOL" protocol rq in
    let rq₂ = put_field "REQUEST_QUERY" target rq₁ in
    put_field "REQUEST_PATH" (url_decode (strsep b'?' target).0) rq₂

-- Behind the method: `none` stands for a text that has no separator.
unfoldable pub read_target : Moment → Bytes × Option Bytes → Request → RequestTask
unfolding put_request task_on refuse trim
read_target m (token, none) rq = task_on m (readable + writable) none (refuse 400 "Bad request" rq)
read_target m (token, some line) rq =
    let protocol = trim (trim (trim line b' ') b'\n') 13 in
    task_on m (readable + writable) (some decode_request_header)
      (put_request (trim token b' ') protocol rq)

unfoldable pub read_method : Moment → Bytes × Option Bytes → Request → RequestTask
unfolding read_target
read_method m (token, none) rq =
    task_on m (readable + writable) none (refuse 405 "No method found" rq)
read_method m (token, some line) rq =
    read_target m (strsep b' ' (trim line b' ')) (put_field "METHOD" (trim token b' ') rq)

-- Once the socket can be read.
unfoldable pub read_request_line : Moment → Request → RequestTask
unfolding read_method
read_request_line m rq =
    let (line, c) = read_buf buff_len rq.conn in
    read_method m (strsep b' ' (c_string line)) (record rq { conn = c; state = client_proto_check })

unfoldable pub shake : Moment → Handshake → Request → RequestTask
shake m shaken rq =
    task_on m (readable + writable) (some accept_request) (record rq { state = client_handshake })
shake m wants_more rq = task_on m (readable + writable) (some accept_request) rq
shake m failed rq = task_on m (readable + writable) none (refuse 400 "Invalid SSL request" rq)

unfoldable pub accept_request_run : Moment → Polled → Handshake → Request → RequestTask
unfolding read_request_line shake is_accepting is_error
accept_request_run m p hs rq =
    let again = task_on m (readable + writable) (some accept_request) rq in
    let bad = task_on m (readable + writable) none (refuse 400 "Bad request" rq) in
    if is_error p.sel
    then bad
    else if p.broken
    then bad
    else if is_zero p.sel || (not p.can_read && not p.can_write)
    then again
    else if rq.conn.ssl && is_accepting rq.state
    then shake m hs rq
    else if not p.can_read
    then again
    else read_request_line m rq

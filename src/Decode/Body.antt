-- ===== src/Decode/Body.antt =====
-- decode.c: `decode_request` with `ws_confirm_request`, `decode_post_request` with
-- `post_data_decode`, and `decode_multi_part_request`. `digest` stands for the SHA-1 of a text in
-- base64, which other libraries compute.
pub mod Form
use ant_http.Decode.Params.{decode_url_request}
use ant_http.Dictionary.{dvalue, dput}
use ant_http.Handle.{Input, Conn, put_back, buff_len, antd_send, read_buf, upto_error}
use ant_http.Handle.Response.{crlf}
use ant_http.Handle.Stream.{stream}
use ant_http.Prelude.{
  ℕ, zero, suc, ◌+◌, ◌-◌, ◌==◌, min, ℤ, pos, negsuc, ltb_ℤ, Bytes, String, codes, str_eq,
  str_case_eq, c_string, has_part, Bool, true, false, ◌||◌, if◌then◌else◌, Option, none, some, List,
  [], ◌∷◌, ◌++◌, length, take, drop,
}
use ant_http.Request.{
  resolve_request, decode_multi_part_request_data, client_rq_data_decode, Request, Moment,
  RequestTask, readable, writable, Outcome, done, ◌>>=◌, text_of, task_for, task_on, put_field,
  field, refuse,
}
use ant_http.Utils.Decimal.{atoi}
use ant_http.Utils.Trim.{strsep, trim}

abbrev pub magic : Bytes
magic = codes "258EAFA5-E914-47DA-95CA-C5AB0DC85B11"

-- The five writes; their results are not looked at. The key fits its buffer with its NUL.
unfoldable pub ws_confirm_request : (Bytes → Bytes) → Bytes → Conn → Conn
unfolding antd_send
ws_confirm_request digest key c =
    let rkey = key ++ take (128 - length key) magic in
    let c₁ = (antd_send (codes "HTTP/1.1 101 Switching Protocols" ++ crlf) c).1 in
    let c₂ = (antd_send (codes "Upgrade: websocket" ++ crlf) c₁).1 in
    let c₃ = (antd_send (codes "Connection: Upgrade" ++ crlf) c₂).1 in
    let c₄ = (antd_send (codes "Sec-WebSocket-Accept: " ++ (digest rkey ++ crlf)) c₃).1 in
    (antd_send crlf c₄).1

abbrev pub is_websocket : Option Bytes → Bool
is_websocket none = false
is_websocket (some v) = str_case_eq v (codes "websocket")

-- A GET that asks for a web socket and has a key is confirmed.
unfoldable pub upgraded : (Bytes → Bytes) → Option Bytes → Bool → Request → Request
unfolding put_field
upgraded digest none ws rq = rq
upgraded digest (some key) ws rq =
    if ws
    then put_field "__web_socket__" (codes "1")
        record rq { conn = ws_confirm_request digest key rq.conn }
    else rq

unfoldable pub is_method : Bytes → List String → Bool
is_method method [] = false
is_method method (m ∷ ms) = str_eq method (codes m) || is_method method ms

unfoldable pub decode_request_run : (Bytes → Bytes) → Moment → Request → Outcome RequestTask
unfolding upgraded is_method task_for refuse field
decode_request_run digest m rq =
    let ws = is_websocket (dvalue rq.header (codes "Upgrade")) in
    let key = dvalue rq.header (codes "Sec-WebSocket-Key") in
    text_of (field rq "METHOD") >>= (λ method.
      if is_method method ("GET" ∷ [])
      then done (task_for m (some resolve_request) (upgraded digest key ws rq))
      else if is_method method ("HEAD" ∷ "OPTIONS" ∷ "DELETE" ∷ "POST" ∷ "PUT" ∷ "PATCH" ∷ [])
      then done (task_for m (some resolve_request) rq)
      else done (task_for m none (refuse 501 "Request Method Not Implemented" rq)))

-- The loop of `post_data_decode`: it waits after an answer without a byte, unless the time is over,
-- and stops at an error. The bytes that it got, and the input that is left.
unfoldable pub post_loop : ℕ → Bool → ℕ → List Input → Bytes × List Input
post_loop zero ssl left q = ([], q)
post_loop (suc fuel) ssl zero q = ([], q)
post_loop (suc fuel) ssl (suc left) [] = ([], [])
post_loop (suc fuel) ssl (suc left) (Input.no_input f ∷ q) =
    let again = post_loop fuel ssl (suc left) q in
    if ltb_ℤ (upto_error ssl f) (pos 0) || f.expired then ([], q) else again
post_loop (suc fuel) ssl (suc left) (Input.chunk c cs ∷ q) =
    let n = min (suc left) buff_len in
    let got = take n (c ∷ cs) in
    let (later, q') = post_loop fuel ssl (suc left - length got) (put_back (drop n (c ∷ cs)) q) in
    (got ++ later, q')

-- A text of no byte is NULL.
unfoldable pub some_text : Bytes → Option Bytes
some_text [] = none
some_text (c ∷ s) = some (c ∷ s)

unfoldable pub wanted : ℤ → ℕ
wanted (pos n) = n
wanted (negsuc n) = 0

unfoldable pub post_data_decode : ℤ → Conn → Option Bytes × Conn
unfolding post_loop some_text wanted
post_data_decode len c =
    let (s, q) = post_loop (wanted len + length c.input) c.ssl (wanted len) c.input in
    (some_text s, record c { input = q })

-- `while (((len = read_buf(...)) > 0) && !strstr(line, boundary));`, with whether a line was found.
unfoldable pub find_line : ℕ → Bytes → Conn → Bool × Conn
find_line zero boundary c = (false, c)
find_line (suc fuel) boundary c =
    let (line, c') = read_buf buff_len c in
    let later = find_line fuel boundary c' in
    if length line == 0
    then (false, c')
    else if has_part boundary (c_string line)
    then (true, c')
    else later

-- Behind the boundary: `strsep` cut the header's own text, which is what the table holds from then
-- on. The search for the first boundary takes no more rounds than bytes are to come.
unfoldable pub to_parts : Moment → Bytes → Request → RequestTask
unfolding task_on put_field find_line trim
to_parts m [] rq = task_on m (readable + writable) none rq
to_parts m (b ∷ boundary) rq =
    let name = trim (b ∷ boundary) b' ' in
    let (found, c) = find_line (suc (length (stream rq.conn.input))) name rq.conn in
    task_on m (readable + writable) (if found then some decode_multi_part_request_data else none)
      (put_field "MULTI_PART_BOUNDARY" name (record rq { conn = c }))

unfoldable pub split_type : Moment → Bytes × Option Bytes → Request → RequestTask
unfolding to_parts
split_type m (first, none) rq = task_on m (readable + writable) none rq
split_type m (first, some boundary) rq =
    to_parts m boundary
      (record rq { header = (dput rq.header (codes "Content-Type") (some first)).0 })

unfoldable pub decode_multi_part_request : Moment → Bytes → Request → RequestTask
unfolding split_type strsep
decode_multi_part_request m ctype rq = split_type m (strsep b'=' ctype) rq

unfoldable pub with_params : Option Bytes → Request → Request
unfolding decode_url_request
with_params none rq = rq
with_params (some s) rq = record rq { params = decode_url_request (some (c_string s)) rq.params }

-- Once the body of a form was read.
unfoldable pub form_read : Moment → ℤ → Option Bytes × Conn → Request → RequestTask
unfolding with_params task_for task_on refuse
form_read m clen (none, c) rq =
    if ltb_ℤ (pos 0) clen
    then task_for m none (refuse 400 "Bad Request, missing content data" (record rq { conn = c }))
    else task_on m writable none (record rq { conn = c })
form_read m clen (some s, c) rq =
    task_on m writable none (with_params (some s) (record rq { conn = c }))

unfoldable pub decode_body : Moment → Bytes → ℤ → Request → RequestTask
unfolding form_read post_data_decode decode_multi_part_request
decode_body m ctype clen rq =
    if has_part (codes "application/x-www-form-urlencoded") ctype
    then form_read m clen (post_data_decode clen rq.conn) rq
    else if has_part (codes "multipart/form-data") ctype
    then decode_multi_part_request m ctype rq
    else task_on m writable none
        (record rq { params = (dput rq.params (codes "HAS_RAW_BODY") (some (codes "true"))).0 })

unfoldable pub content_length : Option Bytes → ℤ
unfolding atoi
content_length none = negsuc 0
content_length (some s) = atoi s

unfoldable pub is_minus_one : ℤ → Bool
is_minus_one (pos n) = false
is_minus_one (negsuc n) = n == 0

unfoldable pub described : Moment → Option Bytes → ℤ → Request → RequestTask
unfolding decode_body is_minus_one
described m none clen rq =
    task_for m none (refuse 400 "Bad Request, missing content description" rq)
described m (some ctype) clen rq =
    if is_minus_one clen
    then task_for m none (refuse 400 "Bad Request, missing content description" rq)
    else decode_body m ctype clen rq

unfoldable pub has_body : Option Bytes → Bool
unfolding is_method
has_body none = false
has_body (some method) = is_method method ("POST" ∷ "PUT" ∷ "PATCH" ∷ [])

unfoldable pub decode_post_request_run : Moment → Request → RequestTask
unfolding has_body described content_length field
decode_post_request_run m rq =
    let rq₁ = record rq { state = client_rq_data_decode } in
    let ctype = dvalue rq.header (codes "Content-Type") in
    let clen = content_length (dvalue rq.header (codes "Content-Length")) in
    if has_body (field rq "METHOD") then described m ctype clen rq₁ else task_for m none rq₁

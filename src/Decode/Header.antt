-- ===== src/Decode/Header.antt =====
-- decode.c: `decode_request_header`, without the choice of a compression.
pub mod Ends
pub mod NullText
use ant_http.Decode.Params.{decode_cookie, decode_url_request}
use ant_http.Decode.Proxy.{check_proxy}
use ant_http.Decode.Rules.{Regex, apply_rules}
use ant_http.Dictionary.{Dictionary, dict, dput, dvalue}
use ant_http.Handle.{Conn, buff_len, read_buf}
use ant_http.Prelude.{
  ℕ, zero, suc, ◌+◌, ◌-◌, ◌*◌, ltb, ◌==◌, ltb_ℤ, Bytes, codes, str_eq, str_case_eq, c_string, Bool,
  if◌then◌else◌, Option, none, some, [], ◌∷◌, length, take,
}
use ant_http.Request.{
  decode_request, decode_request_header, client_header_decode, Request, Moment, RequestTask,
  readable, writable, Outcome, done, null_text, no_fuel, ◌>>=◌, text_of, Port, Config, task_for,
  task_on, put_field, field, refuse,
}
use ant_http.Utils.Decimal.{atoi}
use ant_http.Utils.Trim.{strsep, trim, verify_header}
use ant_http.Utils.Url.{url_decode}

abbrev pub header_max_size : ℕ
header_max_size = 8192

-- The variables of the loop.
pub record HeaderState : Type 0 where
  pub conn : Conn
  pub header : Dictionary Bytes
  pub cookie : Option (Dictionary Bytes)
  pub host : Option Bytes
  pub header_size : ℕ

-- How the loop ends: at the empty line, with nothing left to read, or above the limit.
pub data HeaderEnd : Type 0 where
  complete : HeaderState → HeaderEnd
  starved : HeaderState → HeaderEnd
  too_large : HeaderState → HeaderEnd

-- A line with a name and a value is kept, under its name with capitals.
unfoldable pub put_header : Bytes → Option Bytes → Dictionary Bytes → Dictionary Bytes
unfolding verify_header
put_header token none d = d
put_header token (some []) d = d
put_header token (some (c ∷ line)) d = (dput d (verify_header token) (some (c ∷ line))).0

unfoldable pub cookie_table : Option (Dictionary Bytes) → Dictionary Bytes
cookie_table none = dict
cookie_table (some d) = d

-- The two names that the loop looks at itself; `line` is NULL where the line has no colon.
unfoldable pub special_header : Bytes → Option Bytes → HeaderState → Outcome HeaderState
unfolding cookie_table
special_header token line h =
    if str_case_eq token (codes "Cookie")
    then text_of line
      >>= (λ s. done (record h { cookie = some (decode_cookie s (cookie_table h.cookie)) }))
    else if str_case_eq token (codes "Host")
    then text_of line >>= (λ s. done (record h { host = some s }))
    else done h

unfoldable pub trimmed : Option Bytes → Option Bytes
unfolding trim
trimmed none = none
trimmed (some s) = some (trim s b' ')

-- One line that `read_buf` returned.
unfoldable pub header_line : Bytes → HeaderState → Outcome HeaderState
unfolding special_header put_header trimmed
header_line buf h =
    let (name, rest) = strsep b':' (trim (trim (c_string buf) b'\n') 13) in
    let token = trim name b' ' in
    let line = trimmed rest in
    special_header token line
      record h { header = put_header token line h.header; header_size = h.header_size + length buf }

-- The loop. Every round but the last reads a byte at least, and the size is bounded.
unfoldable pub header_loop : ℕ → HeaderState → Outcome HeaderEnd
unfolding header_line
header_loop zero h = no_fuel
header_loop (suc fuel) h =
    let (buf, c) = read_buf (2 * buff_len) h.conn in
    let h₁ = record h { conn = c } in
    let next = header_line buf h₁ >>= (λ h₂.
      let later = header_loop fuel h₂ in
      if ltb header_max_size h₂.header_size then done (HeaderEnd.too_large h₂) else later) in
    if length buf == 0
    then done (HeaderEnd.starved h₁)
    else if str_eq (13 ∷ 10 ∷ []) (c_string buf)
    then done (HeaderEnd.complete h₁)
    else next

-- The request with what the loop read; the cookies are put into it later.
unfoldable pub with_headers : HeaderState → Request → Request
with_headers h rq = record rq { conn = h.conn; header = h.header }

unfoldable pub kept_cookie : Option (Dictionary Bytes) → Request → Request
kept_cookie none rq = rq
kept_cookie (some d) rq = record rq { cookie = some d }

-- With the url and the query that the rules gave.
unfoldable pub to_method : Moment → Bytes → Bytes → Request → Option RequestTask → RequestTask
unfolding put_field task_on
to_method m uri query rq (some proxy) = proxy
to_method m uri query rq none =
    let rq₁ = put_field "REQUEST_URI" (url_decode uri) rq in
    let rq₂ = record rq₁ { params = decode_url_request (some query) rq₁.params } in
    task_on m (readable + writable) (some decode_request) (put_field "REQUEST_QUERY" query rq₂)

-- Behind the headers the url and the port's rules are read.
unfoldable pub route :
    Regex → Moment → Option Port → Option Bytes → HeaderState → Request → Outcome RequestTask
unfolding kept_cookie to_method
route regex m none url h rq = null_text
route regex m (some port) none h rq = null_text
route regex m (some port) (some url) h rq =
    let (uri, query) = apply_rules regex port.rules h.host (take (2 * buff_len - 1) url) in
    let rq₁ = kept_cookie h.cookie rq in
    check_proxy regex m rq₁ uri query >>= (λ proxy. done (to_method m uri query rq₁ proxy))

-- Whether the announced body is larger than the configured limit.
unfoldable pub body_too_large : Config → Option Bytes → Bool
body_too_large g none = Bool.false
body_too_large g (some clen) = ltb_ℤ g.max_upload_size (atoi clen)

unfoldable pub after_headers :
    Regex → Config → Moment → Option Bytes → Option Port → Request → HeaderEnd → Outcome RequestTask
unfolding with_headers route body_too_large task_for task_on refuse
after_headers regex g m url port rq (HeaderEnd.too_large h) =
    done (task_for m none (refuse 413 "Payload Too Large" (with_headers h rq)))
after_headers regex g m url port rq (HeaderEnd.starved h) =
    done (task_on m readable (some decode_request_header) (with_headers h rq))
after_headers regex g m url port rq (HeaderEnd.complete h) =
    let rq₁ = with_headers h rq in
    if body_too_large g (dvalue h.header (codes "Content-Length"))
    then done (task_for m none (refuse 413 "Request body data is too large" rq₁))
    else route regex m port url h rq₁

-- More than the loop can take rounds.
abbrev pub header_fuel : ℕ
header_fuel = header_max_size + 2

-- Each run starts with no cookies and no host.
unfoldable pub header_start : Request → HeaderState
header_start rq = record {
  conn = rq.conn;
  header = rq.header;
  cookie = none;
  host = none;
  header_size = 0;
}

unfoldable pub decode_request_header_run : Regex → Config → Moment → Request → Outcome RequestTask
unfolding after_headers header_loop field header_start
decode_request_header_run regex g m rq = text_of (field rq "SERVER_PORT") >>= (λ key.
    header_loop header_fuel (header_start rq) >>= (λ e.
      after_headers regex g m (field rq "REQUEST_QUERY") (dvalue g.ports key)
        (record rq { state = client_header_decode }) e))

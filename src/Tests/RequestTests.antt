-- ===== src/Tests/RequestTests.antt =====
-- Requests and answers on concrete connections.
use ant_http.Decode.Body.{decode_body}
use ant_http.Decode.Body.Form.{IsPatient, decode_body-query_text}
use ant_http.Decode.Header.{HeaderState, header_loop, header_line, header_fuel}
use ant_http.Decode.Header.Ends.{Ends, header_loop-Ends}
use ant_http.Decode.Header.NullText.{IsSpecial, header_line-null_text}
use ant_http.Decode.Params.{decode_url_request}
use ant_http.Decode.Params.Back.{
  put_all, query_text, param_text, IsParam, decode_url_request-query_text,
}
use ant_http.Decode.Proxy.{check_proxy}
use ant_http.Decode.Proxy.Overrun.{check_proxy-overrun}
use ant_http.Decode.Rules.{Regex, group}
use ant_http.Decode.Tokens.{join}
use ant_http.Dictionary.{Dictionary, dict, dict_n}
use ant_http.Dictionary.Laws.{dict_n-IsValid}
use ant_http.Handle.{Conn, Input}
use ant_http.Handle.Rendering.{Sends, error_text, antd_error-Sends}
use ant_http.Handle.Response.{ResponseHeader, antd_error}
use ant_http.Handle.Sending.{IsWritable}
use ant_http.Handle.Stream.{stream, IsOpen}
use ant_http.Prelude.{
  true, ◌≤◌, pos, Bytes, codes, c_string, length, replicate, false, none, some, List, [], ◌∷◌, ◌++◌,
  All, ◌≡◌, ◌↔◌, ◌⊎◌, ◌≢◌, refl, arith, subst, sym, IsText, has_part, ◌∙◌, append-nil,
}
use ant_http.Request.{client_accept, Request, Moment, RequestTask, done, null_text, overrun}
use ant_http.Server.Accept.{Handshake, accept_request_run}
use ant_http.Server.Accept.Line.{request_line}
use ant_http.Server.Accept.Parsed.{IsParsed, to_read, accept_request-IsParsed}
use ant_http.Server.Proxify.{proxy_monitor_run}
use ant_http.Server.Proxify.Rounds.{proxy_monitor_run-done}
use ant_http.Utils.Trim.{strsep, trim}
use ant_http.Utils.Url.{url_encode, is_plain}

abbrev pub arriving : Bytes → List Input
arriving [] = []
arriving (c ∷ s) = Input.chunk c s ∷ []

abbrev pub conn_of : Bytes → Conn
conn_of s = record { ssl = false; input = arriving s; output = []; sent = [] }

abbrev pub request_of : Dictionary Bytes → Bytes → Request
request_of fields s = record {
  sock = pos 5;
  conn = conn_of s;
  state = client_accept;
  fields = fields;
  header = dict;
  params = dict;
  cookie = none;
  proxy = none;
  context = none;
}

abbrev pub moment : Moment
moment = record { id = pos 7; now = 100; last_io = 99 }

abbrev head : Bytes
head = request_line (codes "GET") (codes "/a?x=1") (codes "HTTP/1.1") ++ (b'\n' ∷ codes "Host: b")

-- The text of a request line of the HTTP protocol.
head_test :
    request_line (codes "GET") (codes "/a?x=1") (codes "HTTP/1.1")
    ≡ codes "GET /a?x=1 HTTP/1.1" ++ (13 ∷ [])
head_test = refl

head-IsOpen : IsOpen false (arriving head)
unfolding IsOpen
head-IsOpen = tt

head-stream : stream (arriving head) ≡ head
unfolding stream
head-stream = refl

accept_request-IsParsed_example :
    IsParsed
      (codes "GET")
      (codes "/a?x=1")
      (codes "HTTP/1.1")
      (codes "Host: b")
      (accept_request_run moment to_read Handshake.failed (request_of (dict_n 16) head))
accept_request-IsParsed_example =
    accept_request-IsParsed moment Handshake.failed (request_of (dict_n 16) head) (codes "GET")
      (codes "/a?x=1") (codes "HTTP/1.1") (codes "Host: b") (dict_n-IsValid 16 (omega arith)) refl
      ((λ e. cc), (ground arith)) ((λ e. cc), (ground arith)) ((λ e. cc), (ground arith))
      (omega arith) head-IsOpen head-stream

abbrev state_of : Bytes → HeaderState
state_of s = record { conn = conn_of s; header = dict; cookie = none; host = none; header_size = 0 }

header_loop-Ends_example :
    Ends (state_of (codes "Host: b")) (header_loop header_fuel (state_of (codes "Host: b")))
header_loop-Ends_example =
    header_loop-Ends header_fuel (state_of (codes "Host: b")) (omega arith) (omega arith)

header_line-null_text_example :
    let (name, rest) = strsep b':' (trim (trim (c_string (codes "host")) b'\n') 13) in
    (header_line (codes "host") (state_of []) ≡ null_text)
    ↔ ((rest ≡ none) × IsSpecial (trim name b' '))
header_line-null_text_example = header_line-null_text (codes "host") (state_of [])

-- A matcher that finds the scheme, a host of 300 bytes and the port at fixed places.
abbrev long_host : Regex
long_host pattern text = some ((0, 311) ∷ (0, 4) ∷ (7, 307) ∷ (308, 310) ∷ (310, 310) ∷ [])

abbrev long_url : Bytes
long_url = codes "http://" ++ (replicate 300 b'a' ++ codes ":80")

check_proxy-overrun_example :
    (check_proxy long_host moment (request_of dict []) long_url [] ≡ overrun) ↔ (
      (256
        ≤ length (group long_url ((0, 311) ∷ (0, 4) ∷ (7, 307) ∷ (308, 310) ∷ (310, 310) ∷ []) 2))
      ⊎ (256
          ≤ length
              (group long_url ((0, 311) ∷ (0, 4) ∷ (7, 307) ∷ (308, 310) ∷ (310, 310) ∷ []) 3)))
check_proxy-overrun_example =
    check_proxy-overrun long_host moment (request_of dict []) long_url []
      ((0, 311) ∷ (0, 4) ∷ (7, 307) ∷ (308, 310) ∷ (310, 310) ∷ []) refl (unfold group in refl)

abbrev params : List (Bytes × Bytes)
params = (codes "a", codes "1 2") ∷ (codes "b", codes "x") ∷ []

params-IsParam : All IsParam params
params-IsParam = (
  ((λ e. cc), ground arith, ground arith, ground arith),
  (((λ e. cc), ground arith, ground arith, ground arith), tt),
)

decode_url_request-query_text_example :
    decode_url_request (some (query_text params)) dict ≡ put_all params dict
decode_url_request-query_text_example = decode_url_request-query_text params dict params-IsParam

abbrev form : Bytes
form = codes "a=1+2&b=x"

form_test : query_text params ≡ form
unfolding query_text join param_text url_encode is_plain
form_test = refl

form_ne : form ≢ []
form_ne e = cc

decode_body-query_text_example :
    let t =
      decode_body moment
        (codes "application/x-www-form-urlencoded")
        (pos (length (query_text params)))
        (request_of dict form) in
    (t.data_of.params ≡ put_all params dict) × (stream t.data_of.conn.input ≡ [])
decode_body-query_text_example =
    decode_body-query_text moment (codes "application/x-www-form-urlencoded") (request_of dict form)
      params [] (unfold has_part in refl) params-IsParam
      (subst IsText (sym form_test) (ground arith)) (λ e. form_ne (sym form_test ∙ e))
      (unfold IsPatient in tt)
      (unfold stream in sym form_test ∙ sym (append-nil (query_text params)))

abbrev answer : ResponseHeader
answer = record { status = 200; header = some (dict_n 4); cookie = codes "a=1" ∷ [] }

all_written : IsWritable false []
unfolding IsWritable
all_written = tt

antd_error-Sends_example :
    Sends
      (conn_of [])
      (antd_error 404 (codes "Not found") (conn_of []))
      (error_text 404 (codes "Not found"))
antd_error-Sends_example = antd_error-Sends 404 (codes "Not found") (conn_of []) all_written

abbrev behind_proxy : Request
behind_proxy = record (request_of dict (codes "hi")) { proxy = some (pos 9, conn_of (codes "ok")) }

proxy_monitor_run-done_example :
    (t : RequestTask) × (proxy_monitor_run moment
        (record { sel = pos 1; can_read = true; hung_up = false } ∷ [])
        behind_proxy
      ≡ done t)
proxy_monitor_run-done_example =
    proxy_monitor_run-done moment (record { sel = pos 1; can_read = true; hung_up = false } ∷ [])
      behind_proxy (pos 9) (conn_of (codes "ok")) refl

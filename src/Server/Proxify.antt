-- ===== src/Server/Proxify.antt =====
-- server.c: `proxify` and `proxy_monitor`. The address of a host and the socket to it stand outside.
pub mod Rounds
use mathlib.Core.List.{flatten}
use ant_http.Handle.{Conn, buff_len, antd_send, antd_recv_upto}
use ant_http.Handle.Response.{crlf, header_line, text_or_null}
use ant_http.Handle.Stream.{stream}
use ant_http.Prelude.{
  ℕ, zero, suc, ◌+◌, ◌==◌, ltb_ℤ, ℤ, pos, negsuc, Bytes, codes, Bool, true, false, ◌&&◌,
  if◌then◌else◌, map, Option, none, some, List, [], ◌∷◌, ◌++◌, length,
}
use ant_http.Request.{
  proxy_monitor, client_resolve_request, client_proxy_monitor, Request, Moment, RequestTask,
  Outcome, done, null_text, no_fuel, ◌>>=◌, text_of, readable, writable, on_timeout, task_for,
  field, refuse,
}
use ant_http.Scheduler.Create.{antd_task_bind_event}
use ant_http.Utils.Decimal.{atoi}

-- `ret == size`
unfoldable pub is_whole : Bytes → ℤ → Bool
is_whole s (pos n) = n == length s
is_whole s (negsuc n) = false

-- One write after the other, up to one that is not whole.
unfoldable pub send_each : List Bytes → Conn → Bool × Conn
unfolding is_whole
send_each [] c = (true, c)
send_each (s ∷ ss) c =
    let (n, c') = antd_send s c in
    let later = send_each ss c' in if is_whole s n then later else (false, c')

unfoldable pub request_text : Option Bytes → Bytes → Bytes → Bytes
request_text method path query =
    text_or_null method
    ++ (codes " " ++ (path ++ (codes "?" ++ (query ++ (codes " HTTP/1.1" ++ crlf)))))

-- The request line and the headers of the client, each in one write.
unfoldable pub forwarded : Bytes → Bytes → Request → List Bytes
unfolding request_text field
forwarded path query rq =
    request_text (field rq "METHOD") path query
    ∷ map (λ kv. header_line kv ++ crlf) (flatten rq.header.map)

-- Behind these writes to the server.
unfoldable pub connected : Moment → ℤ → Request → Bool × Conn → RequestTask
unfolding task_for refuse
connected m sock rq (false, p) =
    task_for m none (refuse 500 "" (record rq { proxy = some (sock, p) }))
connected m sock rq (true, p) =
    let rq₁ = record rq { proxy = some (sock, (antd_send crlf p).1) } in
    antd_task_bind_event m.now sock (pos 0) (readable + writable)
      (task_for m (some proxy_monitor) rq₁)

-- What `antd_request_socket` returned: the socket, and what will happen on it.
unfoldable pub proxied : Moment → Bytes → Bytes → Request → Option (ℤ × Conn) → RequestTask
unfolding connected send_each forwarded
proxied m path query rq none = task_for m none (refuse 503 "Service Unavailable" rq)
proxied m path query rq (some (sock, p)) =
    connected m sock rq (send_each (forwarded path query rq) p)

unfoldable pub addressed :
    Moment
    → (Bytes → ℤ → Option (ℤ × Conn))
    → ℤ
    → Bytes
    → Bytes
    → Request
    → Option Bytes
    → RequestTask
unfolding proxied
addressed m connect port path query rq none = task_for m none (refuse 502 "Badd address" rq)
addressed m connect port path query rq (some ip) = proxied m path query rq (connect ip port)

unfoldable pub proxify_run :
    (Bytes → Option Bytes)
    → (Bytes → ℤ → Option (ℤ × Conn))
    → Moment
    → Request
    → Outcome RequestTask
unfolding addressed field
proxify_run ip_from_hostname connect m rq =
    let rq₁ = record rq { state = client_resolve_request } in
    text_of (field rq "PROXY_HOST") >>= (λ host. text_of (field rq "PROXY_PORT") >>= (λ port. done (
      addressed m connect (atoi port) (text_or_null (field rq "PROXY_PATH"))
        (text_or_null (field rq "PROXY_QUERY")) rq₁ (ip_from_hostname host))))

-- One `poll` on the socket to the server; `hung_up` is POLLERR, POLLRDHUP, POLLHUP or POLLNVAL.
pub record Peek : Type 0 where
  pub sel : ℤ
  pub can_read : Bool
  pub hung_up : Bool

-- How the loop ends: an end is gone, the `poll` failed, or nothing moves, with the last answer.
pub data RelayEnd : Type 0 where
  gone : RelayEnd
  poll_failed : RelayEnd
  quiet : Peek → RelayEnd
  relaying : RelayEnd

-- What one end sent is written to the other; `none` says that either failed. The client may have
-- sent nothing for now, the server not, once it is readable.
unfoldable pub relay_from : Bool → Conn → Conn → Option ℕ × Conn × Conn
unfolding is_whole
relay_from may_wait from to =
    let (n, got, from') = antd_recv_upto buff_len from in
    let (k, to') = antd_send got to in
    if ltb_ℤ n (pos 0)
    then (none, from', to)
    else if length got == 0
    then (if may_wait then some 0 else none, from', to)
    else (if is_whole got k then some (length got) else none, from', to')

-- What is left of both connections.
pub record Relayed : Type 0 where
  pub fin : RelayEnd
  pub client : Conn
  pub server : Conn

unfoldable pub no_news : Peek
no_news = record { sel = pos 0; can_read = false; hung_up = false }

unfoldable pub next_peek : List Peek → Peek × List Peek
unfolding no_news
next_peek [] = (no_news, [])
next_peek (k ∷ ks) = (k, ks)

unfoldable pub from_server : Peek → Conn → Conn → Option ℕ × Conn × Conn
unfolding relay_from
from_server k server client =
    if ltb_ℤ (pos 0) k.sel && k.can_read
    then relay_from false server client
    else (some 0, server, client)

-- Behind both reads of a round: `n` bytes came from the client.
unfoldable pub after_server : Peek → ℕ → Option ℕ → Relayed → Relayed → Relayed
after_server k n none now later = record now { fin = gone }
after_server k n (some n') now later =
    if ltb_ℤ (pos 0) k.sel && k.hung_up
    then record now { fin = gone }
    else if n + n' == 0
    then record now { fin = quiet k }
    else later

unfoldable pub after_client : Peek → Option ℕ → Option ℕ → Relayed → Relayed → Relayed → Relayed
unfolding after_server
after_client k none o first now later = record first { fin = gone }
after_client k (some n) o first now later =
    if ltb_ℤ k.sel (pos 0) then record first { fin = poll_failed } else after_server k n o now later

-- The loop; each round but the last moves a byte.
unfoldable pub relay : ℕ → List Peek → Conn → Conn → Relayed
unfolding after_client relay_from from_server next_peek
relay zero ks client server = record { fin = relaying; client = client; server = server }
relay (suc fuel) ks client server =
    let (o, client₁, server₁) = relay_from true client server in
    let (k, ks') = next_peek ks in
    let (o', server₂, client₂) = from_server k server₁ client₁ in
    after_client k o o' record { fin = relaying; client = client₁; server = server₁ }
      record { fin = relaying; client = client₂; server = server₂ } (relay fuel ks' client₂ server₂)

-- The next look at both sockets.
unfoldable pub watched : Moment → ℤ → Peek → Request → RequestTask
unfolding task_for antd_task_bind_event
watched m sock k rq =
    let t = task_for m (some proxy_monitor) rq in
    let t₁ =
      if k.can_read
      then antd_task_bind_event m.now sock (pos 0) readable t
      else antd_task_bind_event m.now sock (pos 50) on_timeout t in
    antd_task_bind_event m.now rq.sock (pos 0) readable t₁

unfoldable pub monitored : Moment → ℤ → Request → RelayEnd → Outcome RequestTask
unfolding watched task_for
monitored m sock rq gone = done (task_for m none rq)
monitored m sock rq poll_failed = done (task_for m none rq)
monitored m sock rq (quiet k) = done (watched m sock k rq)
monitored m sock rq relaying = no_fuel

unfoldable pub proxy_monitor_on :
    Moment → List Peek → Request → Option (ℤ × Conn) → Outcome RequestTask
unfolding monitored relay
proxy_monitor_on m ks rq none = null_text
proxy_monitor_on m ks rq (some (sock, server)) =
    let fuel = suc (length (stream rq.conn.input) + length (stream server.input)) in
    let r = relay fuel ks rq.conn server in
    monitored m sock (record rq { conn = r.client; proxy = some (sock, r.server) }) r.fin

unfoldable pub proxy_monitor_run : Moment → List Peek → Request → Outcome RequestTask
unfolding proxy_monitor_on
proxy_monitor_run m ks rq =
    proxy_monitor_on m ks (record rq { state = client_proxy_monitor }) rq.proxy

-- ===== src/Server/Files.antt =====
-- server.c: `serve_file`, and `__f` of lib/handle.c, without compression. What `stat` says of the
-- file, its bytes, and the two forms of its time stand outside.
use ant_http.Dictionary.{dict, dput, dvalue}
use ant_http.Handle.{Conn, buff_len, antd_send}
use ant_http.Handle.Response.{antd_send_header, ResponseHeader}
use ant_http.Prelude.{
  ℕ, zero, suc, to_int, ◌==◌, ℤ, pos, negsuc, Bytes, codes, Bool, true, false, if◌then◌else◌,
  Option, none, some, [], ◌∷◌, length, take, drop,
}
use ant_http.Request.{
  client_serve_file, Request, Moment, RequestTask, Outcome, done, ◌>>=◌, text_of, task_for, field,
  refuse,
}
use ant_http.Utils.Decimal.{decimal_ℤ}

-- The bytes are there if the file can be opened.
pub record FileInfo : Type 0 where
  pub size : ℕ
  pub changed : ℕ
  pub bytes : Option Bytes

pub record FileWorld : Type 0 where
  pub file : Bytes → Option FileInfo
  pub parse_time : Bytes → ℕ
  pub time_text : ℕ → Bytes

unfoldable pub is_minus : ℤ → Bool
is_minus (pos n) = false
is_minus (negsuc n) = n == 0

-- The loop of `__f`, one block of the file after the other.
unfoldable pub send_file_blocks : ℕ → Bytes → Conn → Bool × Conn
unfolding is_minus
send_file_blocks zero s c = (true, c)
send_file_blocks (suc fuel) [] c = (true, c)
send_file_blocks (suc fuel) (b ∷ s) c =
    let (n, c') = antd_send (take buff_len (b ∷ s)) c in
    let rest = send_file_blocks fuel (drop buff_len (b ∷ s)) c' in
    if is_minus n then (false, c') else rest

-- `__f`
unfoldable pub send_file : Option Bytes → Conn → Bool × Conn
unfolding send_file_blocks
send_file none c = (false, c)
send_file (some s) c = send_file_blocks (length s) s c

unfoldable pub file_header : FileWorld → FileInfo → Bytes → ResponseHeader
unfolding to_int decimal_ℤ
file_header w info mime =
    let d₁ = (dput dict (codes "Content-Type") (some mime)).0 in
    let d₂ = (dput d₁ (codes "Content-Length") (some (decimal_ℤ (to_int info.size)))).0 in
    let d₃ = (dput d₂ (codes "Last-Modified") (some (w.time_text info.changed))).0 in
    record {
      header = some (dput d₃ (codes "Cache-Control") (some (codes "no-cache"))).0;
      cookie = [];
      status = 200;
    }

-- Whether the client has the file as it is.
unfoldable pub is_unchanged : FileWorld → FileInfo → Option Bytes → Bool
is_unchanged w info none = false
is_unchanged w info (some s) = info.changed == w.parse_time s

unfoldable pub send_whole : FileWorld → FileInfo → Bytes → Request → Request
unfolding file_header send_file
send_whole w info mime rq = record rq {
  conn = (send_file info.bytes (antd_send_header (file_header w info mime) rq.conn)).1;
}

unfoldable pub answer_file : FileWorld → Option FileInfo → Bytes → Request → Request
unfolding is_unchanged send_whole refuse
answer_file w none mime rq = refuse 404 "File not found" rq
answer_file w (some info) mime rq =
    if is_unchanged w info (dvalue rq.header (codes "If-Modified-Since"))
    then refuse 304 "" rq
    else send_whole w info mime rq

unfoldable pub serve_file_run : FileWorld → Moment → Request → Outcome RequestTask
unfolding answer_file field task_for
serve_file_run w m rq =
    let rq₁ = record rq { state = client_serve_file } in
    text_of (field rq "RESOURCE_PATH") >>= (λ path.
      text_of (field rq "RESOURCE_MIME")
      >>= (λ mime. done (task_for m none (answer_file w (w.file path) mime rq₁))))

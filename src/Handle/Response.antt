-- ===== src/Handle/Response.antt =====
-- lib/handle.c: `__t`, `antd_send_header` and `antd_error`, without compression.
use mathlib.Core.List.{flatten}
use ant_http.Dictionary.{Dictionary, dict, dput}
use ant_http.Handle.{Conn, send_bytes}
use ant_http.Handle.Status.{get_status_str}
use ant_http.Prelude.{
  ℕ, Bytes, codes, Bool, if◌then◌else◌, map, Option, none, some, List, [], ◌∷◌, ◌++◌, length,
}
use ant_http.Utils.Decimal.{decimal}

abbrev pub crlf : Bytes
crlf = 13 ∷ 10 ∷ []

-- `__t`, for the text that its format gives.
unfoldable pub send_line : Bytes → Conn → Bool × Conn
send_line s c =
    let (sent, c') = send_bytes s c in
    let (_, c'') = send_bytes crlf c' in if sent then (sent, c'') else (sent, c')

-- `antd_response_header_t`; `cookie` are the texts of its list.
pub record ResponseHeader : Type 0 where
  pub header : Option (Dictionary Bytes)
  pub cookie : List Bytes
  pub status : ℕ

unfoldable pub header_or_new : Option (Dictionary Bytes) → Dictionary Bytes
header_or_new none = dict
header_or_new (some d) = d

unfoldable pub status_line : ℕ → Bytes
status_line status = codes "HTTP/1.1 " ++ (decimal status ++ (codes " " ++ get_status_str status))

-- `%s` of a NULL value.
unfoldable pub text_or_null : Option Bytes → Bytes
text_or_null none = codes "(null)"
text_or_null (some s) = s

unfoldable pub header_line : Bytes × Option Bytes → Bytes
header_line (key, value) = key ++ (codes ": " ++ text_or_null value)

-- One `__t` for each line; its result is not looked at.
unfoldable pub send_lines : List Bytes → Conn → Conn
send_lines [] c = c
send_lines (s ∷ lines) c = send_lines lines (send_line s c).1

-- The header dictionary once the server's name is in it, in the order of `for_each_assoc`.
unfoldable pub assocs : ResponseHeader → List (Bytes × Option Bytes)
assocs r = flatten (dput (header_or_new r.header) (codes "Server") (some (codes "Antd"))).0.map

unfoldable pub antd_send_header : ResponseHeader → Conn → Conn
antd_send_header r c =
    let c₁ = (send_line (status_line r.status) c).1 in
    let c₂ = send_lines (map header_line (assocs r)) c₁ in
    let c₃ = send_lines (map (λ s. codes "Set-Cookie: " ++ s) r.cookie) c₂ in (send_bytes crlf c₃).1

unfoldable pub error_page : ℕ → Bytes → Bytes
error_page status msg =
    codes "<HTML><HEAD><TITLE>"
    ++ (get_status_str status
        ++ (codes "</TITLE></HEAD><BODY><h2>" ++ (msg ++ codes "</h2></BODY></HTML>")))

unfoldable pub error_header : ℕ → Bytes → ResponseHeader
error_header status page =
    let d = (dput dict (codes "Content-Type") (some (codes "text/html; charset=utf-8"))).0 in
    record {
      header = some (dput d (codes "Content-Length") (some (decimal (length page)))).0;
      cookie = [];
      status = status;
    }

unfoldable pub antd_error : ℕ → Bytes → Conn → Conn
antd_error status msg c =
    let page = error_page status msg in
    (send_bytes page (antd_send_header (error_header status page) c)).1

-- ===== src/Handle/Rendering.antt =====
-- lib/handle.c: the bytes of a response that `antd_send_header` and `antd_error` write.
use mathlib.Core.List.{flatten}
use ant_http.Dictionary.{dict, dput, dlookup}
use ant_http.Utils.Hash.{hash}
use ant_http.Handle.{Conn, Output, send_bytes}
use ant_http.Handle.Response.{
  header_or_new, text_or_null, crlf, send_line, ResponseHeader, status_line, header_line,
  send_lines, assocs, antd_send_header, error_page, error_header, antd_error,
}
use ant_http.Handle.Sending.{IsWritable, send_bytes-all}
use ant_http.Prelude.{
  ℕ, Bytes, codes, true, List, [], ◌∷◌, ◌++◌, length, map, append_assoc, append-nil, ◌≡◌, refl, sym,
  ap, str_eq, subst, ◌∙◌,
}
use ant_http.Utils.Decimal.{decimal}

-- `c'` is `c` once the bytes `s` are written, with no error.
pub Sends : Conn → Conn → Bytes → Type 0
Sends c c' s =
    (o : List Output) × (c' ≡ record c { output = o; sent = c.sent ++ s }) × IsWritable c.ssl o

pub Sends-result :
    (c c' : Conn) (s : Bytes)
    → Sends c c' s
    → (o : List Output) × (c' ≡ record c { output = o; sent = c.sent ++ s }) × IsWritable c.ssl o
unfolding Sends
Sends-result c c' s sends = sends

pub Sends-nothing : (c : Conn) → IsWritable c.ssl c.output → Sends c c []
unfolding Sends
Sends-nothing c w = (c.output, ap (λ t. record c { sent = t }) (sym (append-nil c.sent)), w)

-- A write, and another from wherever the first leaves the connection.
pub Sends-then :
    (c c' : Conn) (step : Conn → Conn) (s t : Bytes)
    → Sends c c' s
    → ((o : List Output)
        → IsWritable c.ssl o
        → Sends
            (record c { output = o; sent = c.sent ++ s })
            (step (record c { output = o; sent = c.sent ++ s }))
            t)
    → Sends c (step c') (s ++ t)
unfolding Sends
Sends-then c c' step s t (o, e, w) next =
    let (o', e', w') = next o w in
    (
      o',
      ap step e ∙ e' ∙ ap (λ r. record c { output = o'; sent = r }) (append_assoc c.sent s t),
      w',
    )

pub send_bytes-Sends :
    (s : Bytes) (c : Conn) → IsWritable c.ssl c.output → Sends c (send_bytes s c).1 s
unfolding Sends
send_bytes-Sends s c w = let (o, e, w') = send_bytes-all s c w in (o, ap (λ r. r.1) e, w')

send_line-sent :
    (s : Bytes) (c c' : Conn)
    → send_bytes s c ≡ (true, c')
    → (send_line s c).1 ≡ (send_bytes crlf c').1
unfolding send_line
send_line-sent s c c' e = rw e refl

send_line-Sends :
    (s : Bytes) (c : Conn) → IsWritable c.ssl c.output → Sends c (send_line s c).1 (s ++ crlf)
unfolding Sends
send_line-Sends s c w =
    let (o, e, w') = send_bytes-all s c w in
    let (o', e', w'') = send_bytes-all crlf (record c { output = o; sent = c.sent ++ s }) w' in
    (
      o',
      send_line-sent s c _ e
          ∙ ap (λ r. r.1) e'
          ∙ ap (λ r. record c { output = o'; sent = r }) (append_assoc c.sent s crlf),
      w'',
    )

-- Lines as they are written.
unfoldable pub lines_text : List Bytes → Bytes
lines_text [] = []
lines_text (s ∷ lines) = (s ++ crlf) ++ lines_text lines

send_lines-Sends :
    (lines : List Bytes) (c : Conn)
    → IsWritable c.ssl c.output
    → Sends c (send_lines lines c) (lines_text lines)
unfolding send_lines lines_text
send_lines-Sends [] c w = Sends-nothing c w
send_lines-Sends (s ∷ lines) c w =
    Sends-then c _ (send_lines lines) (s ++ crlf) (lines_text lines) (send_line-Sends s c w)
      (λ o w'. send_lines-Sends lines _ w')

-- The head of a response: status line, header lines, cookies, and the empty line.
unfoldable pub header_text : ResponseHeader → Bytes
header_text r =
    (status_line r.status ++ crlf)
    ++ (lines_text (map header_line (assocs r))
        ++ (lines_text (map (λ s. codes "Set-Cookie: " ++ s) r.cookie) ++ crlf))

-- On a connection that no error ends, `antd_send_header` writes the status line, one line for each
-- header in the order of the table, one for each cookie, and an empty line.
pub antd_send_header-Sends :
    (r : ResponseHeader) (c : Conn)
    → IsWritable c.ssl c.output
    → Sends c (antd_send_header r c) (header_text r)
unfolding antd_send_header header_text
antd_send_header-Sends r c w =
    let cookies = map (λ s. codes "Set-Cookie: " ++ s) r.cookie in
    let last = λ (x : Conn). (send_bytes crlf x).1 in
    let third = λ (x : Conn). last (send_lines cookies x) in
    let second = λ (x : Conn). third (send_lines (map header_line (assocs r)) x) in
    Sends-then c _ second _ _ (send_line-Sends (status_line r.status) c w) (λ o₁ w₁.
      Sends-then _ _ third _ _ (send_lines-Sends (map header_line (assocs r)) _ w₁) (λ o₂ w₂.
        Sends-then _ _ last _ _ (send_lines-Sends cookies _ w₂)
          (λ o₃ w₃. send_bytes-Sends crlf _ w₃)))

-- The whole answer of `antd_error`; the headers stand in the order of their table.
unfoldable pub error_text : ℕ → Bytes → Bytes
error_text status msg =
    (status_line status ++ crlf)
    ++ (lines_text (
          codes "Server: Antd"
          ∷ (codes "Content-Length: " ++ decimal (length (error_page status msg)))
          ∷ codes "Content-Type: text/html; charset=utf-8"
          ∷ [])
        ++ (crlf ++ error_page status msg))

header_text-error_header :
    (status : ℕ) (page : Bytes)
    → header_text (error_header status page)
      ≡ (status_line status ++ crlf)
        ++ (lines_text (
              codes "Server: Antd"
              ∷ (codes "Content-Length: " ++ decimal (length page))
              ∷ codes "Content-Type: text/html; charset=utf-8"
              ∷ [])
            ++ crlf)
unfolding header_text error_header assocs header_line lines_text flatten dput dlookup header_or_new
    dict hash str_eq text_or_null
header_text-error_header status page = refl

-- On a connection that no error ends, `antd_error` writes a whole response: the status line, three
-- headers with the length of the page among them, an empty line, and the page.
pub antd_error-Sends :
    (status : ℕ) (msg : Bytes) (c : Conn)
    → IsWritable c.ssl c.output
    → Sends c (antd_error status msg c) (error_text status msg)
unfolding antd_error error_text
antd_error-Sends status msg c w =
    let page = error_page status msg in
    let first = status_line status ++ crlf in
    let lines = lines_text (
      codes "Server: Antd"
      ∷ (codes "Content-Length: " ++ decimal (length page))
      ∷ codes "Content-Type: text/html; charset=utf-8"
      ∷ []) in
    let text =
      ap (λ h. h ++ page) (header_text-error_header status page)
      ∙ append_assoc first (lines ++ crlf) page
      ∙ ap (λ s. first ++ s) (append_assoc lines crlf page) in
    subst (Sends c (send_bytes page (antd_send_header (error_header status page) c)).1) text (
      Sends-then c _ (λ x. (send_bytes page x).1) _ page
        (antd_send_header-Sends (error_header status page) c w)
        (λ o w'. send_bytes-Sends page _ w'))

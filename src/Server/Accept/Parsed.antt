-- ===== src/Server/Accept/Parsed.antt =====
-- server.c: the request that `accept_request` makes of a whole request line.
use ant_http.Dictionary.{dput}
use ant_http.Dictionary.Laws.{IsValid, dput-IsValid}
use ant_http.Handle.{buff_len}
use ant_http.Handle.NextLine.{read_buf-Took}
use ant_http.Handle.Stream.{stream, IsOpen}
use ant_http.Prelude.{
  ℕ, ◌+◌, ◌<◌, pos, Bytes, codes, c_string, c_string_text, IsText, str_eq, true, false, ◌&&◌, some,
  [], ◌∷◌, ◌++◌, length, All, All-append, All-imp, ◌≡◌, ◌≢◌, refl, ap, subst, sym, ◌∙◌, arith,
}
use ant_http.Request.{
  decode_request_header, client_proto_check, Request, Moment, RequestTask, put_field, field,
  task_on, task_for,
}
use ant_http.Scheduler.Create.{antd_create_task, antd_task_bind_event}
use ant_http.Server.Accept.{
  Polled, Handshake, is_accepting, is_error, put_request, read_method, read_request_line,
  accept_request_run,
}
use ant_http.Server.Accept.Line.{IsWordByte, IsWord, request_line, read_method_line}
use ant_http.Server.Order.{dvalue-dput}
use ant_http.Utils.Trim.{strsep}
use ant_http.Utils.Url.{url_decode}

line-All :
    (P : ℕ → Type 0) (method target protocol : Bytes)
    → P b' '
    → P 13
    → All P method
    → All P target
    → All P protocol
    → All P (request_line method target protocol)
line-All P method target protocol p p' h h' h'' =
    All-append P method _ h (p, All-append P target _ h' (p, All-append P protocol _ h'' (p', tt)))

line-IsText :
    (method target protocol : Bytes)
    → IsWord method
    → IsWord target
    → IsWord protocol
    → IsText (request_line method target protocol ++ (b'\n' ∷ []))
line-IsText method target protocol h h' h'' =
    let bytes : (s : Bytes) → All IsWordByte s → IsText s = All-imp (λ c k. (k.0, k.1)) in
    All-append _ (request_line method target protocol) (b'\n' ∷ [])
      (line-All _ method target protocol (ground arith) (ground arith) (bytes method h.1)
        (bytes target h'.1) (bytes protocol h''.1))
      ((ground arith), tt)

no_newline : (s : Bytes) → IsWord s → All (λ c. c ≢ b'\n') s
no_newline s h = All-imp (λ c k. k.3) s h.1

-- The socket is ready to be read.
abbrev pub to_read : Polled
to_read = record { sel = pos 1; broken = false; can_read = true; can_write = true }

-- The texts of the request, and what is left to be read.
pub record IsParsed (method target protocol later : Bytes) (t : RequestTask) : Type 0 where
  pub next : t.handle ≡ some decode_request_header
  pub method_text : field t.data_of "METHOD" ≡ some method
  pub target_text : field t.data_of "REQUEST_QUERY" ≡ some target
  pub protocol_text : field t.data_of "PROTOCOL" ≡ some protocol
  pub path_text : field t.data_of "REQUEST_PATH" ≡ some (url_decode (strsep b'?' target).0)
  pub behind : stream t.data_of.conn.input ≡ later

put_request-IsParsed :
    (m : Moment) (rq : Request) (method target protocol later : Bytes)
    → IsValid rq.fields
    → stream rq.conn.input ≡ later
    → IsParsed method target protocol later (
        task_on m 6
          (some decode_request_header)
          (put_request target protocol (put_field "METHOD" method rq)))
unfolding task_on task_for antd_create_task antd_task_bind_event put_request put_field field str_eq
put_request-IsParsed m rq method target protocol later v behind =
    let path = url_decode (strsep b'?' target).0 in
    let d₁ = (dput rq.fields (codes "METHOD") (some method)).0 in
    let d₂ = (dput d₁ (codes "PROTOCOL") (some protocol)).0 in
    let d₃ = (dput d₂ (codes "REQUEST_QUERY") (some target)).0 in
    let v₁ = dput-IsValid rq.fields (codes "METHOD") (some method) v in
    let v₂ = dput-IsValid d₁ (codes "PROTOCOL") (some protocol) v₁ in
    let v₃ = dput-IsValid d₂ (codes "REQUEST_QUERY") (some target) v₂ in
    let at₁ = λ (j : Bytes). dvalue-dput rq.fields (codes "METHOD") j method v in
    let at₂ = λ (j : Bytes). dvalue-dput d₁ (codes "PROTOCOL") j protocol v₁ in
    let at₃ = λ (j : Bytes). dvalue-dput d₂ (codes "REQUEST_QUERY") j target v₂ in
    let at₄ = λ (j : Bytes). dvalue-dput d₃ (codes "REQUEST_PATH") j path v₃ in
    record {
      next = refl;
      method_text =
          at₄ (codes "METHOD") ∙ at₃ (codes "METHOD") ∙ at₂ (codes "METHOD") ∙ at₁ (codes "METHOD");
      target_text = at₄ (codes "REQUEST_QUERY") ∙ at₃ (codes "REQUEST_QUERY");
      protocol_text = at₄ (codes "PROTOCOL") ∙ at₃ (codes "PROTOCOL") ∙ at₂ (codes "PROTOCOL");
      path_text = at₄ (codes "REQUEST_PATH");
      behind = behind;
    }

-- A request line of three words that fits the buffer, in a request with a valid table, on a socket
-- that is ready, with no error to come and its TLS handshake done, if any: the next handler is that of the headers, the words are in the
-- request, with the decoded path before the first `?`, and the bytes behind the line are left.
pub accept_request-IsParsed :
    (m : Moment) (hs : Handshake) (rq : Request) (method target protocol later : Bytes)
    → IsValid rq.fields
    → (rq.conn.ssl && is_accepting rq.state) ≡ false
    → IsWord method
    → IsWord target
    → IsWord protocol
    → length (request_line method target protocol) + 1 < buff_len
    → IsOpen rq.conn.ssl rq.conn.input
    → stream rq.conn.input ≡ request_line method target protocol ++ (b'\n' ∷ later)
    → IsParsed method target protocol later (accept_request_run m to_read hs rq)
unfolding accept_request_run is_error read_request_line
accept_request-IsParsed m hs rq method target protocol later v done h h' h'' fits o e =
    let line = request_line method target protocol in
    let t =
      read_buf-Took buff_len rq.conn line later o
        (line-All _ method target protocol (ground arith) (ground arith) (no_newline method h)
          (no_newline target h') (no_newline protocol h''))
        fits e in
    let rq₁ = record rq { conn = record rq.conn { input = t.left }; state = client_proto_check } in
    let text = c_string_text (line ++ (b'\n' ∷ [])) (line-IsText method target protocol h h' h'') in
    rw done (
      subst (IsParsed method target protocol later)
        (sym (
          ap
            (λ (l, c).
              read_method m (strsep b' ' (c_string l))
                record rq { conn = c; state = client_proto_check })
            t.result
          ∙ ap (λ l. read_method m (strsep b' ' l) rq₁) text
          ∙ read_method_line m rq₁ method target protocol h h' h''))
        (put_request-IsParsed m rq₁ method target protocol later v t.behind))

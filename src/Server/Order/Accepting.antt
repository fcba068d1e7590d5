-- ===== src/Server/Order/Accepting.antt =====
-- server.c: what follows `accept_request`.

use ant_http.Handle.{read_buf, buff_len}
use ant_http.Prelude.{
  Bytes, Option, none, some, [], ◌∷◌, refl, c_string, if-both, not, ◌||◌, ◌&&◌, str_eq,
}
use ant_http.Request.{
  accept_request, decode_request_header, put_field, client_proto_check, refuse, Request, Moment,
  Config,
}
use ant_http.Server.Accept.{
  Polled, Handshake, put_request, read_target, read_method, read_request_line, is_accepting,
  is_error, shake, accept_request_run,
}
use ant_http.Server.Order.{
  ends, accepts_again, then_header, needs, HasTexts, put-HasTexts, Goes, task_on-Goes,
}
use ant_http.Scheduler.{is_zero}
use ant_http.Utils.Trim.{strsep, trim}
use ant_http.Utils.Url.{url_decode}

put_request-HasTexts :
    (g : Config) (target protocol : Bytes) (rq : Request)
    → HasTexts g ("METHOD" ∷ "SERVER_WWW_ROOT" ∷ []) rq.fields
    → HasTexts g (needs decode_request_header) ((put_request target protocol rq).fields)
unfolding put_request put_field str_eq
put_request-HasTexts g target protocol rq h =
    let h₁ = put-HasTexts g _ _ "PROTOCOL" protocol refl h in
    let h₂ = put-HasTexts g _ _ "REQUEST_QUERY" target refl h₁ in
    let h₃ = put-HasTexts g _ _ "REQUEST_PATH" (url_decode (strsep b'?' target).0) refl h₂ in
    let (path, (query, (protocol', (method, (root, _))))) = h₃.there in
    record { valid = h₃.valid; served = h₃.served; there = (query, (method, (root, tt))) }

read_target-Goes :
    (g : Config) (m : Moment) (r : Bytes × Option Bytes) (rq : Request)
    → HasTexts g ("METHOD" ∷ "SERVER_WWW_ROOT" ∷ []) rq.fields
    → Goes g accept_request (read_target m r rq)
unfolding read_target
read_target-Goes g m (token, none) rq h = task_on-Goes _ _ _ _ _ _ (ends _) tt
read_target-Goes g m (token, some line) rq h =
    task_on-Goes _ _ _ _ _ _ then_header (put_request-HasTexts g _ _ rq h)

read_method-Goes :
    (g : Config) (m : Moment) (r : Bytes × Option Bytes) (rq : Request)
    → HasTexts g (needs accept_request) rq.fields
    → Goes g accept_request (read_method m r rq)
unfolding read_method put_field str_eq
read_method-Goes g m (token, none) rq h = task_on-Goes _ _ _ _ _ _ (ends _) tt
read_method-Goes g m (token, some line) rq h =
    read_target-Goes g m (strsep b' ' (trim line b' ')) (put_field "METHOD" (trim token b' ') rq)
      (put-HasTexts g _ rq.fields "METHOD" (trim token b' ') refl h)

shake-Goes :
    (g : Config) (m : Moment) (hs : Handshake) (rq : Request)
    → HasTexts g (needs accept_request) rq.fields
    → Goes g accept_request (shake m hs rq)
unfolding shake
shake-Goes g m Handshake.shaken rq h = task_on-Goes _ _ _ _ _ _ accepts_again h
shake-Goes g m Handshake.wants_more rq h = task_on-Goes _ _ _ _ _ _ accepts_again h
shake-Goes g m Handshake.failed rq h = task_on-Goes _ _ _ _ _ _ (ends _) tt

-- A connection waits in `accept_request`, goes on to its headers with the method and the target
-- put into the request, or ends.
pub accept_request-Goes :
    (g : Config) (m : Moment) (p : Polled) (hs : Handshake) (rq : Request)
    → HasTexts g (needs accept_request) rq.fields
    → Goes g accept_request (accept_request_run m p hs rq)
unfolding accept_request_run read_request_line
accept_request-Goes g m p hs rq h =
    let again = task_on-Goes g accept_request m 6 (some accept_request) rq accepts_again h in
    let bad =
      task_on-Goes g accept_request m 6 none (refuse 400 "Bad request" rq) (ends accept_request)
        tt in
    if-both (Goes g accept_request) (is_error p.sel) bad (
      if-both (Goes g accept_request) p.broken bad (
        if-both (Goes g accept_request) (is_zero p.sel || (not p.can_read && not p.can_write)) again
          (if-both (Goes g accept_request) (rq.conn.ssl && is_accepting rq.state)
            (shake-Goes g m hs rq h)
            (if-both (Goes g accept_request) (not p.can_read) again (
              read_method-Goes g m (strsep b' ' (c_string (read_buf buff_len rq.conn).0))
                record rq { conn = (read_buf buff_len rq.conn).1; state = client_proto_check }
                h)))))

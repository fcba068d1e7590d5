-- ===== src/Server/Order/Body.antt =====
-- decode.c: what follows `decode_request` and `decode_post_request`.
use ant_http.Decode.Body.{
  upgraded, content_length, is_websocket, is_method, decode_request_run, post_data_decode,
  find_line, to_parts, split_type, decode_multi_part_request, form_read, decode_body, described,
  has_body, decode_post_request_run,
}
use ant_http.Dictionary.{Dictionary, dvalue}
use ant_http.Handle.Stream.{stream}
use ant_http.Handle.{Conn}
use ant_http.Prelude.{
  suc, ℤ, Bytes, codes, Bool, true, false, str_eq, arith, Bool-cases, Option, none, some, [], ◌∷◌,
  length, inl, inr, refl,
}
use ant_http.Request.{
  decode_request, decode_post_request, decode_multi_part_request_data, resolve_request, Request,
  Moment, Config, field, refuse, client_rq_data_decode, put_field,
}
use ant_http.Server.Order.{
  ends, then_resource, then_parts, needs, HasTexts, put-HasTexts, rest-HasTexts, Goes, task_on-Goes,
  task_for-Goes, Leads, done-Leads, text_of-Leads,
}
use ant_http.Utils.Trim.{strsep, trim}

upgraded-fields :
    (g : Config) (digest : Bytes → Bytes) (key : Option Bytes) (ws : Bool) (rq : Request)
    → HasTexts g (needs decode_request) rq.fields
    → HasTexts g (needs resolve_request) ((upgraded digest key ws rq).fields)
unfolding upgraded put_field str_eq
upgraded-fields g digest none ws rq h = h
upgraded-fields g digest (some key) true rq h =
    let h₁ = put-HasTexts g _ rq.fields "__web_socket__" (codes "1") refl h in
    rest-HasTexts g _ _ _ h₁
upgraded-fields g digest (some key) false rq h = h

-- A request whose headers are read goes on to its resource, or is refused.
pub decode_request-Leads :
    (g : Config) (digest : Bytes → Bytes) (m : Moment) (rq : Request)
    → HasTexts g (needs decode_request) rq.fields
    → Leads g decode_request (decode_request_run digest m rq)
unfolding decode_request_run field
decode_request-Leads g digest m rq h =
    let (uri, ((method, e), rest)) = h.there in
    let ws = is_websocket (dvalue rq.header (codes "Upgrade")) in
    let key = dvalue rq.header (codes "Sec-WebSocket-Key") in
    let up = upgraded-fields g digest key ws rq h in
    text_of-Leads g decode_request _ method _ e (elim (Bool-cases (is_method method ("GET" ∷ []))) [
      | inl y ↦
          rw y
            (done-Leads _ _ _ (task_for-Goes g _ m _ (upgraded digest key ws rq) then_resource up))
      | inr n ↦
          rw n
            (elim (Bool-cases
              (is_method method ("HEAD" ∷ "OPTIONS" ∷ "DELETE" ∷ "POST" ∷ "PUT" ∷ "PATCH" ∷ []))) [
                | inl y ↦ rw y (done-Leads _ _ _ (task_for-Goes g _ m _ rq then_resource h))
                | inr n' ↦ rw n' (done-Leads _ _ _ (task_for-Goes g _ m none _ (ends _) tt))
              ])
    ])

parts-HasTexts :
    (g : Config) (d : Dictionary Bytes)
    → HasTexts g ("MULTI_PART_BOUNDARY" ∷ "METHOD" ∷ []) d
    → HasTexts g (needs decode_multi_part_request_data) d
parts-HasTexts g d h = record { valid = h.valid; served = h.served; there = (h.there.0, tt) }

to_parts-Goes :
    (g : Config) (m : Moment) (s : Bytes) (rq : Request)
    → HasTexts g (needs decode_post_request) rq.fields
    → Goes g decode_post_request (to_parts m s rq)
unfolding to_parts put_field str_eq
to_parts-Goes g m [] rq h = task_on-Goes _ _ _ _ _ _ (ends _) tt
to_parts-Goes g m (b ∷ s) rq h =
    let name = trim (b ∷ s) b' ' in
    let h₁ = put-HasTexts g _ rq.fields "MULTI_PART_BOUNDARY" name refl h in
    let only = parts-HasTexts g _ h₁ in
    elim (Bool-cases (find_line (suc (length (stream rq.conn.input))) name rq.conn).0) [
      | inl y ↦ rw y (task_on-Goes _ _ _ _ _ _ then_parts only)
      | inr n ↦ rw n (task_on-Goes _ _ _ _ _ _ (ends _) tt)
    ]

split_type-Goes :
    (g : Config) (m : Moment) (r : Bytes × Option Bytes) (rq : Request)
    → HasTexts g (needs decode_post_request) rq.fields
    → Goes g decode_post_request (split_type m r rq)
unfolding split_type
split_type-Goes g m (first, none) rq h = task_on-Goes _ _ _ _ _ _ (ends _) tt
split_type-Goes g m (first, some s) rq h = to_parts-Goes g m s _ h

form_read-Goes :
    (g : Config) (m : Moment) (clen : ℤ) (r : Option Bytes × Conn) (rq : Request)
    → Goes g decode_post_request (form_read m clen r rq)
unfolding form_read
form_read-Goes g m clen (some s, c) rq = task_on-Goes _ _ _ _ _ _ (ends _) tt
form_read-Goes g m clen (none, c) rq = ground (
  arith,
  task_on-Goes g decode_post_request m 4 none (record rq { conn = c }) (ends _) tt,
  task_for-Goes g decode_post_request m none
      (refuse 400 "Bad Request, missing content data" (record rq { conn = c })) (ends _) tt,
)

described-Goes :
    (g : Config) (m : Moment) (ctype : Option Bytes) (clen : ℤ) (rq : Request)
    → HasTexts g (needs decode_post_request) rq.fields
    → Goes g decode_post_request (described m ctype clen rq)
unfolding described decode_body decode_multi_part_request
described-Goes g m none clen rq h = task_for-Goes _ _ _ _ _ (ends _) tt
described-Goes g m (some ctype) clen rq h = ground (
  arith,
  task_for-Goes g decode_post_request m none
      (refuse 400 "Bad Request, missing content description" rq) (ends _) tt,
  form_read-Goes g m clen (post_data_decode clen rq.conn) rq,
  split_type-Goes g m (strsep b'=' ctype) rq h,
  task_on-Goes g decode_post_request m 4 none,
)

-- The body is read, or its parts follow.
pub decode_post_request-Goes :
    (g : Config) (m : Moment) (rq : Request)
    → HasTexts g (needs decode_post_request) rq.fields
    → Goes g decode_post_request (decode_post_request_run m rq)
unfolding decode_post_request_run
decode_post_request-Goes g m rq h = elim (Bool-cases (has_body (field rq "METHOD"))) [
  | inl y ↦ rw y (
      described-Goes g m (dvalue rq.header (codes "Content-Type"))
        (content_length (dvalue rq.header (codes "Content-Length")))
        (record rq { state = client_rq_data_decode }) h)
  | inr n ↦ rw n (task_for-Goes _ _ _ _ _ (ends _) tt)
]

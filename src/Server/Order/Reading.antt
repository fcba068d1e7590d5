-- ===== src/Server/Order/Reading.antt =====
-- decode.c: what follows `decode_request_header`.
use ant_http.Decode.Header.{
  HeaderState, HeaderEnd, with_headers, kept_cookie, to_method, route, body_too_large,
  after_headers, header_fuel, header_start, header_loop, decode_request_header_run,
}
use ant_http.Decode.Header.Ends.{header_loop-Ends, Ends}
use ant_http.Decode.Params.{decode_url_request}
use ant_http.Decode.Proxy.Overrun.{copy_part-cases}
use ant_http.Decode.Proxy.{empty_buff, proxy_pattern, put_proxy, to_proxy, check_proxy}
use ant_http.Decode.Rules.{Regex, group, apply_rules}
use ant_http.Dictionary.{Dictionary, dvalue}
use ant_http.Handle.{buff_len}
use ant_http.Prelude.{
  c_string, ℕ, ◌-◌, ◌*◌, ◌==◌, Bytes, codes, str_eq, Option-cases, String, Option, none, some, List,
  [], length, take, drop, get_or, if-both, ◌⊎◌, inl, inr, refl, ◌≡◌, arith,
}
use ant_http.Request.{
  decode_request_header, client_header_decode, Request, Moment, RequestTask, Outcome, done,
  null_text, overrun, no_fuel, ◌>>=◌, Config, Port, field, refuse, put_field,
}
use ant_http.Server.Order.{
  ends, reads_on, then_request, then_proxy, needs, HasTexts, put-HasTexts, rest-HasTexts, Goes,
  task_on-Goes, task_for-Goes, Leads, done-Leads,
}
use ant_http.Utils.Url.{url_decode}

-- A run that returns a task, or one of the two that the process does not survive.
abbrev pub Reads : Config → Outcome RequestTask → Type 0
Reads g o = (o ≡ null_text) ⊎ ((o ≡ overrun) ⊎ Leads g decode_request_header o)

done-Reads : (g : Config) (t : RequestTask) → Goes g decode_request_header t → Reads g (done t)
done-Reads g t h = inr (inr (done-Leads g _ t h))

-- What `check_proxy` gives: an overrun, nothing, or a task that goes on.
abbrev Proxied : Config → Outcome (Option RequestTask) → Type 0
Proxied g o =
    (o ≡ overrun)
    ⊎ ((o ≡ done none) ⊎ ((t : RequestTask) × (o ≡ done (some t)) × Goes g decode_request_header t))

put_proxy-Proxied :
    (g : Config) (m : Moment) (path : Bytes) (ms : List (ℕ × ℕ)) (query : Bytes) (rq : Request)
    → HasTexts g [] rq.fields
    → Proxied g (to_proxy (put_proxy path ms query rq) m)
unfolding put_proxy to_proxy put_field str_eq
put_proxy-Proxied g m path ms query rq h = elim (copy_part-cases (group path ms 2) empty_buff) [
  | inl (big, e) ↦ rw e (inl refl)
  | inr (small, (host, e, n)) ↦ elim (copy_part-cases (group path ms 3) host) [
    | inl (big, f) ↦ rw (e, f) (inl refl)
    | inr (small', (port, f, n')) ↦
        let rq₁ = put_field "PROXY_HOST" (c_string host) rq in
        let rq₂ = put_field "PROXY_PORT" (c_string port) rq₁ in
        let path' = drop ((get_or ms 4 (0, 0)).0) path in
        let rq₃ = put_field "PROXY_PATH" path' rq₂ in
        let h₁ = put-HasTexts g _ rq.fields "PROXY_HOST" (c_string host) refl h in
        let h₂ = put-HasTexts g _ rq₁.fields "PROXY_PORT" (c_string port) refl h₁ in
        let h₃ = put-HasTexts g _ rq₂.fields "PROXY_PATH" path' refl h₂ in
        let h₄ = put-HasTexts g _ rq₃.fields "PROXY_QUERY" query refl h₃ in
        rw (e, f)
          (inr (
            inr
              (_, refl, task_on-Goes g _ m 6 _ (put_field "PROXY_QUERY" query rq₃) then_proxy h₄)))
  ]
]

no_texts :
    (g : Config) (keys : List String) (d : Dictionary Bytes) → HasTexts g keys d → HasTexts g [] d
no_texts g keys d h = record { valid = h.valid; served = h.served; there = tt }

check_proxy-Proxied :
    (g : Config) (regex : Regex) (m : Moment) (rq : Request) (path query : Bytes)
    → HasTexts g [] rq.fields
    → Proxied g (check_proxy regex m rq path query)
unfolding check_proxy
check_proxy-Proxied g regex m rq path query h = elim (Option-cases (regex proxy_pattern path)) [
  | inl e ↦ rw (check_proxy, e) (inr (inl refl))
  | inr (ms, e) ↦
      rw (check_proxy, e)
        (if-both (Proxied g) (length (group path ms 1) == 5)
          (inr (
            inr (
              _,
              refl,
              task_for-Goes g _ m none (refuse 503 "Service Unavailable" rq) (ends _) tt,
            )))
          (put_proxy-Proxied g m path ms query rq h))
]

to_method-Goes :
    (g : Config) (m : Moment) (uri query : Bytes) (rq : Request)
    → HasTexts g (needs decode_request_header) rq.fields
    → Goes g decode_request_header (to_method m uri query rq none)
unfolding to_method put_field str_eq
to_method-Goes g m uri query rq h =
    let rq₁ = put_field "REQUEST_URI" (url_decode uri) rq in
    let rq₂ = record rq₁ { params = decode_url_request (some query) rq₁.params } in
    let h₁ =
      put-HasTexts g _ rq.fields "REQUEST_URI" (url_decode uri) refl (rest-HasTexts g _ _ _ h) in
    let h₂ = put-HasTexts g _ rq₁.fields "REQUEST_QUERY" query refl h₁ in
    task_on-Goes g _ m _ _ (put_field "REQUEST_QUERY" query rq₂) then_request
      (rest-HasTexts g _ _ _ h₂)

route-Proxied :
    (g : Config) (m : Moment) (uri query : Bytes) (rq : Request) (o : Outcome (Option RequestTask))
    → HasTexts g (needs decode_request_header) rq.fields
    → Proxied g o
    → Reads g (o >>= (λ proxy. done (to_method m uri query rq proxy)))
unfolding to_method
route-Proxied g m uri query rq o h (inl e) = rw e (inr (inl refl))
route-Proxied g m uri query rq o h (inr (inl e)) =
    rw e (done-Reads g _ (to_method-Goes g m uri query rq h))
route-Proxied g m uri query rq o h (inr (inr (t, e, k))) = rw e (done-Reads g t k)

kept_cookie-fields :
    (o : Option (Dictionary Bytes)) (rq : Request) → (kept_cookie o rq).fields ≡ rq.fields
unfolding kept_cookie
kept_cookie-fields none rq = refl
kept_cookie-fields (some d) rq = refl

route-Reads :
    (g : Config) (regex : Regex) (m : Moment) (port : Option Port) (url : Option Bytes)
    (h : HeaderState) (rq : Request)
    → HasTexts g (needs decode_request_header) rq.fields
    → Reads g (route regex m port url h rq)
unfolding route
route-Reads g regex m none url h rq t = inl refl
route-Reads g regex m (some port) none h rq t = inl refl
route-Reads g regex m (some port) (some url) h rq t =
    let (uri, query) = apply_rules regex port.rules h.host (take (2 * buff_len - 1) url) in
    let rq₁ = kept_cookie h.cookie rq in
    let t₁ : HasTexts g (needs decode_request_header) rq₁.fields =
      rw (kept_cookie-fields h.cookie rq) t in
    route-Proxied g m uri query rq₁ _ t₁
      (check_proxy-Proxied g regex m rq₁ uri query (no_texts g _ _ t₁))

after_headers-Reads :
    (g : Config) (regex : Regex) (m : Moment) (url : Option Bytes) (port : Option Port)
    (rq : Request) (h : HeaderState) (o : Outcome HeaderEnd)
    → HasTexts g (needs decode_request_header) rq.fields
    → Ends h o
    → Reads g (o >>= after_headers regex g m url port rq)
unfolding after_headers with_headers Ends
after_headers-Reads g regex m url port rq h null_text t e = inl refl
after_headers-Reads g regex m url port rq h overrun t e = absurd e
after_headers-Reads g regex m url port rq h no_fuel t e = absurd e
after_headers-Reads g regex m url port rq h (done (HeaderEnd.too_large k)) t e =
    done-Reads g _ (task_for-Goes g _ m none _ (ends _) tt)
after_headers-Reads g regex m url port rq h (done (HeaderEnd.starved k)) t e =
    done-Reads g _ (task_on-Goes g _ m _ _ _ reads_on t)
after_headers-Reads g regex m url port rq h (done (HeaderEnd.complete k)) t e =
    if-both (Reads g) (body_too_large g (dvalue k.header (codes "Content-Length")))
      (done-Reads g _ (task_for-Goes g _ m none _ (ends _) tt))
      (route-Reads g regex m port url k (with_headers k rq) t)

-- A run of `decode_request_header` waits for more, goes on to the method or to another server, or
-- refuses the request, unless the process does not survive it; it is never out of rounds.
pub decode_request_header-Reads :
    (regex : Regex) (g : Config) (m : Moment) (rq : Request)
    → HasTexts g (needs decode_request_header) rq.fields
    → Reads g (decode_request_header_run regex g m rq)
unfolding decode_request_header_run field
decode_request_header-Reads regex g m rq t =
    let (key, port, e, e') = t.served in
    rw e (
      after_headers-Reads g regex m _ (dvalue g.ports key)
        (record rq { state = client_header_decode }) (header_start rq)
        (header_loop header_fuel (header_start rq)) t
        (header_loop-Ends header_fuel (header_start rq) (unfold header_start in omega arith)
          (unfold header_start in omega arith)))

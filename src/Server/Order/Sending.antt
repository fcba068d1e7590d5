-- ===== src/Server/Order/Sending.antt =====
-- server.c: what follows `serve_file`, `proxify` and `proxy_monitor`.
use ant_http.Handle.{Conn}
use ant_http.Prelude.{
  ℤ, Bytes, Bool, true, false, Option, none, some, List, [], Bool-cases, inl, inr, ◌≡◌, subst,
}
use ant_http.Request.{
  serve_file, proxify, proxy_monitor, client_resolve_request, client_proxy_monitor, Request, Moment,
  RequestTask, Config, done, field, task_for,
}
use ant_http.Scheduler.Create.{antd_create_task, antd_task_bind_event}
use ant_http.Server.Files.{FileWorld, serve_file_run}
use ant_http.Server.Order.{
  ends, then_monitor, watches_on, needs, HasTexts, Goes, task_for-Goes, Leads, done-Leads,
  text_of-Leads,
}
use ant_http.Server.Proxify.{
  send_each, forwarded, connected, proxied, addressed, proxify_run, Peek, RelayEnd, watched,
  monitored, proxy_monitor_on, proxy_monitor_run,
}
use ant_http.Utils.Decimal.{atoi}

-- A file is sent, or an error in its place, and the request ends.
pub serve_file-Leads :
    (g : Config) (w : FileWorld) (m : Moment) (rq : Request)
    → HasTexts g (needs serve_file) rq.fields
    → Leads g serve_file (serve_file_run w m rq)
unfolding serve_file_run field
serve_file-Leads g w m rq h =
    let ((mime, e), ((path, e'), _)) = h.there in
    text_of-Leads g _ _ path _ e'
      (text_of-Leads g _ _ mime _ e (done-Leads _ _ _ (task_for-Goes g _ m none _ (ends _) tt)))

proxy-HasTexts :
    (g : Config) (rq : Request) → HasTexts g (needs proxify) rq.fields → HasTexts g [] rq.fields
proxy-HasTexts g rq h = record { valid = h.valid; served = h.served; there = tt }

connected-Goes :
    (g : Config) (m : Moment) (sock : ℤ) (rq : Request) (r : Bool × Conn)
    → HasTexts g [] rq.fields
    → Goes g proxify (connected m sock rq r)
unfolding connected task_for antd_create_task antd_task_bind_event
connected-Goes g m sock rq (false, p) h = task_for-Goes g _ m none _ (ends _) tt
connected-Goes g m sock rq (true, p) h = record { follows = then_monitor; ready = h }

proxied-Goes :
    (g : Config) (m : Moment) (path query : Bytes) (rq : Request) (o : Option (ℤ × Conn))
    → HasTexts g [] rq.fields
    → Goes g proxify (proxied m path query rq o)
unfolding proxied
proxied-Goes g m path query rq none h = task_for-Goes g _ m none _ (ends _) tt
proxied-Goes g m path query rq (some (sock, p)) h =
    connected-Goes g m sock rq (send_each (forwarded path query rq) p) h

addressed-Goes :
    (g : Config) (connect : Bytes → ℤ → Option (ℤ × Conn)) (m : Moment) (port : ℤ)
    (path query : Bytes) (rq : Request) (o : Option Bytes)
    → HasTexts g [] rq.fields
    → Goes g proxify (addressed m connect port path query rq o)
unfolding addressed
addressed-Goes g connect m port path query rq none h = task_for-Goes g _ m none _ (ends _) tt
addressed-Goes g connect m port path query rq (some ip) h =
    proxied-Goes g m path query rq (connect ip port) h

-- The request is sent on to another server, which is watched from then on, or it is refused.
pub proxify-Leads :
    (g : Config) (ip_from_hostname : Bytes → Option Bytes) (connect : Bytes → ℤ → Option (ℤ × Conn))
    (m : Moment) (rq : Request)
    → HasTexts g (needs proxify) rq.fields
    → Leads g proxify (proxify_run ip_from_hostname connect m rq)
unfolding proxify_run field
proxify-Leads g ip_from_hostname connect m rq h =
    let (query, (path, ((port, e), ((host, e'), _)))) = h.there in
    let rq₁ = record rq { state = client_resolve_request } in
    text_of-Leads g _ _ host _ e' (
      text_of-Leads g _ _ port _ e (
        done-Leads _ _ _
          (addressed-Goes g connect m (atoi port) _ _ rq₁ _ (proxy-HasTexts g rq h))))

watched-Goes :
    (g : Config) (m : Moment) (sock : ℤ) (k : Peek) (rq : Request)
    → HasTexts g [] rq.fields
    → Goes g proxy_monitor (watched m sock k rq)
unfolding watched task_for antd_create_task antd_task_bind_event
watched-Goes g m sock k rq h = elim (Bool-cases k.can_read) [
  | inl y ↦ rw y record { follows = watches_on; ready = h }
  | inr n ↦ rw n record { follows = watches_on; ready = h }
]

done_task : (s t : RequestTask) → done s ≡ done t → s ≡ t
done_task s t e = cc

done-Goes :
    (g : Config) (s t : RequestTask)
    → Goes g proxy_monitor s
    → done s ≡ done t
    → Goes g proxy_monitor t
done-Goes g s t h e = subst (Goes g proxy_monitor) (done_task s t e) h

monitored-Goes :
    (g : Config) (m : Moment) (sock : ℤ) (rq : Request) (fin : RelayEnd) (t : RequestTask)
    → HasTexts g [] rq.fields
    → monitored m sock rq fin ≡ done t
    → Goes g proxy_monitor t
unfolding monitored
monitored-Goes g m sock rq RelayEnd.gone t h e =
    done-Goes g _ t (task_for-Goes g _ m none rq (ends _) tt) e
monitored-Goes g m sock rq RelayEnd.poll_failed t h e =
    done-Goes g _ t (task_for-Goes g _ m none rq (ends _) tt) e
monitored-Goes g m sock rq (RelayEnd.quiet k) t h e =
    done-Goes g _ t (watched-Goes g m sock k rq h) e
monitored-Goes g m sock rq RelayEnd.relaying t h e = absurd cc

proxy_monitor_on-Goes :
    (g : Config) (m : Moment) (peeks : List Peek) (rq : Request) (o : Option (ℤ × Conn))
    (t : RequestTask)
    → HasTexts g [] rq.fields
    → proxy_monitor_on m peeks rq o ≡ done t
    → Goes g proxy_monitor t
unfolding proxy_monitor_on
proxy_monitor_on-Goes g m peeks rq none t h e = absurd cc
proxy_monitor_on-Goes g m peeks rq (some (sock, server)) t h e = monitored-Goes g m sock _ _ t h e

-- The two connections are watched again, or the request ends.
pub proxy_monitor-Goes :
    (g : Config) (m : Moment) (peeks : List Peek) (rq : Request) (t : RequestTask)
    → HasTexts g (needs proxy_monitor) rq.fields
    → proxy_monitor_run m peeks rq ≡ done t
    → Goes g proxy_monitor t
unfolding proxy_monitor_run
proxy_monitor-Goes g m peeks rq t h e =
    proxy_monitor_on-Goes g m peeks (record rq { state = client_proxy_monitor }) rq.proxy t h e

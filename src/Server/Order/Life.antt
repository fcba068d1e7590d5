-- ===== src/Server/Order/Life.antt =====
-- scheduler.c with server.c and decode.c: the tasks of one request, each the result of a run of the
-- handler of the one before it.
use ant_http.Decode.Body.{decode_request_run, decode_post_request_run}
use ant_http.Decode.Header.{decode_request_header_run}
use ant_http.Decode.Parts.{Uploads, decode_multi_part_request_data_run}
use ant_http.Prelude.{
  ℤ, List, ℕ, ◌<◌, ◌⊎◌, refl, Bytes, Option, none, some, inl, inr, ◌≡◌, sym, ap, subst, ◌∙◌, arith,
}
use ant_http.Request.{
  serve_file, proxify, proxy_monitor, Handler, accept_request, decode_request_header,
  decode_request, resolve_request, decode_post_request, decode_multi_part_request_data, Request,
  Moment, RequestTask, Config, Outcome, done,
}
use ant_http.Server.Accept.{Polled, Handshake, accept_request_run}
use ant_http.Server.Order.{Next, rank, Next-rank, needs, HasTexts, IsReady, Goes, Leads}
use ant_http.Server.Order.Accepting.{accept_request-Goes}
use ant_http.Server.Order.Body.{decode_request-Leads, decode_post_request-Goes}
use ant_http.Server.Order.Parts.{PartLeads, decode_multi_part-Leads}
use ant_http.Server.Order.Reading.{Reads, decode_request_header-Reads}
use ant_http.Server.Order.Routing.{resolve_request-Leads}
use ant_http.Handle.{Conn}
use ant_http.Server.Files.{FileWorld, serve_file_run}
use ant_http.Server.Proxify.{Peek, proxify_run, proxy_monitor_run}
use ant_http.Server.Order.Sending.{serve_file-Leads, proxify-Leads, proxy_monitor-Goes}
use ant_http.Server.Resolve.{World, resolve_request_run}

-- How far a task is; one without a handle is at the end.
unfoldable pub progress : Option Handler → ℕ
unfolding rank
progress none = 8
progress (some h) = rank h

rank_end : (h : Handler) → rank h < 8
unfolding rank
rank_end accept_request = omega arith
rank_end decode_request_header = omega arith
rank_end decode_request = omega arith
rank_end decode_post_request = omega arith
rank_end decode_multi_part_request_data = omega arith
rank_end resolve_request = omega arith
rank_end Handler.serve_file = omega arith
rank_end Handler.proxify = omega arith
rank_end Handler.proxy_monitor = omega arith
rank_end Handler.finish_request = omega arith
rank_end (Handler.plugin name) = omega arith

Next-progress : (h : Handler) (o : Option Handler) → Next h o → (some h ≡ o) ⊎ (rank h < progress o)
unfolding progress
Next-progress h none n = inr (rank_end h)
Next-progress h (some h') n = elim (Next-rank n) [ inl lt ↦ inr lt | inr e ↦ inl (ap some e) ]

-- One more step of a task that stayed where it was or moved on.
moves_on :
    (a b c : Option Handler)
    → (a ≡ b) ⊎ (progress a < progress b)
    → (b ≡ c) ⊎ (progress b < progress c)
    → (a ≡ c) ⊎ (progress a < progress c)
moves_on a b c (inl e) (inl f) = inl (e ∙ f)
moves_on a b c (inl e) (inr g) = inr (omega (arith, ap progress e))
moves_on a b c (inr g) (inl f) = inr (omega (arith, ap progress f))
moves_on a b c (inr g) (inr g') = inr (omega arith)

-- A task that comes back to its handler has not moved on from it.
no_way_back :
    (a b c : Option Handler)
    → (a ≡ b) ⊎ (progress a < progress b)
    → (b ≡ c) ⊎ (progress b < progress c)
    → a ≡ c
    → b ≡ a
no_way_back a b c (inl e) f back = sym e
no_way_back a b c (inr g) (inl f) back = absurd (omega (arith, ap progress f, ap progress back))
no_way_back a b c (inr g) (inr g') back = absurd (omega (arith, ap progress back))

done_inj : (s t : RequestTask) → done s ≡ done t → s ≡ t
done_inj s t e = cc

done_task : (s t : RequestTask × Option (Bytes × Bytes)) → done s ≡ done t → s.0 ≡ t.0
done_task s t e = cc

module _ (w : World) (g : Config) (digest : Bytes → Bytes) (files : FileWorld)
    (ip_from_hostname : Bytes → Option Bytes) (connect : Bytes → ℤ → Option (ℤ × Conn)) where
  -- A run of a handler that returns a task.
  pub data Runs : Handler → Request → RequestTask → Type 0 where
    accepting :
        (m : Moment) (p : Polled) (hs : Handshake) (rq : Request)
        → Runs accept_request rq (accept_request_run m p hs rq)
    reading :
        (m : Moment) (rq : Request) (t : RequestTask)
        → decode_request_header_run w.regex g m rq ≡ done t
        → Runs decode_request_header rq t
    deciding :
        (m : Moment) (rq : Request) (t : RequestTask)
        → decode_request_run digest m rq ≡ done t
        → Runs decode_request rq t
    resolving :
        (m : Moment) (rq : Request) (t : RequestTask)
        → resolve_request_run w g m rq ≡ done t
        → Runs resolve_request rq t
    taking_body :
        (m : Moment) (rq : Request) → Runs decode_post_request rq (decode_post_request_run m rq)
    sending :
        (m : Moment) (rq : Request) (t : RequestTask)
        → serve_file_run files m rq ≡ done t
        → Runs serve_file rq t
    forwarding :
        (m : Moment) (rq : Request) (t : RequestTask)
        → proxify_run ip_from_hostname connect m rq ≡ done t
        → Runs proxify rq t
    taking_part :
        (u : Uploads) (m : Moment) (rq : Request) (t : RequestTask) (f : Option (Bytes × Bytes))
        → decode_multi_part_request_data_run u m rq ≡ done (t, f)
        → Runs decode_multi_part_request_data rq t
    monitoring :
        (m : Moment) (peeks : List Peek) (rq : Request) (t : RequestTask)
        → proxy_monitor_run m peeks rq ≡ done t
        → Runs proxy_monitor rq t

  pub data Life : RequestTask → RequestTask → Type 0 where
    here : (t : RequestTask) → Life t t
    after :
        (s t t' : RequestTask) (h : Handler)
        → Life s t
        → t.handle ≡ some h
        → Runs h t.data_of t'
        → Life s t'

  Leads-Goes :
      (h : Handler) (o : Outcome RequestTask) (t : RequestTask)
      → Leads g h o
      → o ≡ done t
      → Goes g h t
  Leads-Goes h o t l e = subst (Goes g h) (done_inj _ _ (sym l.run ∙ e)) l.goes

  Reads-Goes :
      (o : Outcome RequestTask) (t : RequestTask)
      → Reads g o
      → o ≡ done t
      → Goes g decode_request_header t
  Reads-Goes o t (inl n) e = absurd cc
  Reads-Goes o t (inr (inl n)) e = absurd cc
  Reads-Goes o t (inr (inr l)) e = Leads-Goes decode_request_header o t l e

  Runs-Goes :
      (h : Handler) (rq : Request) (t : RequestTask)
      → Runs h rq t
      → HasTexts g (needs h) rq.fields
      → Goes g h t
  Runs-Goes _ _ _ (accepting m p hs rq) x = accept_request-Goes g m p hs rq x
  Runs-Goes _ _ _ (reading m rq t e) x =
      Reads-Goes _ t (decode_request_header-Reads w.regex g m rq x) e
  Runs-Goes _ _ _ (deciding m rq t e) x = Leads-Goes _ _ t (decode_request-Leads g digest m rq x) e
  Runs-Goes _ _ _ (resolving m rq t e) x = Leads-Goes _ _ t (resolve_request-Leads w g m rq x) e
  Runs-Goes _ _ _ (taking_body m rq) x = decode_post_request-Goes g m rq x
  Runs-Goes _ _ _ (sending m rq t e) x = Leads-Goes _ _ t (serve_file-Leads g files m rq x) e
  Runs-Goes _ _ _ (forwarding m rq t e) x =
      Leads-Goes _ _ t (proxify-Leads g ip_from_hostname connect m rq x) e
  Runs-Goes _ _ _ (taking_part u m rq t f e) x =
      let l = decode_multi_part-Leads g u m rq x in
      subst (Goes g decode_multi_part_request_data) (done_task _ _ (sym l.run ∙ e)) l.goes
  Runs-Goes _ _ _ (monitoring m peeks rq t e) x = proxy_monitor-Goes g m peeks rq t x e

  -- Every task of a request finds the texts that its handler reads, and the port's configuration,
  -- if the first task does.
  pub Life-IsReady :
      (s t : RequestTask)
      → Life s t
      → IsReady g s.handle s.data_of.fields
      → IsReady g t.handle t.data_of.fields
  Life-IsReady s _ (here _) r = r
  Life-IsReady s t' (after _ t _ h l e run) r =
      (Runs-Goes h t.data_of t' run
        (subst (λ k. IsReady g k t.data_of.fields) e (Life-IsReady s t l r))).ready

  Life-moves :
      (s t : RequestTask)
      → Life s t
      → IsReady g s.handle s.data_of.fields
      → (s.handle ≡ t.handle) ⊎ (progress s.handle < progress t.handle)
  unfolding progress
  Life-moves s _ (here _) r = inl refl
  Life-moves s t' (after _ t _ h l e run) r =
      let ready = subst (λ k. IsReady g k t.data_of.fields) e (Life-IsReady s t l r) in
      let step = Next-progress h t'.handle ((Runs-Goes h t.data_of t' run ready).follows) in
      moves_on s.handle t.handle t'.handle (Life-moves s t l r)
        (subst (λ k. (k ≡ t'.handle) ⊎ (progress k < progress t'.handle)) (sym e) step)

  -- A request never comes back to a handler that it has left, if its first task finds its texts:
  -- where a later task has the handler of an earlier one, so has every task between them.
  pub Life-progress :
      (s t u : RequestTask)
      → Life s t
      → Life t u
      → IsReady g s.handle s.data_of.fields
      → s.handle ≡ u.handle
      → t.handle ≡ s.handle
  Life-progress s t u l l' r back =
      no_way_back s.handle t.handle u.handle (Life-moves s t l r)
        (Life-moves t u l' (Life-IsReady s t l r)) back

  -- What a run of the handler comes to. `decode_request_header` alone may end in a call on NULL or
  -- behind a buffer, never out of rounds. Nothing is said of `proxy_monitor`, `finish_request` and
  -- plugins.
  unfoldable pub Returns : Moment → Request → Option Handler → Type 0
  Returns m rq (some decode_request_header) = Reads g (decode_request_header_run w.regex g m rq)
  Returns m rq (some decode_request) = Leads g decode_request (decode_request_run digest m rq)
  Returns m rq (some resolve_request) = Leads g resolve_request (resolve_request_run w g m rq)
  Returns m rq (some serve_file) = Leads g serve_file (serve_file_run files m rq)
  Returns m rq (some proxify) = Leads g proxify (proxify_run ip_from_hostname connect m rq)
  Returns m rq (some decode_multi_part_request_data) =
      (u : Uploads) → PartLeads g (decode_multi_part_request_data_run u m rq)
  Returns m rq (some accept_request) =
      (p : Polled) (hs : Handshake) → Goes g accept_request (accept_request_run m p hs rq)
  Returns m rq (some decode_post_request) =
      Goes g decode_post_request (decode_post_request_run m rq)
  Returns m rq _ = Unit

-- ===== src/Server/Proxify/Rounds.antt =====
-- server.c: the rounds of `proxy_monitor`.
use ant_http.Handle.{Input, Conn, buff_len, recv_once, antd_recv_upto, antd_send}
use ant_http.Handle.Stream.{stream, stream-chunk, stream-no_input, stream-put_back}
use ant_http.Prelude.{
  ℕ, zero, suc, ◌+◌, ◌<◌, ◌==◌, ==_iff, ltb_ℤ, ℤ, pos, Bool, true, false, ◌&&◌, Option, none, some,
  List, [], ◌∷◌, ◌++◌, length, length-append, take, drop, take-append-drop, append_assoc,
  Bool-cases, if◌then◌else◌, inl, inr, ◌≡◌, ◌≢◌, refl, sym, ap, ◌∙◌, arith,
}
use ant_http.Request.{Request, Moment, RequestTask, done}
use ant_http.Server.Proxify.{
  Peek, Relayed, RelayEnd, relay_from, from_server, next_peek, after_server, after_client, relay,
  monitored, proxy_monitor_on, proxy_monitor_run,
}

recv_once-stream :
    (ssl : Bool) (len : ℕ) (q : List Input)
    → let (n, got, q') = recv_once ssl len q in stream q ≡ got ++ stream q'
unfolding recv_once
recv_once-stream ssl len [] = unfold stream in refl
recv_once-stream ssl len (Input.no_input f ∷ q) = stream-no_input f q
recv_once-stream ssl len (Input.chunk c cs ∷ q) =
    stream-chunk c cs q
    ∙ ap (λ s. s ++ stream q) (sym (take-append-drop len (c ∷ cs)))
    ∙ append_assoc (take len (c ∷ cs)) (drop len (c ∷ cs)) (stream q)
    ∙ ap (λ s. take len (c ∷ cs) ++ s) (sym (stream-put_back (drop len (c ∷ cs)) q))

-- One direction: the bytes that it counts are gone from the one side, and the input of the other
-- side is as it was.
unfoldable Moves : Conn → Conn → Option ℕ × Conn × Conn → Type 0
Moves from to (none, from', to') = Unit
Moves from to (some n, from', to') =
    (length (stream from.input) ≡ n + length (stream from'.input)) × (to'.input ≡ to.input)

waits :
    (b : Bool) (from to from' : Conn)
    → length (stream from.input) ≡ length (stream from'.input)
    → Moves from to (if b then some 0 else none, from', to)
unfolding Moves
waits true from to from' e = (omega arith, refl)
waits false from to from' e = tt

writes :
    (b : Bool) (n : ℕ) (from from' to to' : Conn)
    → length (stream from.input) ≡ n + length (stream from'.input)
    → to'.input ≡ to.input
    → Moves from to (if b then some n else none, from', to')
unfolding Moves
writes true n from from' to to' e e' = (e, e')
writes false n from from' to to' e e' = tt

relay_from-Moves : (may_wait : Bool) (from to : Conn) → Moves from to (relay_from may_wait from to)
unfolding relay_from antd_recv_upto antd_send
relay_from-Moves may_wait from to =
    let (n, got, q) = recv_once from.ssl buff_len from.input in
    let count =
      ap length (recv_once-stream from.ssl buff_len from.input) ∙ length-append got (stream q) in
    elim (Bool-cases (ltb_ℤ n (pos 0))) [
      | inl y ↦ rw y (unfold Moves in tt)
      | inr up ↦ rw up (elim (Bool-cases (length got == 0)) [
        | inl y ↦
            rw y (waits may_wait from to _ (omega (arith, count, (==_iff (length got) 0).0 y)))
        | inr full ↦ rw full (writes _ (length got) from _ to _ count refl)
      ])
    ]

from_server-Moves :
    (k : Peek) (server client : Conn) → Moves server client (from_server k server client)
unfolding from_server
from_server-Moves k server client = elim (Bool-cases (ltb_ℤ (pos 0) k.sel && k.can_read)) [
  | inl y ↦ rw y (relay_from-Moves false server client)
  | inr quiet ↦ rw quiet (unfold Moves in (omega arith, refl))
]

moved :
    (from to : Conn) (r : Option ℕ × Conn × Conn) (n : ℕ)
    → Moves from to r
    → r.0 ≡ some n
    → (length (stream from.input) ≡ n + length (stream r.1.input)) × (r.2.input ≡ to.input)
unfolding Moves
moved from to (none, from', to') n m e = absurd cc
moved from to (some k, from', to') n (count, kept) e = (cc, kept)

round_ends :
    (k : Peek) (o o' : Option ℕ) (first now later : Relayed)
    → ((n n' : ℕ) → o ≡ some n → o' ≡ some n' → 0 < n + n' → later.fin ≢ RelayEnd.relaying)
    → (after_client k o o' first now later).fin ≢ RelayEnd.relaying
unfolding after_client after_server
round_ends k none o' first now later h = λ e. cc
round_ends k (some n) none first now later h = elim (Bool-cases (ltb_ℤ k.sel (pos 0))) [
  | inl y ↦ rw y (λ e. cc)
  | inr up ↦ rw up (λ e. cc)
]
round_ends k (some n) (some n') first now later h = elim (Bool-cases (ltb_ℤ k.sel (pos 0))) [
  | inl y ↦ rw y (λ e. cc)
  | inr up ↦ rw up (elim (Bool-cases (ltb_ℤ (pos 0) k.sel && k.hung_up)) [
    | inl y ↦ rw y (λ e. cc)
    | inr there ↦ rw there (elim (Bool-cases (n + n' == 0)) [
      | inl y ↦ rw y (λ e. cc)
      | inr some_moved ↦ rw some_moved (h n n' refl refl (ground arith))
    ])
  ])
]

-- The bytes that are still to come on both sides, of which each round but the last takes some.
pub relay_ends :
    (fuel : ℕ) (ks : List Peek) (client server : Conn)
    → length (stream client.input) + length (stream server.input) < fuel
    → (relay fuel ks client server).fin ≢ RelayEnd.relaying
unfolding relay
relay_ends zero ks client server h = absurd (omega arith)
relay_ends (suc fuel) ks client server h =
    let (o, client₁, server₁) = relay_from true client server in
    let (k, ks') = next_peek ks in
    let (o', server₂, client₂) = from_server k server₁ client₁ in
    round_ends k o o' _ _ (relay fuel ks' client₂ server₂) (λ n n' e e' some_moved.
      let (left, same) =
        moved client server (relay_from true client server) n (relay_from-Moves true client server)
          e in
      let (left', same') =
        moved server₁ client₁ (from_server k server₁ client₁) n'
          (from_server-Moves k server₁ client₁) e' in
      relay_ends fuel ks' client₂ server₂ (
        omega (
          arith,
          h,
          left,
          left',
          some_moved,
          ap (λ q. length (stream q)) same,
          ap (λ q. length (stream q)) same',
        )))

monitored_ends :
    (m : Moment) (sock : ℤ) (rq : Request) (fin : RelayEnd)
    → fin ≢ RelayEnd.relaying
    → (t : RequestTask) × (monitored m sock rq fin ≡ done t)
unfolding monitored
monitored_ends m sock rq RelayEnd.gone h = (_, refl)
monitored_ends m sock rq RelayEnd.poll_failed h = (_, refl)
monitored_ends m sock rq (RelayEnd.quiet k) h = (_, refl)
monitored_ends m sock rq RelayEnd.relaying h = absurd (h refl)

-- A run of `proxy_monitor` on a request that has a server returns a task: each round of its loop but
-- the last takes a byte from one of the two connections.
pub proxy_monitor_run-done :
    (m : Moment) (ks : List Peek) (rq : Request) (sock : ℤ) (server : Conn)
    → rq.proxy ≡ some (sock, server)
    → (t : RequestTask) × (proxy_monitor_run m ks rq ≡ done t)
unfolding proxy_monitor_run proxy_monitor_on
proxy_monitor_run-done m ks rq sock server e = rw e (
    monitored_ends m sock _ _ (
      relay_ends (suc (length (stream rq.conn.input) + length (stream server.input))) ks rq.conn
        server (omega arith)))

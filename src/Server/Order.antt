-- ===== src/Server/Order.antt =====
-- server.c and decode.c: which handler follows which, and the texts that each one finds in the
-- request. `none` stands for a task without a handle, which ends the request or runs its callback.
pub mod Accepting
pub mod Reading
pub mod Routing
pub mod Sending
pub mod Body
pub mod Parts
pub mod Life
use ant_http.Dictionary.{Dictionary, dput, dvalue, value_of}
use ant_http.Dictionary.Laws.{IsValid, dlookup-dput, dput-IsValid}
use ant_http.Prelude.{
  ℕ, ◌<◌, Bytes, String, codes, str_eq, str_eq_refl, false, if◌then◌else◌, Bool-cases, Option, none,
  some, List, [], ◌∷◌, All, All-imp, ◌⊎◌, inl, inr, ◌≡◌, refl, arith,
}
use ant_http.Request.{
  Handler, accept_request, decode_request_header, decode_request, decode_post_request,
  decode_multi_part_request_data, resolve_request, serve_file, proxify, proxy_monitor,
  finish_request, plugin, Request, Moment, RequestTask, Config, Port, task_for, task_on, Outcome,
  done, text_of, ◌>>=◌,
}
use ant_http.Scheduler.Create.{antd_create_task, antd_task_bind_event}

pub data Next : Handler → Option Handler → Type 0 where
  ends : (h : Handler) → Next h none
  accepts_again : Next accept_request (some accept_request)
  then_header : Next accept_request (some decode_request_header)
  reads_on : Next decode_request_header (some decode_request_header)
  then_request : Next decode_request_header (some decode_request)
  then_proxy : Next decode_request_header (some proxify)
  then_resource : Next decode_request (some resolve_request)
  then_file : Next resolve_request (some serve_file)
  then_plugin : (name : Bytes) → Next resolve_request (some (plugin name))
  then_body : Next resolve_request (some decode_post_request)
  then_parts : Next decode_post_request (some decode_multi_part_request_data)
  more_parts : Next decode_multi_part_request_data (some decode_multi_part_request_data)
  then_monitor : Next proxify (some proxy_monitor)
  watches_on : Next proxy_monitor (some proxy_monitor)

-- How far a request is.
unfoldable pub rank : Handler → ℕ
rank accept_request = 0
rank decode_request_header = 1
rank decode_request = 2
rank resolve_request = 3
rank decode_post_request = 4
rank decode_multi_part_request_data = 5
rank serve_file = 4
rank proxify = 2
rank proxy_monitor = 3
rank finish_request = 7
rank (plugin name) = 6

-- A request goes on to a handler that is further, but that it may wait in the same one.
pub Next-rank : {h h' : Handler} → Next h (some h') → (rank h < rank h') ⊎ (h ≡ h')
unfolding rank
Next-rank accepts_again = inr refl
Next-rank then_header = inl (omega arith)
Next-rank reads_on = inr refl
Next-rank then_request = inl (omega arith)
Next-rank then_proxy = inl (omega arith)
Next-rank then_resource = inl (omega arith)
Next-rank then_file = inl (omega arith)
Next-rank (then_plugin name) = inl (omega arith)
Next-rank then_body = inl (omega arith)
Next-rank then_parts = inl (omega arith)
Next-rank more_parts = inr refl
Next-rank then_monitor = inl (omega arith)
Next-rank watches_on = inr refl

-- The texts that a handler reads.
abbrev pub needs : Handler → List String
needs accept_request = "SERVER_WWW_ROOT" ∷ []
needs decode_request_header = "REQUEST_QUERY" ∷ "METHOD" ∷ "SERVER_WWW_ROOT" ∷ []
needs decode_request = "REQUEST_URI" ∷ "METHOD" ∷ "SERVER_WWW_ROOT" ∷ []
needs resolve_request = "REQUEST_URI" ∷ "METHOD" ∷ "SERVER_WWW_ROOT" ∷ []
needs decode_post_request = "METHOD" ∷ []
needs decode_multi_part_request_data = "MULTI_PART_BOUNDARY" ∷ []
needs serve_file = "RESOURCE_MIME" ∷ "RESOURCE_PATH" ∷ []
needs proxify = "PROXY_QUERY" ∷ "PROXY_PATH" ∷ "PROXY_PORT" ∷ "PROXY_HOST" ∷ []
needs proxy_monitor = []
needs finish_request = []
needs (plugin name) = "METHOD" ∷ []

abbrev pub IsThere : Dictionary Bytes → String → Type 0
IsThere d key = (v : Bytes) × (dvalue d (codes key) ≡ some v)

-- The texts are there, and the server has a configuration for the port of the request.
pub record HasTexts (g : Config) (keys : List String) (d : Dictionary Bytes) : Type 0 where
  pub valid : IsValid d
  pub served :
      (key : Bytes) × (port : Port) × (dvalue d (codes "SERVER_PORT") ≡ some key)
      × (dvalue g.ports key ≡ some port)
  pub there : All (IsThere d) keys

pub dvalue-dput :
    {V : Type 0} (d : Dictionary V) (k j : Bytes) (v : V)
    → IsValid d
    → dvalue (dput d k (some v)).0 j ≡ (if str_eq j k then some v else dvalue d j)
unfolding dvalue value_of
dvalue-dput d k j v valid =
    rw (dlookup-dput d k j (some v) valid)
      (elim (Bool-cases (str_eq j k)) [ inl y ↦ rw y refl | inr n ↦ rw n refl ])

IsThere-put :
    (d : Dictionary Bytes) (key : String) (v : Bytes) (j : String)
    → IsValid d
    → IsThere d j
    → IsThere (dput d (codes key) (some v)).0 j
IsThere-put d key v j valid (x, e) = elim (Bool-cases (str_eq (codes j) (codes key))) [
  | inl y ↦ (v, rw (dvalue-dput d (codes key) (codes j) v valid) (rw y refl))
  | inr n ↦ (x, rw (dvalue-dput d (codes key) (codes j) v valid) (rw n e))
]

-- One text more is there once it was put, and those that were there stay.
pub put-HasTexts :
    (g : Config) (keys : List String) (d : Dictionary Bytes) (key : String) (v : Bytes)
    → str_eq (codes "SERVER_PORT") (codes key) ≡ false
    → HasTexts g keys d
    → HasTexts g (key ∷ keys) (dput d (codes key) (some v)).0
put-HasTexts g keys d key v ne h = record {
  valid = dput-IsValid d (codes key) (some v) h.valid;
  served =
      let (k, port, e, e') = h.served in
      (k, port, rw (dvalue-dput d (codes key) (codes "SERVER_PORT") v h.valid) (rw ne e), e');
  there = (
    (v, rw (dvalue-dput d (codes key) (codes key) v h.valid) (rw (str_eq_refl (codes key)) refl)),
    All-imp (λ j. IsThere-put d key v j h.valid) keys h.there,
  );
}

pub rest-HasTexts :
    (g : Config) (key : String) (keys : List String) (d : Dictionary Bytes)
    → HasTexts g (key ∷ keys) d
    → HasTexts g keys d
rest-HasTexts g key keys d h = record { valid = h.valid; served = h.served; there = h.there.1 }

abbrev pub IsReady : Config → Option Handler → Dictionary Bytes → Type 0
IsReady g none d = Unit
IsReady g (some h) d = HasTexts g (needs h) d

-- The task that a run of `h` returned has a handle that may follow, and that finds its texts.
pub record Goes (g : Config) (h : Handler) (t : RequestTask) : Type 0 where
  pub follows : Next h t.handle
  pub ready : IsReady g t.handle t.data_of.fields

pub task_for-Goes :
    (g : Config) (h : Handler) (m : Moment) (next : Option Handler) (rq : Request)
    → Next h next
    → IsReady g next rq.fields
    → Goes g h (task_for m next rq)
unfolding task_for antd_create_task
task_for-Goes g h m next rq n r = record { follows = n; ready = r }

pub task_on-Goes :
    (g : Config) (h : Handler) (m : Moment) (flags : ℕ) (next : Option Handler) (rq : Request)
    → Next h next
    → IsReady g next rq.fields
    → Goes g h (task_on m flags next rq)
unfolding task_on task_for antd_create_task antd_task_bind_event
task_on-Goes g h m flags next rq n r = record { follows = n; ready = r }

-- A run that returns a task, which goes on.
pub record Leads (g : Config) (h : Handler) (o : Outcome RequestTask) : Type 0 where
  pub task : RequestTask
  pub run : o ≡ done task
  pub goes : Goes g h task

pub done-Leads : (g : Config) (h : Handler) (t : RequestTask) → Goes g h t → Leads g h (done t)
done-Leads g h t goes = record { task = t; run = refl; goes = goes }

-- The text that a handler reads is there, so the run goes on with it.
pub text_of-Leads :
    (g : Config) (h : Handler) (o : Option Bytes) (v : Bytes) (f : Bytes → Outcome RequestTask)
    → o ≡ some v
    → Leads g h (f v)
    → Leads g h (text_of o >>= f)
text_of-Leads g h o v f e l = rw e l

-- ===== src/Request.antt =====
-- lib/handle.h, httpd.c and server.c: the request that the handlers pass on, and the tasks that they
-- return. The dictionaries that `rq->request` holds under REQUEST_HEADER, REQUEST_DATA and COOKIE,
-- and the connection under PROXY_HANDLE, are fields of their own here.
use ant_http.Dictionary.{Dictionary, dput, dvalue}
use ant_http.Handle.{Conn}
use ant_http.Handle.Response.{antd_error}
use ant_http.Prelude.{ℕ, ℤ, pos, Bytes, String, codes, Option, none, some}
use ant_http.Scheduler.Create.{antd_create_task, antd_task_bind_event}
use ant_http.Scheduler.{Task}

-- The functions that stand in tasks; `plugin` is the handle of a loaded plugin.
pub data Handler : Type 0 where
  accept_request : Handler
  decode_request_header : Handler
  decode_request : Handler
  decode_post_request : Handler
  decode_multi_part_request_data : Handler
  resolve_request : Handler
  serve_file : Handler
  proxify : Handler
  proxy_monitor : Handler
  finish_request : Handler
  plugin : Bytes → Handler

-- ANTD_CLIENT_ACCEPT and so on, the state of a client.
pub data ClientState : Type 0 where
  client_accept : ClientState
  client_handshake : ClientState
  client_header_decode : ClientState
  client_plugin_exec : ClientState
  client_proto_check : ClientState
  client_resolve_request : ClientState
  client_serve_file : ClientState
  client_rq_data_decode : ClientState
  client_proxy_monitor : ClientState

pub record Request : Type 0 where
  pub sock : ℤ
  pub conn : Conn
  pub state : ClientState
  pub fields : Dictionary Bytes
  pub header : Dictionary Bytes
  pub params : Dictionary Bytes
  pub cookie : Option (Dictionary Bytes)
  pub proxy : Option (ℤ × Conn)
  pub context : Option Bytes

-- What stands outside in one run of a handler: the id that `antd_task_data_id` gives, the clock,
-- and the client's `last_io` when the task is made.
pub record Moment : Type 0 where
  pub id : ℤ
  pub now : ℕ
  pub last_io : ℕ

abbrev pub RequestTask : Type 0
RequestTask = Task Handler Request

abbrev pub readable : ℕ
readable = 2

abbrev pub writable : ℕ
writable = 4

abbrev pub on_timeout : ℕ
on_timeout = 8

-- `antd_create_task(handle, rq, NULL, rq->client->last_io)`, for the request as the handler leaves it.
unfoldable pub task_for : Moment → Option Handler → Request → RequestTask
unfolding antd_create_task
task_for m handle rq = antd_create_task m.id m.now handle rq none m.last_io

-- The task with an event on the client's socket.
unfoldable pub task_on : Moment → ℕ → Option Handler → Request → RequestTask
unfolding task_for antd_task_bind_event
task_on m flags handle rq = antd_task_bind_event m.now rq.sock (pos 0) flags (task_for m handle rq)

-- `dput(rq->request, key, strdup(value))`
unfoldable pub put_field : String → Bytes → Request → Request
put_field key value rq = record rq { fields = (dput rq.fields (codes key) (some value)).0 }

unfoldable pub field : Request → String → Option Bytes
field rq key = dvalue rq.fields (codes key)

-- `antd_error(rq->client, status, msg)`
unfoldable pub refuse : ℕ → String → Request → Request
refuse status msg rq = record rq { conn = antd_error status (codes msg) rq.conn }

-- How the run of a handler ends: normally, in a call of the C library on a NULL text, in a write
-- behind the end of a buffer, or, in the model alone, out of fuel.
pub data Outcome {ℓ} (A : Type ℓ) : Type ℓ where
  done : A → Outcome A
  null_text : Outcome A
  overrun : Outcome A
  no_fuel : Outcome A

infixl 5 ◌>>=◌
abbrev pub ◌>>=◌ {ℓ κ} : {A : Type ℓ} {B : Type κ} → Outcome A → (A → Outcome B) → Outcome B
done a >>= f = f a
null_text >>= f = null_text
overrun >>= f = overrun
no_fuel >>= f = no_fuel

-- A text that the C library is called with.
abbrev pub text_of : Option Bytes → Outcome Bytes
text_of none = null_text
text_of (some s) = done s

pub data Proto : Type 0 where
  ip_4 : Proto
  ip_6 : Proto
  ip_all : Proto

-- `port_config_t`; `use_ssl` is `none` until it is set, since the memory of a new port is not cleared.
pub record Port : Type 0 where
  pub port : ℤ
  pub use_ssl : Option ℤ
  pub htdocs : Option Bytes
  pub plugins : Option Bytes
  pub sock : ℤ
  pub type : Proto
  pub rules : Dictionary Bytes

-- `config_t`, without the parts of the compression.
pub record Config : Type 0 where
  pub plugins_dir : Bytes
  pub plugins_ext : Bytes
  pub db_path : Bytes
  pub tmpdir : Bytes
  pub stat_fifo_path : Bytes
  pub handlers : Dictionary Bytes
  pub backlog : ℤ
  pub maxcon : ℤ
  pub connection : ℤ
  pub n_workers : ℤ
  pub scheduler_timeout : ℤ
  pub max_upload_size : ℤ
  pub enable_ssl : ℤ
  pub sslcert : Bytes
  pub sslkey : Bytes
  pub ssl_cipher : Option Bytes
  pub debug_enable : ℤ
  pub mimes : Dictionary Bytes
  pub ports : Dictionary Port
  pub plugins : Dictionary (Dictionary Bytes)

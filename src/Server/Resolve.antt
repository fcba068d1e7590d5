-- ===== src/Server/Resolve.antt =====
-- server.c: `resolve_request`, `execute_plugin` and `finish_request`. The file system, regular
-- expressions and the loading of plugins stand outside: they are arguments.
use mathlib.Core.List.{flatten}
use ant_http.Decode.Rules.{Regex, matches}
use ant_http.Dictionary.{dvalue}
use ant_http.Handle.{Conn, antd_recv, buff_len}
use ant_http.Prelude.{
  ℕ, zero, suc, ◌+◌, ◌-◌, ◌*◌, ◌^◌, ◌==◌, min, ℤ, pos, negsuc, ◌-ℤ◌, Bytes, codes, str_eq, Bool,
  false, if◌then◌else◌, Option, none, some, List, [], ◌∷◌, ◌++◌, length, take,
}
use ant_http.Request.{
  plugin, decode_post_request, serve_file, client_resolve_request, client_plugin_exec, Request,
  Moment, RequestTask, readable, writable, Outcome, done, null_text, ◌>>=◌, text_of, Port, Config,
  task_for, task_on, put_field, field, refuse,
}
use ant_http.Scheduler.Create.{antd_create_task}
use ant_http.Utils.Decimal.{atoi}
use ant_http.Utils.Mime.{ext, mime, no_type}
use ant_http.Utils.Trim.{strsep, trim}

-- What `stat` says of a path.
pub data FileKind : Type 0 where
  missing : FileKind
  directory : FileKind
  regular : FileKind

-- A loaded plugin: its name, and whether it wants the body as it is.
pub record PluginContext : Type 0 where
  pub name : Bytes
  pub raw_body : Bool

pub record World : Type 0 where
  pub regex : Regex
  pub stat : Bytes → FileKind
  pub load : Bytes → Option PluginContext

-- The task that runs the plugin, once the body is decoded or at once.
unfoldable pub plugin_task : Moment → PluginContext → Request → RequestTask
unfolding task_on antd_create_task
plugin_task m ctx rq =
    if ctx.raw_body
    then task_on m (readable + writable) (some (plugin ctx.name)) rq
    else antd_create_task m.id m.now (some decode_post_request) rq (some (plugin ctx.name))
        m.last_io

unfoldable pub loaded : Moment → Option PluginContext → Request → RequestTask
unfolding plugin_task refuse
loaded m none rq =
    task_on m (readable + writable) none (refuse 503 "Requested service not found" rq)
loaded m (some ctx) rq = plugin_task m ctx (record rq { context = some ctx.name })

unfoldable pub is_enabled : Regex → Option Bytes → Bytes → Bool
is_enabled regex none name = false
is_enabled regex (some plugins) name =
    matches (regex (take 255 (codes "\\b" ++ (name ++ codes "\\b"))) plugins)

unfoldable pub on_port : World → Moment → Bytes → Request → Option Port → Outcome RequestTask
unfolding is_enabled loaded
on_port w m name rq none = null_text
on_port w m name rq (some port) = done (
    if is_enabled w.regex port.plugins name
    then loaded m (w.load name) (record rq { state = client_plugin_exec })
    else task_on m (readable + writable) none (refuse 403 "Access forbidden" rq))

unfoldable pub execute_plugin : World → Config → Moment → Request → Bytes → Outcome RequestTask
unfolding on_port field
execute_plugin w g m rq name =
    text_of (field rq "SERVER_PORT") >>= (λ key. on_port w m name rq (dvalue g.ports key))

-- `%s/%s`
abbrev pub under : Bytes → Bytes → Bytes
under root path = root ++ (b'/' ∷ path)

unfoldable pub rest_or_slash : Option Bytes → Bytes
rest_or_slash none = codes "/"
rest_or_slash (some s) = s

-- No file: the first part of the url names a plugin, and the rest is its path.
unfoldable pub to_plugin :
    World → Config → Moment → Bytes → Request → Bytes × Option Bytes → Outcome RequestTask
unfolding execute_plugin put_field rest_or_slash
to_plugin w g m root rq (name, rest) =
    let path = rest_or_slash rest in
    execute_plugin w g m
      (put_field "RESOURCE_PATH" (under root path) (put_field "REQUEST_URI" path rq)) name

-- The first handler that has an index file in the directory.
unfoldable pub find_index : World → Bytes → List (Bytes × Option Bytes) → Option Bytes
find_index w dir [] = none
find_index w dir ((key, v) ∷ hs) =
    let path = under dir (codes "index." ++ key) in
    let later = find_index w dir hs in
    elim (w.stat path) [ missing ↦ later | directory ↦ some path | regular ↦ some path ]

-- The file that a path stands for, `none` where a directory has no index.
unfoldable pub resource : World → Config → Bytes → Bytes → Option Bytes
unfolding find_index
resource w g dir path = elim (w.stat path) [
  | missing ↦ none
  | regular ↦ some path
  | directory ↦ elim (w.stat (path ++ codes "/index.html")) [
    | missing ↦ find_index w dir (flatten g.handlers.map)
    | regular ↦ some (path ++ codes "/index.html")
    | directory ↦ some (path ++ codes "/index.html")
  ]
]

-- The body is read and dropped, `size` bytes in each round, until `left` bytes or none came.
unfoldable pub discard : ℕ → ℕ → ℕ → Conn → Conn
discard zero size left c = c
discard (suc fuel) size zero c = c
discard (suc fuel) size (suc left) c =
    let (n, got, c') = antd_recv size c in
    let next = discard fuel size (suc left - length got) c' in if length got == 0 then c' else next

-- `unsigned clen = atoi(...)`
unfoldable pub to_unsigned : ℤ → ℕ
to_unsigned (pos n) = n
to_unsigned (negsuc n) = 2 ^ 32 - suc n

unfoldable pub discard_body : Option Bytes → Conn → Conn
unfolding discard to_unsigned
discard_body none c = c
discard_body (some s) c =
    let clen = to_unsigned (atoi s) in discard clen (min (2 * buff_len) clen) clen c

-- A file of no known type needs a handler.
unfoldable pub handler_for : World → Config → Bytes → Option Bytes
unfolding ext
handler_for w g path = elim (ext path) [ none ↦ none | some ex ↦ dvalue g.handlers ex ]

unfoldable pub to_handler : World → Config → Moment → Option Bytes → Request → Outcome RequestTask
unfolding execute_plugin task_for refuse
to_handler w g m none rq = done (task_for m none (refuse 403 "Access forbidden" rq))
to_handler w g m (some h) rq = execute_plugin w g m rq h

unfoldable pub to_file : World → Config → Moment → Bytes → Request → Outcome RequestTask
unfolding mime handler_for to_handler discard_body task_on put_field
to_file w g m path rq =
    let type = mime w.regex g.mimes path in
    let rq₁ = put_field "RESOURCE_MIME" type (put_field "RESOURCE_PATH" path rq) in
    let body = dvalue rq.header (codes "Content-Length") in
    if str_eq type no_type
    then to_handler w g m (handler_for w g path) rq₁
    else done
        (task_on m writable (some serve_file) (record rq₁ { conn = discard_body body rq.conn }))

unfoldable pub to_resource : World → Config → Moment → Option Bytes → Request → Outcome RequestTask
unfolding to_file task_for refuse
to_resource w g m none rq = done (task_for m none (refuse 404 "Resource Not Found" rq))
to_resource w g m (some path) rq = to_file w g m path rq

-- Both texts are put into the request before this handler runs; the paths fit their buffer.
unfoldable pub resolve_request_run : World → Config → Moment → Request → Outcome RequestTask
unfolding to_plugin resource to_resource field strsep trim
resolve_request_run w g m rq =
    let rq₁ = record rq { state = client_resolve_request } in
    text_of (field rq "REQUEST_URI") >>= (λ url. text_of (field rq "SERVER_WWW_ROOT") >>= (λ root.
      elim (w.stat (under root url)) [
        | missing ↦ to_plugin w g m root rq₁ (strsep b'/' (trim url b'/'))
        | directory ↦ to_resource w g m (resource w g (under root url) (under root url)) rq₁
        | regular ↦ to_resource w g m (resource w g (under root url) (under root url)) rq₁
      ]))

-- The request is destroyed and one connection less is counted.
unfoldable pub finish_request_run : Config → Config
finish_request_run g = record g { connection = g.connection -ℤ pos 1 }

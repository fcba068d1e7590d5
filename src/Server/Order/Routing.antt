-- ===== src/Server/Order/Routing.antt =====
-- server.c: what follows `resolve_request`.

use ant_http.Dictionary.{Dictionary, dvalue}
use ant_http.Prelude.{Bytes, codes, str_eq, Option, none, some, [], ◌∷◌, if-both, refl}
use ant_http.Request.{
  client_plugin_exec, client_resolve_request, decode_post_request, resolve_request, serve_file,
  Request, Moment, RequestTask, Outcome, Config, field, put_field,
}
use ant_http.Server.Order.{
  ends, then_file, then_plugin, then_body, needs, HasTexts, put-HasTexts, rest-HasTexts, Goes,
  task_on-Goes, task_for-Goes, Leads, done-Leads, text_of-Leads,
}
use ant_http.Scheduler.Create.{antd_create_task}
use ant_http.Utils.Mime.{mime, no_type}
use ant_http.Server.Resolve.{
  World, PluginContext, FileKind, plugin_task, loaded, is_enabled, on_port, execute_plugin, under,
  rest_or_slash, to_plugin, resource, discard_body, handler_for, to_handler, to_file, to_resource,
  resolve_request_run,
}
use ant_http.Utils.Trim.{strsep, trim}

plugin_task-Goes :
    (g : Config) (m : Moment) (ctx : PluginContext) (rq : Request)
    → HasTexts g (needs decode_post_request) rq.fields
    → Goes g resolve_request (plugin_task m ctx rq)
unfolding plugin_task antd_create_task
plugin_task-Goes g m ctx rq h =
    if-both (Goes g resolve_request) ctx.raw_body
      (task_on-Goes g _ m _ _ rq (then_plugin ctx.name) h) record { follows = then_body; ready = h }

loaded-Goes :
    (g : Config) (m : Moment) (ctx : Option PluginContext) (rq : Request)
    → HasTexts g (needs decode_post_request) rq.fields
    → Goes g resolve_request (loaded m ctx rq)
unfolding loaded
loaded-Goes g m none rq h = task_on-Goes _ _ _ _ _ _ (ends _) tt
loaded-Goes g m (some ctx) rq h = plugin_task-Goes g m ctx (record rq { context = some ctx.name }) h

-- The configuration of the port is there, so the run does not end in NULL.
execute_plugin-Leads :
    (w : World) (g : Config) (m : Moment) (rq : Request) (name : Bytes)
    → HasTexts g (needs decode_post_request) rq.fields
    → Leads g resolve_request (execute_plugin w g m rq name)
unfolding execute_plugin on_port field
execute_plugin-Leads w g m rq name h =
    let (key, port, e, e') = h.served in
    text_of-Leads g resolve_request _ key _ e (
      rw e' (
        done-Leads _ _ _ (
          if-both (Goes g resolve_request) (is_enabled w.regex port.plugins name)
            (loaded-Goes g m (w.load name) (record rq { state = client_plugin_exec }) h)
            (task_on-Goes g _ m _ none _ (ends _) tt))))

method-HasTexts :
    (g : Config) (rq : Request)
    → HasTexts g (needs resolve_request) rq.fields
    → HasTexts g (needs decode_post_request) rq.fields
method-HasTexts g rq h = record { valid = h.valid; served = h.served; there = (h.there.1.0, tt) }

to_plugin-Leads :
    (w : World) (g : Config) (m : Moment) (root : Bytes) (rq : Request) (r : Bytes × Option Bytes)
    → HasTexts g (needs resolve_request) rq.fields
    → Leads g resolve_request (to_plugin w g m root rq r)
unfolding to_plugin put_field str_eq
to_plugin-Leads w g m root rq (name, rest) h =
    let path = rest_or_slash rest in
    let rq₁ = put_field "REQUEST_URI" path rq in
    let h₁ = put-HasTexts g _ rq.fields "REQUEST_URI" path refl (method-HasTexts g rq h) in
    let h₂ = put-HasTexts g _ rq₁.fields "RESOURCE_PATH" (under root path) refl h₁ in
    execute_plugin-Leads w g m (put_field "RESOURCE_PATH" (under root path) rq₁) name
      (rest-HasTexts g _ _ _ (rest-HasTexts g _ _ _ h₂))

to_handler-Leads :
    (w : World) (g : Config) (m : Moment) (o : Option Bytes) (rq : Request)
    → HasTexts g (needs decode_post_request) rq.fields
    → Leads g resolve_request (to_handler w g m o rq)
unfolding to_handler
to_handler-Leads w g m none rq h = done-Leads _ _ _ (task_for-Goes g _ m none _ (ends _) tt)
to_handler-Leads w g m (some name) rq h = execute_plugin-Leads w g m rq name h

resource-HasTexts :
    (g : Config) (d : Dictionary Bytes)
    → HasTexts g ("RESOURCE_MIME" ∷ "RESOURCE_PATH" ∷ "METHOD" ∷ []) d
    → HasTexts g (needs serve_file) d
resource-HasTexts g d h = record {
  valid = h.valid;
  served = h.served;
  there = (h.there.0, (h.there.1.0, tt));
}

to_file-Leads :
    (w : World) (g : Config) (m : Moment) (path : Bytes) (rq : Request)
    → HasTexts g (needs resolve_request) rq.fields
    → Leads g resolve_request (to_file w g m path rq)
unfolding to_file put_field str_eq
to_file-Leads w g m path rq h =
    let type = mime w.regex g.mimes path in
    let rq₁ = put_field "RESOURCE_PATH" path rq in
    let rq₂ = put_field "RESOURCE_MIME" type rq₁ in
    let h₁ = put-HasTexts g _ rq.fields "RESOURCE_PATH" path refl (method-HasTexts g rq h) in
    let h₂ = put-HasTexts g _ rq₁.fields "RESOURCE_MIME" type refl h₁ in
    if-both (Leads g resolve_request) (str_eq type no_type)
      (to_handler-Leads w g m (handler_for w g path) rq₂
        (rest-HasTexts g _ _ _ (rest-HasTexts g _ _ _ h₂)))
      (done-Leads _ _ _ (
        task_on-Goes g _ m _ _
          record rq₂ { conn = discard_body (dvalue rq.header (codes "Content-Length")) rq.conn }
          then_file (resource-HasTexts g _ h₂)))

to_resource-Leads :
    (w : World) (g : Config) (m : Moment) (o : Option Bytes) (rq : Request)
    → HasTexts g (needs resolve_request) rq.fields
    → Leads g resolve_request (to_resource w g m o rq)
unfolding to_resource
to_resource-Leads w g m none rq h = done-Leads _ _ _ (task_for-Goes g _ m none _ (ends _) tt)
to_resource-Leads w g m (some path) rq h = to_file-Leads w g m path rq h

on_kind :
    (P : Outcome RequestTask → Type 0) (k : FileKind) (x y : Outcome RequestTask)
    → P x
    → P y
    → P (elim k [ FileKind.missing ↦ x | FileKind.directory ↦ y | FileKind.regular ↦ y ])
on_kind P FileKind.missing x y p q = p
on_kind P FileKind.directory x y p q = q
on_kind P FileKind.regular x y p q = q

-- A request whose url and root are known goes on to its file, to a plugin, or to its body for the
-- plugin, or is refused: the run returns.
pub resolve_request-Leads :
    (w : World) (g : Config) (m : Moment) (rq : Request)
    → HasTexts g (needs resolve_request) rq.fields
    → Leads g resolve_request (resolve_request_run w g m rq)
unfolding resolve_request_run field
resolve_request-Leads w g m rq h =
    let rq₁ = record rq { state = client_resolve_request } in
    let ((url, e), (method, ((root, e'), _))) = h.there in
    let path = under root url in
    text_of-Leads g _ _ url _ e (
      text_of-Leads g _ _ root _ e' (
        on_kind (Leads g resolve_request) (w.stat path) _ _
          (to_plugin-Leads w g m root rq₁ (strsep b'/' (trim url b'/')) h)
          (to_resource-Leads w g m (resource w g path path) rq₁ h)))

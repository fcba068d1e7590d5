-- ===== src/Decode/Parts/Form.antt =====
-- decode.c: `decode_multi_part_request_data` run for part after part, as its tasks ask for.
use ant_http.Decode.Params.Back.{put_all}
use ant_http.Decode.Parts.{Uploads, part_task, handle_behind, decode_multi_part_request_data_run}
use ant_http.Decode.Parts.Field.{
  IsFieldValue, field_rest, field_left, decode_multi_part_request_data-field,
}
use ant_http.Decode.Parts.Lines.{line_of, Fits, Stops}
use ant_http.Decode.Parts.Name.{IsFieldName, field_head}
use ant_http.Dictionary.{Dictionary, dput}
use ant_http.Handle.{Conn}
use ant_http.Handle.Stream.{stream, IsOpen}
use ant_http.Prelude.{
  Bytes, c_string, has_part, true, false, if◌then◌else◌, none, some, List, [], ◌∷◌, ◌++◌, All, ◌≡◌,
  refl, sym, ap, subst, ◌∙◌,
}
use ant_http.Request.{
  decode_multi_part_request_data, Request, Moment, RequestTask, done, field, task_on, task_for,
}
use ant_http.Scheduler.Create.{antd_create_task, antd_task_bind_event}

-- The tasks of the parts, none of which is a file: the last one has no handle.
pub data PartsRead (u : Uploads) (m : Moment) : Request → RequestTask → Type 0 where
  last_part :
      (rq : Request) (t : RequestTask)
      → decode_multi_part_request_data_run u m rq ≡ done (t, none)
      → t.handle ≡ none
      → PartsRead u m rq t
  next_part :
      (rq : Request) (t t' : RequestTask)
      → decode_multi_part_request_data_run u m rq ≡ done (t, none)
      → t.handle ≡ some decode_multi_part_request_data
      → PartsRead u m t.data_of t'
      → PartsRead u m rq t'

-- A field with a name and a value that are read back, on lines that fit.
abbrev pub IsField : Bytes × Bytes → Type 0
IsField (name, value) =
    IsFieldName name × Fits (field_head name) × IsFieldValue value × Fits (value ++ (b'\r' ∷ []))

-- The first boundary was read; `between` follows every field but the last, `ending` the last.
abbrev pub fields_text : Bytes → Bytes → Bytes × Bytes → List (Bytes × Bytes) → Bytes → Bytes
fields_text between ending (name, value) [] later =
    field_head name ++ (b'\n' ∷ field_rest [] value (ending ++ (b'\n' ∷ later)))
fields_text between ending (name, value) (q ∷ ps) later =
    field_head name
    ++ (b'\n' ∷ field_rest [] value (between ++ (b'\n' ∷ fields_text between ending q ps later)))

-- What reading all parts leaves.
pub record FieldsRead (u : Uploads) (m : Moment) (rq : Request) (ps : List (Bytes × Bytes))
    (later : Bytes) : Type 0 where
  pub task : RequestTask
  pub parts : PartsRead u m rq task
  pub params : task.data_of.params ≡ put_all ps rq.params
  pub behind : stream task.data_of.conn.input ≡ later

part_task-parts :
    (u : Uploads) (m : Moment) (boundary closing : Bytes) (rq : Request) (params : Dictionary Bytes)
    (c : Conn) (name value : Bytes)
    → let (t, f) = part_task u m boundary rq (field_left name value closing params c) in
      (f ≡ none)
      × (t.data_of ≡ record rq { conn = c; params = (dput params name (some value)).0 })
      × (t.handle ≡ (
          if handle_behind boundary (some (c_string (line_of closing)))
          then some decode_multi_part_request_data
          else none))
unfolding part_task task_on task_for antd_create_task antd_task_bind_event
part_task-parts u m boundary closing rq params c name value = (refl, refl, refl)

-- The conditions on the two boundary lines: the first asks for more parts, the second ends them.
pub record IsClosing (boundary between ending : Bytes) : Type 0 where
  pub stops : Stops (has_part boundary) between
  pub stops_last : Stops (has_part boundary) ending
  pub goes_on : handle_behind boundary (some (c_string (line_of between))) ≡ true
  pub ends_here : handle_behind boundary (some (c_string (line_of ending))) ≡ false

-- On a connection that no error ends, a form of one field or more is read back: run after run, as the
-- tasks ask for, the last task has no handle, the parameters are those of before with every value put
-- under its name in order, and the bytes behind the last boundary line are left. The first boundary
-- line has been read, and the names and values are such that their lines give them back.
pub fields_text-FieldsRead :
    (u : Uploads) (m : Moment) (boundary between ending later : Bytes) (rq : Request)
    (p : Bytes × Bytes) (ps : List (Bytes × Bytes))
    → IsOpen rq.conn.ssl rq.conn.input
    → field rq "MULTI_PART_BOUNDARY" ≡ some boundary
    → All IsField (p ∷ ps)
    → IsClosing boundary between ending
    → stream rq.conn.input ≡ fields_text between ending p ps later
    → FieldsRead u m rq (p ∷ ps) later
unfolding put_all field
fields_text-FieldsRead u m boundary between ending later rq (name, value) [] o b ((n, f, v, fv), _)
      k e =
    let (left, r, behind, _) =
      decode_multi_part_request_data-field u m rq boundary name value ending later [] o b n f tt v
        fv k.stops_last e in
    let c = record rq.conn { input = left } in
    let (no_file, changed, handle) =
      part_task-parts u m boundary ending rq rq.params c name value in
    let t = (part_task u m boundary rq (field_left name value ending rq.params c)).0 in
    record {
      task = t;
      parts = last_part rq t (r ∙ ap (λ x. done (t, x)) no_file) (handle ∙ rw (k.ends_here) refl);
      params = ap (λ q. q.params) changed;
      behind = ap (λ q. stream q.conn.input) changed ∙ behind;
    }
fields_text-FieldsRead u m boundary between ending later rq (name, value) (q ∷ ps) o b
      ((n, f, v, fv), hs) k e =
    let rest = fields_text between ending q ps later in
    let (left, r, behind, o') =
      decode_multi_part_request_data-field u m rq boundary name value between rest [] o b n f tt v
        fv k.stops e in
    let c = record rq.conn { input = left } in
    let (no_file, changed, handle) =
      part_task-parts u m boundary between rq rq.params c name value in
    let t = (part_task u m boundary rq (field_left name value between rq.params c)).0 in
    let rq' = record rq { conn = c; params = (dput rq.params name (some value)).0 } in
    let later_parts =
      fields_text-FieldsRead u m boundary between ending later rq' q ps o' b hs k behind in
    record {
      task = later_parts.task;
      parts =
          next_part rq t later_parts.task (r ∙ ap (λ x. done (t, x)) no_file)
            (handle ∙ rw (k.goes_on) refl)
            (subst (λ q. PartsRead u m q later_parts.task) (sym changed) later_parts.parts);
      params = later_parts.params;
      behind = later_parts.behind;
    }

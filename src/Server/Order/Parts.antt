-- ===== src/Server/Order/Parts.antt =====
-- decode.c: what follows `decode_multi_part_request_data`.
use ant_http.Decode.Parts.{
  Uploads, Part, disposition, lines_until, part_name_of, part_data, part_task, named_part,
  handle_behind, decode_multi_part_request_data_run,
}
use ant_http.Prelude.{
  [], ◌+◌, ◌==◌, Bytes, c_string, has_part, not, ◌||◌, length, Bool-cases, if-both, Option, none,
  some, inl, inr, ◌≡◌, refl,
}
use ant_http.Request.{
  decode_multi_part_request_data, Request, Moment, RequestTask, Config, Outcome, done, task_on,
  task_for, field, readable, writable,
}
use ant_http.Scheduler.Create.{antd_create_task, antd_task_bind_event}
use ant_http.Server.Order.{ends, more_parts, needs, HasTexts, Goes, task_on-Goes}

-- A run that returns a task, which goes on, and the file that it wrote, if any.
pub record PartLeads (g : Config) (o : Outcome (RequestTask × Option (Bytes × Bytes)))
    : Type 0 where
  pub task : RequestTask
  pub file : Option (Bytes × Bytes)
  pub run : o ≡ done (task, file)
  pub goes : Goes g decode_multi_part_request_data task

part_task-Goes :
    (g : Config) (u : Uploads) (m : Moment) (boundary : Bytes) (rq : Request) (p : Part)
    → HasTexts g (needs decode_multi_part_request_data) rq.fields
    → Goes g decode_multi_part_request_data (part_task u m boundary rq p).0
unfolding part_task task_on task_for antd_create_task antd_task_bind_event
part_task-Goes g u m boundary rq p h = elim (Bool-cases (handle_behind boundary p.line)) [
  | inl y ↦ rw y record { follows = more_parts; ready = h }
  | inr n ↦ rw n record { follows = ends _; ready = tt }
]

named_part-Leads :
    (g : Config) (u : Uploads) (m : Moment) (name file : Option Bytes) (rq : Request)
    → HasTexts g (needs decode_multi_part_request_data) rq.fields
    → PartLeads g (named_part u m record { name = name; file = file } rq)
unfolding named_part field
named_part-Leads g u m none file rq h = record {
  task = _;
  file = _;
  run = refl;
  goes =
      part_task-Goes g u m [] rq
        record { params = rq.params; conn = rq.conn; line = none; file = none } h;
}
named_part-Leads g u m (some name) file rq h =
    let (boundary, e) = h.there.0 in
    let p = part_data u boundary name file rq.params rq.conn in
    rw e record {
      task = (part_task u m boundary rq p).0;
      file = (part_task u m boundary rq p).1;
      run = refl;
      goes = part_task-Goes g u m boundary rq p h;
    }

-- A run on a request that has its boundary returns a task, which reads the next part or ends the body.
pub decode_multi_part-Leads :
    (g : Config) (u : Uploads) (m : Moment) (rq : Request)
    → HasTexts g (needs decode_multi_part_request_data) rq.fields
    → PartLeads g (decode_multi_part_request_data_run u m rq)
unfolding decode_multi_part_request_data_run
decode_multi_part-Leads g u m rq h =
    let (before, line, c) = lines_until (has_part disposition) rq.conn in
    let rq₁ = record rq { conn = c } in
    let p = part_name_of (c_string line) in
    if-both (PartLeads g) (length line == 0 || not (has_part disposition (c_string line)))
      record {
        task = task_on m (readable + writable) none rq₁;
        file = none;
        run = refl;
        goes = task_on-Goes g _ m _ _ rq₁ (ends _) tt;
      }
      (named_part-Leads g u m p.name p.file rq₁ h)

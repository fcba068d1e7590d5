-- ===== src/Scheduler/Create.antt =====
-- lib/scheduler.c: `antd_create_task` and `antd_task_bind_event`. The id is what
-- `antd_task_data_id` returns for the data, `now` is `time(NULL)` and `gettimeofday` at the call.
use ant_http.Prelude.{ℕ, ℤ, Option, []}
use ant_http.Scheduler.{Task, enqueue, callback_of}

unfoldable pub antd_create_task : {H D : Type 0} → ℤ → ℕ → Option H → D → Option H → ℕ → Task H D
unfolding callback_of
antd_create_task id now handle data_of callback atime = record {
  id = id;
  stamp = now;
  access_time = atime;
  handle = handle;
  callback = callback_of callback;
  events = [];
  data_of = data_of;
}

unfoldable pub antd_task_bind_event : {H D : Type 0} → ℕ → ℤ → ℤ → ℕ → Task H D → Task H D
unfolding enqueue
antd_task_bind_event now fd timeout flags t = record t {
  events = enqueue t.events record { flags = flags; fd = fd; stamp = now; timeout = timeout };
}

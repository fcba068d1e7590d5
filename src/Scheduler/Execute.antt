-- ===== src/Scheduler/Execute.antt =====
-- lib/scheduler.c: `antd_execute_task`, its callbacks, and `antd_task_schedule`. `run` stands for
-- the handlers: what a handler returns for the data of its task, and what it did to the scheduler.
pub mod Chain
use ant_http.Bst.{bst_find}
use ant_http.Prelude.{
  ℕ, suc, ◌+◌, ℤ, pos, ◌-ℤ◌, ltb, ltb_ℤ, Bool, true, false, not, if◌then◌else◌, Option, none, some,
  List, [], ◌∷◌, ◌++◌,
}
use ant_http.Scheduler.{
  Task, Scheduler, enqueue, enqueue_callback, destroy_task, antd_scheduler_add_task,
}

-- `null_call` is a call through a NULL handle; `no_fuel` is a loop that ran out of its fuel.
pub data Run (A : Type 0) : Type 0 where
  ok : A → Run A
  null_call : Run A
  no_fuel : Run A

infixl 5 ◌>>=◌
abbrev pub ◌>>=◌ : {A B : Type 0} → Run A → (A → Run B) → Run B
ok a >>= f = f a
null_call >>= f = null_call
no_fuel >>= f = no_fuel

unfoldable pub from_option : {A : Type 0} → Option A → Run A
from_option none = no_fuel
from_option (some a) = ok a

-- `time(NULL)`, `gettimeofday` in microseconds, and the configured `scheduler_timeout`.
pub record Clock : Type 0 where
  pub time : ℕ
  pub now : ℕ
  pub scheduler_timeout : ℕ

-- The callbacks of `task` are linked behind those of the task that its handler returned.
unfoldable pub hand_over {ℓ} : {A : Type ℓ} → List A → List A → List A
unfolding enqueue_callback
hand_over [] rcb = rcb
hand_over (c ∷ cb) [] = c ∷ cb
hand_over (c ∷ cb) (d ∷ rcb) = enqueue_callback (d ∷ rcb) (c ∷ cb)

module _ {H D : Type 0} where
  unfoldable pub add_task : Task H D → Scheduler H D → Run (Scheduler H D)
  unfolding antd_scheduler_add_task from_option
  add_task t s = from_option (antd_scheduler_add_task t s)

  -- The version of the server, in httpd.c.
  unfoldable pub antd_scheduler_validate_data : Clock → Task H D → Bool
  antd_scheduler_validate_data c t = not (ltb (t.access_time + c.scheduler_timeout) c.time)

  unfoldable pub run_callback : Task H D → List H → Scheduler H D → Run (Scheduler H D)
  unfolding destroy_task add_task
  run_callback t [] s = ok (destroy_task t s)
  run_callback t (c ∷ cb) s = add_task (record t { handle = some c; callback = cb }) s

  -- The first callback becomes the handle; with no callback the task ends.
  unfoldable pub execute_callback : Task H D → Scheduler H D → Run (Scheduler H D)
  unfolding run_callback
  execute_callback t s = run_callback t t.callback s

  unfoldable pub dispatch : Option H → Task H D → Scheduler H D → Run (Scheduler H D)
  unfolding execute_callback add_task
  dispatch none r s = execute_callback r s
  dispatch (some h) r s = add_task r s

  -- What follows the return of the handler.
  unfoldable pub finish_task : Task H D → Option (Task H D) → Scheduler H D → Run (Scheduler H D)
  unfolding execute_callback hand_over dispatch destroy_task
  finish_task t none s = execute_callback t s
  finish_task t (some r) s = do
    s' ← dispatch r.handle (record r { callback = hand_over t.callback r.callback }) s
    ok (destroy_task (record t { callback = [] }) s')

  module _ (run : H → D → Scheduler H D → Option (Task H D) × Scheduler H D) where
    unfoldable pub call_handle : Option H → Task H D → Scheduler H D → Run (Scheduler H D)
    unfolding finish_task
    call_handle none t s = null_call
    call_handle (some h) t s = let (ret, s') = run h t.data_of s in finish_task t ret s'

    unfoldable pub antd_execute_task : Task H D → Scheduler H D → Run (Scheduler H D)
    unfolding call_handle
    antd_execute_task t s = call_handle t.handle t s

    -- A task that timed out is dropped with its data; with no workers the task runs at once.
    unfoldable pub antd_task_schedule : Clock → Task H D → Scheduler H D → Run (Scheduler H D)
    unfolding antd_scheduler_validate_data antd_execute_task enqueue destroy_task
    antd_task_schedule c t s =
        let s₁ = record s { pending_task = s.pending_task -ℤ pos 1 } in
        if not (antd_scheduler_validate_data c t)
        then ok (destroy_task t (record s₁ { killed = s₁.killed ++ t.data_of ∷ [] }))
        else if not (ltb_ℤ (pos 0) s₁.n_workers)
        then antd_execute_task t s₁
        else ok (record s₁ {
          workers_queue = enqueue s₁.workers_queue t;
          worker_sem = s₁.worker_sem + 1;
        })

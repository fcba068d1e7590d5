-- ===== src/Scheduler/Wait.antt =====
-- lib/scheduler.c: one round of the loop of `antd_scheduler_wait`. The tasks stand in `task_queue`
-- under their ids during the whole round, so an event names its task by the id, and a change of the
-- task object is a change of that entry. `poll` is the system call: its result and the `revents`.
pub mod Due
pub mod Deploy
use Prim.Native.Nat.{bit_and, bit_or}
use ant_http.Bst.{Tree, leaf, bst_insert, bst_find, bst_delete, bst_for_each}
use ant_http.Prelude.{
  ℕ, zero, suc, ◌+◌, ◌/◌, ◌%◌, ◌^◌, ◌-◌, ℤ, pos, negsuc, pos_part, to_int, leb, ltb, ltb_ℤ, ◌==◌,
  Bool, true, false, not, ◌&&◌, ◌||◌, if◌then◌else◌, Option, none, some, List, [], ◌∷◌, get_or, set,
  replicate,
}
use ant_http.Scheduler.Execute.{
  Run, ok, ◌>>=◌, Clock, antd_scheduler_validate_data, antd_execute_task, antd_task_schedule,
}
use ant_http.Scheduler.{Event, Task, Scheduler, dequeue}

abbrev pub always_on : ℕ
always_on = 0x01

abbrev pub on_readable : ℕ
on_readable = 0x02

abbrev pub on_writable : ℕ
on_writable = 0x04

abbrev pub on_timeout : ℕ
on_timeout = 0x08

-- The system's bits of `struct pollfd`.
abbrev pub pollin : ℕ
pollin = 0x01

abbrev pub pollout : ℕ
pollout = 0x04

abbrev pub pollerr : ℕ
pollerr = 0x08

abbrev pub pollhup : ℕ
pollhup = 0x10

unfoldable pub has_flag : ℕ → ℕ → Bool
has_flag flags bit = not (bit_and flags bit == 0)

-- `(int)(microseconds / 1000)`; the division truncates towards 0 where the clock went back.
unfoldable pub elapsed_ms : ℕ → ℕ → ℤ
unfolding to_int
elapsed_ms now stamp =
    if leb stamp now
    then to_int ((now - stamp) / 1000)
    else to_int (2 ^ 32 - (stamp - now) / 1000 % 2 ^ 32)

unfoldable pub poll_events : ℕ → ℕ
unfolding has_flag
poll_events flags =
    bit_or (if has_flag flags on_readable then pollin else 0)
      (if has_flag flags on_writable then pollout else 0)

-- `struct pollfd` without `revents`.
pub record PollFd : Type 0 where
  pub fd : ℤ
  pub events : ℕ

-- `scheduled_list`, `poll_list` with the id of the task of each event, and `pollsize`.
pub record Lists (H D : Type 0) : Type 0 where
  pub exec_list : Tree (Task H D)
  pub poll_list : Tree (Event × ℤ)
  pub pollsize : ℕ

unfoldable pub task_polls_collect : ℤ → Event × ℤ → List PollFd → List PollFd
unfolding poll_events
task_polls_collect key (e, id) pfds =
    set pfds (pos_part key) (record { fd = e.fd; events = poll_events e.flags })

-- The array that `poll` is called with.
unfoldable pub poll_array : ℕ → Tree (Event × ℤ) → List PollFd
unfolding task_polls_collect
poll_array pollsize poll_list =
    bst_for_each poll_list task_polls_collect
      (replicate pollsize (record { fd = pos 0; events = 0 }))

module _ {H D : Type 0} where
  -- One event of a task.
  unfoldable pub collect_event : Clock → Task H D → Event → Lists H D → Lists H D
  unfolding has_flag elapsed_ms antd_scheduler_validate_data
  collect_event c t e l =
      let run_now = record l { exec_list = bst_insert l.exec_list t.id t } in
      if has_flag e.flags always_on || not (antd_scheduler_validate_data c t)
      then run_now
      else if has_flag e.flags on_timeout
      then (if ltb_ℤ (elapsed_ms c.now e.stamp) e.timeout then l else run_now)
      else record l {
        poll_list = bst_insert l.poll_list (pos l.pollsize) (e, t.id);
        pollsize = l.pollsize + 1;
      }

  unfoldable pub collect_events : Clock → Task H D → List Event → Lists H D → Lists H D
  unfolding collect_event
  collect_events c t [] l = l
  collect_events c t (e ∷ es) l = collect_events c t es (collect_event c t e l)

  unfoldable pub collect_task : Clock → Task H D → List Event → Lists H D → Lists H D
  unfolding collect_events
  collect_task c t [] l = record l { exec_list = bst_insert l.exec_list t.id t }
  collect_task c t (e ∷ es) l = collect_events c t (e ∷ es) l

  unfoldable pub task_event_collect : Clock → ℤ → Task H D → Lists H D → Lists H D
  unfolding collect_task
  task_event_collect c key t l = collect_task c t t.events l

  -- `POLLERR`: the task object is made invalid, in the queue and in the list of scheduled tasks.
  unfoldable pub invalidate : Task H D → Task H D
  invalidate t = record t { access_time = 0; handle = none }

  unfoldable pub on_event :
      ℕ → Event → Task H D → Scheduler H D × Tree (Task H D) → Scheduler H D × Tree (Task H D)
  unfolding has_flag invalidate
  on_event revents e t (s, exec) =
      if has_flag e.flags on_readable && has_flag revents pollin
        || has_flag e.flags on_writable && has_flag revents pollout
      then (s, bst_insert exec t.id t)
      else if has_flag revents pollerr || has_flag revents pollhup
      then (
        record s { task_queue = bst_insert s.task_queue t.id (invalidate t) },
        bst_insert exec t.id (invalidate t),
      )
      else (s, exec)

  -- The task of a polled event is in the queue during the round.
  unfoldable pub on_entry :
      ℕ → Option (Event × ℤ) → Scheduler H D × Tree (Task H D) → Scheduler H D × Tree (Task H D)
  unfolding on_event
  on_entry revents none st = st
  on_entry revents (some (e, id)) st = elim (bst_find st.0.task_queue id) [
    | none ↦ st
    | some t ↦ on_event revents e t st
  ]

  -- `for (int i = 0; i < pollsize; i++)`: `n` rounds from `i` on.
  unfoldable pub on_ready :
      ℕ
      → ℕ
      → Tree (Event × ℤ)
      → List ℕ
      → Scheduler H D × Tree (Task H D)
      → Scheduler H D × Tree (Task H D)
  unfolding on_entry
  on_ready zero i poll_list revents st = st
  on_ready (suc n) i poll_list revents st =
      on_ready n (i + 1) poll_list revents
        (on_entry (get_or revents i 0) (bst_find poll_list (pos i)) st)

  unfoldable pub collect : Clock → Scheduler H D → Lists H D
  unfolding task_event_collect
  collect c s =
      bst_for_each s.task_queue (task_event_collect c)
        (record { exec_list = leaf; poll_list = leaf; pollsize = 0 })

  -- After the call of `poll`, which is made only if there is something to poll.
  unfoldable pub poll_round :
      (List PollFd → ℤ × List ℕ) → Lists H D → Scheduler H D → Scheduler H D × Tree (Task H D)
  unfolding poll_array on_ready
  poll_round poll l s =
      let (ready, revents) = poll (poll_array l.pollsize l.poll_list) in
      if ltb 0 l.pollsize && ltb_ℤ (pos 0) ready
      then on_ready l.pollsize 0 l.poll_list revents (s, l.exec_list)
      else (s, l.exec_list)

  module _ (run : H → D → Scheduler H D → Option (Task H D) × Scheduler H D) (c : Clock) where
    unfoldable pub antd_deploy_task : ℤ → Task H D → Run (Scheduler H D) → Run (Scheduler H D)
    unfolding antd_task_schedule
    antd_deploy_task key t acc = do
      s ← acc
      antd_task_schedule run c t (record s { task_queue = bst_delete s.task_queue t.id })

    -- One round, up to the test for an empty queue, behind which the thread sleeps.
    unfoldable pub wait_round : (List PollFd → ℤ × List ℕ) → Scheduler H D → Run (Scheduler H D)
    unfolding collect poll_round antd_deploy_task
    wait_round poll s =
        let (s₁, scheduled) = poll_round poll (collect c s) s in
        bst_for_each scheduled antd_deploy_task (ok s₁)

    -- One round of `work`; with no task the worker sleeps.
    unfoldable pub work_round : Scheduler H D → Run (Scheduler H D)
    unfolding dequeue antd_execute_task
    work_round s =
        let (it, rest) = dequeue s.workers_queue in
        elim it [
          | none ↦ ok s
          | some t ↦ antd_execute_task run t (record s { workers_queue = rest })
        ]

-- ===== src/Tests/SchedulerTests.antt =====
-- The scheduler at a queue of one task.
use ant_http.Bst.Entries.{entries, size}
use ant_http.Bst.{bst_insert, leaf, node, bst_find, bst_for_each}
use ant_http.Prelude.{
  ℕ, suc, ◌+◌, ℤ, pos, true, false, Option, none, some, inr, List, [], ◌∷◌, ◌≡◌, refl, arith,
}
use ant_http.Scheduler.Execute.Chain.{GoesOn, execute-chain}
use ant_http.Scheduler.Execute.{ok, Clock, antd_execute_task}
use ant_http.Scheduler.Ids.{next_id-free}
use ant_http.Scheduler.Submit.{Added, add_task-Added, add_task_taken}
use ant_http.Scheduler.Wait.Deploy.{Deployed, deploy_each-Deployed}
use ant_http.Scheduler.Wait.Due.{IsRecent, due_or, collect-due}
use ant_http.Scheduler.Wait.{PollFd, antd_deploy_task, collect, wait_round}
use ant_http.Scheduler.{
  Event, Task, Scheduler, is_zero, size_fuel, antd_scheduler_next_id, antd_scheduler_add_task,
}

abbrev readable : Event
readable = record { flags = 2; fd = pos 5; stamp = 0; timeout = pos 0 }

abbrev waiting : Task ℕ ℕ
waiting = record {
  id = pos 5;
  stamp = 0;
  access_time = 100;
  handle = some 1;
  callback = 9 ∷ [];
  events = readable ∷ [];
  data_of = 77;
}

abbrev fresh : Task ℕ ℕ
fresh = record waiting { id = pos 6; handle = some 2; callback = 8 ∷ []; events = [] }

abbrev busy : Scheduler ℕ ℕ
busy = record {
  task_queue = node leaf (pos 5) waiting leaf;
  workers_queue = [];
  status = true;
  n_workers = pos 2;
  pending_task = pos 1;
  id_allocator = pos 0;
  scheduler_sem = 0;
  worker_sem = 0;
  destroyed = [];
  killed = [];
}

abbrev clock : Clock
clock = record { time = 110; now = 110_000_000; scheduler_timeout = 30 }

-- Every handler returns the task `fresh`.
abbrev handlers : ℕ → ℕ → Scheduler ℕ ℕ → Option (Task ℕ ℕ) × Scheduler ℕ ℕ
handlers h d s = (some fresh, s)

abbrev silent : List PollFd → ℤ × List ℕ
silent pfds = (pos 0, [])

-- A readable socket sends its task to the workers; a silent one leaves it in the queue.
round_silent : wait_round handlers clock silent busy ≡ ok busy
unfolding wait_round bst_for_each bst_find bst_insert
round_silent = refl

taken : bst_find busy.task_queue (pos 5) ≡ some waiting
unfolding bst_find
taken = refl

free : bst_find busy.task_queue (pos 6) ≡ none
unfolding bst_find
free = refl

counted : busy.pending_task ≡ pos (size busy.task_queue)
unfolding size
counted = refl

next_id-free_example :
    (r : ℤ × ℤ) × (antd_scheduler_next_id (suc (size_fuel busy.task_queue)) busy (pos 5) ≡ some r)
    × (bst_find busy.task_queue r.0 ≡ none)
    × (is_zero r.0 ≡ false)
next_id-free_example = next_id-free busy (pos 5) (tt, tt, tt, tt)

add_task-Added_example :
    (s' : Scheduler ℕ ℕ) × (id : ℤ) × (antd_scheduler_add_task fresh busy ≡ some s')
    × Added fresh id busy s'
add_task-Added_example = add_task-Added fresh busy (inr free) (tt, tt, tt, tt) counted

add_task_taken_example :
    (s' : Scheduler ℕ ℕ) × (antd_scheduler_add_task waiting busy ≡ some s')
    × (bst_find s'.task_queue (pos 5) ≡ some waiting)
    × (s'.pending_task ≡ pos (size s'.task_queue + 1))
add_task_taken_example = add_task_taken waiting waiting busy refl taken counted

execute-chain_example : GoesOn fresh (2 ∷ 8 ∷ 9 ∷ []) (antd_execute_task handlers waiting busy)
execute-chain_example =
    execute-chain handlers waiting 1 2 (8 ∷ 9 ∷ []) busy busy (some fresh) refl refl refl refl

readable-IsRecent : IsRecent clock readable
readable-IsRecent = record { bound_before = omega arith; not_long = omega arith; waits = refl }

collect-due_example :
    bst_find (collect clock busy).exec_list (pos 5)
    ≡ due_or clock (bst_find busy.task_queue (pos 5)) none
collect-due_example =
    collect-due clock busy (pos 5) (tt, tt, tt, tt) (tt, refl, tt) (tt, (readable-IsRecent, tt), tt)

deploy_each-Deployed_example :
    (s' : Scheduler ℕ ℕ) × (bst_for_each busy.task_queue (antd_deploy_task handlers clock) (ok busy)
      ≡ ok s')
    × Deployed clock (entries busy.task_queue) busy s'
deploy_each-Deployed_example =
    deploy_each-Deployed handlers clock busy.task_queue busy refl (tt, tt, tt, tt) counted
      (tt, tt, tt, tt) (unfold entries in ((refl, waiting, taken), tt))

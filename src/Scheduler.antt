-- ===== src/Scheduler.antt =====
-- lib/scheduler.c: the state of the scheduler, its queues, task ids and `antd_scheduler_add_task`.
-- A task is a value and its callbacks, events and pointers are lists: each has one owner. `H` are
-- the function pointers, `D` the user data. `destroyed` and `killed` record the calls of
-- `destroy_task` and `antd_scheduler_destroy_data`. A function is one thread's run through the code
-- between two waits, with the locks that it takes. C ints are unbounded, `int` overflow is not met.
pub mod Create
pub mod Execute
pub mod Ids
pub mod Submit
pub mod Threads
pub mod Wait
use ant_http.Bst.{Tree, leaf, bst_insert, bst_find, bst_free_cb}
use ant_http.Prelude.{
  ℕ, zero, suc, ◌+◌, ℤ, pos, negsuc, ◌+ℤ◌, ltb_ℤ, Bool, true, false, if◌then◌else◌, Option, none,
  some, List, [], ◌∷◌, ◌++◌,
}

-- `antd_task_evt_item_t`; `stamp` is the `timeval` in microseconds. Its task is the owner.
pub record Event : Type 0 where
  pub flags : ℕ
  pub fd : ℤ
  pub stamp : ℕ
  pub timeout : ℤ

-- `antd_task_t`; a NULL handle is `none`, and `callback` is the chain of `antd_callback_t`.
pub record Task (H D : Type 0) : Type 0 where
  pub id : ℤ
  pub stamp : ℕ
  pub access_time : ℕ
  pub handle : Option H
  pub callback : List H
  pub events : List Event
  pub data_of : D

pub record Scheduler (H D : Type 0) : Type 0 where
  pub task_queue : Tree (Task H D)
  pub workers_queue : List (Task H D)
  pub status : Bool
  pub n_workers : ℤ
  pub pending_task : ℤ
  pub id_allocator : ℤ
  pub scheduler_sem : ℕ
  pub worker_sem : ℕ
  pub destroyed : List (Task H D)
  pub killed : List D

-- Walks to the last item and links the new one behind it.
unfoldable pub enqueue {ℓ} : {A : Type ℓ} → List A → A → List A
enqueue [] value = value ∷ []
enqueue (x ∷ q) value = x ∷ enqueue q value

-- The item that leaves and the queue behind it.
unfoldable pub dequeue {ℓ} : {A : Type ℓ} → List A → Option A × List A
dequeue [] = (none, [])
dequeue (x ∷ q) = (some x, q)

-- Links `el` behind the last callback; with no callback it does nothing.
unfoldable pub enqueue_callback {ℓ} : {A : Type ℓ} → List A → List A → List A
enqueue_callback [] el = []
enqueue_callback (c ∷ []) el = c ∷ el
enqueue_callback (c ∷ d ∷ cb) el = c ∷ enqueue_callback (d ∷ cb) el

unfoldable pub callback_of {ℓ} : {A : Type ℓ} → Option A → List A
callback_of none = []
callback_of (some h) = h ∷ []

abbrev pub is_zero : ℤ → Bool
is_zero (pos zero) = true
is_zero (pos (suc n)) = false
is_zero (negsuc n) = false

module _ {H D : Type 0} where
  unfoldable pub destroy_task : Task H D → Scheduler H D → Scheduler H D
  destroy_task t s = record s { destroyed = s.destroyed ++ t ∷ [] }

  -- `antd_scheduler_init`, once its semaphores and threads are there.
  unfoldable pub antd_scheduler_init : ℤ → Scheduler H D
  antd_scheduler_init n = record {
    task_queue = leaf;
    workers_queue = [];
    status = true;
    n_workers = n;
    pending_task = pos 0;
    id_allocator = pos 0;
    scheduler_sem = 0;
    worker_sem = 0;
    destroyed = [];
    killed = [];
  }

  -- `while (bst_find(sched->task_queue, id) != NULL)`: the id and the allocator after the loop.
  unfoldable pub find_id : ℕ → Tree (Task H D) → ℤ → ℤ → Option (ℤ × ℤ)
  find_id zero queue id allocator = none
  find_id (suc fuel) queue id allocator = elim (bst_find queue id) [
    | none ↦ some (id, allocator)
    | some t ↦ find_id fuel queue (allocator +ℤ pos 1) (allocator +ℤ pos 1)
  ]

  -- The id and the new allocator; `none` is fuel that ran out.
  unfoldable pub antd_scheduler_next_id : ℕ → Scheduler H D → ℤ → Option (ℤ × ℤ)
  unfolding find_id
  antd_scheduler_next_id fuel s input =
      let allocator = if ltb_ℤ s.id_allocator (pos 0) then pos 0 else s.id_allocator in
      if is_zero input
      then find_id fuel s.task_queue (allocator +ℤ pos 1) (allocator +ℤ pos 1)
      else find_id fuel s.task_queue input allocator

  -- Puts the task under its id, counts it and wakes the scheduler.
  unfoldable pub submit : Task H D → Scheduler H D → Scheduler H D
  submit t s = record s {
    task_queue = bst_insert s.task_queue t.id t;
    pending_task = s.pending_task +ℤ pos 1;
    scheduler_sem = s.scheduler_sem + 1;
  }

  unfoldable pub submit_as : Task H D → Scheduler H D → ℤ × ℤ → Scheduler H D
  unfolding submit
  submit_as t s (id, allocator) =
      submit (record t { id = id }) (record s { id_allocator = allocator })

  -- One more than the number of tasks.
  unfoldable pub size_fuel : Tree (Task H D) → ℕ
  size_fuel leaf = 1
  size_fuel (Tree.node l k v r) = size_fuel l + size_fuel r

  -- A task whose id is 0 gets the next one first.
  unfoldable pub antd_scheduler_add_task : Task H D → Scheduler H D → Option (Scheduler H D)
  unfolding submit_as
  antd_scheduler_add_task t s =
      if is_zero t.id
      then elim (antd_scheduler_next_id (suc (size_fuel s.task_queue)) s t.id) [
        | none ↦ none
        | some r ↦ some (submit_as t s r)
      ]
      else some (submit t s)

  unfoldable pub antd_scheduler_busy : Scheduler H D → Bool
  antd_scheduler_busy s = if is_zero s.pending_task then false else true

  -- Every entry of the queue has a task. `antd_scheduler_destroy` after `stop`: the tasks that `destroy_task` is called on.
  unfoldable pub antd_scheduler_destroy : Scheduler H D → List (Task H D)
  antd_scheduler_destroy s = bst_free_cb (λ t. true) s.task_queue true ++ s.workers_queue

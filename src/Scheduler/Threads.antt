-- ===== src/Scheduler/Threads.antt =====
-- lib/scheduler.c: threads that add tasks while the scheduler's own thread deploys them. A step is
-- what one thread does under one lock: `antd_scheduler_next_id` and `antd_scheduler_add_task` take
-- three of them in turn, `antd_deploy_task` with `antd_task_schedule` two.
pub mod Counts
use ant_http.Bst.{bst_insert, bst_find, bst_delete}
use ant_http.Prelude.{
  ℕ, suc, ◌+◌, ℤ, pos, ◌+ℤ◌, ◌-ℤ◌, false, none, some, List, [], ◌∷◌, ◌++◌, All, ◌≡◌, ◌≢◌,
}
use ant_http.Scheduler.{
  Task, Scheduler, is_zero, antd_scheduler_next_id, antd_scheduler_init, size_fuel,
}

-- The scheduler, the tasks with an id that are not in the queue yet, how many are in the queue but
-- not counted, the tasks that the scheduler's thread is to deploy, how many it took out of the queue
-- that are still counted, and how many were replaced in the queue.
pub record Threads (H D : Type 0) : Type 0 where
  pub shared : Scheduler H D
  pub named : List (Task H D)
  pub uncounted : ℕ
  pub scheduled : List (Task H D)
  pub taken_out : ℕ
  pub lost : ℕ

module _ {H D : Type 0} where
  -- Under `scheduler_lock`, and under `pending_lock` with the `sem_post` behind it.
  unfoldable pub insert_locked : Task H D → Scheduler H D → Scheduler H D
  insert_locked t s = record s { task_queue = bst_insert s.task_queue t.id t }

  unfoldable pub count_locked : Scheduler H D → Scheduler H D
  count_locked s = record s {
    pending_task = s.pending_task +ℤ pos 1;
    scheduler_sem = s.scheduler_sem + 1;
  }

  unfoldable pub delete_locked : Task H D → Scheduler H D → Scheduler H D
  delete_locked t s = record s { task_queue = bst_delete s.task_queue t.id }

  unfoldable pub discount_locked : Scheduler H D → Scheduler H D
  discount_locked s = record s { pending_task = s.pending_task -ℤ pos 1 }

  pub data Step : Threads H D → Threads H D → Type 0 where
    -- `antd_scheduler_next_id` for a task that has none yet, or for the one of its data.
    choose :
        (st : Threads H D) (t : Task H D) (input id allocator : ℤ)
        → antd_scheduler_next_id (suc (size_fuel st.shared.task_queue)) st.shared input
          ≡ some (id, allocator)
        → Step st (record st {
          shared = record st.shared { id_allocator = allocator };
          named = record t { id = id } ∷ st.named;
        })
    insert :
        (st : Threads H D) (before : List (Task H D)) (t : Task H D) (rest : List (Task H D))
        → st.named ≡ before ++ t ∷ rest
        → bst_find st.shared.task_queue t.id ≡ none
        → Step st (record st {
          shared = insert_locked t st.shared;
          named = before ++ rest;
          uncounted = suc st.uncounted;
        })
    replace :
        (st : Threads H D) (before : List (Task H D)) (t u : Task H D) (rest : List (Task H D))
        → st.named ≡ before ++ t ∷ rest
        → bst_find st.shared.task_queue t.id ≡ some u
        → Step st (record st {
          shared = insert_locked t st.shared;
          named = before ++ rest;
          uncounted = suc st.uncounted;
          lost = suc st.lost;
        })
    count :
        (st : Threads H D) (n : ℕ)
        → st.uncounted ≡ suc n
        → Step st (record st { shared = count_locked st.shared; uncounted = n })
    -- A task of the queue that is due; the list of scheduled tasks has one for an id.
    schedule :
        (st : Threads H D) (t : Task H D)
        → bst_find st.shared.task_queue t.id ≡ some t
        → All (λ u. u.id ≢ t.id) st.scheduled
        → Step st (record st { scheduled = t ∷ st.scheduled })
    deploy :
        (st : Threads H D) (t : Task H D) (rest : List (Task H D))
        → st.scheduled ≡ t ∷ rest
        → Step st (record st {
          shared = delete_locked t st.shared;
          scheduled = rest;
          taken_out = suc st.taken_out;
        })
    discount :
        (st : Threads H D) (n : ℕ)
        → st.taken_out ≡ suc n
        → Step st (record st { shared = discount_locked st.shared; taken_out = n })

  -- Any steps of any threads, one after the other.
  pub data Reach : ℤ → Threads H D → Type 0 where
    start :
        (n : ℤ)
        → Reach n record {
          shared = antd_scheduler_init n;
          named = [];
          uncounted = 0;
          scheduled = [];
          taken_out = 0;
          lost = 0;
        }
    step : {n : ℤ} {st st' : Threads H D} → Reach n st → Step st st' → Reach n st'

-- ===== src/Scheduler/Submit.antt =====
-- `antd_scheduler_add_task` and the count of pending tasks.
use ant_http.Bst.Entries.{size}
use ant_http.Bst.Lookup.{find-insert_self, find-insert_ne}
use ant_http.Bst.Order.{IsOrdered, bst_insert-IsOrdered}
use ant_http.Bst.Size.{size-insert_new, size-insert_old}
use ant_http.Bst.{bst_find}
use ant_http.Prelude.{
  ℕ, ◌+◌, ℤ, pos, ◌+ℤ◌, Bool-cases, ◌⊎◌, inl, inr, true, false, none, some, ◌≡◌, ◌≢◌, refl, arith,
}
use ant_http.Scheduler.Ids.{next_id-free}
use ant_http.Scheduler.Wait.Deploy.{IsCounted}
use ant_http.Scheduler.{Task, Scheduler, is_zero, submit, antd_scheduler_add_task}

count_up : (p : ℤ) (a b : ℕ) → p ≡ pos a → b ≡ a + 1 → p +ℤ pos 1 ≡ pos b
count_up p a b h k = ground arith

module _ {H D : Type 0} where
  -- `s'` is `s` with one task more, under `id`, and with nothing else changed.
  pub record Added (t : Task H D) (id : ℤ) (s s' : Scheduler H D) : Type 0 where
    pub nonzero : is_zero id ≡ false
    pub free : bst_find s.task_queue id ≡ none
    pub there : bst_find s'.task_queue id ≡ some (record t { id = id })
    pub others : (x : ℤ) → x ≢ id → bst_find s'.task_queue x ≡ bst_find s.task_queue x
    pub ordered : IsOrdered s'.task_queue
    pub counted : IsCounted s'
    pub woken : s'.scheduler_sem ≡ s.scheduler_sem + 1
    pub workers : s'.workers_queue ≡ s.workers_queue

  submit-Added :
      (t : Task H D) (id a : ℤ) (s : Scheduler H D)
      → is_zero id ≡ false
      → bst_find s.task_queue id ≡ none
      → IsOrdered s.task_queue
      → IsCounted s
      → Added t id s (submit (record t { id = id }) (record s { id_allocator = a }))
  unfolding submit
  submit-Added t id a s nz free o n =
      let q = s.task_queue in
      let u = record t { id = id } in
      record {
        nonzero = nz;
        free = free;
        there = find-insert_self q id u;
        others = λ x ne. find-insert_ne q id x u ne;
        ordered = bst_insert-IsOrdered q id u o;
        counted = count_up s.pending_task (size q) _ n (size-insert_new q id u free);
        woken = refl;
        workers = refl;
      }

  -- To an ordered queue whose tasks are counted, a task that has no id yet, or one that no queued
  -- task has, is added under an id that is free and not 0; the queue stays ordered, its other tasks
  -- stay, and the pending tasks are those of the queue.
  pub add_task-Added :
      (t : Task H D) (s : Scheduler H D)
      → (is_zero t.id ≡ true) ⊎ (bst_find s.task_queue t.id ≡ none)
      → IsOrdered s.task_queue
      → IsCounted s
      → (s' : Scheduler H D) × (id : ℤ) × (antd_scheduler_add_task t s ≡ some s') × Added t id s s'
  unfolding antd_scheduler_add_task
  add_task-Added t s h o n = elim (Bool-cases (is_zero t.id)) [
    | inl unset ↦
        let ((id, a), run, free, nz) = next_id-free s t.id o in
        (
          submit (record t { id = id }) (record s { id_allocator = a }),
          id,
          rw (unset, run),
          submit-Added t id a s nz free o n,
        )
    | inr given ↦ (
      submit t s,
      t.id,
      rw given,
      submit-Added t t.id s.id_allocator s given (free_id h given) o n,
    )
  ]
    where
      free_id :
          (is_zero t.id ≡ true) ⊎ (bst_find s.task_queue t.id ≡ none)
          → is_zero t.id ≡ false
          → bst_find s.task_queue t.id ≡ none
      free_id (inl unset) given = cc
      free_id (inr free) given = free

  -- A task whose id is not 0 and belongs to a queued task replaces that task, which is lost. Where
  -- the count of pending tasks was that of the queue, it is one too high then.
  pub add_task_taken :
      (t u : Task H D) (s : Scheduler H D)
      → is_zero t.id ≡ false
      → bst_find s.task_queue t.id ≡ some u
      → IsCounted s
      → (s' : Scheduler H D) × (antd_scheduler_add_task t s ≡ some s')
        × (bst_find s'.task_queue t.id ≡ some t)
        × (s'.pending_task ≡ pos (size s'.task_queue + 1))
  unfolding antd_scheduler_add_task
  add_task_taken t u s nz taken n = (
    submit t s,
    rw nz,
    find-insert_self s.task_queue t.id t,
    count_up s.pending_task (size s.task_queue) _ n
        (omega (arith, size-insert_old s.task_queue t.id t u taken)),
  )

-- ===== src/Tests/ThreadTests.antt =====
-- Threads that add and deploy tasks.
use ant_http.Bst.Entries.{size}
use ant_http.Bst.{bst_find, bst_insert}
use ant_http.Prelude.{ℕ, ℤ, pos, false, some, [], ◌∷◌, ◌≡◌, refl}
use ant_http.Scheduler.{
  Task, antd_scheduler_init, antd_scheduler_next_id, antd_scheduler_busy, find_id, size_fuel,
}
use ant_http.Scheduler.Threads.{
  Threads, Step, Reach, insert_locked, count_locked, delete_locked, discount_locked,
}
use ant_http.Scheduler.Threads.Counts.{Balanced, Reach-Balanced, antd_scheduler_busy-idle}

abbrev task : ℤ → Task ℕ ℕ
task id = record {
  id = id;
  stamp = 1;
  access_time = 1;
  handle = some 3;
  callback = [];
  events = [];
  data_of = 4;
}

abbrev empty : Threads ℕ ℕ
empty = record {
  shared = antd_scheduler_init (pos 2);
  named = [];
  uncounted = 0;
  scheduled = [];
  taken_out = 0;
  lost = 0;
}

-- Two threads take one id, before either of them has put its task into the queue.
abbrev both_named : Threads ℕ ℕ
both_named = record empty {
  shared = record empty.shared { id_allocator = pos 1 };
  named = task (pos 1) ∷ task (pos 1) ∷ [];
}

abbrev one_in : Threads ℕ ℕ
one_in = record both_named {
  shared = insert_locked (task (pos 1)) both_named.shared;
  named = task (pos 1) ∷ [];
  uncounted = 1;
}

abbrev one_lost : Threads ℕ ℕ
one_lost = record one_in {
  shared = insert_locked (task (pos 1)) one_in.shared;
  named = [];
  uncounted = 2;
  lost = 1;
}

one_lost-Reach : Reach (pos 2) one_lost
unfolding antd_scheduler_init antd_scheduler_next_id find_id bst_find insert_locked bst_insert
    size_fuel
one_lost-Reach =
    Reach.step
      (Reach.step
        (Reach.step
          (Reach.step (Reach.start (pos 2))
            (Step.choose empty (task (pos 0)) (pos 0) (pos 1) (pos 1) refl))
          (Step.choose _ (task (pos 0)) (pos 1) (pos 1) (pos 1) refl))
        (Step.insert both_named [] (task (pos 1)) (task (pos 1) ∷ []) refl refl))
      (Step.replace one_in [] (task (pos 1)) (task (pos 1)) [] refl refl)

Reach-Balanced_example : Balanced one_lost
Reach-Balanced_example = Reach-Balanced one_lost-Reach

-- A task that is added, counted, scheduled, taken out and counted out.
abbrev named_one : Threads ℕ ℕ
named_one = record empty {
  shared = record empty.shared { id_allocator = pos 1 };
  named = task (pos 1) ∷ [];
}

abbrev queued_one : Threads ℕ ℕ
queued_one = record named_one {
  shared = insert_locked (task (pos 1)) named_one.shared;
  named = [];
  uncounted = 1;
}

abbrev counted_one : Threads ℕ ℕ
counted_one = record queued_one { shared = count_locked queued_one.shared; uncounted = 0 }

abbrev due_one : Threads ℕ ℕ
due_one = record counted_one { scheduled = task (pos 1) ∷ [] }

abbrev out_one : Threads ℕ ℕ
out_one = record due_one {
  shared = delete_locked (task (pos 1)) due_one.shared;
  scheduled = [];
  taken_out = 1;
}

abbrev idle : Threads ℕ ℕ
idle = record out_one { shared = discount_locked out_one.shared; taken_out = 0 }

queued_one-Reach : Reach (pos 2) queued_one
unfolding antd_scheduler_init antd_scheduler_next_id find_id bst_find insert_locked bst_insert
    size_fuel
queued_one-Reach =
    Reach.step
      (Reach.step (Reach.start (pos 2))
        (Step.choose empty (task (pos 0)) (pos 0) (pos 1) (pos 1) refl))
      (Step.insert named_one [] (task (pos 1)) [] refl refl)

idle-Reach : Reach (pos 2) idle
unfolding antd_scheduler_init insert_locked count_locked bst_find bst_insert
idle-Reach =
    Reach.step
      (Reach.step
        (Reach.step (Reach.step queued_one-Reach (Step.count queued_one 0 refl))
          (Step.schedule counted_one (task (pos 1)) refl tt))
        (Step.deploy due_one (task (pos 1)) [] refl))
      (Step.discount out_one 0 refl)

is_idle : antd_scheduler_busy idle.shared ≡ false
unfolding antd_scheduler_busy antd_scheduler_init insert_locked count_locked delete_locked
    discount_locked
is_idle = refl

antd_scheduler_busy-idle_example : (size idle.shared.task_queue ≡ 0) × (idle.lost ≡ 0)
antd_scheduler_busy-idle_example = antd_scheduler_busy-idle idle-Reach is_idle refl refl

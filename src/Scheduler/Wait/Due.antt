-- ===== src/Scheduler/Wait/Due.antt =====
-- Which tasks `antd_scheduler_wait` schedules without polling.
use ant_http.Bst.Lookup.{find-insert_self, find-insert_ne, insert-insert, find_from, find_upto}
use ant_http.Bst.Order.{IsOrdered}
use ant_http.Bst.{Tree, leaf, node, bst_insert, bst_find, bst_for_each}
use ant_http.Prelude.{
  leb, pos_part, neg_part, to_int-small, All, ◌≤◌, ◌<◌, ◌-◌, ◌*◌, ◌/◌, ◌^◌, ℤ, ltb_ℤ, eq_of_not_lt,
  ne_of_lt, ne_of_gt, Bool, true, false, not, ◌&&◌, ◌||◌, if◌then◌else◌, Option, none, some, List,
  [], ◌∷◌, ◌≡◌, ◌≢◌, refl, sym, ap, ◌∙◌, arith, Bool-cases, inl, inr, ltb→lt,
}
use ant_http.Scheduler.Execute.{Clock, antd_scheduler_validate_data}
use ant_http.Scheduler.Wait.{
  always_on, on_timeout, has_flag, elapsed_ms, Lists, collect_event, collect_events, collect_task,
  task_event_collect, collect,
}
use ant_http.Scheduler.{Event, Task, Scheduler}

module _ (c : Clock) where
  -- The time of the event, in milliseconds, has gone by; the clock counts microseconds.
  unfoldable pub time_over : Event → Bool
  time_over e = leb (pos_part e.timeout * 1000) (c.now - e.stamp)

  -- The event was bound in the past, fewer than 2 ^ 31 milliseconds ago, with a timeout that is not
  -- negative.
  pub record IsRecent (e : Event) : Type 0 where
    pub bound_before : e.stamp ≤ c.now
    pub not_long : c.now - e.stamp < 2 ^ 31 * 1000
    pub waits : neg_part e.timeout ≡ 0

  elapsed-time_over :
      (e : Event) → IsRecent e → not (ltb_ℤ (elapsed_ms c.now e.stamp) e.timeout) ≡ time_over e
  unfolding elapsed_ms time_over
  elapsed-time_over e r =
      rw (to_int-small ((c.now - e.stamp) / 1000) (omega (arith, r.not_long)))
        (ground (arith, r.bound_before, r.not_long, r.waits))

module _ {H D : Type 0} (c : Clock) where
  -- The task is no longer valid, or the event is always on, or its time is over.
  unfoldable pub event_due : Task H D → Event → Bool
  event_due t e =
      has_flag e.flags always_on
      || not (antd_scheduler_validate_data c t)
      || has_flag e.flags on_timeout && time_over c e

  unfoldable pub any_due : Task H D → List Event → Bool
  any_due t [] = false
  any_due t (e ∷ es) = event_due t e || any_due t es

  -- A task with no event is due at once.
  unfoldable pub is_due : Task H D → List Event → Bool
  is_due t [] = true
  is_due t (e ∷ es) = any_due t (e ∷ es)

  unfoldable pub insert_if : Bool → Task H D → Tree (Task H D) → Tree (Task H D)
  insert_if true t exec = bst_insert exec t.id t
  insert_if false t exec = exec

  collect_event-exec :
      (t : Task H D) (e : Event) (l : Lists H D)
      → IsRecent c e
      → (collect_event c t e l).exec_list ≡ insert_if (event_due t e) t l.exec_list
  unfolding collect_event event_due insert_if
  collect_event-exec t e l r = ground (arith, elapsed-time_over c e r)

  insert_if_twice :
      (a b : Bool) (t : Task H D) (exec : Tree (Task H D))
      → insert_if b t (insert_if a t exec) ≡ insert_if (a || b) t exec
  unfolding insert_if
  insert_if_twice true true t exec = insert-insert exec t.id t t
  insert_if_twice true false t exec = refl
  insert_if_twice false b t exec = refl

  collect_events-exec :
      (t : Task H D) (es : List Event) (l : Lists H D)
      → All (IsRecent c) es
      → (collect_events c t es l).exec_list ≡ insert_if (any_due t es) t l.exec_list
  unfolding collect_events any_due
  collect_events-exec t [] l r = unfold insert_if in refl
  collect_events-exec t (e ∷ es) l (r, rs) =
      collect_events-exec t es (collect_event c t e l) rs
      ∙ ap (insert_if (any_due t es) t) (collect_event-exec t e l r)
      ∙ insert_if_twice (event_due t e) (any_due t es) t l.exec_list

  collect_task-exec :
      (t : Task H D) (es : List Event) (l : Lists H D)
      → All (IsRecent c) es
      → (collect_task c t es l).exec_list ≡ insert_if (is_due t es) t l.exec_list
  unfolding collect_task is_due
  collect_task-exec t [] l r = unfold insert_if in refl
  collect_task-exec t (e ∷ es) l r = collect_events-exec t (e ∷ es) l r

  task_event_collect-exec :
      (k : ℤ) (t : Task H D) (l : Lists H D)
      → All (IsRecent c) t.events
      → (task_event_collect c k t l).exec_list ≡ insert_if (is_due t t.events) t l.exec_list
  unfolding task_event_collect
  task_event_collect-exec k t l r = collect_task-exec t t.events l r

  -- Every task of the queue stands under its id.
  abbrev pub IdsMatch : Tree (Task H D) → Type 0
  IdsMatch leaf = Unit
  IdsMatch (node l k t r) = IdsMatch l × (t.id ≡ k) × IdsMatch r

  -- Every event of the queue's tasks is a recent one.
  abbrev pub AllRecent : Tree (Task H D) → Type 0
  AllRecent leaf = Unit
  AllRecent (node l k t r) = AllRecent l × All (IsRecent c) t.events × AllRecent r

  -- What the list of scheduled tasks holds, from what the queue holds and what was there before.
  unfoldable pub due_or : Option (Task H D) → Option (Task H D) → Option (Task H D)
  due_or none before = before
  due_or (some t) before = if is_due t t.events then some t else before

  find-insert_if :
      (b : Bool) (t : Task H D) (exec : Tree (Task H D)) (x : ℤ)
      → x ≢ t.id
      → bst_find (insert_if b t exec) x ≡ bst_find exec x
  unfolding insert_if
  find-insert_if true t exec x n = find-insert_ne exec t.id x t n
  find-insert_if false t exec x n = refl

  find-insert_if_self :
      (b : Bool) (t : Task H D) (exec : Tree (Task H D)) (x : ℤ)
      → t.id ≡ x
      → bst_find (insert_if b t exec) x ≡ (if b then some t else bst_find exec x)
  unfolding insert_if
  find-insert_if_self true t exec x e = rw (← e) (find-insert_self exec t.id t)
  find-insert_if_self false t exec x e = refl

  for_each-exec :
      (q : Tree (Task H D)) (l : Lists H D) (x : ℤ)
      → IsOrdered q
      → IdsMatch q
      → AllRecent q
      → bst_find (bst_for_each q (task_event_collect c) l).exec_list x
        ≡ due_or (bst_find q x) (bst_find l.exec_list x)
  unfolding bst_for_each bst_find due_or
  for_each-exec leaf l x o m a = refl
  for_each-exec (node ql k t qr) l x (below, above, ol, or) (ml, here, mr) (al, now, ar) =
      let l₁ = bst_for_each ql (task_event_collect c) l in
      let l₂ = task_event_collect c k t l₁ in
      let b = is_due t t.events in
      let step = ap (λ e. bst_find e x) (task_event_collect-exec k t l₁ now) in
      let after = for_each-exec qr l₂ x or mr ar in
      let before = for_each-exec ql l x ol ml al in
      elim (Bool-cases (ltb_ℤ x k)) [
        | inl lt ↦
            let ne =
              find-insert_if b t l₁.exec_list x (λ e. ne_of_lt x k (ltb→lt _ _ lt) (e ∙ here)) in
            let right = find_from qr k x above (ground arith) in
            rw lt ((rw right at after) ∙ step ∙ ne ∙ before)
        | inr ge ↦
            let left = find_upto ql k x below ge in
            elim (Bool-cases (ltb_ℤ k x)) [
              | inl gt ↦
                  let ne =
                    find-insert_if b t l₁.exec_list x
                      (λ e. ne_of_gt x k (ltb→lt _ _ gt) (e ∙ here)) in
                  rw (ge, gt)
                    (after ∙ ap (due_or (bst_find qr x)) (step ∙ ne ∙ (rw left at before)))
              | inr le ↦
                  let self =
                    find-insert_if_self b t l₁.exec_list x (here ∙ sym (eq_of_not_lt x k ge le)) in
                  let right = find_from qr k x above le in
                  rw (ge, le)
                    ((rw right at after)
                      ∙ step
                      ∙ self
                      ∙ ap (λ d. if b then some t else d) (rw left at before))
            ]
      ]

  -- From an ordered queue that holds each task under its id, `collect` schedules exactly the tasks
  -- that are due: those with no event, and those with an event where the event is always on, or the
  -- data are no longer valid, or the event has a timeout and so many milliseconds have gone by since
  -- it was bound. Every event was bound in the past, fewer than 2 ^ 31 milliseconds ago, with a
  -- timeout that is not negative.
  pub collect-due :
      (s : Scheduler H D) (x : ℤ)
      → IsOrdered s.task_queue
      → IdsMatch s.task_queue
      → AllRecent s.task_queue
      → bst_find (collect c s).exec_list x ≡ due_or (bst_find s.task_queue x) none
  unfolding collect bst_find
  collect-due s x o m a = for_each-exec s.task_queue _ x o m a

-- ===== src/Scheduler/Threads/Counts.antt =====
-- lib/scheduler.c: the count of pending tasks, between the locks.
use ant_http.Bst.Entries.{size}
use ant_http.Bst.Lookup.{find-insert_self, find-insert_ne, find-delete_ne}
use ant_http.Bst.Order.{IsOrdered, bst_insert-IsOrdered, bst_delete-IsOrdered}
use ant_http.Bst.Size.{size-insert_new, size-insert_old, size-delete}
use ant_http.Bst.{Tree, bst_find, bst_insert}
use ant_http.Prelude.{
  zero, suc, if◌then◌else◌, ◌+◌, ℤ, pos, negsuc, pos_part, neg_part, ltb_ℤ, Bool-cases, ne_of_lt,
  ne_of_gt, eq_of_not_lt, ◌+ℤ◌, ◌-ℤ◌, true, false, some, List, [], ◌∷◌, All, All-imp, inl, inr, ◌≡◌,
  ◌≢◌, refl, ap, ◌∙◌, subst, arith,
}
use ant_http.Scheduler.{Task, is_zero, antd_scheduler_init, antd_scheduler_busy}
use ant_http.Scheduler.Threads.{
  Threads, Step, Reach, insert_locked, count_locked, delete_locked, discount_locked,
}

plus_one : (p : ℤ) → pos_part (p +ℤ pos 1) + neg_part p ≡ pos_part p + 1 + neg_part (p +ℤ pos 1)
plus_one p = ground arith

minus_one : (p : ℤ) → pos_part (p -ℤ pos 1) + 1 + neg_part p ≡ pos_part p + neg_part (p -ℤ pos 1)
minus_one p = ground arith

zero_parts :
    (p : ℤ) → (if is_zero p then false else true) ≡ false → (pos_part p ≡ 0) × (neg_part p ≡ 0)
zero_parts (pos zero) h = (refl, refl)
zero_parts (pos (suc n)) h = cc
zero_parts (negsuc n) h = cc

same_or_not : {A : Type 0} (x y : ℤ) → (x ≡ y → A) → (x ≢ y → A) → A
same_or_not x y f g = elim (Bool-cases (ltb_ℤ x y)) [
  | inl less ↦ g (ne_of_lt x y (ground arith))
  | inr no_less ↦ elim (Bool-cases (ltb_ℤ y x)) [
    | inl more ↦ g (ne_of_gt x y (ground arith))
    | inr no_more ↦ f (eq_of_not_lt x y no_less no_more)
  ]
]

All-both {ℓ} :
    {A : Type ℓ} {P Q R : A → Type 0} (xs : List A)
    → All P xs
    → All Q xs
    → ((x : A) → P x → Q x → R x)
    → All R xs
All-both [] p q f = tt
All-both (x ∷ xs) (p, ps) (q, qs) f = (f x p q, All-both xs ps qs f)

module _ {H D : Type 0} where
  -- The task's id is in the queue.
  abbrev IsQueued : Tree (Task H D) → Task H D → Type 0
  IsQueued q t = (u : Task H D) × (bst_find q t.id ≡ some u)

  -- No two tasks have one id.
  abbrev HasIds : List (Task H D) → Type 0
  HasIds [] = Unit
  HasIds (t ∷ ts) = All (λ u. u.id ≢ t.id) ts × HasIds ts

  -- The count, which is negative where a task was taken out before it was counted.
  pub record Balanced (st : Threads H D) : Type 0 where
    pub ordered : IsOrdered st.shared.task_queue
    pub counted :
        pos_part st.shared.pending_task + st.uncounted
        ≡ size st.shared.task_queue + st.taken_out + st.lost + neg_part st.shared.pending_task
    pub queued : All (IsQueued st.shared.task_queue) st.scheduled
    pub ids : HasIds st.scheduled

  insert-IsQueued :
      (q : Tree (Task H D)) (id : ℤ) (t : Task H D) (x : Task H D)
      → IsQueued q x
      → IsQueued (bst_insert q id t) x
  insert-IsQueued q id t x (u, e) =
      same_or_not x.id id
        (λ eq. (t, ap (bst_find (bst_insert q id t)) eq ∙ find-insert_self q id t))
        (λ ne. (u, find-insert_ne q id x.id t ne ∙ e))

  Step-Balanced : {st st' : Threads H D} → Step st st' → Balanced st → Balanced st'
  unfolding insert_locked count_locked delete_locked discount_locked
  Step-Balanced (Step.choose st t input id a e) b = record {
    ordered = b.ordered;
    counted = b.counted;
    queued = b.queued;
    ids = b.ids;
  }
  Step-Balanced (Step.insert st before t rest e free) b = record {
    ordered = bst_insert-IsOrdered st.shared.task_queue t.id t b.ordered;
    counted = omega (arith, b.counted, size-insert_new st.shared.task_queue t.id t free);
    queued = All-imp (insert-IsQueued st.shared.task_queue t.id t) st.scheduled b.queued;
    ids = b.ids;
  }
  Step-Balanced (Step.replace st before t u rest e there) b = record {
    ordered = bst_insert-IsOrdered st.shared.task_queue t.id t b.ordered;
    counted = omega (arith, b.counted, size-insert_old st.shared.task_queue t.id t u there);
    queued = All-imp (insert-IsQueued st.shared.task_queue t.id t) st.scheduled b.queued;
    ids = b.ids;
  }
  Step-Balanced (Step.count st n e) b = record {
    ordered = b.ordered;
    counted = omega (arith, e, b.counted, plus_one st.shared.pending_task);
    queued = b.queued;
    ids = b.ids;
  }
  Step-Balanced (Step.schedule st t there new) b = record {
    ordered = b.ordered;
    counted = b.counted;
    queued = ((t, there), b.queued);
    ids = (new, b.ids);
  }
  Step-Balanced (Step.deploy st t rest e) b =
      let q = st.shared.task_queue in
      let ((u, there), queued) = subst (All (IsQueued q)) e b.queued in
      let (new, ids) = subst HasIds e b.ids in
      record {
        ordered = bst_delete-IsOrdered q t.id b.ordered;
        counted = omega (arith, b.counted, size-delete q t.id u b.ordered there);
        queued =
            All-both rest queued new
              (λ x (v, f) ne. (v, find-delete_ne q t.id x.id b.ordered ne ∙ f));
        ids = ids;
      }
  Step-Balanced (Step.discount st n e) b = record {
    ordered = b.ordered;
    counted = omega (arith, e, b.counted, minus_one st.shared.pending_task);
    queued = b.queued;
    ids = b.ids;
  }

  -- In every state that steps of any threads reach, the queue is ordered, and the tasks that are
  -- counted, with those that are in the queue but not counted yet, are as many as the tasks in the
  -- queue, those taken out but still counted, and those that were replaced.
  pub Reach-Balanced : {n : ℤ} {st : Threads H D} → Reach n st → Balanced st
  unfolding antd_scheduler_init size
  Reach-Balanced (Reach.start n) = record { ordered = tt; counted = refl; queued = tt; ids = tt }
  Reach-Balanced (Reach.step r s) = Step-Balanced s (Reach-Balanced r)

  -- While no thread stands between two locks, a scheduler that is not busy has an empty queue and no
  -- task was ever replaced.
  pub antd_scheduler_busy-idle :
      {n : ℤ} {st : Threads H D}
      → Reach n st
      → antd_scheduler_busy st.shared ≡ false
      → st.uncounted ≡ 0
      → st.taken_out ≡ 0
      → (size st.shared.task_queue ≡ 0) × (st.lost ≡ 0)
  unfolding antd_scheduler_busy
  antd_scheduler_busy-idle {st} r b u t =
      let h = (Reach-Balanced r).counted in
      let (p, q) = zero_parts st.shared.pending_task b in
      (omega (arith, h, p, q), omega (arith, h, p, q))

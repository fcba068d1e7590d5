-- ===== src/Scheduler/Wait/Deploy.antt =====
-- What the scheduler does with the scheduled tasks when there are workers.
use ant_http.Bst.Entries.{entries, fold, for_each-fold, size, IsAscending, entries-IsAscending}
use ant_http.Bst.Lookup.{find-delete_self, find-delete_ne}
use ant_http.Bst.Order.{IsOrdered, bst_delete-IsOrdered}
use ant_http.Bst.Size.{size-delete}
use ant_http.Bst.{Tree, bst_find, bst_delete, bst_for_each}
use ant_http.Prelude.{
  ℕ, ◌+◌, ℤ, pos, ◌<ℤ◌, ◌-ℤ◌, ltb_ℤ, ne_of_gt, true, if◌then◌else◌, Option, none, some, List, [],
  ◌∷◌, ◌++◌, append_assoc, append-nil, All, All-imp, ◌≡◌, ◌≢◌, refl, sym, ap, ◌∙◌, arith,
}
use ant_http.Scheduler.Execute.{ok, Clock, antd_scheduler_validate_data, antd_task_schedule}
use ant_http.Scheduler.Wait.{antd_deploy_task}
use ant_http.Scheduler.{Task, Scheduler, enqueue}

pub enqueue-append {ℓ} : {A : Type ℓ} (q : List A) (a : A) → enqueue q a ≡ q ++ a ∷ []
unfolding enqueue
enqueue-append [] a = refl
enqueue-append (x ∷ q) a = rw (enqueue-append q a)

count_down : (p : ℤ) (a b : ℕ) → p ≡ pos a → b + 1 ≡ a → p -ℤ pos 1 ≡ pos b
count_down p a b h k = ground arith

module _ {H D : Type 0} where
  -- The number of pending tasks is the number of tasks in the queue.
  abbrev pub IsCounted : Scheduler H D → Type 0
  IsCounted s = s.pending_task ≡ pos (size s.task_queue)

  unfoldable pub valid_tasks : Clock → List (ℤ × Task H D) → List (Task H D)
  valid_tasks c [] = []
  valid_tasks c ((k, t) ∷ es) =
      (if antd_scheduler_validate_data c t then t ∷ [] else []) ++ valid_tasks c es

  unfoldable pub expired_data : Clock → List (ℤ × Task H D) → List D
  expired_data c [] = []
  expired_data c ((k, t) ∷ es) =
      (if antd_scheduler_validate_data c t then [] else t.data_of ∷ []) ++ expired_data c es

  -- What the loop over the scheduled tasks `es` made of `s`.
  pub record Deployed (c : Clock) (es : List (ℤ × Task H D)) (s s' : Scheduler H D) : Type 0 where
    pub ordered : IsOrdered s'.task_queue
    pub counted : IsCounted s'
    pub others :
        (x : ℤ) → All (λ e. e.0 ≢ x) es → bst_find s'.task_queue x ≡ bst_find s.task_queue x
    pub gone : All (λ e. bst_find s'.task_queue e.0 ≡ none) es
    pub queued : s'.workers_queue ≡ s.workers_queue ++ valid_tasks c es
    pub dropped : s'.killed ≡ s.killed ++ expired_data c es

  -- A scheduled task stands in the queue under its id.
  abbrev pub InQueue : Tree (Task H D) → ℤ × Task H D → Type 0
  InQueue q (k, t) = (t.id ≡ k) × (u : Task H D) × (bst_find q k ≡ some u)

  InQueue-delete :
      (q : Tree (Task H D)) (k : ℤ)
      → IsOrdered q
      → (e : ℤ × Task H D) → (k <ℤ e.0) × InQueue q e
      → InQueue (bst_delete q k) e
  InQueue-delete q k o (j, t) (lt, (id, u, found)) =
      (id, u, find-delete_ne q k j o (ne_of_gt j k lt) ∙ found)

  InQueue-delete_each :
      (q : Tree (Task H D)) (k : ℤ) (es : List (ℤ × Task H D))
      → IsOrdered q
      → All (λ e. k <ℤ e.0) es
      → All (InQueue q) es
      → All (InQueue (bst_delete q k)) es
  InQueue-delete_each q k [] o low inq = tt
  InQueue-delete_each q k (e ∷ es) o (lt, low) (here, inq) =
      (InQueue-delete q k o e (lt, here), InQueue-delete_each q k es o low inq)

  unfoldable schedule_one : Clock → Task H D → Scheduler H D → Scheduler H D
  schedule_one c t s =
      let s₁ = record s { pending_task = s.pending_task -ℤ pos 1 } in
      if antd_scheduler_validate_data c t
      then record s₁ { workers_queue = s.workers_queue ++ t ∷ []; worker_sem = s.worker_sem + 1 }
      else record s₁ { killed = s.killed ++ t.data_of ∷ []; destroyed = s.destroyed ++ t ∷ [] }

  module _ (run : H → D → Scheduler H D → Option (Task H D) × Scheduler H D) (c : Clock) where
    schedule-one :
        (t : Task H D) (s : Scheduler H D)
        → ltb_ℤ (pos 0) s.n_workers ≡ true
        → antd_task_schedule run c t s ≡ ok (schedule_one c t s)
    unfolding antd_task_schedule schedule_one
    schedule-one t s w = rw (w, enqueue-append) (ground arith)

    deploy_one : Task H D → Scheduler H D → Scheduler H D
    deploy_one t s = schedule_one c t (record s { task_queue = bst_delete s.task_queue t.id })

    deploy-one :
        (k : ℤ) (t : Task H D) (s : Scheduler H D)
        → ltb_ℤ (pos 0) s.n_workers ≡ true
        → antd_deploy_task run c k t (ok s) ≡ ok (deploy_one t s)
    unfolding antd_deploy_task deploy_one
    deploy-one k t s w = schedule-one t (record s { task_queue = bst_delete s.task_queue t.id }) w

    deploy_one_queue :
        (t : Task H D) (s : Scheduler H D)
        → (deploy_one t s).task_queue ≡ bst_delete s.task_queue t.id
    unfolding deploy_one schedule_one
    deploy_one_queue t s = ground arith

    deploy_one_workers :
        (t : Task H D) (s : Scheduler H D) → (deploy_one t s).n_workers ≡ s.n_workers
    unfolding deploy_one schedule_one
    deploy_one_workers t s = ground arith

    deploy_one_pending :
        (t : Task H D) (s : Scheduler H D) → (deploy_one t s).pending_task ≡ s.pending_task -ℤ pos 1
    unfolding deploy_one schedule_one
    deploy_one_pending t s = ground arith

    deploy_one_queued :
        (k : ℤ) (t : Task H D) (s : Scheduler H D) (es : List (ℤ × Task H D))
        → (deploy_one t s).workers_queue ++ valid_tasks c es
          ≡ s.workers_queue ++ valid_tasks c ((k, t) ∷ es)
    unfolding deploy_one schedule_one valid_tasks
    deploy_one_queued k t s es =
        ground (arith, append_assoc s.workers_queue (t ∷ []) (valid_tasks c es))

    deploy_one_dropped :
        (k : ℤ) (t : Task H D) (s : Scheduler H D) (es : List (ℤ × Task H D))
        → (deploy_one t s).killed ++ expired_data c es ≡ s.killed ++ expired_data c ((k, t) ∷ es)
    unfolding deploy_one schedule_one expired_data
    deploy_one_dropped k t s es =
        ground (arith, append_assoc s.killed (t.data_of ∷ []) (expired_data c es))

    fold-Deployed :
        (es : List (ℤ × Task H D)) (s : Scheduler H D)
        → ltb_ℤ (pos 0) s.n_workers ≡ true
        → IsOrdered s.task_queue
        → IsCounted s
        → IsAscending es
        → All (InQueue s.task_queue) es
        → (s' : Scheduler H D) × (fold es (antd_deploy_task run c) (ok s) ≡ ok s')
          × Deployed c es s s'
    unfolding fold
    fold-Deployed [] s w o n asc inq = (
      s,
      refl,
      record {
        ordered = o;
        counted = n;
        others = λ x a. refl;
        gone = tt;
        queued = unfold valid_tasks in sym (append-nil s.workers_queue);
        dropped = unfold expired_data in sym (append-nil s.killed);
      },
    )
    fold-Deployed ((k, t) ∷ es) s w o n (low, asc) ((id, u, found), inq) =
        let q = s.task_queue in
        let s₁ = deploy_one t s in
        let queue : s₁.task_queue ≡ bst_delete q k = rw (deploy_one_queue t s, id) in
        let n₁ =
          deploy_one_pending t s
          ∙ count_down s.pending_task (size q) (size (bst_delete q k)) n (size-delete q k u o found)
          ∙ ap (λ q. pos (size q)) (sym queue) in
        let (s', done, d) =
          fold-Deployed es s₁ (rw (deploy_one_workers t s) w)
            (rw queue (bst_delete-IsOrdered q k o)) n₁ asc
            (rw queue (InQueue-delete_each q k es o low inq)) in
        let gone_here =
          d.others k (All-imp (λ e h. ne_of_gt e.0 k h) es low)
          ∙ ap (λ q. bst_find q k) queue
          ∙ find-delete_self q k o in
        (
          s',
          rw (deploy-one k t s w) done,
          record {
            ordered = d.ordered;
            counted = d.counted;
            others = λ x a.
                d.others x a.1
                ∙ ap (λ q. bst_find q x) queue
                ∙ find-delete_ne q k x o (λ e. a.0 (sym e));
            gone = (gone_here, d.gone);
            queued = d.queued ∙ deploy_one_queued k t s es;
            dropped = d.dropped ∙ deploy_one_dropped k t s es;
          },
        )

  -- With workers, and an ordered, counted queue that holds the scheduled tasks, the loop over these
  -- takes each of them out of the queue and leaves the others; the valid ones go to the workers in the order of their ids, behind what is there,
  -- the data of the rest is destroyed, and the pending tasks are still those of the queue.
  pub deploy_each-Deployed :
      (run : H → D → Scheduler H D → Option (Task H D) × Scheduler H D) (c : Clock)
      (scheduled : Tree (Task H D)) (s : Scheduler H D)
      → ltb_ℤ (pos 0) s.n_workers ≡ true
      → IsOrdered s.task_queue
      → IsCounted s
      → IsOrdered scheduled
      → All (InQueue s.task_queue) (entries scheduled)
      → (s' : Scheduler H D) × (bst_for_each scheduled (antd_deploy_task run c) (ok s) ≡ ok s')
        × Deployed c (entries scheduled) s s'
  deploy_each-Deployed run c scheduled s w o n os inq =
      rw (for_each-fold scheduled (antd_deploy_task run c) (ok s))
        (fold-Deployed run c (entries scheduled) s w o n (entries-IsAscending scheduled os) inq)

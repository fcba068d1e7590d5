-- ===== src/Scheduler/Execute/Chain.antt =====
-- The functions that a task still has to run, its handle and then its callbacks, across
-- `antd_execute_task`.
use ant_http.Bst.Lookup.{find-insert_self}
use ant_http.Bst.{bst_find}
use ant_http.Prelude.{
  false, Option, none, some, List, [], ◌∷◌, ◌++◌, append_assoc, append-nil, ◌≡◌, refl, sym, ap,
  subst,
}
use ant_http.Scheduler.Execute.{
  Run, ok, add_task, run_callback, execute_callback, hand_over, dispatch, finish_task, call_handle,
  antd_execute_task,
}
use ant_http.Scheduler.{Task, Scheduler, is_zero, enqueue_callback, destroy_task, submit}

enqueue_callback-append {ℓ} :
    {A : Type ℓ} (c : A) (cb el : List A) → enqueue_callback (c ∷ cb) el ≡ c ∷ (cb ++ el)
unfolding enqueue_callback
enqueue_callback-append c [] el = refl
enqueue_callback-append c (d ∷ cb) el = ap (λ l. c ∷ l) (enqueue_callback-append d cb el)

-- The two chains of callbacks are appended, those of the new task first.
pub hand_over-append {ℓ} : {A : Type ℓ} (cb rcb : List A) → hand_over cb rcb ≡ rcb ++ cb
unfolding hand_over
hand_over-append [] rcb = sym (append-nil rcb)
hand_over-append (c ∷ cb) [] = refl
hand_over-append (c ∷ cb) (d ∷ rcb) = enqueue_callback-append d rcb (c ∷ cb)

abbrev pub handles {ℓ} : {H : Type ℓ} → Option H → List H
handles none = []
handles (some h) = h ∷ []

module _ {H D : Type 0} where
  -- What the task still has to run.
  abbrev pub chain : Task H D → List H
  chain t = handles t.handle ++ t.callback

  -- What remains when the handler of `t` returned `ret`.
  abbrev pub remaining : Task H D → Option (Task H D) → List H
  remaining t none = t.callback
  remaining t (some r) = chain r ++ t.callback

  abbrev pub next_task : Task H D → Option (Task H D) → Task H D
  next_task t none = t
  next_task t (some r) = r

  add_task-submit :
      (t : Task H D) (s : Scheduler H D) → is_zero t.id ≡ false → add_task t s ≡ ok (submit t s)
  unfolding add_task
  add_task-submit t s h = rw h

  -- The task is queued again under its id, and goes on with the same functions.
  abbrev pub GoesOn : Task H D → List H → Run (Scheduler H D) → Type 0
  GoesOn t todo result =
      (s' : Scheduler H D) × (u : Task H D) × (result ≡ ok s')
      × (bst_find s'.task_queue t.id ≡ some u)
      × (chain u ≡ todo)

  run_callback-GoesOn :
      (t : Task H D) (h : H) (hs : List H) (s : Scheduler H D)
      → is_zero t.id ≡ false
      → GoesOn t (h ∷ hs) (run_callback t (h ∷ hs) s)
  unfolding run_callback submit
  run_callback-GoesOn t h hs s nz =
      let u = record t { handle = some h; callback = hs } in
      (submit u s, u, add_task-submit u s nz, find-insert_self s.task_queue t.id u, refl)

  dispatch-GoesOn :
      (o : Option H) (r : Task H D) (h : H) (hs cb : List H) (s : Scheduler H D)
      → is_zero r.id ≡ false
      → r.handle ≡ o
      → r.callback ≡ cb
      → handles o ++ cb ≡ h ∷ hs
      → GoesOn r (h ∷ hs) (dispatch o r s)
  unfolding dispatch execute_callback submit
  dispatch-GoesOn none r h hs cb s nz eh ec e = rw (ec, e) (run_callback-GoesOn r h hs s nz)
  dispatch-GoesOn (some g) r h hs cb s nz eh ec e =
      (submit r s, r, add_task-submit r s nz, find-insert_self s.task_queue r.id r, rw (eh, ec) e)

  finish_task-GoesOn :
      (t : Task H D) (ret : Option (Task H D)) (h : H) (hs : List H) (s : Scheduler H D)
      → is_zero (next_task t ret).id ≡ false
      → remaining t ret ≡ h ∷ hs
      → GoesOn (next_task t ret) (h ∷ hs) (finish_task t ret s)
  unfolding finish_task destroy_task execute_callback
  finish_task-GoesOn t none h hs s nz e = rw e (run_callback-GoesOn t h hs s nz)
  finish_task-GoesOn t (some r) h hs s nz e =
      let r' = record r { callback = hand_over t.callback r.callback } in
      let (s', u, run, found, same) =
        dispatch-GoesOn r.handle r' h hs (hand_over t.callback r.callback) s nz refl refl
          (rw (hand_over-append, ← append_assoc) e) in
      (destroy_task (record t { callback = [] }) s', u, rw run, found, same)

  -- A task whose handler returned `ret`, with functions left to run, is queued again under the id
  -- of `ret`, or its own if `ret` is NULL, where that id is not 0. It then goes on with the handle and the callbacks of
  -- `ret` and behind them its own callbacks, in order, each once.
  pub execute-chain :
      (run : H → D → Scheduler H D → Option (Task H D) × Scheduler H D) (t : Task H D) (g h : H)
      (hs : List H) (s s₁ : Scheduler H D) (ret : Option (Task H D))
      → t.handle ≡ some g
      → run g t.data_of s ≡ (ret, s₁)
      → is_zero (next_task t ret).id ≡ false
      → remaining t ret ≡ h ∷ hs
      → GoesOn (next_task t ret) (h ∷ hs) (antd_execute_task run t s)
  unfolding antd_execute_task
  execute-chain run t g h hs s s₁ ret eh er nz e =
      subst (λ o. GoesOn (next_task t ret) (h ∷ hs) (call_handle run o t s)) (sym eh)
        (rw (er, call_handle) (finish_task-GoesOn t ret h hs s₁ nz e))

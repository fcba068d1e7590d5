-- ===== src/Scheduler/Ids.antt =====
-- Task ids: the loop of `antd_scheduler_next_id` ends, at an id that no queued task has.
use ant_http.Bst.Entries.{size}
use ant_http.Bst.Lookup.{find-delete_ne}
use ant_http.Bst.Order.{IsOrdered, bst_delete-IsOrdered}
use ant_http.Bst.Size.{size-delete}
use ant_http.Bst.{Tree, leaf, node, bst_find, bst_delete}
use ant_http.Prelude.{
  ℕ, zero, suc, ◌+◌, ◌<◌, ℤ, pos, negsuc, ◌+ℤ◌, ltb_ℤ, ne_of_gt, Bool-cases, Option-cases, inl, inr,
  false, if◌then◌else◌, none, some, ◌≡◌, ◌≢◌, refl, ◌∙◌, arith,
}
use ant_http.Scheduler.{Task, Scheduler, is_zero, find_id, size_fuel, antd_scheduler_next_id}

positive : (r a : ℤ) → ltb_ℤ a (pos 0) ≡ false → ltb_ℤ r (a +ℤ pos 1) ≡ false → is_zero r ≡ false
positive (pos zero) a h k = ground arith
positive (pos (suc n)) a h k = refl
positive (negsuc n) a h k = refl

least_down : (r a : ℤ) → ltb_ℤ r (a +ℤ pos 1) ≡ false → ltb_ℤ r a ≡ false
least_down r a h = ground arith

above_ne : (y a : ℤ) → ltb_ℤ y (a +ℤ pos 1) ≡ false → y ≢ a
above_ne y a h = ne_of_gt y a (ground arith)

least_refl : (a : ℤ) → ltb_ℤ a a ≡ false
least_refl a = ground arith

start_nonneg : (a : ℤ) → ltb_ℤ (if ltb_ℤ a (pos 0) then pos 0 else a) (pos 0) ≡ false
start_nonneg a = ground arith

suc_nonneg : (a : ℤ) → ltb_ℤ a (pos 0) ≡ false → ltb_ℤ (a +ℤ pos 1) (pos 0) ≡ false
suc_nonneg a h = ground arith

module _ {H D : Type 0} where
  size_fuel-size : (t : Tree (Task H D)) → size_fuel t ≡ size t + 1
  unfolding size_fuel size
  size_fuel-size leaf = refl
  size_fuel-size (node l k v r) = omega (arith, size_fuel-size l, size_fuel-size r)

  find_id_free :
      (fuel : ℕ) (t : Tree (Task H D)) (x a : ℤ)
      → bst_find t x ≡ none
      → find_id (suc fuel) t x a ≡ some (x, a)
  unfolding find_id
  find_id_free fuel t x a h = rw (h, find_id)

  find_id_taken :
      (fuel : ℕ) (t : Tree (Task H D)) (x a : ℤ) (v : Task H D)
      → bst_find t x ≡ some v
      → find_id (suc fuel) t x a ≡ find_id fuel t (a +ℤ pos 1) (a +ℤ pos 1)
  unfolding find_id
  find_id_taken fuel t x a v h = rw (h, find_id)

  -- What the loop returns, from an allocator that is at `least` or above.
  abbrev Found : ℕ → Tree (Task H D) → ℤ → ℤ → ℤ → Type 0
  Found fuel t id allocator least =
      (r : ℤ × ℤ) × (find_id fuel t id allocator ≡ some r)
      × (bst_find t r.0 ≡ none)
      × (ltb_ℤ r.0 least ≡ false)

  -- `u` is what is left of the queue when the ids that were tried are taken out.
  find_id-Found :
      (fuel : ℕ) (t u : Tree (Task H D)) (a : ℤ)
      → IsOrdered u
      → ((y : ℤ) → ltb_ℤ y a ≡ false → bst_find u y ≡ bst_find t y)
      → size u < fuel
      → Found fuel t a a a
  find_id-Found zero t u a s same h = absurd (omega arith)
  find_id-Found (suc fuel) t u a s same h = elim (Option-cases (bst_find t a)) [
    | inl free ↦ ((a, a), find_id_free fuel t a a free, free, least_refl a)
    | inr (v, taken) ↦
        let shrunk = size-delete u a v s (same a (least_refl a) ∙ taken) in
        let (r, run, free, above) =
          find_id-Found fuel t (bst_delete u a) (a +ℤ pos 1) (bst_delete-IsOrdered u a s)
            (λ y le. find-delete_ne u a y s (above_ne y a le) ∙ same y (least_down y a le))
            (omega arith) in
        (r, find_id_taken fuel t a a v taken ∙ run, free, least_down r.0 a above)
  ]

  -- The loop, from any id whose successor candidates are positive.
  find_id_total :
      (t : Tree (Task H D)) (x a : ℤ)
      → IsOrdered t
      → is_zero x ≡ false
      → ltb_ℤ a (pos 0) ≡ false
      → (r : ℤ × ℤ) × (find_id (suc (size_fuel t)) t x a ≡ some r)
        × (bst_find t r.0 ≡ none)
        × (is_zero r.0 ≡ false)
  find_id_total t x a s nz na = elim (Option-cases (bst_find t x)) [
    | inl free ↦ ((x, a), find_id_free (size_fuel t) t x a free, free, nz)
    | inr (v, taken) ↦
        let (r, run, free, above) =
          find_id-Found (size_fuel t) t t (a +ℤ pos 1) s (λ y le. refl)
            (omega (arith, size_fuel-size t)) in
        (r, find_id_taken (size_fuel t) t x a v taken ∙ run, free, positive r.0 a na above)
  ]

  -- From an ordered queue the loop ends within its fuel, at an id that is free and is not 0.
  pub next_id-free :
      (s : Scheduler H D) (input : ℤ)
      → IsOrdered s.task_queue
      → (r : ℤ × ℤ) × (antd_scheduler_next_id (suc (size_fuel s.task_queue)) s input ≡ some r)
        × (bst_find s.task_queue r.0 ≡ none)
        × (is_zero r.0 ≡ false)
  unfolding antd_scheduler_next_id
  next_id-free s input o =
      let q = s.task_queue in
      let a = if ltb_ℤ s.id_allocator (pos 0) then pos 0 else s.id_allocator in
      let na = start_nonneg s.id_allocator in
      elim (Bool-cases (is_zero input)) [
        | inl zero_id ↦ rw zero_id (
            find_id_total q (a +ℤ pos 1) (a +ℤ pos 1) o
              (positive (a +ℤ pos 1) a na (least_refl (a +ℤ pos 1))) (suc_nonneg a na))
        | inr given ↦ rw given (find_id_total q input a o given na)
      ]

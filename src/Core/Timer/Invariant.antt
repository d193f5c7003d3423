-- ===== src/Core/Timer/Invariant.antt =====
-- The invariant of the timer manager (core/timermanager.{h,cpp}), and that the queue's `push` and
-- `remove_by_id` keep it.
use chungusppc.Common.{
  ◌+◌, leb, to_nat, ℕ, ◌==◌, ==_iff, ◌≡◌, refl, sym, ◌∙◌, ◌&&◌, not, Bool-cases, true, false, inl,
  inr, List, ap, arith,
}
use chungusppc.Core.Timer.{TimerInfo, deadlines, write, push, remove_by_id}
use chungusppc.Core.Timer.Due.{due, due-push, due-agree}
use chungusppc.Core.Timer.Order.{
  contains, IsOrdered, push-IsOrdered, contains-push, without, without-IsOrdered, contains-without,
  remove_lem, IsOrdered-agree,
}

module _ {C : Type 0} where
  -- The queue is in the order of the deadlines, and holds the active timers, each once.
  pub record IsQueue (timers : ℕ → TimerInfo C) (queue : List ℕ) : Type 0 where
    pub ordered : IsOrdered (deadlines timers) queue
    pub registered : (i : ℕ) → contains i queue ≡ (timers i).active

  pub write-other :
      (timers : ℕ → TimerInfo C) (ti : ℕ) (info : TimerInfo C) (i : ℕ)
      → (i == ti) ≡ false
      → write timers ti info i ≡ timers i
  unfolding write
  write-other timers ti info i h = rw h

  pub write_self :
      (timers : ℕ → TimerInfo C) (ti : ℕ) (info : TimerInfo C) (i : ℕ)
      → (i == ti) ≡ true
      → write timers ti info i ≡ info
  unfolding write
  write_self timers ti info i h = rw h

  pub agree-write :
      (timers : ℕ → TimerInfo C) (ti : ℕ) (info : TimerInfo C) (queue : List ℕ)
      → contains ti queue ≡ false
      → (i : ℕ) → contains i queue ≡ true
      → deadlines timers i ≡ deadlines (write timers ti info) i
  unfolding deadlines
  agree-write timers ti info queue absent i there = elim (Bool-cases (i == ti)) [
    | inl at ↦
        let e : i ≡ ti = (==_iff i ti).0 at in
        let b : true ≡ false = sym there ∙ (ap (λ k. contains k queue) e ∙ absent) in absurd cc
    | inr other ↦ ap (λ info. info.timeout_ns) (sym (write-other timers ti info i other))
  ]

  pub push-IsQueue :
      (timers : ℕ → TimerInfo C) (queue : List ℕ) (ti : ℕ) (info : TimerInfo C)
      → IsOrdered (deadlines timers) queue
      → ((i : ℕ) → (i == ti) ≡ false → contains i queue ≡ (timers i).active)
      → contains ti queue ≡ false
      → info.active ≡ true
      → IsQueue (write timers ti info) (push (deadlines (write timers ti info)) ti queue)
  push-IsQueue timers queue ti info o r absent on =
      let d = deadlines (write timers ti info) in
      record {
        ordered = push-IsOrdered d ti queue absent (
            IsOrdered-agree (deadlines timers) d queue (agree-write timers ti info queue absent) o);
        registered = λ i. contains-push d i ti queue ∙ elim (Bool-cases (i == ti)) [
          | inl at ↦ rw (at, write_self timers ti info i at) (sym on)
          | inr other ↦ rw (other, write-other timers ti info i other) (r i other)
        ];
      }

  pub remove-IsQueue :
      (timers : ℕ → TimerInfo C) (queue : List ℕ) (ti : ℕ) (info : TimerInfo C)
      → IsQueue timers queue
      → info.active ≡ false
      → IsQueue (write timers ti info) (remove_by_id (deadlines timers) ti queue)
  remove-IsQueue timers queue ti info q off =
      let d = deadlines timers in
      let absent : contains ti (without ti queue) ≡ false =
        contains-without d ti ti queue q.ordered ∙ ground arith in
      rw (remove_lem d ti queue q.ordered) (record {
        ordered =
            IsOrdered-agree d (deadlines (write timers ti info)) (without ti queue)
              (agree-write timers ti info (without ti queue) absent)
              (without-IsOrdered d ti queue q.ordered);
        registered = λ i. contains-without d i ti queue q.ordered ∙ elim (Bool-cases (i == ti)) [
          | inl at ↦ rw (at, write_self timers ti info i at) (sym off)
          | inr other ↦ rw (other, write-other timers ti info i other) (q.registered i)
        ];
      })

  -- What the two operations do to the number of timers that have expired.
  pub deadlines-write :
      (timers : ℕ → TimerInfo C) (ti : ℕ) (info : TimerInfo C)
      → deadlines (write timers ti info) ti ≡ info.timeout_ns
  unfolding deadlines
  deadlines-write timers ti info =
      ap (λ info. info.timeout_ns) (write_self timers ti info ti ((==_iff ti ti).1 refl))

  due-write :
      (timers : ℕ → TimerInfo C) (queue : List ℕ) (ti : ℕ) (info : TimerInfo C) (time_now : ℕ)
      → contains ti queue ≡ false
      → due (deadlines (write timers ti info)) time_now queue
        ≡ due (deadlines timers) time_now queue
  due-write timers queue ti info time_now absent = sym (
      due-agree (deadlines timers) time_now (deadlines (write timers ti info)) queue
        (agree-write timers ti info queue absent))

  pub due-push_write :
      (timers : ℕ → TimerInfo C) (queue : List ℕ) (ti : ℕ) (info : TimerInfo C) (time_now : ℕ)
      → contains ti queue ≡ false
      → due
          (deadlines (write timers ti info))
          time_now
          (push (deadlines (write timers ti info)) ti queue)
        ≡ to_nat (leb info.timeout_ns time_now) + due (deadlines timers) time_now queue
  due-push_write timers queue ti info time_now absent =
      rw
        (
          due-push (deadlines (write timers ti info)) time_now ti queue,
          deadlines-write timers ti info,
          due-write timers queue ti info time_now absent,
        )
        refl

  pub contains-remove :
      (timers : ℕ → TimerInfo C) (queue : List ℕ) (ti i : ℕ)
      → IsQueue timers queue
      → contains i (remove_by_id (deadlines timers) ti queue) ≡ (not (i == ti) && contains i queue)
  contains-remove timers queue ti i q =
      rw (remove_lem (deadlines timers) ti queue q.ordered)
        (contains-without (deadlines timers) i ti queue q.ordered)

  pub due-remove_write :
      (timers : ℕ → TimerInfo C) (queue : List ℕ) (ti : ℕ) (info : TimerInfo C) (time_now : ℕ)
      → IsQueue timers queue
      → due (deadlines (write timers ti info)) time_now (remove_by_id (deadlines timers) ti queue)
        ≡ due (deadlines timers) time_now (without ti queue)
  due-remove_write timers queue ti info time_now q =
      let absent : contains ti (without ti queue) ≡ false =
        contains-without (deadlines timers) ti ti queue q.ordered ∙ ground arith in
      rw (remove_lem (deadlines timers) ti queue q.ordered)
        (due-write timers (without ti queue) ti info time_now absent)

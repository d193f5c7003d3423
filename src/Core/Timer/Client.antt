-- ===== src/Core/Timer/Client.antt =====
-- What a client may do to the timer manager (core/timermanager.{h,cpp}): `add_absolute_timer`,
-- on which the other three rest, with an inactive timer, `cancel_timer`, and changes to the rest of the
-- machine. The invariant holds after any sequence of these.
use chungusppc.Common.{
  ℕ, ◌+◌, ◌^◌, ◌==◌, ◌≡◌, ◌≤◌, ◌<◌, refl, ◌∙◌, List, Bool-cases, false, inl, inr, arith,
}
use chungusppc.Core.Timer.{
  TimerInfo, TimerManager, deadlines, write, notify_timer_changes, add_absolute_timer, cancel_timer,
}
use chungusppc.Core.Timer.Due.{due, due-without_le}
use chungusppc.Core.Timer.Invariant.{
  IsQueue, push-IsQueue, remove-IsQueue, due-push_write, due-remove_write,
}

-- The client gives deadlines that are still to come, and intervals that do not reach the end of the
-- 64-bit clock.
abbrev pub Later : ℕ → ℕ → ℕ → Type 0
Later time_now timeout_ns interval = (time_now < timeout_ns) × (time_now + interval < 2 ^ 64)

module _ {C : Type 0} where
  abbrev pub IsPaced : ℕ → (ℕ → TimerInfo C) → Type 0
  IsPaced time_now timers = (i : ℕ) → time_now + (timers i).interval_ns < 2 ^ 64

  pub write-IsPaced :
      (time_now : ℕ) (timers : ℕ → TimerInfo C) (ti : ℕ) (info : TimerInfo C)
      → time_now + info.interval_ns < 2 ^ 64
      → IsPaced time_now timers
      → IsPaced time_now (write timers ti info)
  unfolding write
  write-IsPaced time_now timers ti info h p i = elim (Bool-cases (i == ti)) [
    | inl at ↦ rw at h
    | inr other ↦ rw other (p i)
  ]

module _ {M C : Type 0} where
  -- The queue of the manager is in order, and holds the active timers, each once.
  abbrev pub IsQueued : TimerManager M C → Type 0
  IsQueued m = IsQueue m.timers m.timer_queue

  -- The expired timers of the queue.
  abbrev pub overdue : ℕ → TimerManager M C → ℕ
  overdue time_now m = due (deadlines m.timers) time_now m.timer_queue

module _ {M C : Type 0} (notify : M → M) where
  -- `Allowed` says which deadlines and intervals the client gives.
  pub data Client (Allowed : ℕ → ℕ → Type 0) (m : TimerManager M C)
      : TimerManager M C → Type 0 where
    done : Client Allowed m m
    run :
        {n : TimerManager M C}
        → Client Allowed m n
        → (env : M) → Client Allowed m (record n { env = env })
    add :
        {n : TimerManager M C}
        → Client Allowed m n
        → (ti timeout_ns interval : ℕ) (cb : C) → (n.timers ti).active ≡ false
        → Allowed timeout_ns interval
        → Client Allowed m (add_absolute_timer notify ti timeout_ns interval cb n)
    cancel :
        {n : TimerManager M C}
        → Client Allowed m n
        → (ti : ℕ) → Client Allowed m (cancel_timer notify ti n)

  -- Listeners that are notified see the same timers.
  pub notify-keeps :
      (P : (ℕ → TimerInfo C) → List ℕ → Type 0) (m : TimerManager M C)
      → P m.timers m.timer_queue
      → P (notify_timer_changes notify m).timers (notify_timer_changes notify m).timer_queue
  unfolding notify_timer_changes
  notify-keeps P m p = elim (Bool-cases m.cb_active) [ inl on ↦ rw on p | inr off ↦ rw off p ]

  add-IsQueued :
      (ti timeout_ns interval : ℕ) (cb : C) (m : TimerManager M C)
      → (m.timers ti).active ≡ false
      → IsQueued m
      → IsQueued (add_absolute_timer notify ti timeout_ns interval cb m)
  unfolding add_absolute_timer
  add-IsQueued ti timeout_ns interval cb m off q = notify-keeps IsQueue _ (
      push-IsQueue m.timers m.timer_queue ti _ q.ordered (λ i _. q.registered i)
        (q.registered ti ∙ off) refl)

  cancel-IsQueued :
      (ti : ℕ) (m : TimerManager M C) → IsQueued m → IsQueued (cancel_timer notify ti m)
  unfolding cancel_timer
  cancel-IsQueued ti m q =
      notify-keeps IsQueue _ (remove-IsQueue m.timers m.timer_queue ti _ q refl)

  -- From a manager whose queue is in order and holds the active timers, each once, a client that adds only
  -- inactive timers comes to such a manager again.
  pub Client-IsQueued :
      {Allowed : ℕ → ℕ → Type 0} {m n : TimerManager M C}
      → Client Allowed m n
      → IsQueued m
      → IsQueued n
  Client-IsQueued done q = q
  Client-IsQueued (run c env) q = Client-IsQueued c q
  Client-IsQueued (add c ti timeout_ns interval cb off ok) q =
      add-IsQueued ti timeout_ns interval cb _ off (Client-IsQueued c q)
  Client-IsQueued (cancel c ti) q = cancel-IsQueued ti _ (Client-IsQueued c q)

  module _ (time_now : ℕ) where
    pub Client-IsPaced :
        {m n : TimerManager M C}
        → Client (Later time_now) m n
        → IsPaced time_now m.timers
        → IsPaced time_now n.timers
    unfolding add_absolute_timer cancel_timer
    Client-IsPaced done p = p
    Client-IsPaced (run c env) p = Client-IsPaced c p
    Client-IsPaced (add {n} c ti timeout_ns interval cb off ok) p =
        notify-keeps (λ timers _. IsPaced time_now timers) _
          (write-IsPaced time_now n.timers ti _ ok.1 (Client-IsPaced c p))
    Client-IsPaced (cancel {n} c ti) p =
        notify-keeps (λ timers _. IsPaced time_now timers) _
          (write-IsPaced time_now n.timers ti _ (Client-IsPaced c p ti) (Client-IsPaced c p))

    add-overdue :
        (ti timeout_ns interval : ℕ) (cb : C) (m : TimerManager M C)
        → (m.timers ti).active ≡ false
        → time_now < timeout_ns
        → IsQueued m
        → overdue time_now (add_absolute_timer notify ti timeout_ns interval cb m)
          ≤ overdue time_now m
    unfolding add_absolute_timer
    add-overdue ti timeout_ns interval cb m off later q =
        notify-keeps (λ timers queue. due (deadlines timers) time_now queue ≤ overdue time_now m) _
          (rw (due-push_write m.timers m.timer_queue ti _ time_now (q.registered ti ∙ off))
            (ground arith))

    cancel-overdue :
        (ti : ℕ) (m : TimerManager M C)
        → IsQueued m
        → overdue time_now (cancel_timer notify ti m) ≤ overdue time_now m
    unfolding cancel_timer
    cancel-overdue ti m q =
        notify-keeps (λ timers queue. due (deadlines timers) time_now queue ≤ overdue time_now m) _
          (rw (due-remove_write m.timers m.timer_queue ti _ time_now q)
            (due-without_le (deadlines m.timers) time_now ti m.timer_queue))

    -- A client that gives only deadlines that are still to come makes no more timers overdue.
    pub Client-overdue :
        {m n : TimerManager M C}
        → Client (Later time_now) m n
        → IsQueued m
        → overdue time_now n ≤ overdue time_now m
    Client-overdue done q = omega arith
    Client-overdue (run c env) q = Client-overdue c q
    Client-overdue (add {n} c ti timeout_ns interval cb off ok) q = omega (
      arith,
      add-overdue ti timeout_ns interval cb n off ok.0 (Client-IsQueued c q),
      Client-overdue c q,
    )
    Client-overdue (cancel {n} c ti) q =
        omega (arith, cancel-overdue ti n (Client-IsQueued c q), Client-overdue c q)

-- ===== src/Core/Timer/Cancel.antt =====
-- `cancel_timer` and `cancel_all_timers` of core/timermanager.cpp.
use chungusppc.Common.{
  ℕ, ◌==◌, ◌≡◌, refl, ◌∙◌, not, ◌&&◌, Bool-cases, false, inl, inr, List, [], ◌∷◌, arith,
}
use chungusppc.Core.Timer.{
  TimerInfo, TimerManager, write, cancel_timer, cancel_queue, cancel_all_timers,
}
use chungusppc.Core.Timer.Order.{contains}
use chungusppc.Core.Timer.Invariant.{write-other, write_self, contains-remove}
use chungusppc.Core.Timer.Client.{IsQueued, notify-keeps}

module _ {C : Type 0} where
  write-active :
      (timers : ℕ → TimerInfo C) (ti i : ℕ)
      → (write timers ti (record (timers ti) { active = false }) i).active
        ≡ (not (i == ti) && (timers i).active)
  write-active timers ti i = elim (Bool-cases (i == ti)) [
    | inl at ↦ rw (write_self timers ti (record (timers ti) { active = false }) i at, at) refl
    | inr other ↦
        rw (write-other timers ti (record (timers ti) { active = false }) i other, other) refl
  ]

  cancel_queue-active :
      (queue : List ℕ) (timers : ℕ → TimerInfo C) (i : ℕ)
      → (cancel_queue queue timers i).active ≡ (not (contains i queue) && (timers i).active)
  unfolding cancel_queue contains
  cancel_queue-active [] timers i = refl
  cancel_queue-active (cur ∷ queue) timers i =
      cancel_queue-active queue (write timers cur (record (timers cur) { active = false })) i
      ∙ rw (write-active timers cur i) (ground arith)

module _ {M C : Type 0} where
  -- A timer that is cancelled is inactive and the others are as before; when all are cancelled, no
  -- timer is active and the queue is empty, if it held the active timers before.
  pub cancel_lem :
      (notify : M → M) (ti i : ℕ) (m : TimerManager M C)
      → IsQueued m
      → (((cancel_timer notify ti m).timers i).active ≡ (not (i == ti) && (m.timers i).active))
        × (contains i (cancel_timer notify ti m).timer_queue
            ≡ (not (i == ti) && contains i m.timer_queue))
        × (((cancel_all_timers m).timers i).active ≡ false)
        × ((cancel_all_timers m).timer_queue ≡ [])
  unfolding cancel_timer cancel_all_timers
  cancel_lem notify ti i m q = (
    notify-keeps notify (λ timers _. (timers i).active ≡ (not (i == ti) && (m.timers i).active)) _
        (write-active m.timers ti i),
    notify-keeps notify (λ _ queue. contains i queue ≡ (not (i == ti) && contains i m.timer_queue))
        _ (contains-remove m.timers m.timer_queue ti i q),
    cancel_queue-active m.timer_queue m.timers i ∙ rw (q.registered i) (ground arith),
    refl,
  )

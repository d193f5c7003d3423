-- ===== src/Core/Timer/Expire.antt =====
-- One timer that expires (`process_timers` of core/timermanager.cpp): the queue stays in order, and
-- one timer less is overdue.
use chungusppc.Common.{
  ℕ, suc, leb, ◌≡◌, ◌≤◌, ◌<◌, refl, sym, ◌∙◌, truth, Bool-cases, true, false, inl, inr, arith,
}
use chungusppc.Core.Timer.{TimerManager, deadlines, rearmed, expire, fire, remove_by_id}
use chungusppc.Core.Timer.Deadline.{rearmed_bounds}
use chungusppc.Core.Timer.Due.{due, due-without}
use chungusppc.Core.Timer.Order.{contains, without-IsOrdered, without, remove_lem, IsOrdered}
use chungusppc.Core.Timer.Invariant.{
  push-IsQueue, remove-IsQueue, contains-remove, due-push_write, due-remove_write,
}
use chungusppc.Core.Timer.Client.{
  IsQueued, overdue, IsPaced, write-IsPaced, Later, Client, Client-IsQueued, Client-IsPaced,
  Client-overdue,
}

module _ {M C : Type 0} (time_now cur : ℕ) (m : TimerManager M C) where
  module _ (q : IsQueued m) (there : contains cur m.timer_queue ≡ true) where
    removed-absent : contains cur (remove_by_id (deadlines m.timers) cur m.timer_queue) ≡ false
    removed-absent = contains-remove m.timers m.timer_queue cur cur q ∙ ground arith

    removed-IsOrdered :
        IsOrdered (deadlines m.timers) (remove_by_id (deadlines m.timers) cur m.timer_queue)
    removed-IsOrdered =
        rw (remove_lem (deadlines m.timers) cur m.timer_queue q.ordered)
          (without-IsOrdered (deadlines m.timers) cur m.timer_queue q.ordered)

    expire-IsQueued : IsQueued (expire time_now cur m)
    unfolding expire
    expire-IsQueued = elim (Bool-cases (truth (m.timers cur).interval_ns)) [
      | inl cyclic ↦ rw cyclic (
          push-IsQueue m.timers _ cur _ removed-IsOrdered
            (λ i other. contains-remove m.timers m.timer_queue cur i q ∙ rw other (q.registered i))
            removed-absent (sym (q.registered cur) ∙ there))
      | inr oneshot ↦ rw oneshot (remove-IsQueue m.timers m.timer_queue cur _ q refl)
    ]

    module _ (paced : IsPaced time_now m.timers) (late : (m.timers cur).timeout_ns ≤ time_now) where
      one_due :
          overdue time_now m ≡ suc (due (deadlines m.timers) time_now (without cur m.timer_queue))
      unfolding deadlines
      one_due = due-without (deadlines m.timers) time_now cur m.timer_queue there ∙ ground arith

      expire-overdue : suc (overdue time_now (expire time_now cur m)) ≡ overdue time_now m
      unfolding expire
      expire-overdue = elim (Bool-cases (truth (m.timers cur).interval_ns)) [
        | inl cyclic ↦
            let info = m.timers cur in
            let new = rearmed time_now info.timeout_ns info.interval_ns in
            let later : leb new time_now ≡ false = ground (
              arith,
              rearmed_bounds time_now info.timeout_ns info.interval_ns (ground arith) late
                  (paced cur),
            ) in
            rw
              (
                cyclic,
                due-push_write m.timers (remove_by_id (deadlines m.timers) cur m.timer_queue) cur
                    (record info { timeout_ns = new }) time_now removed-absent,
                later,
                remove_lem (deadlines m.timers) cur m.timer_queue q.ordered,
              )
              (omega (arith, one_due))
        | inr oneshot ↦
            rw
              (
                oneshot,
                due-remove_write m.timers m.timer_queue cur
                    (record (m.timers cur) { active = false }) time_now q,
              )
              (sym one_due)
      ]

  expire-IsPaced : IsPaced time_now m.timers → IsPaced time_now (expire time_now cur m).timers
  unfolding expire
  expire-IsPaced p = elim (Bool-cases (truth (m.timers cur).interval_ns)) [
    | inl cyclic ↦ rw cyclic (write-IsPaced time_now m.timers cur _ (p cur) p)
    | inr oneshot ↦ rw oneshot (write-IsPaced time_now m.timers cur _ (p cur) p)
  ]

-- What a callback may do: what a client may.
module _ {M C : Type 0} where
  abbrev pub Callbacks :
      (M → M) → (ℕ → ℕ → Type 0) → (C → ℕ → ℕ → TimerManager M C → TimerManager M C) → Type 0
  Callbacks notify Allowed call =
      (cb : C) (time_now timeout_ns : ℕ) (m : TimerManager M C)
      → Client notify Allowed m (call cb time_now timeout_ns m)

module _ {M C : Type 0} (notify : M → M) (call : C → ℕ → ℕ → TimerManager M C → TimerManager M C)
    (time_now cur : ℕ) (m : TimerManager M C) (q : IsQueued m)
    (there : contains cur m.timer_queue ≡ true) where
  pub fire-IsQueued :
      {Allowed : ℕ → ℕ → Type 0}
      → Callbacks notify Allowed call
      → IsQueued (fire call time_now cur m)
  unfolding fire
  fire-IsQueued clients =
      Client-IsQueued notify (clients _ _ _ _) (expire-IsQueued time_now cur m q there)

  module _ (clients : Callbacks notify (Later time_now) call)
      (paced : IsPaced time_now m.timers) where
    pub fire-IsPaced : IsPaced time_now (fire call time_now cur m).timers
    unfolding fire
    fire-IsPaced =
        Client-IsPaced notify time_now (clients _ _ _ _) (expire-IsPaced time_now cur m paced)

    pub fire-overdue :
        (m.timers cur).timeout_ns ≤ time_now
        → overdue time_now (fire call time_now cur m) < overdue time_now m
    unfolding fire
    fire-overdue late = omega (
      arith,
      expire-overdue time_now cur m q there paced late,
      Client-overdue notify time_now
          (clients (m.timers cur).cb time_now (m.timers cur).timeout_ns
            (record (expire time_now cur m) { cb_active = true }))
          (expire-IsQueued time_now cur m q there),
    )

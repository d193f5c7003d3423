-- ===== src/Core/Timer/Process.antt =====
-- `process_timers` of core/timermanager.cpp against what it promises: as long as an active timer has
-- expired, the earliest fires; then the expiry of the next is returned.
use chungusppc.Common.{
  ℕ, zero, suc, leb, ◌≡◌, ◌≤◌, ◌<◌, refl, sym, ◌∙◌, ap, Bool-cases, true, false, inl, inr, ◌⊎◌,
  some, List, [], ◌∷◌, arith,
}
use mathlib.Core.Path.{subst}
use chungusppc.Core.Timer.{
  TimerInfo, TimerManager, deadlines, fire, process_loop, process_queue, process_timers,
}
use chungusppc.Core.Timer.Due.{top_earliest}
use chungusppc.Core.Timer.Order.{contains}
use chungusppc.Core.Timer.Invariant.{IsQueue}
use chungusppc.Core.Timer.Client.{IsQueued, overdue, IsPaced, Later}
use chungusppc.Core.Timer.Expire.{Callbacks, fire-IsQueued, fire-IsPaced, fire-overdue}

List-cases : (c : List ℕ) → (c ≡ []) ⊎ ((top : ℕ) × (rest : List ℕ) × (c ≡ top ∷ rest))
List-cases [] = inl refl
List-cases (top ∷ rest) = inr (top, rest, refl)

module _ {C : Type 0} where
  -- The expiry of the next timer, or 0
  abbrev expiry_of : (ℕ → TimerInfo C) → List ℕ → ℕ
  expiry_of timers [] = 0
  expiry_of timers (cur ∷ _) = (timers cur).timeout_ns

module _ {M C : Type 0} where
  -- The deadline of an active timer; the queue plays no part.
  abbrev pub Earliest : ℕ → TimerManager M C → Type 0
  Earliest cur m =
      ((m.timers cur).active ≡ true)
      × ((i : ℕ) → (m.timers i).active ≡ true → (m.timers cur).timeout_ns ≤ (m.timers i).timeout_ns)

  -- What the manager is to do, without a queue.
  pub data Fires (call : C → ℕ → ℕ → TimerManager M C → TimerManager M C) (time_now : ℕ)
      : TimerManager M C → TimerManager M C → Type 0 where
    idle :
        {m : TimerManager M C}
        → ((i : ℕ) → (m.timers i).active ≡ true → time_now < (m.timers i).timeout_ns)
        → Fires call time_now m m
    next :
        {m n : TimerManager M C} (cur : ℕ)
        → Earliest cur m
        → (m.timers cur).timeout_ns ≤ time_now
        → Fires call time_now (fire call time_now cur m) n
        → Fires call time_now m n

  abbrev pub next_expiry : TimerManager M C → ℕ
  next_expiry m = expiry_of m.timers m.timer_queue

  pub record Settled (call : C → ℕ → ℕ → TimerManager M C → TimerManager M C) (time_now : ℕ)
      (m : TimerManager M C) (ret : ℕ) (n : TimerManager M C) : Type 0 where
    pub fired : Fires call time_now m n
    pub queued : IsQueued n
    pub expiry : ret ≡ next_expiry n

  -- What the front of the queue is.
  module _ (m : TimerManager M C) (q : IsQueued m) where
    front : (cur : ℕ) (c : List ℕ) → m.timer_queue ≡ cur ∷ c → IsQueue m.timers (cur ∷ c)
    front cur c e = subst (IsQueue m.timers) e q

    top-contains :
        (cur : ℕ) (c : List ℕ) → m.timer_queue ≡ cur ∷ c → contains cur m.timer_queue ≡ true
    unfolding contains
    top-contains cur c e = rw e (ground arith)

    top-Earliest : (cur : ℕ) (c : List ℕ) → m.timer_queue ≡ cur ∷ c → Earliest cur m
    unfolding deadlines
    top-Earliest cur c e = (
      sym (q.registered cur) ∙ top-contains cur c e,
      λ i on.
          top_earliest (deadlines m.timers) cur c (front cur c e).ordered i
            ((front cur c e).registered i ∙ on),
    )

    empty-idle : m.timer_queue ≡ [] → (i : ℕ) → (m.timers i).active ≡ true → (P : Type 0) → P
    unfolding contains
    empty-idle e i on P =
        let off : false ≡ (m.timers i).active = (subst (IsQueue m.timers) e q).registered i in
        absurd cc

  module _ (notify : M → M) (call : C → ℕ → ℕ → TimerManager M C → TimerManager M C) (time_now : ℕ)
      (clients : Callbacks notify (Later time_now) call) where
    loop-Settled :
        (fuel cur : ℕ) (c : List ℕ) (m : TimerManager M C)
        → m.timer_queue ≡ cur ∷ c
        → IsQueued m
        → IsPaced time_now m.timers
        → overdue time_now m < fuel
        → (ret : ℕ) × (n : TimerManager M C) × (process_loop call fuel time_now cur m
            ≡ some (ret, n))
          × Settled call time_now m ret n
    unfolding process_loop
    loop-Settled zero cur c m e q p enough = absurd (omega arith)
    loop-Settled (suc fuel) cur c m e q p enough =
        elim (Bool-cases (leb (m.timers cur).timeout_ns time_now)) [
          | inr early ↦ (
            (m.timers cur).timeout_ns,
            m,
            rw early refl,
            record {
              fired = Fires.idle (λ i on. ground (arith, (top-Earliest m q cur c e).1 i on));
              queued = q;
              expiry = rw e refl;
            },
          )
          | inl late ↦
              let there = top-contains m q cur c e in
              let q' = fire-IsQueued notify call time_now cur m q there clients in
              elim (List-cases (fire call time_now cur m).timer_queue) [
                | inl empty ↦ (
                  0,
                  fire call time_now cur m,
                  simp (late, empty),
                  record {
                    fired = Fires.next cur (top-Earliest m q cur c e) (ground arith) (
                        Fires.idle (λ i on. empty-idle (fire call time_now cur m) q' empty i on _));
                    queued = q';
                    expiry = rw empty refl;
                  },
                )
                | inr (top, rest, e') ↦
                    let fewer =
                      fire-overdue notify call time_now cur m q there clients p (ground arith) in
                    let (ret, n, ok, settled) =
                      loop-Settled fuel top rest (fire call time_now cur m) e' q'
                        (fire-IsPaced notify call time_now cur m q there clients p)
                        (omega (arith, fewer)) in
                    (
                      ret,
                      n,
                      simp (late, e', ok),
                      record {
                        fired =
                            Fires.next cur (top-Earliest m q cur c e) (ground arith) settled.fired;
                        queued = settled.queued;
                        expiry = settled.expiry;
                      },
                    )
              ]
        ]

    -- With more fuel than timers have expired, `process_timers` returns. It fires the earliest
    -- active timer again and again until none has expired, the queue is then in order and
    -- holds the active timers, and the result is the expiry of its first timer, or 0 if there is
    -- none. The callbacks add only inactive timers with deadlines still to come, and no interval
    -- reaches the end of the 64-bit clock.
    pub process_timers-Settled :
        (get_time_now : M → ℕ) (fuel : ℕ) (m : TimerManager M C)
        → get_time_now m.env ≡ time_now
        → IsQueued m
        → IsPaced time_now m.timers
        → overdue time_now m < fuel
        → (ret : ℕ) × (n : TimerManager M C) × (process_timers call get_time_now fuel m
            ≡ some (ret, n))
          × Settled call time_now m ret n
    unfolding process_timers
    process_timers-Settled get_time_now fuel m now q p enough = elim (List-cases m.timer_queue) [
      | inl empty ↦ (
        0,
        m,
        ap (process_queue call fuel (get_time_now m.env) m) empty,
        record {
          fired = Fires.idle (λ i on. empty-idle m q empty i on _);
          queued = q;
          expiry = sym (ap (expiry_of m.timers) empty);
        },
      )
      | inr (top, rest, e) ↦
          let (ret, n, ok, settled) = loop-Settled fuel top rest m e q p enough in
          (ret, n, ap (process_queue call fuel (get_time_now m.env) m) e ∙ rw now ok, settled)
    ]

  module _ (notify : M → M) (call : C → ℕ → ℕ → TimerManager M C → TimerManager M C)
      {Allowed : ℕ → ℕ → Type 0} (clients : Callbacks notify Allowed call) where
    loop-IsQueued :
        (fuel time_now cur : ℕ) (m : TimerManager M C) (ret : ℕ) (n : TimerManager M C)
        → contains cur m.timer_queue ≡ true
        → IsQueued m
        → process_loop call fuel time_now cur m ≡ some (ret, n)
        → IsQueued n
    unfolding process_loop
    loop-IsQueued zero time_now cur m ret n there q h = absurd cc
    loop-IsQueued (suc fuel) time_now cur m ret n there q h =
        elim (Bool-cases (leb (m.timers cur).timeout_ns time_now)) [
          | inr early ↦
              let h' : some ((m.timers cur).timeout_ns, m) ≡ some (ret, n) = simp early at h in
              let e : m ≡ n = cc in subst IsQueued e q
          | inl late ↦
              let q' = fire-IsQueued notify call time_now cur m q there clients in
              elim (List-cases (fire call time_now cur m).timer_queue) [
                | inl empty ↦
                    let h' : some (0, fire call time_now cur m) ≡ some (ret, n) =
                      simp (late, empty) at h in
                    let e : fire call time_now cur m ≡ n = cc in subst IsQueued e q'
                | inr (top, rest, e) ↦
                    loop-IsQueued fuel time_now top (fire call time_now cur m) ret n
                      (top-contains (fire call time_now cur m) q' top rest e) q'
                      (simp (late, e) at h)
              ]
        ]

    -- When `process_timers` returns, the queue is in order and holds the active timers, each once, if it
    -- was so before and the callbacks add only inactive timers, whatever deadlines they give.
    pub process_timers-IsQueued :
        (get_time_now : M → ℕ) (fuel : ℕ) (m : TimerManager M C) (ret : ℕ) (n : TimerManager M C)
        → IsQueued m
        → process_timers call get_time_now fuel m ≡ some (ret, n)
        → IsQueued n
    unfolding process_timers
    process_timers-IsQueued get_time_now fuel m ret n q h = elim (List-cases m.timer_queue) [
      | inl empty ↦
          let h' : some (0, m) ≡ some (ret, n) =
            sym (ap (process_queue call fuel (get_time_now m.env) m) empty) ∙ h in
          let e : m ≡ n = cc in subst IsQueued e q
      | inr (top, rest, e) ↦
          loop-IsQueued fuel (get_time_now m.env) top m ret n (top-contains m q top rest e) q
            (sym (ap (process_queue call fuel (get_time_now m.env) m) e) ∙ h)
    ]

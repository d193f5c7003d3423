-- ===== src/Core/Timer.antt =====
-- Virtual timers (core/timermanager.{h,cpp}). A `TimerInfo *` is a number, its address; `timers`
-- is the memory behind the addresses. The priority queue of pointers is the list in the order in
-- which `top` and `pop` deliver it. The callbacks of a timer and of the manager are
-- `std::function`s: `call` says what the callback that a timer holds does to the manager and to the rest
-- of the machine, `env`; `notify` and `get_time_now` act on `env`.
pub mod Order
pub mod Deadline
pub mod Due
pub mod Invariant
pub mod Client
pub mod Expire
pub mod Process
pub mod Cancel
mod Tests
use chungusppc.Common.{
  ℕ, zero, suc, ◌+◌, ◌-◌, ◌*◌, ◌/◌, ltb, leb, ◌==◌, u64, truth, if◌then◌else◌, Bool, true, false,
  ◌&&◌, ◌||◌, Option, none, some, List, [], ◌∷◌,
}

-- `MyGtComparator`, for timers at the addresses l and r with the deadlines d
unfoldable pub gt : (ℕ → ℕ) → ℕ → ℕ → Bool
gt d l r = ltb (d r) (d l) || (d l == d r && ltb r l)

-- The queue, in the order in which it is popped.
unfoldable pub push : (ℕ → ℕ) → ℕ → List ℕ → List ℕ
push d val [] = val ∷ []
push d val (el ∷ c) = if gt d el val then val ∷ el ∷ c else el ∷ push d val c

unfoldable pub make_heap : (ℕ → ℕ) → List ℕ → List ℕ
make_heap d [] = []
make_heap d (el ∷ c) = push d el (make_heap d c)

-- `find_if` and `erase`: nothing if the pointer is not there.
unfoldable pub find_erase : ℕ → List ℕ → Option (List ℕ)
find_erase id [] = none
find_erase id (el ∷ c) =
    if el == id then some c else elim (find_erase id c) [ none ↦ none | some r ↦ some (el ∷ r) ]

-- The queue without the pointer; the result of the method that nobody reads is left out.
unfoldable pub remove_by_id : (ℕ → ℕ) → ℕ → List ℕ → List ℕ
remove_by_id d id [] = []
remove_by_id d id (el ∷ c) =
    if el == id then c else elim (find_erase id (el ∷ c)) [ none ↦ el ∷ c | some r ↦ make_heap d r ]

pub record TimerInfo (C : Type 0) : Type 0 where
  pub timeout_ns : ℕ
  pub interval_ns : ℕ
  pub active : Bool
  pub cb : C

pub record TimerManager (M C : Type 0) : Type 0 where
  pub timers : ℕ → TimerInfo C
  pub timer_queue : List ℕ
  pub cb_active : Bool
  pub env : M

-- `timeout_ns_new` of a cyclic timer
unfoldable pub rearmed : ℕ → ℕ → ℕ → ℕ
rearmed time_now timeout_ns interval_ns =
    let timeout_ns_new = u64 (timeout_ns + interval_ns) in
    let periods_to_skip = (time_now - timeout_ns_new) / interval_ns + 1 in
    if leb timeout_ns_new time_now
    then u64 (timeout_ns_new + periods_to_skip * interval_ns)
    else timeout_ns_new

module _ {C : Type 0} where
  unfoldable pub deadlines : (ℕ → TimerInfo C) → ℕ → ℕ
  deadlines timers ti = (timers ti).timeout_ns

  -- A write to the object at an address.
  unfoldable pub write : (ℕ → TimerInfo C) → ℕ → TimerInfo C → ℕ → TimerInfo C
  write timers ti info j = if j == ti then info else timers j

  -- `pop` until the queue is empty
  unfoldable pub cancel_queue : List ℕ → (ℕ → TimerInfo C) → ℕ → TimerInfo C
  cancel_queue [] timers = timers
  cancel_queue (cur ∷ queue) timers =
      cancel_queue queue (write timers cur (record (timers cur) { active = false }))

module _ {M C : Type 0} where
  module _ (notify : M → M) where
    unfoldable pub notify_timer_changes : TimerManager M C → TimerManager M C
    notify_timer_changes m = if m.cb_active then m else record m { env = notify m.env }

    -- With a timer that is active already the source only logs an error.
    unfoldable pub add_absolute_timer : ℕ → ℕ → ℕ → C → TimerManager M C → TimerManager M C
    add_absolute_timer ti timeout_ns interval cb m =
        let info : TimerInfo C = record {
          timeout_ns = timeout_ns;
          interval_ns = interval;
          active = true;
          cb = cb;
        } in
        let timers = write m.timers ti info in
        notify_timer_changes
          (record m { timers = timers; timer_queue = push (deadlines timers) ti m.timer_queue })

    unfoldable pub add_oneshot_timer : (M → ℕ) → ℕ → ℕ → C → TimerManager M C → TimerManager M C
    add_oneshot_timer get_time_now ti timeout cb m =
        add_absolute_timer ti (u64 (get_time_now m.env + timeout)) 0 cb m

    unfoldable pub add_immediate_timer : ℕ → C → TimerManager M C → TimerManager M C
    add_immediate_timer ti cb m = add_absolute_timer ti 0 0 cb m

    unfoldable pub add_cyclic_timer : (M → ℕ) → ℕ → ℕ → ℕ → C → TimerManager M C → TimerManager M C
    add_cyclic_timer get_time_now ti interval delay cb m =
        add_absolute_timer ti (u64 (get_time_now m.env + delay)) interval cb m

    unfoldable pub cancel_timer : ℕ → TimerManager M C → TimerManager M C
    cancel_timer ti m = notify_timer_changes (record m {
      timer_queue = remove_by_id (deadlines m.timers) ti m.timer_queue;
      timers = write m.timers ti (record (m.timers ti) { active = false });
    })

  -- The queue after the removal of the timer that has expired: a cyclic timer goes back with its
  -- next deadline, a one-shot timer becomes inactive.
  unfoldable pub expire : ℕ → ℕ → TimerManager M C → TimerManager M C
  expire time_now cur m =
      let info = m.timers cur in
      let removed = remove_by_id (deadlines m.timers) cur m.timer_queue in
      let new = rearmed time_now info.timeout_ns info.interval_ns in
      let rearmed_timers = write m.timers cur (record info { timeout_ns = new }) in
      if truth info.interval_ns
      then record m {
        timers = rearmed_timers;
        timer_queue = push (deadlines rearmed_timers) cur removed;
      }
      else record m {
        timers = write m.timers cur (record info { active = false });
        timer_queue = removed;
      }

  module _ (call : C → ℕ → ℕ → TimerManager M C → TimerManager M C) where
    -- One round of the loop up to the choice of the next timer.
    unfoldable pub fire : ℕ → ℕ → TimerManager M C → TimerManager M C
    fire time_now cur m =
        let info = m.timers cur in
        record (call info.cb time_now info.timeout_ns
          (record (expire time_now cur m) { cb_active = true })) { cb_active = false }

    -- The loop, and what it returns; `none` means that the fuel ran out.
    unfoldable pub process_loop : ℕ → ℕ → ℕ → TimerManager M C → Option (ℕ × TimerManager M C)
    process_loop zero time_now cur m = none
    process_loop (suc fuel) time_now cur m =
        let next = fire time_now cur m in
        let rest : Option (ℕ × TimerManager M C) = elim next.timer_queue [
          | [] ↦ some (0, next)
          | top ∷ _ ↦ process_loop fuel time_now top next
        ] in
        if leb (m.timers cur).timeout_ns time_now then rest else some ((m.timers cur).timeout_ns, m)

    abbrev pub process_queue : ℕ → ℕ → TimerManager M C → List ℕ → Option (ℕ × TimerManager M C)
    process_queue fuel time_now m [] = some (0, m)
    process_queue fuel time_now m (top ∷ _) = process_loop fuel time_now top m

    unfoldable pub process_timers : (M → ℕ) → ℕ → TimerManager M C → Option (ℕ × TimerManager M C)
    process_timers get_time_now fuel m = process_queue fuel (get_time_now m.env) m m.timer_queue

  unfoldable pub cancel_all_timers : TimerManager M C → TimerManager M C
  cancel_all_timers m = record m { timers = cancel_queue m.timer_queue m.timers; timer_queue = [] }

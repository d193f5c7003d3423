-- ===== src/Core/Timer/Tests.antt =====
-- The theorems on the timers at a manager with two timers at 100 ns, whose callbacks cancel a
-- third.
use chungusppc.Common.{
  ℕ, ◌+◌, ◌*◌, ◌==◌, ◌&&◌, not, ◌≡◌, ◌<◌, ◌≤◌, refl, true, false, if◌then◌else◌, none, some, List,
  [], ◌∷◌, arith,
}
use chungusppc.Core.Timer.{
  gt, push, make_heap, find_erase, remove_by_id, rearmed, deadlines, write, notify_timer_changes,
  add_absolute_timer, expire, fire, process_loop, TimerInfo, TimerManager, cancel_timer,
  cancel_all_timers, process_timers,
}
use chungusppc.Core.Timer.Cancel.{cancel_lem}
use chungusppc.Core.Timer.Client.{IsQueued, IsPaced, Later, Client, Client-IsQueued, overdue}
use chungusppc.Core.Timer.Deadline.{rearmed_bounds, periods}
use chungusppc.Core.Timer.Due.{due}
use chungusppc.Core.Timer.Expire.{Callbacks}
use chungusppc.Core.Timer.Order.{contains}
use chungusppc.Core.Timer.Process.{Settled, process_timers-Settled}

abbrev sample_timers : ℕ → TimerInfo ℕ
sample_timers i =
    if i == 1
    then record { timeout_ns = 40; interval_ns = 25; active = true; cb = 9 }
    else if i == 2
    then record { timeout_ns = 90; interval_ns = 0; active = true; cb = 9 }
    else record { timeout_ns = 0; interval_ns = 0; active = false; cb = 0 }

abbrev sample_manager : TimerManager ℕ ℕ
sample_manager = record {
  timers = sample_timers;
  timer_queue = 1 ∷ 2 ∷ [];
  cb_active = false;
  env = 0;
}

abbrev count_notifications : ℕ → ℕ
count_notifications n = n + 1

abbrev cancels : ℕ → ℕ → ℕ → TimerManager ℕ ℕ → TimerManager ℕ ℕ
cancels cb time_now timeout_ns m = cancel_timer count_notifications cb m

cancels_clients : (Allowed : ℕ → ℕ → Type 0) → Callbacks count_notifications Allowed cancels
cancels_clients Allowed cb time_now timeout_ns m = Client.cancel Client.done cb

sample_manager-IsQueued : IsQueued sample_manager
unfolding contains gt deadlines
sample_manager-IsQueued = record {
  ordered = ((refl, tt), (tt, tt));
  registered = λ i. ground arith;
}

sample_manager-IsPaced : IsPaced 100 sample_manager.timers
sample_manager-IsPaced i = ground arith

runs :
    (elim (process_timers cancels (λ _. 100) 3 sample_manager) as (λ _. ℕ × List ℕ) [
      | none ↦ (0, [])
      | some (ret, n) ↦ (ret, n.timer_queue)
    ])
    ≡ (115, 1 ∷ [])
unfolding process_timers process_loop fire expire cancel_timer notify_timer_changes push make_heap
    find_erase remove_by_id rearmed write deadlines gt
runs = refl

rearmed_bounds_example :
    (rearmed 100 40 25 ≡ 40 + periods 100 40 25 * 25)
    × (100 < rearmed 100 40 25)
    × (rearmed 100 40 25 ≤ 100 + 25)
rearmed_bounds_example = rearmed_bounds 100 40 25 (omega arith) (omega arith) (omega arith)

inactive : ((cancel_timer count_notifications 1 sample_manager).timers 3).active ≡ false
unfolding cancel_timer notify_timer_changes write
inactive = refl

few_due : overdue 100 sample_manager < 3
unfolding due deadlines
few_due = omega arith

Client-IsQueued_example : IsQueued (
    add_absolute_timer count_notifications 3 200 0 9
      (cancel_timer count_notifications 1 sample_manager))
Client-IsQueued_example =
    Client-IsQueued count_notifications {Allowed = Later 100}
      (Client.add (Client.cancel Client.done 1) 3 200 0 9 inactive (omega arith))
      sample_manager-IsQueued

process_timers-Settled_example :
    (ret : ℕ) × (n : TimerManager ℕ ℕ) × (process_timers cancels (λ _. 100) 3 sample_manager
      ≡ some (ret, n))
    × Settled cancels 100 sample_manager ret n
process_timers-Settled_example =
    process_timers-Settled count_notifications cancels 100 (cancels_clients (Later 100)) (λ _. 100)
      3 sample_manager refl sample_manager-IsQueued sample_manager-IsPaced few_due

abbrev after : TimerManager ℕ ℕ
after = elim (process_timers cancels (λ _. 100) 3 sample_manager) as (λ _. TimerManager ℕ ℕ) [
  | none ↦ sample_manager
  | some (ret, n) ↦ n
]

after_run : process_timers cancels (λ _. 100) 3 sample_manager ≡ some (115, after)
unfolding process_timers process_loop fire expire cancel_timer notify_timer_changes push make_heap
    find_erase remove_by_id rearmed write deadlines gt
after_run = refl

cancel_lem_example :
    (((cancel_timer count_notifications 1 sample_manager).timers 1).active
      ≡ (not (1 == 1) && (sample_manager.timers 1).active))
    × (contains 1 (cancel_timer count_notifications 1 sample_manager).timer_queue
        ≡ (not (1 == 1) && contains 1 sample_manager.timer_queue))
    × (((cancel_all_timers sample_manager).timers 1).active ≡ false)
    × ((cancel_all_timers sample_manager).timer_queue ≡ [])
cancel_lem_example = cancel_lem count_notifications 1 1 sample_manager sample_manager-IsQueued

-- ===== src/Timers/Examples.antt =====
-- Runs of the operations of Timer and TimerManager (windgent/timer.cc) on a manager of two timers.
use hpserver_fw.Prelude.{
  ℕ, ◌+◌, ◌%◌, ◌^◌, ◌≡◌, ◌≢◌, ◌↔◌, refl, Bool, true, false, some, none, [], ◌∷◌,
}
use hpserver_fw.Timers.Manager.{
  plain, conditional, Manager, add_timer, cancel, refresh, reset, timer_manager, rollover,
  list_expired_cbs,
}
use hpserver_fw.Timers.Order.{In}
use hpserver_fw.Timers.Invariant.{Inv, IsActive}
use hpserver_fw.Timers.Operations.{
  timer_manager-Inv, add_timer-Inv, cancel-Inv, Refreshes, refresh-Refreshes, Resets, reset-Resets,
}
use hpserver_fw.Timers.Collect.{Expires, list_expired_cbs-Expires}

-- A recurring timer at address 9, due at 120.
abbrev one_timer : Manager
one_timer = (add_timer 9 100 20 (some (plain 1)) true (timer_manager 100)).0

-- And one at address 3, due at 150.
abbrev two_timers : Manager
two_timers = (add_timer 3 100 50 (some (conditional 2 7)) false one_timer).0

one_timer-Inv : Inv one_timer
one_timer-Inv =
    (add_timer-Inv 9 100 20 (plain 1) true (timer_manager 100) (timer_manager-Inv 100)
      (unfold timer_manager in refl)).0

two_timers-Inv : Inv two_timers
two_timers-Inv =
    (add_timer-Inv 3 100 50 (conditional 2 7) false one_timer one_timer-Inv
      (unfold add_timer timer_manager in refl)).0

-- Both are handed out at 150, in the order of their times, and the recurring one is put back.
both_expire :
    ((list_expired_cbs 150 8 two_timers).1 ≡ some (plain 1) ∷ some (conditional 2 7) ∷ [])
    × ((list_expired_cbs 150 8 two_timers).0.timers ≡ 9 ∷ [])
unfolding list_expired_cbs add_timer timer_manager
both_expire = (refl, refl)

list_expired_cbs-Expires_example : Expires 150 two_timers (list_expired_cbs 150 8 two_timers)
list_expired_cbs-Expires_example =
    list_expired_cbs-Expires 150 8 two_timers two_timers-Inv
      (unfold rollover add_timer timer_manager in refl)

-- A manager that last looked at the clock at 9000000.
abbrev later_on : Manager
later_on = (add_timer 9 9000000 20 (some (plain 1)) true (timer_manager 9000000)).0

later_on-Inv : Inv later_on
later_on-Inv =
    (add_timer-Inv 9 9000000 20 (plain 1) true (timer_manager 9000000) (timer_manager-Inv 9000000)
      (unfold timer_manager in refl)).0

add_timer-Inv_example :
    Inv (add_timer 3 100 50 (some (conditional 2 7)) false one_timer).0
    × In 3 (add_timer 3 100 50 (some (conditional 2 7)) false one_timer).0.timers
    × ((add_timer 3 100 50 (some (conditional 2 7)) false one_timer).0.store 3 ≡ record {
      is_recur = false;
      ms = 50;
      next = (100 + 50) % 2 ^ 64;
      cb = some (conditional 2 7);
    })
add_timer-Inv_example =
    add_timer-Inv 3 100 50 (conditional 2 7) false one_timer one_timer-Inv
      (unfold add_timer timer_manager in refl)

cancel-Inv_example :
    (m' : Manager) × (active : Bool) × (cancel 9 two_timers ≡ some (m', active))
    × Inv m'
    × ((m'.store 9).cb ≡ none)
    × ((active ≡ true) ↔ IsActive two_timers.store 9)
    × ((b : ℕ) → b ≢ 9 → m'.store b ≡ two_timers.store b)
cancel-Inv_example = cancel-Inv 9 two_timers two_timers-Inv

refresh-Refreshes_example : Refreshes 9 110 two_timers (refresh 9 110 two_timers)
refresh-Refreshes_example = refresh-Refreshes 9 110 two_timers two_timers-Inv

reset-Resets_example : Resets 9 70 110 true two_timers (reset 9 70 110 true two_timers)
reset-Resets_example = reset-Resets 9 70 110 true two_timers two_timers-Inv

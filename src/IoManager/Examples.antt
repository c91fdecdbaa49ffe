-- ===== src/IoManager/Examples.antt =====
-- Runs of the event operations (windgent/iomanager.cc) on a manager in which a fiber waits to read
-- from descriptor 40, beyond the 32 of the constructor.
use hpserver_fw.Prelude.{
  ◌≡◌, ◌-◌, ◌^◌, ◌&&◌, not, refl, sym, ap, subst, Bool, true, false, Option, some, none, [], ◌∷◌,
  arith, min,
}
use hpserver_fw.Prelude.Int.{pos, negsuc}
use hpserver_fw.IoManager.Contexts.{read_event, write_event}
use hpserver_fw.IoManager.Operations.{
  IoManager, io_manager, add_event, del_event, cancel_event, cancel_all, Ready, real_events,
  handle_ready,
}
use hpserver_fw.IoManager.Invariant.{Inv}
use hpserver_fw.IoManager.Registered.{is_registered, Removes, del_event-Removes}
use hpserver_fw.IoManager.Sequence.{Triggered}
use hpserver_fw.IoManager.Delivery.{
  CancelsAll, has_registered, cancel_all-CancelsAll, handle_ready-Triggered, handle_ready-aborts,
}
use hpserver_fw.IoManager.Cancel.{Cancels, cancel_event-Cancels}
use hpserver_fw.IoManager.Add.{Adds, add_event-Adds}
use hpserver_fw.IoManager.Resize.{io_manager-Inv}
use hpserver_fw.IoManager.Idle.{
  epoll_timeout, max_timeout, epoll_timeout-bounded, epoll_timeout-endless, handle_all, Delivered,
  handle_all-Delivered,
}

abbrev left_by : Option (IoManager × Bool) → IoManager
left_by none = io_manager
left_by (some r) = r.0

abbrev reading : IoManager
reading = left_by (add_event false (some 1) 5 true 40 read_event none io_manager)

reading-Inv : Inv reading
reading-Inv =
    let (m, run, a) =
      add_event-Adds false 1 5 true 40 read_event none io_manager io_manager-Inv (omega arith)
        (unfold is_registered io_manager in refl) refl in
    subst Inv (sym (ap left_by run)) a.valid

add_event-Adds_example :
    (m' : IoManager) × (add_event false (some 1) 6 false 40 write_event (some 7) reading
      ≡ some (m', true))
    × Adds false 1 6 40 write_event (some 7) reading m'
add_event-Adds_example =
    add_event-Adds false 1 6 false 40 write_event (some 7) reading reading-Inv (omega arith)
      (unfold is_registered add_event io_manager in refl) refl

del_event-Removes_example :
    Removes false 40 read_event reading (del_event false 40 read_event reading)
del_event-Removes_example = del_event-Removes false 40 read_event reading reading-Inv

cancel_event-Cancels_example :
    (m' : IoManager) × (cancel_event false 40 read_event reading
      ≡ some (m', is_registered reading 40 read_event && not false))
    × Cancels 40 read_event reading m' (is_registered reading 40 read_event && not false)
cancel_event-Cancels_example = cancel_event-Cancels false 40 read_event reading reading-Inv

cancel_all-CancelsAll_example :
    (m' : IoManager) × (cancel_all false 40 reading
      ≡ some (m', has_registered reading 40 && not false))
    × CancelsAll 40 reading m' (has_registered reading 40 && not false)
cancel_all-CancelsAll_example = cancel_all-CancelsAll false 40 reading reading-Inv

abbrev came : Ready
came = record { readable = true; writable = false; error = false; hang_up = false }

handle_ready-Triggered_example :
    (m' : IoManager) × (handle_ready false 40 came reading ≡ some m')
    × Triggered (real_events came) 40 reading m'
handle_ready-Triggered_example =
    handle_ready-Triggered 40 came reading reading-Inv (unfold add_event io_manager in omega arith)
      (unfold real_events in refl) (λ e. unfold add_event io_manager in refl)
      (λ e. absurd (unfold real_events in cc e))

handle_all-Delivered_example :
    (m' : IoManager) × (handle_all (λ fd. false) (none ∷ some (40, came) ∷ []) reading ≡ some m')
    × Inv m'
    × Delivered (none ∷ some (40, came) ∷ []) reading m'
handle_all-Delivered_example =
    handle_all-Delivered (none ∷ some (40, came) ∷ []) reading reading-Inv (
      (
        (unfold add_event io_manager in omega arith),
        (unfold real_events in refl),
        (λ e. unfold add_event io_manager in refl),
        (λ e. absurd (unfold real_events in cc e)),
      ),
      tt,
      tt,
    )

abbrev hung_up : Ready
hung_up = record { readable = false; writable = false; error = false; hang_up = true }

handle_ready-aborts_example : handle_ready false 40 hung_up reading ≡ none
handle_ready-aborts_example =
    handle_ready-aborts 40 hung_up reading reading-Inv (unfold add_event io_manager in omega arith)
      refl (unfold add_event io_manager in refl)

epoll_timeout-bounded_example : epoll_timeout 5000 ≡ pos (min 5000 max_timeout)
epoll_timeout-bounded_example = epoll_timeout-bounded 5000 (omega arith)

epoll_timeout-endless_example : epoll_timeout (2 ^ 31) ≡ negsuc (2 ^ 32 - 1 - 2 ^ 31)
epoll_timeout-endless_example = epoll_timeout-endless (2 ^ 31) (omega arith) (omega arith)

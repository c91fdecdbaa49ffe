-- ===== src/IoManager/Contexts.antt =====
-- IOManager::FdContext (windgent/iomanager.{h,cc}): what waits on one descriptor. The mask of
-- events is its two bits READ and WRITE.
use hpserver_fw.Prelude.{ℕ, Bool, true, false, ◌||◌, Option, none, some, if◌then◌else◌}
use hpserver_fw.Scheduler.Queue.{Task, is_some}

pub data Event : Type 0 where
  read_event write_event : Event

pub record Events : Type 0 where
  pub read : Bool
  pub write : Bool

-- `events & event`, `events | event` and `events & ~event`.
abbrev pub has : Event → Events → Bool
has read_event m = m.read
has write_event m = m.write

abbrev pub with_event : Event → Events → Events
with_event read_event m = record m { read = true }
with_event write_event m = record m { write = true }

abbrev pub without : Event → Events → Events
without read_event m = record m { read = false }
without write_event m = record m { write = false }

-- NONE.
abbrev pub no_events : Events
no_events = record { read = false; write = false }

abbrev pub any_event : Events → Bool
any_event m = m.read || m.write

-- The pointers of an EventContext; `none` is null.
pub record EventContext : Type 0 where
  pub scheduler : Option ℕ
  pub fiber : Option ℕ
  pub cb : Option ℕ

abbrev pub empty_context : EventContext
empty_context = record { scheduler = none; fiber = none; cb = none }

pub record FdContext : Type 0 where
  pub read : EventContext
  pub write : EventContext
  pub events : Events
  pub fd : ℕ

-- `new FdContext`, with `fd` set.
abbrev pub new_context : ℕ → FdContext
new_context fd = record { read = empty_context; write = empty_context; events = no_events; fd = fd }

unfoldable pub get_context : Event → FdContext → EventContext
get_context read_event c = c.read
get_context write_event c = c.write

-- The context after an assignment through the reference that getContext returns.
unfoldable pub set_context : Event → EventContext → FdContext → FdContext
set_context read_event e c = record c { read = e }
set_context write_event e c = record c { write = e }

unfoldable pub reset_context : EventContext → EventContext
reset_context e = empty_context

-- The task that triggerEvent schedules, and the context after it: `schedule(&ctx.cb)` swaps the
-- callback out of the context.
unfoldable pub task_of : EventContext → Task
task_of e =
    if is_some e.cb
    then record { fiber = none; cb = e.cb; thread = none }
    else record { fiber = e.fiber; cb = none; thread = none }

unfoldable pub triggered : EventContext → EventContext
triggered e =
    if is_some e.cb
    then record e { cb = none; scheduler = none }
    else record e { fiber = none; scheduler = none }

-- triggerEvent: the context, the scheduler that gets the task, and the task. `none`: the assertion
-- that the event is registered fails, or the scheduler is null.
unfoldable pub trigger_event : Event → FdContext → Option (FdContext × ℕ × Task)
unfolding get_context set_context task_of triggered
trigger_event event c =
    if has event c.events
    then elim (get_context event c).scheduler [
      | none ↦ none
      | some s ↦ some (
        set_context event (triggered (get_context event c))
            (record c { events = without event c.events }),
        s,
        task_of (get_context event c),
      )
    ]
    else none

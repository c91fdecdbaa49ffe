-- ===== src/Scheduler/Examples.antt =====
-- A queue of windgent/scheduler.cc.
use hpserver_fw.Prelude.{none, some, List, [], ◌∷◌}
use hpserver_fw.Scheduler.Queue.{Task}

abbrev three_tasks : List Task
three_tasks =
    record { fiber = some 1; cb = none; thread = some 9 }
    ∷ record { fiber = some 2; cb = none; thread = none }
    ∷ record { fiber = none; cb = some 3; thread = none }
    ∷ []

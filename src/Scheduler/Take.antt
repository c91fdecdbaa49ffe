-- ===== src/Scheduler/Take.antt =====
-- How a thread takes a task from the queue in Scheduler::run, and when the scheduler may stop
-- (windgent/scheduler.cc). Which fibers are executing is an argument.
use hpserver_fw.Prelude.{
  ℕ, ◌≡◌, Bool, true, false, not, ◌&&◌, ◌||◌, Option, none, some, List, [], ◌∷◌, ◌++◌, ◌==◌,
  if◌then◌else◌, All,
}
use hpserver_fw.Scheduler.Queue.{Task, is_some, is_empty}

-- ft, what is left of m_fibers, and tickle_me.
pub record Taken : Type 0 where
  pub task : Option Task
  pub rest : List Task
  pub tickle_me : Bool

-- The task is bound to a thread other than this one.
abbrev pub is_other : Option ℕ → ℕ → Bool
is_other none thread = false
is_other (some t) thread = not (t == thread)

abbrev pub is_executing : (ℕ → Bool) → Option ℕ → Bool
is_executing executing none = false
is_executing executing (some f) = executing f

unfoldable pub skipped : Bool → Task → Option Taken → Option Taken
skipped tickle t none = none
skipped tickle t (some r) =
    some (record { task = r.task; rest = t ∷ r.rest; tickle_me = tickle || r.tickle_me })

-- The loop over m_fibers; none: the assertion fails.
unfoldable pub take_task : (thread : ℕ) → (executing : ℕ → Bool) → List Task → Option Taken
unfolding skipped
take_task thread executing [] = some (record { task = none; rest = []; tickle_me = false })
take_task thread executing (t ∷ fibers) =
    let more = take_task thread executing fibers in
    if is_other t.thread thread
    then skipped true t more
    else if not (is_some t.fiber || is_some t.cb)
    then none
    else if is_executing executing t.fiber
    then skipped false t more
    else some (record { task = some t; rest = fibers; tickle_me = not (is_empty fibers) })

-- stopping().
unfoldable pub stopping : (m_stopping m_autostop : Bool) → List Task → (active : ℕ) → Bool
stopping m_stopping m_autostop fibers active =
    m_stopping && m_autostop && is_empty fibers && (active == 0)

abbrev pub HasWork : Task → Type 0
HasWork t = (is_some t.fiber || is_some t.cb) ≡ true

abbrev pub listed : Option Task → List Task
listed none = []
listed (some t) = t ∷ []

-- The task is the first that this thread may run; the others stay, in their order.
pub record Takes (thread : ℕ) (executing : ℕ → Bool) (fibers : List Task) (r : Taken) : Type 0 where
  pub passed : List Task
  pub behind : List Task
  pub before : fibers ≡ passed ++ (listed r.task ++ behind)
  pub after : r.rest ≡ passed ++ behind
  pub refused :
      All (λ t. (is_other t.thread thread || is_executing executing t.fiber) ≡ true) passed
  pub allowed :
      All
        (λ t. (is_other t.thread thread || is_executing executing t.fiber) ≡ false)
        (listed r.task)
  pub exhausted : r.task ≡ none → behind ≡ []

pub record TakesOne (thread : ℕ) (executing : ℕ → Bool) (fibers : List Task) : Type 0 where
  pub taken : Taken
  pub returns : take_task thread executing fibers ≡ some taken
  pub takes : Takes thread executing fibers taken

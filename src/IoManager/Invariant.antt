-- ===== src/IoManager/Invariant.antt =====
-- The invariant of IOManager, and the one change that its operations make to it: the context of one
-- descriptor, with what epoll watches of it and the count of pending events.
use hpserver_fw.Prelude.{
  ℕ, zero, suc, ◌+◌, ◌*◌, ◌^◌, ◌≤◌, ◌<◌, ◌≡◌, ◌≢◌, ◌⊎◌, inl, inr, refl, sym, ap, ap₂, subst, ◌∙◌,
  Bool, not, ltb, leb, lt→ltb, true, false, none, some, arith, ◌==◌, ==_iff, Bool-cases, if-true,
}
use hpserver_fw.Prelude.Int.{int_of-exceeds}
use hpserver_fw.IoManager.Contexts.{
  Event, read_event, write_event, has, with_event, without, EventContext, empty_context, FdContext,
  get_context, set_context,
}
use hpserver_fw.IoManager.Operations.{IoManager, update, wanted, in_table}

-- A registered event has a scheduler and either a fiber or a callback.
pub record Waits (e : EventContext) : Type 0 where
  pub scheduler : ℕ
  pub scheduled_on : e.scheduler ≡ some scheduler
  pub one_of :
      ((f : ℕ) × (e.fiber ≡ some f) × (e.cb ≡ none))
      ⊎ ((f : ℕ) × (e.fiber ≡ none) × (e.cb ≡ some f))

-- Whether the bit is set tells whether the context waits or is empty.
abbrev pub Matches : Bool → EventContext → Type 0
Matches true e = Waits e
Matches false e = e ≡ empty_context

pub record IsContext (fd : ℕ) (c : FdContext) : Type 0 where
  pub numbered : c.fd ≡ fd
  pub matches : (e : Event) → Matches (has e c.events) (get_context e c)

abbrev pub bit : Bool → ℕ
bit true = 1
bit false = 0

-- The events that are registered in a context, and in the first n.
abbrev pub weight : FdContext → ℕ
weight c = bit c.events.read + bit c.events.write

unfoldable pub count : ℕ → (ℕ → FdContext) → ℕ
count zero f = 0
count (suc n) f = weight (f n) + count n f

-- The table has the 32 contexts of the constructor at least, each is sound and its size an int, m_pendingEventCount is
-- the number of registered events, and epoll watches no descriptor beyond the table.
pub record IsTable (m : IoManager) : Type 0 where
  pub sized : 32 ≤ m.size
  pub bounded : m.size < 2 ^ 31
  pub sound : (fd : ℕ) → fd < m.size → IsContext fd (m.contexts fd)
  pub counted : m.pending ≡ count m.size m.contexts
  pub unwatched : (fd : ℕ) → m.size ≤ fd → m.interest fd ≡ none

-- In such a table the cast of the size to int tells whether a descriptor is in it.
pub outside : (size fd : ℕ) → size < 2 ^ 31 → leb size fd ≡ true → not (in_table size fd) ≡ true
unfolding in_table
outside size fd h e = ground (arith, int_of-exceeds size fd h)

pub inside : (size fd : ℕ) → size < 2 ^ 31 → fd < size → in_table size fd ≡ true
unfolding in_table
inside size fd h e = int_of-exceeds size fd h ∙ lt→ltb fd size e

pub not_inside : (size fd : ℕ) → size < 2 ^ 31 → ltb fd size ≡ false → in_table size fd ≡ false
unfolding in_table
not_inside size fd h e = int_of-exceeds size fd h ∙ e

-- And epoll watches exactly the registered events.
pub record Inv (m : IoManager) : Type 0 where
  pub table : IsTable m
  pub mirrored : (fd : ℕ) → fd < m.size → m.interest fd ≡ wanted (m.contexts fd).events

pub update_self {ℓ} : {A : Type ℓ} (f : ℕ → A) (a : ℕ) (x : A) → update f a x a ≡ x
update_self f a x = if-true _ _ ((==_iff a a).1 refl)

pub update_other {ℓ} : {A : Type ℓ} (f : ℕ → A) (a i : ℕ) (x : A) → i ≢ a → update f a x i ≡ f i
update_other f a i x n = ground arith

count_above :
    (n a : ℕ) (f : ℕ → FdContext) (c : FdContext) → n ≤ a → count n (update f a c) ≡ count n f
unfolding count
count_above zero a f c h = refl
count_above (suc n) a f c h =
    ap₂ (λ x y. weight x + y) (update_other f a n c (omega arith))
      (count_above n a f c (omega arith))

pub count-update :
    (n a : ℕ) (f : ℕ → FdContext) (c : FdContext)
    → a < n
    → count n (update f a c) + weight (f a) ≡ count n f + weight c
unfolding count
count-update zero a f c h = absurd (omega arith)
count-update (suc n) a f c h = elim (Bool-cases (n == a)) [
  | inl e ↦ omega (
    arith,
    count_above n a f c (omega (arith, (==_iff n a).0 e)),
    ap (λ x. weight (update f a c x)) ((==_iff n a).0 e),
    ap weight (update_self f a c),
    ap (λ x. weight (f x)) ((==_iff n a).0 e),
  )
  | inr e ↦
      let ne : n ≢ a = ground arith in
      omega (arith, count-update n a f c (omega arith), ap weight (update_other f a n c ne))
]

pub bit_le : (b : Bool) → bit b ≤ 1
bit_le true = omega arith
bit_le false = omega arith

-- There are at most two events for each descriptor.
pub count_le : (n : ℕ) (f : ℕ → FdContext) → count n f ≤ 2 * n
unfolding count
count_le zero f = omega arith
count_le (suc n) f =
    omega (arith, count_le n f, bit_le (f n).events.read, bit_le (f n).events.write)

-- The manager with the context of one descriptor changed.
abbrev pub changed : IoManager → (fd : ℕ) → FdContext → (pending : ℕ) → IoManager
changed m fd c pending = record m { contexts = update m.contexts fd c; pending = pending }

pub changed-IsTable :
    (m : IoManager) (fd : ℕ) (c : FdContext) (pending : ℕ)
    → IsTable m
    → fd < m.size
    → IsContext fd c
    → pending + weight (m.contexts fd) ≡ m.pending + weight c
    → IsTable (changed m fd c pending)
changed-IsTable m fd c pending v h s e = record {
  sized = v.sized;
  bounded = v.bounded;
  sound = λ i k. elim (Bool-cases (i == fd)) [
    | inl q ↦
        subst (λ x. IsContext x (update m.contexts fd c x)) (sym ((==_iff i fd).0 q))
          (subst (IsContext fd) (sym (update_self m.contexts fd c)) s)
    | inr q ↦
        subst (IsContext i) (sym (update_other m.contexts fd i c (ground arith))) (v.sound i k)
  ];
  counted = omega (arith, count-update m.size fd m.contexts c h, v.counted);
  unwatched = v.unwatched;
}

-- epoll watches exactly the registered events of every other descriptor.
abbrev pub MirroredBut : ℕ → IoManager → Type 0
MirroredBut fd m = (i : ℕ) → i < m.size → i ≢ fd → m.interest i ≡ wanted (m.contexts i).events

-- What is left when one descriptor has been seen to.
pub watched-Inv :
    (m : IoManager) (fd : ℕ)
    → IsTable m
    → MirroredBut fd m
    → m.interest fd ≡ wanted (m.contexts fd).events
    → Inv m
watched-Inv m fd t h e = record {
  table = t;
  mirrored = λ i k. elim (Bool-cases (i == fd)) [
    | inl q ↦ subst (λ x. m.interest x ≡ wanted (m.contexts x).events) (sym ((==_iff i fd).0 q)) e
    | inr q ↦ h i k (ground arith)
  ];
}

-- The context without one event, as delEvent and triggerEvent leave it.
abbrev pub cleared : Event → FdContext → FdContext
cleared event c = set_context event empty_context (record c { events = without event c.events })

pub cleared-IsContext :
    (event : Event) (fd : ℕ) (c : FdContext) → IsContext fd c → IsContext fd (cleared event c)
unfolding set_context get_context
cleared-IsContext read_event fd c s = record { numbered = s.numbered; matches = each }
  where
    each :
        (e : Event)
        → Matches (has e (without read_event c.events)) (get_context e (cleared read_event c))
    each read_event = refl
    each write_event = s.matches write_event
cleared-IsContext write_event fd c s = record { numbered = s.numbered; matches = each }
  where
    each :
        (e : Event)
        → Matches (has e (without write_event c.events)) (get_context e (cleared write_event c))
    each read_event = s.matches read_event
    each write_event = refl

pub weight-cleared :
    (event : Event) (c : FdContext)
    → has event c.events ≡ true
    → weight (cleared event c) + 1 ≡ weight c
unfolding set_context
weight-cleared read_event c h = omega (arith, ap bit h)
weight-cleared write_event c h = omega (arith, ap bit h)

pub other_of_cleared :
    (event e : Event) (c : FdContext)
    → e ≢ event
    → get_context e (cleared event c) ≡ get_context e c
unfolding get_context set_context
other_of_cleared read_event read_event c n = absurd (n refl)
other_of_cleared read_event write_event c n = refl
other_of_cleared write_event read_event c n = refl
other_of_cleared write_event write_event c n = absurd (n refl)

-- The context with one event more, as addEvent leaves it.
abbrev pub joined : Event → EventContext → FdContext → FdContext
joined event x c = set_context event x (record c { events = with_event event c.events })

pub joined-IsContext :
    (event : Event) (x : EventContext) (fd : ℕ) (c : FdContext)
    → IsContext fd c
    → Waits x
    → IsContext fd (joined event x c)
unfolding set_context get_context
joined-IsContext read_event x fd c s w = record { numbered = s.numbered; matches = each }
  where
    each :
        (e : Event)
        → Matches (has e (with_event read_event c.events)) (get_context e (joined read_event x c))
    each read_event = w
    each write_event = s.matches write_event
joined-IsContext write_event x fd c s w = record { numbered = s.numbered; matches = each }
  where
    each :
        (e : Event)
        → Matches (has e (with_event write_event c.events)) (get_context e (joined write_event x c))
    each read_event = s.matches read_event
    each write_event = w

pub weight-joined :
    (event : Event) (x : EventContext) (c : FdContext)
    → has event c.events ≡ false
    → weight (joined event x c) ≡ weight c + 1
unfolding set_context
weight-joined read_event x c h = omega (arith, ap bit h)
weight-joined write_event x c h = omega (arith, ap bit h)

-- ===== src/IoManager/Registered.antt =====
-- Which events are registered with IOManager, and what delEvent and cancelEvent make of that.
use hpserver_fw.Prelude.{
  ℕ, ◌+◌, ◌≤◌, ◌<◌, ◌≡◌, ◌≢◌, ◌⊎◌, inl, inr, refl, sym, ap, ap₂, subst, ◌∙◌, Bool, true, false, not,
  ◌&&◌, arith, ltb, leb, ◌==◌, ==_iff, lt→ltb, ge→ltb, leb→le, Bool-cases, if-true, if-false,
}
use hpserver_fw.IoManager.Contexts.{
  Event, read_event, write_event, Events, has, with_event, without, EventContext, empty_context,
  FdContext, get_context, set_context, reset_context,
}
use hpserver_fw.IoManager.Operations.{IoManager, update, decrement, wanted, del_event}
use hpserver_fw.IoManager.Invariant.{
  bit, Inv, update_self, update_other, count-update, count_le, changed-IsTable, watched-Inv,
  cleared, cleared-IsContext, outside, inside, other_of_cleared, weight-cleared,
}
use hpserver_fw.IoManager.Fire.{decrement_lem}

unfoldable pub is_registered : IoManager → ℕ → Event → Bool
is_registered m fd event = ltb fd m.size && has event (m.contexts fd).events

-- Every registration but that of one event of one descriptor is as before.
abbrev pub SameBut : ℕ → Event → IoManager → IoManager → Type 0
SameBut fd event m m' =
    (i : ℕ) (e : Event) → (i ≢ fd) ⊎ (e ≢ event) → is_registered m' i e ≡ is_registered m i e

pub set_context-events :
    (event : Event) (x : EventContext) (c : FdContext) → (set_context event x c).events ≡ c.events
unfolding set_context
set_context-events read_event x c = refl
set_context-events write_event x c = refl

pub has-without_other :
    (event e : Event) (s : Events) → e ≢ event → has e (without event s) ≡ has e s
has-without_other read_event read_event s n = absurd (n refl)
has-without_other read_event write_event s n = refl
has-without_other write_event read_event s n = refl
has-without_other write_event write_event s n = absurd (n refl)

pub has-without_self : (event : Event) (s : Events) → has event (without event s) ≡ false
has-without_self read_event s = refl
has-without_self write_event s = refl

pub has-with_other :
    (event e : Event) (s : Events) → e ≢ event → has e (with_event event s) ≡ has e s
has-with_other read_event read_event s n = absurd (n refl)
has-with_other read_event write_event s n = refl
has-with_other write_event read_event s n = refl
has-with_other write_event write_event s n = absurd (n refl)

pub has-with_self : (event : Event) (s : Events) → has event (with_event event s) ≡ true
has-with_self read_event s = refl
has-with_self write_event s = refl

-- One context changed, in the bit of one event at most.
pub update-SameBut :
    (m m' : IoManager) (fd : ℕ) (event : Event) (c : FdContext)
    → m'.size ≡ m.size
    → m'.contexts ≡ update m.contexts fd c
    → ((e : Event) → e ≢ event → has e c.events ≡ has e (m.contexts fd).events)
    → SameBut fd event m m'
unfolding is_registered
update-SameBut m m' fd event c s q h i e d =
    ap₂ (λ n f. ltb i n && has e (f i).events) s q ∙ elim (Bool-cases (i == fd)) [
      | inl x ↦
          ap (λ t. ltb i m.size && has e (update m.contexts fd c t).events) ((==_iff i fd).0 x)
          ∙ ap (λ t. ltb i m.size && has e t.events) (update_self m.contexts fd c)
          ∙ ap (λ t. ltb i m.size && t) (here d ((==_iff i fd).0 x))
          ∙ ap (λ t. ltb i m.size && has e (m.contexts t).events) (sym ((==_iff i fd).0 x))
      | inr x ↦
          ap (λ t. ltb i m.size && has e t.events) (update_other m.contexts fd i c (ground arith))
    ]
  where
    here : (i ≢ fd) ⊎ (e ≢ event) → i ≡ fd → has e c.events ≡ has e (m.contexts fd).events
    here (inl n) x = absurd (n x)
    here (inr n) x = h e n

pub update-registered :
    (m' : IoManager) (f : ℕ → FdContext) (fd : ℕ) (event : Event) (c : FdContext)
    → fd < m'.size
    → m'.contexts ≡ update f fd c
    → is_registered m' fd event ≡ has event c.events
unfolding is_registered
update-registered m' f fd event c h q =
    ap (λ t. t && has event (m'.contexts fd).events) (lt→ltb fd m'.size h)
    ∙ ap (λ t. has event (t fd).events) q
    ∙ ap (λ t. has event t.events) (update_self f fd c)

pub registered-beyond :
    (m : IoManager) (fd : ℕ) (event : Event) → m.size ≤ fd → is_registered m fd event ≡ false
unfolding is_registered
registered-beyond m fd event h =
    ap (λ t. t && has event (m.contexts fd).events) (ge→ltb fd m.size h)

pub registered-within :
    (m : IoManager) (fd : ℕ) (event : Event)
    → fd < m.size
    → is_registered m fd event ≡ has event (m.contexts fd).events
unfolding is_registered
registered-within m fd event h =
    ap (λ t. t && has event (m.contexts fd).events) (lt→ltb fd m.size h)

-- What `delEvent` promises.
pub record Removes (refused : Bool) (fd : ℕ) (event : Event) (m : IoManager) (r : IoManager × Bool)
    : Type 0 where
  pub valid : Inv r.0
  pub result : r.1 ≡ (is_registered m fd event && not refused)
  pub registered : is_registered r.0 fd event ≡ (is_registered m fd event && refused)
  pub others : SameBut fd event m r.0
  pub contexts : (i : ℕ) → i ≢ fd → r.0.contexts i ≡ m.contexts i
  pub other_context :
      (e : Event) → e ≢ event → get_context e (r.0.contexts fd) ≡ get_context e (m.contexts fd)
  pub pending : r.0.pending + bit r.1 ≡ m.pending
  pub nothing_queued : r.0.queues ≡ m.queues

kept-Removes :
    (refused : Bool) (fd : ℕ) (event : Event) (m : IoManager)
    → Inv m
    → is_registered m fd event && not refused ≡ false
    → Removes refused fd event m (m, false)
kept-Removes refused fd event m v e = record {
  valid = v;
  result = sym e;
  registered = both (is_registered m fd event) refused e;
  others = λ i e d. refl;
  contexts = λ i n. refl;
  other_context = λ e n. refl;
  pending = omega arith;
  nothing_queued = refl;
}
  where
    both : (a b : Bool) → a && not b ≡ false → a ≡ (a && b)
    both true true e = refl
    both true false e = e
    both false b e = refl

abbrev removed : ℕ → Event → IoManager → IoManager
removed fd event m = record m {
  contexts = update m.contexts fd (cleared event (m.contexts fd));
  pending = decrement m.pending;
  interest = update m.interest fd (wanted (without event (m.contexts fd).events));
}

removed-Removes :
    (fd : ℕ) (event : Event) (m : IoManager)
    → Inv m
    → fd < m.size
    → has event (m.contexts fd).events ≡ true
    → Removes false fd event m (removed fd event m, true)
removed-Removes fd event m v h r =
    let c = cleared event (m.contexts fd) in
    let less =
      decrement_lem m.pending
        (omega (
          arith,
          v.table.counted,
          weight-cleared event (m.contexts fd) r,
          count-update m.size fd m.contexts c h,
        ))
        (omega (arith, v.table.counted, count_le m.size m.contexts, v.table.bounded)) in
    let t =
      changed-IsTable m fd c (decrement m.pending) v.table h
        (cleared-IsContext event fd (m.contexts fd) (v.table.sound fd h))
        (omega (arith, weight-cleared event (m.contexts fd) r, less)) in
    let m' = removed fd event m in
    let bits : c.events ≡ without event (m.contexts fd).events =
      set_context-events event empty_context
        (record (m.contexts fd) { events = without event (m.contexts fd).events }) in
    record {
      valid =
          watched-Inv m' fd
            (record {
              sized = t.sized;
              bounded = t.bounded;
              sound = t.sound;
              counted = t.counted;
              unwatched =
                  λ i k. update_other m.interest fd i _ (omega arith) ∙ v.table.unwatched i k;
            })
            (λ i k n.
              update_other m.interest fd i _ n
              ∙ v.mirrored i k
              ∙ ap (λ x. wanted x.events) (sym (update_other m.contexts fd i c n)))
            (update_self m.interest fd _
              ∙ ap wanted (sym bits)
              ∙ ap (λ x. wanted x.events) (sym (update_self m.contexts fd c)));
      result = sym (ap (λ t. t && true) (registered-within m fd event h ∙ r));
      registered =
          update-registered m' m.contexts fd event c h refl
          ∙ ap (has event) bits
          ∙ has-without_self event (m.contexts fd).events
          ∙ sym (ap (λ t. t && false) (registered-within m fd event h ∙ r));
      others =
          update-SameBut m m' fd event c refl refl
            (λ e n. ap (has e) bits ∙ has-without_other event e _ n);
      contexts = λ i n. update_other m.contexts fd i c n;
      other_context = λ e n.
          ap (get_context e) (update_self m.contexts fd c)
          ∙ other_of_cleared event e (m.contexts fd) n;
      pending = less;
      nothing_queued = refl;
    }

-- On a well-formed manager, delEvent returns true exactly if the event is registered and epoll_ctl
-- accepts the call; the manager stays well formed, after true the event is no longer registered and
-- one event less is pending, nothing is scheduled, and every other event is registered as before,
-- with what waits for it.
pub del_event-Removes :
    (refused : Bool) (fd : ℕ) (event : Event) (m : IoManager)
    → Inv m
    → Removes refused fd event m (del_event refused fd event m)
unfolding del_event reset_context
del_event-Removes refused fd event m v = elim (Bool-cases (leb m.size fd)) [
  | inl e ↦
      subst (Removes refused fd event m) (sym (if-true _ _ (outside m.size fd v.table.bounded e))) (
        kept-Removes refused fd event m v
          (ap (λ t. t && not refused) (registered-beyond m fd event (leb→le _ _ e))))
  | inr e ↦
      let h : fd < m.size = ground arith in
      subst (Removes refused fd event m)
        (sym (if-false _ _ (ap not (inside m.size fd v.table.bounded h))))
        (elim (Bool-cases (has event (m.contexts fd).events)) [
          | inl r ↦ elim (Bool-cases refused) [
            | inl x ↦
                subst (Removes refused fd event m) (sym (if-false _ _ (ap not r) ∙ if-true _ _ x)) (
                  kept-Removes refused fd event m v
                    (ap₂ (λ t u. t && not u) (registered-within m fd event h ∙ r) x))
            | inr x ↦
                subst (Removes refused fd event m) (sym (if-false _ _ (ap not r) ∙ if-false _ _ x))
                  (subst (λ t. Removes t fd event m (removed fd event m, true)) (sym x)
                    (removed-Removes fd event m v h r))
          ]
          | inr r ↦ subst (Removes refused fd event m) (sym (if-true _ _ (ap not r))) (
              kept-Removes refused fd event m v
                (ap (λ t. t && not refused) (registered-within m fd event h ∙ r)))
        ])
]

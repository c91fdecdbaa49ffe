-- ===== src/IoManager/Cancel.antt =====
-- cancelEvent (windgent/iomanager.cc): what it does to the registered events and the queues.
use hpserver_fw.Prelude.{
  ℕ, ◌+◌, ◌<◌, ◌≡◌, ◌⊎◌, inl, inr, refl, [], ◌∷◌, ◌++◌, sym, ap, ap₂, subst, ◌∙◌, Bool, true, false,
  not, ◌&&◌, Option, some, arith, leb, leb→le, Bool-cases, if-true, if-false,
}
use hpserver_fw.IoManager.Contexts.{Event, Events, has, without, empty_context, get_context}
use hpserver_fw.IoManager.Operations.{
  IoManager, update, wanted, fire, fired, in_table, cancel_event,
}
use hpserver_fw.IoManager.Invariant.{
  IsTable, Inv, update_self, update_other, watched-Inv, cleared, outside, inside,
}
use hpserver_fw.IoManager.Fire.{fire-Fired}
use hpserver_fw.IoManager.Registered.{
  is_registered, SameBut, set_context-events, update-SameBut, update-registered, registered-beyond,
  registered-within, has-without_self, has-without_other,
}
use hpserver_fw.IoManager.Sequence.{Scheduled, task_of-waiting}

-- What `cancelEvent` does where it returns true.
pub record Cancelled (fd : ℕ) (event : Event) (m m' : IoManager) : Type 0 where
  pub valid : Inv m'
  pub removed : is_registered m' fd event ≡ false
  pub others : SameBut fd event m m'
  pub scheduled : Scheduled event fd m m'
  pub one_less : m'.pending + 1 ≡ m.pending

abbrev pub Cancels : ℕ → Event → IoManager → IoManager → Bool → Type 0
Cancels fd event m m' ok = ((ok ≡ false) × (m' ≡ m)) ⊎ ((ok ≡ true) × Cancelled fd event m m')

abbrev watching : IoManager → ℕ → Option Events → IoManager
watching m fd w = record m { interest = update m.interest fd w }

cancelled :
    (fd : ℕ) (event : Event) (m : IoManager)
    → Inv m
    → fd < m.size
    → has event (m.contexts fd).events ≡ true
    → (m' : IoManager) × (fire fd event
          (watching m fd (wanted (without event (m.contexts fd).events)))
        ≡ some m')
      × Cancelled fd event m m'
cancelled fd event m v h r =
    let left = without event (m.contexts fd).events in
    let m0 = watching m fd (wanted left) in
    let t0 : IsTable m0 = record {
      sized = v.table.sized;
      bounded = v.table.bounded;
      sound = v.table.sound;
      counted = v.table.counted;
      unwatched = λ i k. update_other m.interest fd i _ (omega arith) ∙ v.table.unwatched i k;
    } in
    let (m', run, t, f) = fire-Fired event fd m0 t0 h r in
    let c = cleared event (m.contexts fd) in
    let bits : c.events ≡ left =
      set_context-events event empty_context (record (m.contexts fd) { events = left }) in
    let at_fd : m'.contexts fd ≡ c = ap (λ g. g fd) f.contexts_are ∙ update_self m.contexts fd c in
    (
      m',
      run,
      record {
        valid =
            watched-Inv m' fd t
              (λ i l n.
                ap (λ g. g i) f.same_interest
                ∙ update_other m.interest fd i _ n
                ∙ v.mirrored i (subst (λ x. i < x) f.same_size l)
                ∙ ap (λ x. wanted x.events)
                    (sym (ap (λ g. g i) f.contexts_are ∙ update_other m.contexts fd i c n)))
              (ap (λ g. g fd) f.same_interest
                ∙ update_self m.interest fd _
                ∙ ap wanted (sym (ap (λ x. x.events) at_fd ∙ bits)));
        removed =
            update-registered m' m.contexts fd event c (subst (λ x. fd < x) (sym f.same_size) h)
              f.contexts_are
            ∙ ap (has event) bits
            ∙ has-without_self event (m.contexts fd).events;
        others =
            update-SameBut m m' fd event c f.same_size f.contexts_are
              (λ e n. ap (has e) bits ∙ has-without_other event e _ n);
        scheduled = record {
          scheduler = f.scheduler;
          on = f.on;
          queued =
              f.queued
              ∙ ap (λ t. m.queues f.scheduler ++ (t ∷ []))
                  (task_of-waiting (get_context event (m.contexts fd)));
          other_queues = f.other_queues;
        };
        one_less = f.one_less;
      },
    )

-- On a well-formed manager, cancelEvent of any descriptor that is not negative fails no assertion
-- and returns true exactly if the event is registered and epoll_ctl accepts the call; after false
-- nothing has changed, and after true the manager is well formed, the callback that waited or else
-- the fiber is put into the queue of its scheduler, and the event is no longer registered.
pub cancel_event-Cancels :
    (refused : Bool) (fd : ℕ) (event : Event) (m : IoManager)
    → Inv m
    → (m' : IoManager) × (cancel_event refused fd event m
        ≡ some (m', is_registered m fd event && not refused))
      × Cancels fd event m m' (is_registered m fd event && not refused)
unfolding cancel_event
cancel_event-Cancels refused fd event m v = elim (Bool-cases (leb m.size fd)) [
  | inl e ↦
      let q = ap (λ t. t && not refused) (registered-beyond m fd event (leb→le _ _ e)) in
      (
        m,
        if-true _ _ (outside m.size fd v.table.bounded e) ∙ ap (λ t. some (m, t)) (sym q),
        inl (q, refl),
      )
  | inr e ↦
      let h : fd < m.size = ground arith in
      let out : not (in_table m.size fd) ≡ false = ap not (inside m.size fd v.table.bounded h) in
      let w = registered-within m fd event h in
      elim (Bool-cases (has event (m.contexts fd).events)) [
        | inr r ↦
            let q = ap (λ t. t && not refused) (w ∙ r) in
            (
              m,
              if-false _ _ out ∙ if-true _ _ (ap not r) ∙ ap (λ t. some (m, t)) (sym q),
              inl (q, refl),
            )
        | inl r ↦ elim (Bool-cases refused) [
          | inl x ↦
              let q = ap₂ (λ t u. t && not u) (w ∙ r) x in
              (
                m,
                if-false _ _ out
                    ∙ if-false _ _ (ap not r)
                    ∙ if-true _ _ x
                    ∙ ap (λ t. some (m, t)) (sym q),
                inl (q, refl),
              )
          | inr x ↦
              let q = ap₂ (λ t u. t && not u) (w ∙ r) x in
              let (m', run, c) = cancelled fd event m v h r in
              (
                m',
                if-false _ _ out
                    ∙ if-false _ _ (ap not r)
                    ∙ if-false _ _ x
                    ∙ ap fired run
                    ∙ ap (λ t. some (m', t)) (sym q),
                inr (q, c),
              )
        ]
      ]
]

-- ===== src/IoManager/Resize.antt =====
-- The growth of the table of contexts (windgent/iomanager.cc).
use hpserver_fw.Prelude.{
  ℕ, zero, suc, ◌+◌, ◌^◌, ◌≤◌, ◌<◌, ◌≡◌, inl, inr, refl, sym, ap, ap₂, subst, ◌∙◌, false, ◌&&◌,
  none, arith, ltb, leb, min, ltb→lt, Bool-cases, if◌then◌else◌, if-true, if-false,
}
use hpserver_fw.IoManager.Contexts.{
  Event, read_event, write_event, has, no_events, new_context, get_context,
}
use hpserver_fw.IoManager.Operations.{IoManager, io_manager, wanted, context_resize}
use hpserver_fw.IoManager.Invariant.{IsContext, Matches, weight, count, Inv}
use hpserver_fw.IoManager.Registered.{is_registered, registered-beyond, registered-within}

-- Growing the table.
pub resized-here :
    (m : IoManager) (n i : ℕ) → i < m.size → (context_resize n m).contexts i ≡ m.contexts i
unfolding context_resize
resized-here m n i h = if-false {b = leb m.size i && ltb i n} _ _ (ground arith)

pub resized-new :
    (m : IoManager) (n i : ℕ) → m.size ≤ i → i < n → (context_resize n m).contexts i ≡ new_context i
unfolding context_resize
resized-new m n i h k = if-true {b = leb m.size i && ltb i n} _ _ (ground arith)

pub drop_zero : (n : ℕ) → 0 + 0 + n ≡ n
drop_zero n = omega arith

pub wanted-none : wanted no_events ≡ none
unfolding wanted
wanted-none = refl

count-resized :
    (m : IoManager) (n k : ℕ)
    → m.size ≤ n
    → k ≤ n
    → count k (context_resize n m).contexts ≡ count (min k m.size) m.contexts
unfolding count
count-resized m n zero h l =
    let none_yet : 0 ≡ min 0 m.size = omega arith in ap (λ t. count t m.contexts) none_yet
count-resized m n (suc k) h l = elim (Bool-cases (ltb k m.size)) [
  | inl e ↦
      let below = ltb→lt _ _ e in
      let this : min (suc k) m.size ≡ suc (min k m.size) = omega arith in
      let same : min k m.size ≡ k = omega arith in
      ap₂ (λ c r. weight c + r) (resized-here m n k below)
        (count-resized m n k h (omega arith) ∙ ap (λ t. count t m.contexts) same)
      ∙ sym (ap (λ t. count t m.contexts) (this ∙ ap suc same))
  | inr e ↦
      let this : min (suc k) m.size ≡ min k m.size = ground arith in
      ap₂ (λ c r. weight c + r) (resized-new m n k (ground arith) (omega arith))
        (count-resized m n k h (omega arith))
      ∙ drop_zero (count (min k m.size) m.contexts)
      ∙ ap (λ t. count t m.contexts) (sym this)
]

new-IsContext : (fd : ℕ) → IsContext fd (new_context fd)
unfolding get_context
new-IsContext fd = record { numbered = refl; matches = each }
  where
    each : (e : Event) → Matches (has e no_events) (get_context e (new_context fd))
    each read_event = refl
    each write_event = refl

pub context_resize-Inv :
    (m : IoManager) (n : ℕ) → Inv m → m.size ≤ n → n < 2 ^ 31 → Inv (context_resize n m)
context_resize-Inv m n v h k =
    let all : min n m.size ≡ m.size = omega arith in
    unfold context_resize in
    record {
      table = record {
        sized = omega (arith, v.table.sized);
        bounded = k;
        sound = λ i l. elim (Bool-cases (ltb i m.size)) [
          | inl e ↦
              subst (IsContext i) (sym (resized-here m n i (ltb→lt _ _ e)))
                (v.table.sound i (ltb→lt _ _ e))
          | inr e ↦ subst (IsContext i) (sym (resized-new m n i (ground arith) l)) (new-IsContext i)
        ];
        counted =
            v.table.counted
            ∙ sym (count-resized m n n h (omega arith) ∙ ap (λ t. count t m.contexts) all);
        unwatched = λ i l. v.table.unwatched i (omega arith);
      };
      mirrored = λ i l. elim (Bool-cases (ltb i m.size)) [
        | inl e ↦
            v.mirrored i (ltb→lt _ _ e)
            ∙ ap (λ c. wanted c.events) (sym (resized-here m n i (ltb→lt _ _ e)))
        | inr e ↦
            v.table.unwatched i (ground arith)
            ∙ sym wanted-none
            ∙ ap (λ c. wanted c.events) (sym (resized-new m n i (ground arith) l))
      ];
    }

pub registered-resized :
    (m : IoManager) (n i : ℕ) (e : Event)
    → m.size ≤ n
    → is_registered (context_resize n m) i e ≡ is_registered m i e
registered-resized m n i e h = elim (Bool-cases (ltb i m.size)) [
  | inl q ↦
      let l = ltb→lt _ _ q in
      registered-within (context_resize n m) i e (unfold context_resize in omega arith)
      ∙ ap (λ c. has e c.events) (resized-here m n i l)
      ∙ sym (registered-within m i e l)
  | inr q ↦ elim (Bool-cases (ltb i n)) [
    | inl p ↦
        registered-within (context_resize n m) i e (unfold context_resize in ltb→lt _ _ p)
        ∙ ap (λ c. has e c.events) (resized-new m n i (ground arith) (ltb→lt _ _ p))
        ∙ no_event e
        ∙ sym (registered-beyond m i e (ground arith))
    | inr p ↦
        registered-beyond (context_resize n m) i e (unfold context_resize in ground arith)
        ∙ sym (registered-beyond m i e (ground arith))
  ]
]
  where
    no_event : (e : Event) → has e no_events ≡ false
    no_event read_event = refl
    no_event write_event = refl

pub io_manager-Inv : Inv io_manager
unfolding io_manager context_resize count
io_manager-Inv = record {
  table = record {
    sized = omega arith;
    bounded = omega arith;
    sound = λ fd h. subst (IsContext fd) (sym (fresh fd)) (new-IsContext fd);
    counted = refl;
    unwatched = λ fd h. refl;
  };
  mirrored = λ fd h. sym wanted-none ∙ ap (λ c. wanted c.events) (sym (fresh fd));
}
  where
    fresh :
        (fd : ℕ)
        → (if leb 0 fd && ltb fd 32 then new_context fd else new_context fd) ≡ new_context fd
    fresh fd = ground arith

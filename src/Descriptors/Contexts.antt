-- ===== src/Descriptors/Contexts.antt =====
-- The table of FdManager: no access is out of range, and what get and del do to its entries.
use hpserver_fw.Prelude.{
  ℕ, zero, suc, ◌*◌, ◌/◌, ◌^◌, ◌≤◌, ◌<◌, ◌≡◌, ◌≢◌, ◌⊎◌, ==_iff, inl, inr, refl, sym, ap, subst, ◌∙◌,
  Bool, true, false, Option, none, some, [], ◌∷◌, arith, leb, leb→le, Bool-cases, if◌then◌else◌,
  if-true, if-false, length,
}
use hpserver_fw.Prelude.Int.{pos, int_of, int_le, int_of-le}
use hpserver_fw.Descriptors.Table.{
  Fds, get_elem?, resize, length-resize, get_elem?-resize_old, get_elem?-resize_new,
  set_elem-Assigned,
}
use hpserver_fw.Descriptors.Manager.{
  FdCtx, fd_ctx, FdManager, put_context, stored_at, create, get_entry, get, deleted, del,
}

-- The pointer for a descriptor, null beyond the table.
abbrev pub entry_pointer : Option (Option ℕ) → Option ℕ
entry_pointer none = none
entry_pointer (some p) = p

abbrev pub pointer : Fds → ℕ → Option ℕ
pointer t fd = entry_pointer (get_elem? t fd)

-- The table has the 64 entries of the constructor at least, and its size fits an int.
abbrev pub IsTable : FdManager → Type 0
IsTable m = (64 ≤ length m.fds) × (length m.fds < 2 ^ 31)

get_elem?-beyond : (t : Fds) (i : ℕ) → length t ≤ i → get_elem? t i ≡ none
unfolding get_elem?
get_elem?-beyond [] i h = refl
get_elem?-beyond (p ∷ t) zero h = absurd (omega arith)
get_elem?-beyond (p ∷ t) (suc i) h = get_elem?-beyond t i (omega arith)

resize-pointer : (t : Fds) (n j : ℕ) → length t ≤ n → pointer (resize t n) j ≡ pointer t j
resize-pointer t n j h = elim (Bool-cases (leb (length t) j)) [
  | inl beyond ↦ elim (Bool-cases (leb n j)) [
    | inl e ↦ ap entry_pointer (
        get_elem?-beyond (resize t n) j (omega (arith, length-resize t n h, leb→le _ _ e))
        ∙ sym (get_elem?-beyond t j (leb→le _ _ beyond)))
    | inr e ↦
        ap entry_pointer (get_elem?-resize_new t n j (leb→le _ _ beyond) (ground arith))
        ∙ sym (ap entry_pointer (get_elem?-beyond t j (leb→le _ _ beyond)))
  ]
  | inr e ↦ ap entry_pointer (get_elem?-resize_old t n j h (ground arith))
]

-- The table that `create` assigns to.
abbrev grown : Fds → ℕ → Fds
grown t fd = if int_le (int_of (length t)) (pos fd) then resize t (fd * 3 / 2) else t

record HasRoom (t : Fds) (fd : ℕ) (t' : Fds) : Type 0 where
  in_range : fd < length t'
  longer : length t ≤ length t'
  small : length t' < 2 ^ 31
  same : (j : ℕ) → pointer t' j ≡ pointer t j

grown-HasRoom :
    (t : Fds) (fd : ℕ) → 64 ≤ length t → length t < 2 ^ 31 → fd < 2 ^ 30 → HasRoom t fd (grown t fd)
grown-HasRoom t fd h k l = elim (Bool-cases (leb (length t) fd)) [
  | inl e ↦
      let le = leb→le _ _ e in
      let n = length-resize t (fd * 3 / 2) (omega arith) in
      subst (HasRoom t fd) (sym (if-true _ _ (int_of-le (length t) fd k ∙ e))) (record {
        in_range = omega arith;
        longer = omega arith;
        small = omega arith;
        same = λ j. resize-pointer t (fd * 3 / 2) j (omega arith);
      })
  | inr e ↦
      subst (HasRoom t fd) (sym (if-false _ _ (int_of-le (length t) fd k ∙ e)))
        (record { in_range = ground arith; longer = omega arith; small = k; same = λ j. refl })
]

in_table : (t : Fds) (i : ℕ) → i < length t → ¬ get_elem? t i ≡ none
unfolding get_elem?
in_table [] i h e = absurd (omega arith)
in_table (p ∷ t) zero h e = cc
in_table (p ∷ t) (suc i) h e = in_table t i (omega arith) e

-- What a call that creates a context for fd at the address a leaves.
pub record Created (fstat : ℕ → Option Bool) (m : FdManager) (fd a : ℕ) (m' : FdManager)
    : Type 0 where
  pub here : pointer m'.fds fd ≡ some a
  pub others : (j : ℕ) → j ≢ fd → pointer m'.fds j ≡ pointer m.fds j
  pub context : m'.contexts a ≡ (fd_ctx fstat m.flags fd).0
  pub table : IsTable m'

put_context_self : (h : ℕ → FdCtx) (a : ℕ) (c : FdCtx) → put_context h a c a ≡ c
unfolding put_context
put_context_self h a c = if-true _ _ ((==_iff a a).1 refl)

create-Created :
    (fstat : ℕ → Option Bool) (m : FdManager) (fd a : ℕ)
    → IsTable m
    → fd < 2 ^ 30
    → (m' : FdManager) × (create fstat fd a m ≡ some (m', some a)) × Created fstat m fd a m'
unfolding create stored_at
create-Created fstat m fd a h l =
    let r = grown-HasRoom m.fds fd h.0 h.1 l in
    let (t', run, q) = set_elem-Assigned (grown m.fds fd) fd (some a) r.in_range in
    let ctx = fd_ctx fstat m.flags fd in
    let m1 = record m { contexts = put_context m.contexts a ctx.0; flags = ctx.1 } in
    (
      record m1 { fds = t' },
      ap (stored_at m1 a) run,
      record {
        here = ap entry_pointer q.here;
        others = λ j n. ap entry_pointer (q.others j n) ∙ r.same j;
        context = put_context_self m.contexts a ctx.0;
        table =
            (omega (arith, q.same_length, r.longer, h.0), omega (arith, q.same_length, r.small));
      },
    )

-- On a table of at least 64 and less than 2 ^ 31 entries, get with auto_create, for a descriptor
-- that is not negative and below 2 ^ 30, makes no access out of range and returns a context: the
-- one that is there, with nothing changed, or, where there is none, a new one as its constructor
-- leaves it, which is then the entry of the descriptor; every other entry is as before, and the
-- table is still of such a size.
pub get-Created :
    (fstat : ℕ → Option Bool) (m : FdManager) (fd a : ℕ)
    → IsTable m
    → fd < 2 ^ 30
    → (m' : FdManager) × (p : ℕ) × (get fstat (pos fd) true a m ≡ some (m', some p))
      × (((pointer m.fds fd ≡ some p) × (m' ≡ m))
          ⊎ ((pointer m.fds fd ≡ none) × (p ≡ a) × Created fstat m fd a m'))
unfolding get get_entry
get-Created fstat m fd a h l =
    let (m', run, c) = create-Created fstat m fd a h l in
    let cast = int_of-le (length m.fds) fd h.1 in
    elim (Bool-cases (leb (length m.fds) fd)) [
      | inl e ↦ (
        m',
        a,
        if-true _ _ (cast ∙ e) ∙ run,
        inr (ap entry_pointer (get_elem?-beyond m.fds fd (leb→le _ _ e)), refl, c),
      )
      | inr e ↦ here m' c run (cast ∙ e) e (get_elem? m.fds fd) refl
    ]
  where
    here :
        (m' : FdManager)
        → Created fstat m fd a m'
        → create fstat fd a m ≡ some (m', some a)
        → int_le (int_of (length m.fds)) (pos fd) ≡ false
        → leb (length m.fds) fd ≡ false
        → (o : Option (Option ℕ)) → get_elem? m.fds fd ≡ o
        → (m' : FdManager) × (p : ℕ) × (get fstat (pos fd) true a m ≡ some (m', some p))
          × (((pointer m.fds fd ≡ some p) × (m' ≡ m))
              ⊎ ((pointer m.fds fd ≡ none) × (p ≡ a) × Created fstat m fd a m'))
    here m' c run cast e none q = absurd (in_table m.fds fd (ground arith) q)
    here m' c run cast e (some none) q = (
      m',
      a,
      if-false _ _ cast ∙ ap (get_entry fstat fd true a m) q ∙ run,
      inr (ap entry_pointer q, refl, c),
    )
    here m' c run cast e (some (some p)) q = (
      m,
      p,
      if-false _ _ cast ∙ ap (get_entry fstat fd true a m) q,
      inl (ap entry_pointer q, refl),
    )

-- On a table of at least 64 and less than 2 ^ 31 entries, del of any descriptor that is not
-- negative makes no access out of range; afterwards the descriptor has no context, every other
-- entry is as before, and the table is still of such a size.
pub del-pointer :
    (m : FdManager) (fd : ℕ)
    → IsTable m
    → (m' : FdManager) × (del (pos fd) m ≡ some m')
      × IsTable m'
      × (pointer m'.fds fd ≡ none)
      × ((j : ℕ) → j ≢ fd → pointer m'.fds j ≡ pointer m.fds j)
unfolding del deleted
del-pointer m fd h = elim (Bool-cases (leb (length m.fds) fd)) [
  | inl e ↦ (
    m,
    if-true _ _ (int_of-le (length m.fds) fd h.1 ∙ e),
    h,
    ap entry_pointer (get_elem?-beyond m.fds fd (leb→le _ _ e)),
    λ j n. refl,
  )
  | inr e ↦
      let (t', run, q) = set_elem-Assigned m.fds fd none (ground arith) in
      (
        record m { fds = t' },
        if-false _ _ (int_of-le (length m.fds) fd h.1 ∙ e) ∙ ap (deleted m) run,
        (omega (arith, q.same_length, h.0), omega (arith, q.same_length, h.1)),
        ap entry_pointer q.here,
        λ j n. ap entry_pointer (q.others j n),
      )
]

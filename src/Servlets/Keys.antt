-- ===== src/Servlets/Keys.antt =====
-- Tables of servlets: what the updates do to the other entries, and that no URI has two entries.
use hpserver_fw.Prelude.{
  same_text, same_text→eq, same_text→ne, ◌≡◌, ◌≢◌, inl, inr, refl, sym, ap, subst, ◌∙◌, some, [],
  ◌∷◌, ◌++◌, Bool-cases, if◌then◌else◌, if-true, if-false,
}
use hpserver_fw.Servlets.Table.{
  Uri, Table, find, assign, erase_first, Absent, Unique, find_step_same, find_step_other,
}

module _ {ℓ} {A : Type ℓ} where
  other_here :
      (u v : Uri) (r : A) (t t' : Table A)
      → find v t ≡ find v t'
      → find v ((u, r) ∷ t) ≡ find v ((u, r) ∷ t')
  unfolding find
  other_here u v r t t' e = ap (λ o. if same_text u v then some r else o) e

  pub find-assign_other :
      (u v : Uri) (s : A) (t : Table A) → u ≢ v → find v (assign u s t) ≡ find v t
  unfolding assign
  find-assign_other u v s [] n = find_step_other v u s [] n
  find-assign_other u v s ((w, r) ∷ t) n = elim (Bool-cases (same_text w u)) [
    | inl e ↦
        let n' : w ≢ v = λ x. n (sym (same_text→eq w u e) ∙ x) in
        ap (find v) (if-true _ _ e) ∙ find_step_other v w s t n' ∙ sym (find_step_other v w r t n')
    | inr e ↦ ap (find v) (if-false _ _ e) ∙ other_here w v r _ t (find-assign_other u v s t n)
  ]

  pub find-erase_other : (u v : Uri) (t : Table A) → u ≢ v → find v (erase_first u t) ≡ find v t
  unfolding erase_first
  find-erase_other u v [] n = refl
  find-erase_other u v ((w, r) ∷ t) n = elim (Bool-cases (same_text w u)) [
    | inl e ↦
        ap (find v) (if-true _ _ e)
        ∙ sym (find_step_other v w r t (λ x. n (sym (same_text→eq w u e) ∙ x)))
    | inr e ↦ ap (find v) (if-false _ _ e) ∙ other_here w v r _ t (find-erase_other u v t n)
  ]

  pub find-push_other :
      (u v : Uri) (s : A) (t : Table A) → u ≢ v → find v (t ++ ((u, s) ∷ [])) ≡ find v t
  find-push_other u v s [] n = find_step_other v u s [] n
  find-push_other u v s ((w, r) ∷ t) n = other_here w v r _ t (find-push_other u v s t n)

  pub find-push_self :
      (u : Uri) (s : A) (t : Table A) → Absent u t → find u (t ++ ((u, s) ∷ [])) ≡ some s
  find-push_self u s [] h = find_step_same u u s [] refl
  find-push_self u s ((w, r) ∷ t) (n, h) = find_step_other u w r _ n ∙ find-push_self u s t h

  Absent-assign : (u v : Uri) (s : A) (t : Table A) → u ≢ v → Absent v t → Absent v (assign u s t)
  unfolding assign
  Absent-assign u v s [] n h = (n, tt)
  Absent-assign u v s ((w, r) ∷ t) n (m, h) = elim (Bool-cases (same_text w u)) [
    | inl e ↦ subst (Absent v) (sym (if-true _ _ e)) (m, h)
    | inr e ↦ subst (Absent v) (sym (if-false _ _ e)) (m, Absent-assign u v s t n h)
  ]

  Absent-erase : (u v : Uri) (t : Table A) → Absent v t → Absent v (erase_first u t)
  unfolding erase_first
  Absent-erase u v [] h = tt
  Absent-erase u v ((w, r) ∷ t) (m, h) = elim (Bool-cases (same_text w u)) [
    | inl e ↦ subst (Absent v) (sym (if-true _ _ e)) h
    | inr e ↦ subst (Absent v) (sym (if-false _ _ e)) (m, Absent-erase u v t h)
  ]

  pub Unique-assign : (u : Uri) (s : A) (t : Table A) → Unique t → Unique (assign u s t)
  unfolding assign
  Unique-assign u s [] q = (tt, tt)
  Unique-assign u s ((w, r) ∷ t) (h, q) = elim (Bool-cases (same_text w u)) [
    | inl e ↦ subst Unique (sym (if-true _ _ e)) (h, q)
    | inr e ↦
        subst Unique (sym (if-false _ _ e))
          (Absent-assign u w s t (λ x. same_text→ne w u e (sym x)) h, Unique-assign u s t q)
  ]

  pub Unique-erase : (u : Uri) (t : Table A) → Unique t → Unique (erase_first u t)
  unfolding erase_first
  Unique-erase u [] q = tt
  Unique-erase u ((w, r) ∷ t) (h, q) = elim (Bool-cases (same_text w u)) [
    | inl e ↦ subst Unique (sym (if-true _ _ e)) q
    | inr e ↦ subst Unique (sym (if-false _ _ e)) (Absent-erase u w t h, Unique-erase u t q)
  ]

  -- Where no URI has two entries, erasing the first entry of u leaves none.
  pub erase-Absent : (u : Uri) (t : Table A) → Unique t → Absent u (erase_first u t)
  unfolding erase_first
  erase-Absent u [] q = tt
  erase-Absent u ((w, r) ∷ t) (h, q) = elim (Bool-cases (same_text w u)) [
    | inl e ↦
        subst (Absent u) (sym (if-true _ _ e)) (subst (λ x. Absent x t) (same_text→eq w u e) h)
    | inr e ↦ subst (Absent u) (sym (if-false _ _ e)) (same_text→ne w u e, erase-Absent u t q)
  ]

  Absent-push :
      (u v : Uri) (s : A) (t : Table A) → u ≢ v → Absent v t → Absent v (t ++ ((u, s) ∷ []))
  Absent-push u v s [] n h = (n, tt)
  Absent-push u v s ((w, r) ∷ t) n (m, h) = (m, Absent-push u v s t n h)

  pub Unique-push :
      (u : Uri) (s : A) (t : Table A) → Absent u t → Unique t → Unique (t ++ ((u, s) ∷ []))
  Unique-push u s [] h q = (tt, tt)
  Unique-push u s ((w, r) ∷ t) (m, h) (g, q) =
      (Absent-push u w s t (λ x. m (sym x)) g, Unique-push u s t h q)

-- ===== src/Servlets/Table.antt =====
-- Tables of servlets by URI: std::unordered_map, and the vector of pairs that is searched in order
-- (windgent/http/servlet.cc).
use hpserver_fw.Prelude.{
  same_text, same_text→eq, same_text→ne, same_text_refl, ne→same_text, ℕ, ◌≡◌, ◌≢◌, inl, inr, refl,
  sym, ap, subst, ◌∙◌, true, Option, none, some, List, [], ◌∷◌, Bool-cases, if◌then◌else◌, if-true,
  if-false,
}

-- std::string, as its bytes.
abbrev pub Uri : Type 0
Uri = List ℕ

abbrev pub Table {ℓ} : Type ℓ → Type ℓ
Table A = List (Uri × A)

unfoldable pub find {ℓ} : {A : Type ℓ} → Uri → Table A → Option A
unfolding same_text
find u [] = none
find u ((v, s) ∷ t) = let rest = find u t in if same_text v u then some s else rest

-- `table[u] = s`.
unfoldable pub assign {ℓ} : {A : Type ℓ} → Uri → A → Table A → Table A
unfolding same_text
assign u s [] = (u, s) ∷ []
assign u s ((v, r) ∷ t) =
    let rest = assign u s t in if same_text v u then (v, s) ∷ t else (v, r) ∷ rest

-- The loop that erases the first entry of u.
unfoldable pub erase_first {ℓ} : {A : Type ℓ} → Uri → Table A → Table A
unfolding same_text
erase_first u [] = []
erase_first u ((v, r) ∷ t) =
    let rest = erase_first u t in if same_text v u then t else (v, r) ∷ rest

module _ {ℓ} {A : Type ℓ} where
  -- No entry of u.
  abbrev pub Absent : Uri → Table A → Type 0
  Absent u [] = Unit
  Absent u ((v, s) ∷ t) = (v ≢ u) × Absent u t

  abbrev pub Unique : Table A → Type 0
  Unique [] = Unit
  Unique ((v, s) ∷ t) = Absent v t × Unique t

  pub find_step_same : (u v : Uri) (s : A) (t : Table A) → v ≡ u → find u ((v, s) ∷ t) ≡ some s
  unfolding find
  find_step_same u v s t e =
      if-true _ _ (subst (λ x. same_text x u ≡ true) (sym e) (same_text_refl u))

  pub find_step_other : (u v : Uri) (s : A) (t : Table A) → v ≢ u → find u ((v, s) ∷ t) ≡ find u t
  unfolding find
  find_step_other u v s t n = if-false _ _ (ne→same_text v u n)

  pub find-Absent : (u : Uri) (t : Table A) → Absent u t → find u t ≡ none
  unfolding find
  find-Absent u [] h = refl
  find-Absent u ((v, s) ∷ t) (n, h) = find_step_other u v s t n ∙ find-Absent u t h

  pub find-assign_self : (u : Uri) (s : A) (t : Table A) → find u (assign u s t) ≡ some s
  unfolding assign
  find-assign_self u s [] = find_step_same u u s [] refl
  find-assign_self u s ((v, r) ∷ t) = elim (Bool-cases (same_text v u)) [
    | inl e ↦ ap (find u) (if-true _ _ e) ∙ find_step_same u v s t (same_text→eq v u e)
    | inr e ↦
        ap (find u) (if-false _ _ e)
        ∙ find_step_other u v r (assign u s t) (same_text→ne v u e)
        ∙ find-assign_self u s t
  ]

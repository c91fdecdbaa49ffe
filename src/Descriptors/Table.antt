-- ===== src/Descriptors/Table.antt =====
-- std::vector<FdCtx::ptr> (windgent/fd_manager.h): a pointer is an address or null.
use hpserver_fw.Prelude.{
  ℕ, zero, suc, ◌-◌, ◌<◌, ◌≤◌, ◌≡◌, ◌≢◌, refl, ap, ◌∙◌, Option, none, some, List, [], ◌∷◌, ◌++◌,
  arith, length, length-append, take, take_all,
}

abbrev pub Fds : Type 0
Fds = List (Option ℕ)

-- fds[i], where i is in range.
unfoldable pub get_elem? : Fds → ℕ → Option (Option ℕ)
get_elem? [] i = none
get_elem? (p ∷ t) zero = some p
get_elem? (p ∷ t) (suc i) = get_elem? t i

-- `fds[i] = p`, where i is in range.
unfoldable pub set_elem : Fds → ℕ → Option ℕ → Option Fds
set_elem [] i p = none
set_elem (q ∷ t) zero p = some (p ∷ t)
set_elem (q ∷ t) (suc i) p = elim (set_elem t i p) [ none ↦ none | some t' ↦ some (q ∷ t') ]

unfoldable pub nulls : ℕ → Fds
nulls zero = []
nulls (suc n) = none ∷ nulls n

unfoldable pub resize : Fds → ℕ → Fds
unfolding nulls
resize t n = take n t ++ nulls (n - length t)

length-nulls : (n : ℕ) → length (nulls n) ≡ n
unfolding nulls
length-nulls zero = refl
length-nulls (suc n) = ap suc (length-nulls n)

get_elem?-nulls : (n i : ℕ) → i < n → get_elem? (nulls n) i ≡ some none
unfolding nulls get_elem?
get_elem?-nulls zero i h = absurd (omega arith)
get_elem?-nulls (suc n) zero h = refl
get_elem?-nulls (suc n) (suc i) h = get_elem?-nulls n i (omega arith)

get_elem?-append : (t u : Fds) (i : ℕ) → i < length t → get_elem? (t ++ u) i ≡ get_elem? t i
unfolding get_elem?
get_elem?-append [] u i h = absurd (omega arith)
get_elem?-append (p ∷ t) u zero h = refl
get_elem?-append (p ∷ t) u (suc i) h = get_elem?-append t u i (omega arith)

get_elem?-append_behind :
    (t u : Fds) (i : ℕ) → length t ≤ i → get_elem? (t ++ u) i ≡ get_elem? u (i - length t)
unfolding get_elem?
get_elem?-append_behind [] u i h = ap (get_elem? u) (omega arith)
get_elem?-append_behind (p ∷ t) u zero h = absurd (omega arith)
get_elem?-append_behind (p ∷ t) u (suc i) h =
    get_elem?-append_behind t u i (omega arith) ∙ ap (get_elem? u) (omega arith)

-- Growing keeps the entries, and the new ones are null.
pub length-resize : (t : Fds) (n : ℕ) → length t ≤ n → length (resize t n) ≡ n
unfolding resize
length-resize t n h =
    length-append (take n t) (nulls (n - length t))
    ∙ omega (arith, ap length (take_all n t h), length-nulls (n - length t))

pub get_elem?-resize_old :
    (t : Fds) (n i : ℕ) → length t ≤ n → i < length t → get_elem? (resize t n) i ≡ get_elem? t i
unfolding resize
get_elem?-resize_old t n i h k =
    ap (λ x. get_elem? (x ++ nulls (n - length t)) i) (take_all n t h)
    ∙ get_elem?-append t (nulls (n - length t)) i k

pub get_elem?-resize_new :
    (t : Fds) (n i : ℕ) → length t ≤ i → i < n → get_elem? (resize t n) i ≡ some none
unfolding resize
get_elem?-resize_new t n i h k =
    ap (λ x. get_elem? (x ++ nulls (n - length t)) i) (take_all n t (omega arith))
    ∙ get_elem?-append_behind t (nulls (n - length t)) i h
    ∙ get_elem?-nulls (n - length t) (i - length t) (omega arith)

-- An assignment in range: the entry, the others, and the length.
pub record Assigned (t : Fds) (i : ℕ) (p : Option ℕ) (t' : Fds) : Type 0 where
  pub here : get_elem? t' i ≡ some p
  pub others : (j : ℕ) → j ≢ i → get_elem? t' j ≡ get_elem? t j
  pub same_length : length t' ≡ length t

pub set_elem-Assigned :
    (t : Fds) (i : ℕ) (p : Option ℕ)
    → i < length t
    → (t' : Fds) × (set_elem t i p ≡ some t') × Assigned t i p t'
unfolding set_elem get_elem?
set_elem-Assigned [] i p h = absurd (omega arith)
set_elem-Assigned (q ∷ t) zero p h =
    (p ∷ t, refl, record { here = refl; others = others; same_length = refl })
  where
    others : (j : ℕ) → j ≢ 0 → get_elem? (p ∷ t) j ≡ get_elem? (q ∷ t) j
    others zero n = absurd (n refl)
    others (suc j) n = refl
set_elem-Assigned (q ∷ t) (suc i) p h =
    let (t', run, a) = set_elem-Assigned t i p (omega arith) in
    (
      q ∷ t',
      rw run refl,
      record { here = a.here; others = others t' a; same_length = ap suc a.same_length },
    )
  where
    others :
        (t' : Fds)
        → Assigned t i p t'
        → (j : ℕ) → j ≢ suc i
        → get_elem? (q ∷ t') j ≡ get_elem? (q ∷ t) j
    others t' a zero n = refl
    others t' a (suc j) n = a.others j (λ e. n (ap suc e))

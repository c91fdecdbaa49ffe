-- ===== src/Servlets/Choice.antt =====
-- Which servlet a path is given to, and what the updates of the dispatcher change in that.
use hpserver_fw.Prelude.{
  ◌&&◌, not, c_str, ◌≡◌, ◌≢◌, ◌⊎◌, inl, inr, refl, sym, ap, subst, ◌∙◌, Bool, true, false, Option,
  none, some, [], ◌∷◌, ◌++◌, Bool-cases, if-true, if-false,
}
use hpserver_fw.Servlets.Table.{
  Uri, Table, find, assign, erase_first, Unique, find-Absent, find-assign_self,
}
use hpserver_fw.Servlets.Keys.{
  find-assign_other, find-erase_other, find-push_other, find-push_self, Unique-assign, Unique-erase,
  erase-Absent, Unique-push,
}
use hpserver_fw.Servlets.Dispatcher.{
  ServletPtr, Dispatcher, with_lock, add_servlet, add_glob_servlet, del_servlet, del_glob_servlet,
  found, get_glob_servlet, first_match, matched_or, get_matched_servlet,
}

-- The lock is free, and no URI and no pattern has two entries.
pub record IsReady (d : Dispatcher) : Type 0 where
  pub free : d.locked ≡ false
  pub unique_datas : Unique d.datas
  pub unique_globs : Unique d.globs

with_lock-free :
    (body : Dispatcher → Option Dispatcher) (d d' : Dispatcher)
    → d.locked ≡ false
    → body (record d { locked = true }) ≡ some d'
    → with_lock body d ≡ some (record d' { locked = false })
unfolding with_lock
with_lock-free body d d' free run =
    if-false _ _ (ap (λ t. t && not d.detects) free)
    ∙ ap
        (λ (o : Option Dispatcher). elim o [
          | none ↦ none
          | some d' ↦ some (record d' { locked = false })
        ])
        run

abbrev with_datas : Dispatcher → Table ServletPtr → Dispatcher
with_datas d t = record d { locked = false; datas = t }

abbrev with_globs : Dispatcher → Table ServletPtr → Dispatcher
with_globs d t = record d { locked = false; globs = t }

update_datas :
    (f : Table ServletPtr → Table ServletPtr) (d : Dispatcher)
    → d.locked ≡ false
    → with_lock (λ s. some (record s { datas = f s.datas })) d ≡ some (with_datas d (f d.datas))
update_datas f d free =
    with_lock-free (λ s. some (record s { datas = f s.datas })) d
      (record d { locked = true; datas = f d.datas }) free refl

update_globs :
    (f : Table ServletPtr → Table ServletPtr) (d : Dispatcher)
    → d.locked ≡ false
    → with_lock (λ s. some (record s { globs = f s.globs })) d ≡ some (with_globs d (f d.globs))
update_globs f d free =
    with_lock-free (λ s. some (record s { globs = f s.globs })) d
      (record d { locked = true; globs = f d.globs }) free refl

datas-IsReady :
    (d : Dispatcher) (t : Table ServletPtr) → IsReady d → Unique t → IsReady (with_datas d t)
datas-IsReady d t r q = record { free = refl; unique_datas = q; unique_globs = r.unique_globs }

globs-IsReady :
    (d : Dispatcher) (t : Table ServletPtr) → IsReady d → Unique t → IsReady (with_globs d t)
globs-IsReady d t r q = record { free = refl; unique_datas = r.unique_datas; unique_globs = q }

-- On a dispatcher whose lock is free and whose entries are unique, addGlobServlet with a servlet
-- returns a dispatcher of this kind; the pattern has the new servlet, and every other pattern has
-- its own.
pub add_glob_servlet-IsReady :
    (uri : Uri) (slt : ServletPtr) (d : Dispatcher)
    → IsReady d
    → (d' : Dispatcher) × (add_glob_servlet uri slt d ≡ some d')
      × IsReady d'
      × (get_glob_servlet uri d' ≡ slt)
      × ((v : Uri) → uri ≢ v → get_glob_servlet v d' ≡ get_glob_servlet v d)
unfolding add_glob_servlet get_glob_servlet
add_glob_servlet-IsReady uri slt d r =
    let rest = erase_first uri d.globs in
    let absent = erase-Absent uri d.globs r.unique_globs in
    (
      with_globs d (rest ++ ((uri, slt) ∷ [])),
      update_globs (λ t. erase_first uri t ++ ((uri, slt) ∷ [])) d r.free,
      globs-IsReady d _ r
          (Unique-push uri slt rest absent (Unique-erase uri d.globs r.unique_globs)),
      ap found (find-push_self uri slt rest absent) ∙ (unfold found in refl),
      λ v n. ap found (find-push_other uri v slt rest n ∙ find-erase_other uri v d.globs n),
    )

-- On a dispatcher whose lock is free and whose entries are unique, delGlobServlet, which erases one
-- entry, returns a dispatcher of this kind with no servlet for the pattern; every other pattern has
-- its own.
pub del_glob_servlet-IsReady :
    (uri : Uri) (d : Dispatcher)
    → IsReady d
    → (d' : Dispatcher) × (del_glob_servlet uri d ≡ some d')
      × IsReady d'
      × (get_glob_servlet uri d' ≡ none)
      × ((v : Uri) → uri ≢ v → get_glob_servlet v d' ≡ get_glob_servlet v d)
unfolding del_glob_servlet get_glob_servlet
del_glob_servlet-IsReady uri d r = (
  with_globs d (erase_first uri d.globs),
  update_globs (erase_first uri) d r.free,
  globs-IsReady d _ r (Unique-erase uri d.globs r.unique_globs),
  ap found (find-Absent uri _ (erase-Absent uri d.globs r.unique_globs)) ∙ (unfold found in refl),
  λ v n. ap found (find-erase_other uri v d.globs n),
)

module _ (fnmatch : Uri → Uri → Bool) where
  -- No pattern of the entries matches the path.
  abbrev pub Passed : Uri → Table ServletPtr → Type 0
  Passed uri [] = Unit
  Passed uri ((p, slt) ∷ t) = (fnmatch (c_str p) (c_str uri) ≡ false) × Passed uri t

  -- What is chosen where no exact entry is: the servlet of the first pattern that matches, or the
  -- default if none does.
  abbrev pub Chosen : Uri → Dispatcher → ServletPtr → Type 0
  Chosen uri d slt =
      (Passed uri d.globs × (slt ≡ d.fallback))
      ⊎ ((before : Table ServletPtr) × (p : Uri) × (behind : Table ServletPtr) × (d.globs
            ≡ before ++ ((p, slt) ∷ behind))
          × Passed uri before
          × (fnmatch (c_str p) (c_str uri) ≡ true))

  -- What the dispatcher does for a path without an exact entry does not depend on the entries.
  same_rest :
      (v : Uri) (o : Option ServletPtr) (d : Dispatcher) (t : Table ServletPtr)
      → matched_or fnmatch v (record d { locked = false; datas = t }) o ≡ matched_or fnmatch v d o
  unfolding matched_or
  same_rest v none d t = refl
  same_rest v (some slt) d t = refl

  elsewhere :
      (v : Uri) (d : Dispatcher) (t : Table ServletPtr)
      → find v t ≡ find v d.datas
      → get_matched_servlet fnmatch v (with_datas d t) ≡ get_matched_servlet fnmatch v d
  unfolding get_matched_servlet
  elsewhere v d t e =
      ap (matched_or fnmatch v (with_datas d t)) e ∙ same_rest v (find v d.datas) d t

  first_match-Chosen :
      (uri : Uri) (fallback : ServletPtr) (t : Table ServletPtr)
      → let slt = first_match fnmatch uri fallback t in
        (Passed uri t × (slt ≡ fallback))
        ⊎ ((before : Table ServletPtr) × (p : Uri) × (behind : Table ServletPtr) × (t
              ≡ before ++ ((p, slt) ∷ behind))
            × Passed uri before
            × (fnmatch (c_str p) (c_str uri) ≡ true))
  unfolding first_match
  first_match-Chosen uri fallback [] = inl (tt, refl)
  first_match-Chosen uri fallback ((p, s) ∷ t) = elim (Bool-cases (fnmatch (c_str p) (c_str uri))) [
    | inl e ↦ inr ([], p, t, ap (λ x. (p, x) ∷ t) (sym (if-true _ _ e)), tt, e)
    | inr e ↦ elim (first_match-Chosen uri fallback t) [
      | inl (h, q) ↦ inl ((e, h), if-false _ _ e ∙ q)
      | inr (before, w, behind, whole, h, m) ↦ inr (
        (p, s) ∷ before,
        w,
        behind,
        ap (◌∷◌ (p, s)) (whole ∙ ap (λ x. before ++ ((w, x) ∷ behind)) (sym (if-false _ _ e))),
        (e, h),
        m,
      )
    ]
  ]

  -- For a path without an exact entry, getMatchedServlet returns the servlet of the first pattern
  -- that matches the path, with no pattern before it that matches, or the default if none does.
  pub get_matched_servlet-Chosen :
      (uri : Uri) (d : Dispatcher)
      → find uri d.datas ≡ none
      → Chosen uri d (get_matched_servlet fnmatch uri d)
  unfolding get_matched_servlet
  get_matched_servlet-Chosen uri d e =
      subst (Chosen uri d) (sym (ap (matched_or fnmatch uri d) e))
        (unfold matched_or in first_match-Chosen uri d.fallback d.globs)

  -- On a dispatcher whose lock is free and whose entries are unique, addServlet returns a
  -- dispatcher of this kind; the path of the new entry is given to its servlet, whatever the
  -- patterns, and every other path to the servlet it was given to before.
  pub add_servlet-Matched :
      (uri : Uri) (slt : ServletPtr) (d : Dispatcher)
      → IsReady d
      → (d' : Dispatcher) × (add_servlet uri slt d ≡ some d')
        × IsReady d'
        × (get_matched_servlet fnmatch uri d' ≡ slt)
        × ((v : Uri) → uri ≢ v → get_matched_servlet fnmatch v d' ≡ get_matched_servlet fnmatch v d)
  unfolding add_servlet get_matched_servlet matched_or
  add_servlet-Matched uri slt d r = (
    with_datas d (assign uri slt d.datas),
    update_datas (assign uri slt) d r.free,
    datas-IsReady d _ r (Unique-assign uri slt d.datas r.unique_datas),
    ap (matched_or fnmatch uri (with_datas d (assign uri slt d.datas)))
        (find-assign_self uri slt d.datas),
    λ v n. elsewhere v d (assign uri slt d.datas) (find-assign_other uri v slt d.datas n),
  )

  -- On a dispatcher whose lock is free and whose entries are unique, delServlet returns a
  -- dispatcher of this kind; the path is from then on given to the first pattern that matches or
  -- the default, and every other path to the servlet it was given to before.
  pub del_servlet-Chosen :
      (uri : Uri) (d : Dispatcher)
      → IsReady d
      → (d' : Dispatcher) × (del_servlet uri d ≡ some d')
        × IsReady d'
        × Chosen uri d (get_matched_servlet fnmatch uri d')
        × ((v : Uri) → uri ≢ v → get_matched_servlet fnmatch v d' ≡ get_matched_servlet fnmatch v d)
  unfolding del_servlet
  del_servlet-Chosen uri d r =
      let t = erase_first uri d.datas in
      (
        with_datas d t,
        update_datas (erase_first uri) d r.free,
        datas-IsReady d t r (Unique-erase uri d.datas r.unique_datas),
        get_matched_servlet-Chosen uri (with_datas d t)
            (find-Absent uri t (erase-Absent uri d.datas r.unique_datas)),
        λ v n. elsewhere v d t (find-erase_other uri v d.datas n),
      )

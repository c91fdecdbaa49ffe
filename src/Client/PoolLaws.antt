-- ===== src/Client/PoolLaws.antt =====
-- What HttpConnectionPool keeps (windgent/http/http_connection.cc).
use hpserver_fw.Prelude.{
  ℕ, suc, ◌+◌, ◌%◌, ◌≤◌, ◌<◌, ◌⊎◌, ◌≡◌, refl, sym, ap, subst, ◌∙◌, Bool, true, false, ◌||◌, Option,
  none, some, List, [], ◌∷◌, ◌++◌, length, length-append, ltb, arith, Bool-cases, inl, inr, All,
  All-append, append-nil,
}
use hpserver_fw.Client.Pool.{
  Connection, Pool, is_expired, is_stale, Picked, with_invalid, pick, hand_out, new_connection,
  drop_invalid, get_connection, count_request, release_ptr,
}

abbrev pub as_list : Option Connection → List Connection
as_list none = []
as_list (some c) = c ∷ []

abbrev pub IsServed : ℕ → List Connection → Type 0
IsServed most = All (λ c. c.request ≤ most)

-- m_total counts the pooled connections and the `lent` ones, and no pooled connection has
-- served more than the permitted requests.
pub record Inv (lent : ℕ) (p : Pool) : Type 0 where
  pub counted : p.total ≡ (length p.conns + lent) % 4294967296
  pub served : IsServed p.max_request p.conns

-- A connection more is lent where one was handed out.
unfoldable pub lent_after : Option Connection → ℕ → ℕ
lent_after none lent = lent
lent_after (some c) lent = suc lent

lent_after-length :
    (o : Option Connection) (lent : ℕ) → lent_after o lent ≡ length (as_list o) + lent
unfolding lent_after
lent_after-length none lent = omega arith
lent_after-length (some c) lent = omega arith

-- The new connection over the socket that was opened, if one was.
pub connection_over : Option ℕ → ℕ → Option Connection
connection_over none later = none
connection_over (some sock) later =
    some (record { socket = sock; create_time = later; request = 0 })

module _ (is_connected : ℕ → Bool) where
  -- The socket is connected, and the time of the connection is not over.
  abbrev pub IsUsable : ℕ → ℕ → Connection → Type 0
  IsUsable alive now c =
      (is_connected c.socket ≡ true) × (now ≤ (c.create_time + alive) % 18446744073709551616)

  -- The socket is not connected, or the time of the connection is over.
  abbrev pub IsUseless : ℕ → ℕ → Connection → Type 0
  IsUseless alive now c =
      (is_connected c.socket ≡ false) ⊎ ((c.create_time + alive) % 18446744073709551616 < now)

  stale-IsUseless :
      (alive now : ℕ) (c : Connection)
      → is_stale is_connected alive now c ≡ true
      → IsUseless alive now c
  unfolding is_stale is_expired
  stale-IsUseless alive now c e = elim (Bool-cases (is_connected c.socket)) [
    | inl t ↦ inr (ground (arith, e, t))
    | inr t ↦ inl t
  ]

  fresh-IsUsable :
      (alive now : ℕ) (c : Connection)
      → is_stale is_connected alive now c ≡ false
      → IsUsable alive now c
  unfolding is_stale is_expired
  fresh-IsUsable alive now c e = elim (Bool-cases (is_connected c.socket)) [
    | inl t ↦ (t, ground (arith, e, t))
    | inr t ↦ absurd (ground (arith, e, t))
  ]

  -- The pooled connections before, as the loop divides them.
  pub record Picks (alive now : ℕ) (conns : List Connection) (k : Picked) : Type 0 where
    pub joined : conns ≡ k.invalid_conns ++ (as_list k.ptr ++ k.rest)
    pub stale : All (IsUseless alive now) k.invalid_conns
    pub usable : All (IsUsable alive now) (as_list k.ptr)
    pub exhausted : k.ptr ≡ none → k.rest ≡ []

  pub pick-Picks :
      (alive now : ℕ) (conns : List Connection)
      → Picks alive now conns (pick is_connected alive now conns)
  unfolding pick with_invalid
  pick-Picks alive now [] = record { joined = refl; stale = tt; usable = tt; exhausted = λ e. refl }
  pick-Picks alive now (c ∷ conns) =
      let more = pick-Picks alive now conns in
      elim (Bool-cases (is_stale is_connected alive now c)) [
        | inl e ↦ rw (e) (record {
          joined = ap (◌∷◌ c) more.joined;
          stale = (stale-IsUseless alive now c e, more.stale);
          usable = more.usable;
          exhausted = more.exhausted;
        })
        | inr e ↦ rw (e) (record {
          joined = refl;
          stale = tt;
          usable = (fresh-IsUsable alive now c e, tt);
          exhausted = λ x. cc;
        })
      ]

  pub picked_length :
      (alive now : ℕ) (conns : List Connection)
      → let k = pick is_connected alive now conns in
        length conns ≡ length k.invalid_conns + (length (as_list k.ptr) + length k.rest)
  picked_length alive now conns =
      let k = pick is_connected alive now conns in
      ap length (pick-Picks alive now conns).joined
      ∙ length-append k.invalid_conns (as_list k.ptr ++ k.rest)
      ∙ ap (λ (n : ℕ). length k.invalid_conns + n) (length-append (as_list k.ptr) k.rest)

  pub picked-IsServed :
      (most alive now : ℕ) (conns : List Connection)
      → IsServed most conns
      → IsServed most (pick is_connected alive now conns).rest
  unfolding pick with_invalid
  picked-IsServed most alive now [] h = tt
  picked-IsServed most alive now (c ∷ conns) h =
      elim (Bool-cases (is_stale is_connected alive now c)) [
        | inl e ↦ rw (e) (picked-IsServed most alive now conns (h.1))
        | inr e ↦ rw (e) (h.1)
      ]

  drop_invalid-Inv :
      (now lent : ℕ) (p : Pool)
      → Inv lent p
      → let k = pick is_connected p.max_alive_time now p.conns in
        Inv (lent_after k.ptr lent) (drop_invalid is_connected k p)
  unfolding drop_invalid
  drop_invalid-Inv now lent p i =
      let k = pick is_connected p.max_alive_time now p.conns in
      let n = picked_length p.max_alive_time now p.conns in
      record {
        counted = omega (arith, i.counted, n, lent_after-length k.ptr lent);
        served = picked-IsServed p.max_request p.max_alive_time now p.conns i.served;
      }

  hand_out-Inv :
      (ptr : Option Connection) (opened : Option ℕ) (later lent : ℕ) (p : Pool)
      → Inv (lent_after ptr lent) p
      → let g = hand_out ptr opened later p in Inv (lent_after g.0 lent) g.1
  unfolding hand_out lent_after
  hand_out-Inv (some c) opened later lent p i = i
  hand_out-Inv none none later lent p i = i
  hand_out-Inv none (some sock) later lent p i = record {
    counted = omega (arith, i.counted);
    served = i.served;
  }

  -- getConnection keeps the invariant, with one connection more lent if it returns one.
  pub get_connection-Inv :
      (now : ℕ) (opened : Option ℕ) (later lent : ℕ) (p : Pool)
      → Inv lent p
      → let g = get_connection is_connected now opened later p in
        Inv (lent_after (g.0.0) lent) (g.0.1)
  unfolding get_connection
  get_connection-Inv now opened later lent p i =
      let k = pick is_connected p.max_alive_time now p.conns in
      hand_out-Inv k.ptr opened later lent (drop_invalid is_connected k p)
        (drop_invalid-Inv now lent p i)

  -- releasePtr keeps the invariant, with one connection less lent.
  pub release_ptr-Inv :
      (now : ℕ) (c : Connection) (lent : ℕ) (p : Pool)
      → Inv (suc lent) p
      → Inv lent (release_ptr is_connected now c p)
  unfolding release_ptr
  release_ptr-Inv now c lent p i =
      let d = count_request is_connected c in
      elim (Bool-cases
        (is_stale is_connected p.max_alive_time now d || ltb p.max_request d.request)) [
          | inl e ↦ rw (e) (record { counted = omega (arith, i.counted); served = i.served })
          | inr e ↦ rw (e) (record {
            counted = omega (arith, i.counted, length-append p.conns (d ∷ []));
            served =
                All-append (λ c. c.request ≤ p.max_request) p.conns (d ∷ []) i.served
                  (ground (arith, e), tt);
          })
        ]

  -- The connection that getConnection hands out from the pool, and what becomes of the others.
  pub record Gets (now : ℕ) (opened : Option ℕ) (later : ℕ) (p : Pool) : Type 0 where
    pub outcome :
        let g = get_connection is_connected now opened later p in
        ((c : Connection) × (g.0.0 ≡ some c)
          × IsUsable p.max_alive_time now c
          × (p.conns ≡ g.1 ++ (c ∷ (g.0.1).conns)))
        ⊎ ((g.0.0 ≡ connection_over opened later) × ((g.0.1).conns ≡ []) × (g.1 ≡ p.conns))
    pub deleted :
        All (IsUseless p.max_alive_time now) (get_connection is_connected now opened later p).1

  reused_conns :
      (alive now : ℕ) (conns : List Connection) (k : Picked)
      → Picks alive now conns k
      → (c : Connection) → k.ptr ≡ some c
      → IsUsable alive now c × (conns ≡ k.invalid_conns ++ (c ∷ k.rest))
  reused_conns alive now conns k s c e = (
    (subst (λ o. All (IsUsable alive now) (as_list o)) e s.usable).0,
    s.joined ∙ ap (λ o. k.invalid_conns ++ (as_list o ++ k.rest)) e,
  )

  all_invalid :
      (alive now : ℕ) (conns : List Connection) (k : Picked)
      → Picks alive now conns k
      → k.ptr ≡ none
      → k.invalid_conns ≡ conns
  all_invalid alive now conns k s e = sym (
      s.joined
      ∙ ap (λ o. k.invalid_conns ++ (as_list o ++ k.rest)) e
      ∙ ap (λ r. k.invalid_conns ++ r) (s.exhausted e)
      ∙ append-nil k.invalid_conns)

  hand_out-none-conns :
      (opened : Option ℕ) (later : ℕ) (p : Pool) → (hand_out none opened later p).1.conns ≡ p.conns
  unfolding hand_out
  hand_out-none-conns none later p = refl
  hand_out-none-conns (some sock) later p = refl

  hand_out-none :
      (opened : Option ℕ) (later : ℕ) (p : Pool)
      → (hand_out none opened later p).0 ≡ connection_over opened later
  unfolding hand_out new_connection connection_over
  hand_out-none none later p = refl
  hand_out-none (some sock) later p = refl

  -- getConnection hands out the first pooled connection that is connected and whose time is not
  -- over, deletes exactly those before it, each of which is not connected or has its time over, and
  -- keeps those behind it; where there is none it deletes all, leaves the pool empty, and hands out
  -- a new connection over the socket that was opened, or none if none was.
  pub get_connection-Gets :
      (now : ℕ) (opened : Option ℕ) (later : ℕ) (p : Pool) → Gets now opened later p
  unfolding get_connection hand_out drop_invalid
  get_connection-Gets now opened later p = record {
    outcome = outcome k.ptr refl;
    deleted = s.stale;
  }
    where
      k : Picked
      k = pick is_connected p.max_alive_time now p.conns

      q : Pool
      q = drop_invalid is_connected k p

      s : Picks p.max_alive_time now p.conns k
      s = pick-Picks p.max_alive_time now p.conns

      outcome :
          (o : Option Connection)
          → k.ptr ≡ o
          → let g = get_connection is_connected now opened later p in
            ((c : Connection) × (g.0.0 ≡ some c)
              × IsUsable p.max_alive_time now c
              × (p.conns ≡ g.1 ++ (c ∷ (g.0.1).conns)))
            ⊎ ((g.0.0 ≡ connection_over opened later) × ((g.0.1).conns ≡ []) × (g.1 ≡ p.conns))
      outcome (some c) e =
          let r = reused_conns p.max_alive_time now p.conns k s c e in
          let h : hand_out k.ptr opened later q ≡ (some c, q) =
            ap (λ o. hand_out o opened later q) e in
          inl (c, ap (λ x. x.0) h, r.0, r.1 ∙ ap (λ x. k.invalid_conns ++ (c ∷ x.1.conns)) (sym h))
      outcome none e = inr (
        ap (λ o. (hand_out o opened later q).0) e ∙ hand_out-none opened later q,
        ap (λ o. (hand_out o opened later q).1.conns) e
            ∙ hand_out-none-conns opened later q
            ∙ s.exhausted e,
        all_invalid p.max_alive_time now p.conns k s e,
      )

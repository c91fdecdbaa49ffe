-- ===== src/Timers/Expiry.antt =====
-- `listExpiredCbs`: which timers are expired, and which callbacks are handed out.
use hpserver_fw.Prelude.{
  ℕ, ◌≤◌, ◌<◌, ◌≡◌, ◌≢◌, inl, inr, refl, ap, ap₂, subst, ◌∙◌, false, ◌&&◌, ◌||◌, List, [], ◌∷◌,
  ◌++◌, arith, ltb, ◌==◌, Bool-cases, All, All-append, append_assoc, map,
}
use hpserver_fw.Timers.Manager.{Store, before_bound, skip_due, split_expired, expire, pushed}
use hpserver_fw.Timers.Order.{Less, Sorted, In, All-In, All-tabulate, head_not-In, put_other}

-- The cut of a set at a time: what is due by `now`, and what is later.
pub record Cut (h : Store) (now : ℕ) (l due later : List ℕ) : Type 0 where
  pub joined : due ++ later ≡ l
  pub all_due : All (λ a. (h a).next ≤ now) due
  pub all_later : All (λ a. now < (h a).next) later

pub later-All :
    (h : Store) (now a : ℕ) (l : List ℕ)
    → now < (h a).next
    → All (Less h a) l
    → All (λ b. now < (h b).next) l
later-All h now a l lt s = All-tabulate _ l (λ b i. ground (arith, All-In (Less h a) l b s i))

skip_due-Cut :
    (h : Store) (now : ℕ) (l : List ℕ)
    → Sorted h l
    → All (λ a. now ≤ (h a).next) l
    → Cut h now l (skip_due h now l).0 (skip_due h now l).1
unfolding skip_due
skip_due-Cut h now [] s f = record { joined = refl; all_due = tt; all_later = tt }
skip_due-Cut h now (b ∷ l) (s, t) (f, fs) = elim (Bool-cases ((h b).next == now)) [
  | inl e ↦
      let c = skip_due-Cut h now l t fs in
      rw e (record {
        joined = ap (◌∷◌ b) c.joined;
        all_due = (ground arith, c.all_due);
        all_later = c.all_later;
      })
  | inr e ↦
      let lt : now < (h b).next = ground arith in
      rw e (record { joined = refl; all_due = tt; all_later = (lt, later-All h now b l lt s) })
]

-- lower_bound: all before it are due, and none behind it is earlier than `now`.
record Bound (h : Store) (now : ℕ) (l before rest : List ℕ) : Type 0 where
  joined : before ++ rest ≡ l
  all_due : All (λ a. (h a).next ≤ now) before
  sorted : Sorted h rest
  not_earlier : All (λ a. now ≤ (h a).next) rest

before_bound-Bound :
    (h : Store) (now a : ℕ) (l : List ℕ)
    → Sorted h l
    → Bound h now l (before_bound h now a l).0 (before_bound h now a l).1
unfolding before_bound
before_bound-Bound h now a [] s = record {
  joined = refl;
  all_due = tt;
  sorted = tt;
  not_earlier = tt;
}
before_bound-Bound h now a (b ∷ l) (s, t) =
    elim (Bool-cases (ltb (h b).next now || ((h b).next == now && ltb b a))) [
      | inl e ↦
          let c = before_bound-Bound h now a l t in
          rw e (record {
            joined = ap (◌∷◌ b) c.joined;
            all_due = (ground arith, c.all_due);
            sorted = c.sorted;
            not_earlier = c.not_earlier;
          })
      | inr e ↦
          let ge : now ≤ (h b).next = ground arith in
          rw e (record {
            joined = refl;
            all_due = tt;
            sorted = (s, t);
            not_earlier = (ge, All-tabulate _ l (λ c i. ground (arith, All-In (Less h b) l c s i)));
          })
    ]

-- On a set in order, without a rollover and wherever the object for the current time lies in
-- memory, lower_bound with the loop behind it takes a front of the set: the timers due by now, and
-- none that is later.
pub split_expired-Cut :
    (h : Store) (now a : ℕ) (l : List ℕ)
    → Sorted h l
    → Cut h now l (split_expired h now a false l).0 (split_expired h now a false l).1
unfolding split_expired
split_expired-Cut h now a l s =
    let c = before_bound-Bound h now a l s in
    let rest = (before_bound h now a l).1 in
    let d = skip_due-Cut h now rest c.sorted c.not_earlier in
    record {
      joined =
          append_assoc (before_bound h now a l).0 (skip_due h now rest).0 (skip_due h now rest).1
          ∙ ap (◌++◌ ((before_bound h now a l).0)) d.joined
          ∙ c.joined;
      all_due = All-append _ (before_bound h now a l).0 (skip_due h now rest).0 c.all_due d.all_due;
      all_later = d.all_later;
    }

-- Expiring one timer leaves the others' objects.
pub expire_other : (now a b : ℕ) (s : Store × List ℕ) → b ≢ a → (expire now s a).0 b ≡ s.0 b
unfolding expire
expire_other now a b (h, l) n = elim (Bool-cases (h a).is_recur) [
  | inl e ↦ rw e (put_other h a b _ n)
  | inr e ↦ rw e (put_other h a b _ n)
]

abbrev pub Distinct : List ℕ → Type 0
Distinct [] = Unit {0}
Distinct (a ∷ l) = (¬ In a l) × Distinct l

pub Sorted-Distinct : (h : Store) (l : List ℕ) → Sorted h l → Distinct l
Sorted-Distinct h [] s = tt
Sorted-Distinct h (a ∷ l) s = (head_not-In h a l s, Sorted-Distinct h l s.1)

-- So each timer hands out the callback that it had at the start.
pub pushed-map :
    (now : ℕ) (l : List ℕ) (h : Store) (s : Store × List ℕ)
    → Distinct l
    → ((a : ℕ) → In a l → s.0 a ≡ h a)
    → pushed now l s ≡ map (λ a. (h a).cb) l
unfolding pushed
pushed-map now [] h s d f = refl
pushed-map now (a ∷ l) h s (n, d) f = ap₂ ◌∷◌ (ap (λ t. t.cb) (f a (inl refl))) (
    pushed-map now l h (expire now s a) d
      (λ b i. expire_other now a b s (λ e. n (subst (λ x. In x l) e i)) ∙ f b (inr i)))

-- ===== src/Poller/Passes/Order.antt =====
-- Which passes are open, and what the variables `running` and `queued` say about them.
use kamu_llm_gateway.Prelude.{
  ℕ, suc, ◌<◌, ◌≡◌, ◌≢◌, refl, sym, ap, ◌∙◌, ◌⊎◌, inl, inr, true, false, not, Option, none, some,
  List, ◌∷◌, arith, subst, In, In-select, In_of_select, Bool-cases, ◌==◌, if◌then◌else◌,
}
use kamu_llm_gateway.Poller.Passes.{
  Machine, at_rest, Step, called, ticked, finished, settled, Reach, here, next, is_pass, without,
  start, finish, settle, enqueue, ingest_now, ingest_by, tick, tick_by,
}

pub In-without : (p q : ℕ) (ps : List ℕ) → In q ps → q ≢ p → In q (without p ps)
In-without p q ps h other =
    In-select (λ q. not (q == p)) q ps h
      (elim (Bool-cases (q == p)) [
        | inl same ↦ absurd (other (ground arith))
        | inr differs ↦ ap not differs
      ])

pub In_of_without : (p q : ℕ) (ps : List ℕ) → In q (without p ps) → In q ps × (q ≢ p)
In_of_without p q ps h =
    let (there, kept) = In_of_select (λ q. not (q == p)) q ps h in
    (there, λ same. absurd (ground (arith, kept, same)))

-- A pass whose callbacks have not run yet.
abbrev pub IsOpen : Machine → ℕ → Type 0
IsOpen m p = In p m.polling ⊎ In p m.settling

pub record IsOrdered (m : Machine) : Type 0 where
  pub open_started : (p : ℕ) → IsOpen m p → p < m.started
  pub apart : (p : ℕ) → In p m.polling → In p m.settling → ⊥
  pub running_polls : (p : ℕ) → m.running ≡ some p → In p m.polling
  pub queued_open : (p : ℕ) → m.queued ≡ some p → IsOpen m p
  pub follows_over : (p q : ℕ) → In (p, q) m.follows → (IsOpen m p → ⊥) × (p < m.started)

pub at_rest-IsOrdered : IsOrdered at_rest
at_rest-IsOrdered = record {
  open_started = λ p h. elim h [ inl a ↦ absurd a | inr b ↦ absurd b ];
  apart = λ p h k. absurd h;
  running_polls = λ p e. absurd (cc e);
  queued_open = λ p e. absurd (cc e);
  follows_over = λ p q h. absurd h;
}

pub start-IsOrdered : (m : Machine) → IsOrdered m → IsOrdered (start m).0
unfolding start
start-IsOrdered m ordered = record {
  open_started = before;
  apart = apart;
  running_polls = λ p e. inl (ground (arith, e));
  queued_open = λ p e. wider p (ordered.queued_open p e);
  follows_over = over;
}
  where
    wider : (p : ℕ) → IsOpen m p → IsOpen (start m).0 p
    wider p (inl h) = inl (inr h)
    wider p (inr h) = inr h

    before : (p : ℕ) → IsOpen (start m).0 p → p < suc m.started
    before p (inl (inl e)) = omega arith
    before p (inl (inr h)) = let old = ordered.open_started p (inl h) in omega arith
    before p (inr h) = let old = ordered.open_started p (inr h) in omega arith

    apart : (p : ℕ) → In p (m.started ∷ m.polling) → In p m.settling → ⊥
    apart p (inl e) k = let old = ordered.open_started p (inr k) in absurd (omega arith)
    apart p (inr h) k = ordered.apart p h k

    closed : (p q : ℕ) → In (p, q) m.follows → IsOpen (start m).0 p → ⊥
    closed p q h (inl (inl e)) = let old = (ordered.follows_over p q h).1 in absurd (omega arith)
    closed p q h (inl (inr k)) = (ordered.follows_over p q h).0 (inl k)
    closed p q h (inr k) = (ordered.follows_over p q h).0 (inr k)

    over : (p q : ℕ) → In (p, q) m.follows → (IsOpen (start m).0 p → ⊥) × (p < suc m.started)
    over p q h = (closed p q h, let old = (ordered.follows_over p q h).1 in omega arith)

pub finish-IsOrdered : (p : ℕ) (m : Machine) → In p m.polling → IsOrdered m → IsOrdered (finish p m)
unfolding finish
finish-IsOrdered p m polls ordered = record {
  open_started = λ q h. ordered.open_started q (was q h);
  apart = λ q h k. split q (In_of_without p q m.polling h) k;
  running_polls = λ q e. runs q (Bool-cases (is_pass p m.running)) e;
  queued_open = λ q e. still q (ordered.queued_open q e);
  follows_over =
      λ q r h. (λ k. (ordered.follows_over q r h).0 (was q k), (ordered.follows_over q r h).1);
}
  where
    was : (q : ℕ) → IsOpen (finish p m) q → IsOpen m q
    was q (inl h) = inl ((In_of_without p q m.polling h).0)
    was q (inr (inl e)) = inl (subst (λ r. In r m.polling) (sym e) polls)
    was q (inr (inr h)) = inr h

    split : (q : ℕ) → In q m.polling × (q ≢ p) → In q (p ∷ m.settling) → ⊥
    split q (h, other) (inl e) = other e
    split q (h, other) (inr k) = ordered.apart q h k

    still : (q : ℕ) → IsOpen m q → IsOpen (finish p m) q
    still q (inr h) = inr (inr h)
    still q (inl h) = elim (Bool-cases (q == p)) [
      | inl same ↦ inr (inl (ground arith))
      | inr differs ↦ inl (In-without p q m.polling h (λ e. absurd (ground (arith, e))))
    ]

    other_than : (q : ℕ) → is_pass p (some q) ≡ false → q ≢ p
    other_than q no_pass e = absurd (ground (arith, e))

    runs :
        (q : ℕ)
        → (is_pass p m.running ≡ true) ⊎ (is_pass p m.running ≡ false)
        → (if is_pass p m.running then none else m.running) ≡ some q
        → In q (without p m.polling)
    runs q (inl it) e = absurd (cc (rw it at e))
    runs q (inr not_it) e =
        let runs_q : m.running ≡ some q = rw not_it at e in
        In-without p q m.polling (ordered.running_polls q runs_q)
          (other_than q (ap (λ o. is_pass p o) (sym runs_q) ∙ not_it))

settled_now-IsOrdered :
    (p : ℕ) (m : Machine)
    → is_pass p m.queued ≡ false
    → IsOrdered m
    → IsOrdered (record m { settling = without p m.settling })
settled_now-IsOrdered p m waits ordered = record {
  open_started = λ q h. ordered.open_started q (was q h);
  apart = λ q h k. ordered.apart q h ((In_of_without p q m.settling k).0);
  running_polls = ordered.running_polls;
  queued_open = λ q e.
      still q (other_than q (ap (λ o. is_pass p o) (sym e) ∙ waits)) (ordered.queued_open q e);
  follows_over =
      λ q r h. (λ k. (ordered.follows_over q r h).0 (was q k), (ordered.follows_over q r h).1);
}
  where
    was : (q : ℕ) → IsOpen (record m { settling = without p m.settling }) q → IsOpen m q
    was q (inl h) = inl h
    was q (inr h) = inr ((In_of_without p q m.settling h).0)

    other_than : (q : ℕ) → is_pass p (some q) ≡ false → q ≢ p
    other_than q no_pass e = absurd (ground (arith, e))

    still : (q : ℕ) → q ≢ p → IsOpen m q → IsOpen (record m { settling = without p m.settling }) q
    still q other (inl h) = inl h
    still q other (inr h) = inr (In-without p q m.settling h other)

followed-IsOrdered :
    (p : ℕ) (m : Machine)
    → In p m.settling
    → IsOrdered m
    → IsOrdered (record m {
      settling = without p m.settling;
      queued = none;
      follows = (p, m.started) ∷ m.follows;
    })
followed-IsOrdered p m settles ordered = record {
  open_started = λ q h. ordered.open_started q (was q h);
  apart = λ q h k. ordered.apart q h ((In_of_without p q m.settling k).0);
  running_polls = ordered.running_polls;
  queued_open = λ q e. absurd (cc e);
  follows_over = over;
}
  where
    was : (q : ℕ) → In q m.polling ⊎ In q (without p m.settling) → IsOpen m q
    was q (inl h) = inl h
    was q (inr h) = inr ((In_of_without p q m.settling h).0)

    gone : In p m.polling ⊎ In p (without p m.settling) → ⊥
    gone (inl h) = ordered.apart p h settles
    gone (inr h) = (In_of_without p p m.settling h).1 refl

    over :
        (q r : ℕ)
        → In (q, r) ((p, m.started) ∷ m.follows)
        → (In q m.polling ⊎ In q (without p m.settling) → ⊥) × (q < m.started)
    over q r (inl e) =
        let same : q ≡ p = ap (λ (x : ℕ × ℕ). x.0) e in
        rw same (gone, ordered.open_started p (inr settles))
    over q r (inr h) =
        (λ k. (ordered.follows_over q r h).0 (was q k), (ordered.follows_over q r h).1)

pub settle-IsOrdered :
    (p : ℕ) (m : Machine) → In p m.settling → IsOrdered m → IsOrdered (settle p m)
unfolding settle
settle-IsOrdered p m settles ordered = elim (Bool-cases (is_pass p m.queued)) [
  | inl waits ↦
      rw (waits, settle)
        (start-IsOrdered
          (record m {
            settling = without p m.settling;
            queued = none;
            follows = (p, m.started) ∷ m.follows;
          })
          (followed-IsOrdered p m settles ordered))
  | inr free ↦ rw (free, settle) (settled_now-IsOrdered p m free ordered)
]

ingest_by-IsOrdered :
    (o : Option ℕ) (m : Machine) → m.running ≡ o → IsOrdered m → IsOrdered (ingest_by o m).0
ingest_by-IsOrdered none m e ordered = start-IsOrdered m ordered
ingest_by-IsOrdered (some p) m e ordered = record {
  open_started = ordered.open_started;
  apart = ordered.apart;
  running_polls = ordered.running_polls;
  queued_open = λ q waits. behind_open q m.queued refl waits;
  follows_over = ordered.follows_over;
}
  where
    behind_open : (q : ℕ) (o : Option ℕ) → m.queued ≡ o → some (enqueue p o) ≡ some q → IsOpen m q
    behind_open q none was waits = inl (ordered.running_polls q (e ∙ waits))
    behind_open q (some r) was waits = ordered.queued_open q (was ∙ waits)

tick_by-IsOrdered : (o : Option ℕ) (m : Machine) → IsOrdered m → IsOrdered (tick_by o m)
tick_by-IsOrdered none m ordered = start-IsOrdered m ordered
tick_by-IsOrdered (some p) m ordered = ordered

pub ingest_now-IsOrdered : (m : Machine) → IsOrdered m → IsOrdered (ingest_now m).0
unfolding ingest_now
ingest_now-IsOrdered m ordered = ingest_by-IsOrdered m.running m refl ordered

Step-IsOrdered : {m n : Machine} → Step m n → IsOrdered m → IsOrdered n
unfolding tick
Step-IsOrdered (called m) ordered = ingest_now-IsOrdered m ordered
Step-IsOrdered (ticked m) ordered = tick_by-IsOrdered m.running m ordered
Step-IsOrdered (finished p m h) ordered = finish-IsOrdered p m h ordered
Step-IsOrdered (settled p m h) ordered = settle-IsOrdered p m h ordered

pub Reach-IsOrdered : {m n : Machine} → Reach m n → IsOrdered m → IsOrdered n
Reach-IsOrdered here ordered = ordered
Reach-IsOrdered (next run step) ordered = Step-IsOrdered step (Reach-IsOrdered run ordered)

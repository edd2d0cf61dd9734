-- ===== src/Poller/Passes/Ending.antt =====
-- The end of a pass, and what it leaves of the other ones.
use kamu_llm_gateway.Prelude.{
  ℕ, ◌<◌, ◌≤◌, ◌≡◌, refl, ap, ◌∙◌, ◌⊎◌, inl, inr, true, false, none, some, List, [], ◌∷◌, arith, In,
  Bool-cases, ◌==◌,
}
use kamu_llm_gateway.Poller.Passes.{Machine, is_pass, without, start, finish, settle}
use kamu_llm_gateway.Poller.Passes.Order.{
  IsOpen, IsOrdered, In_of_without, finish-IsOrdered, settle-IsOrdered,
}

-- Passes end, and nothing else happens: no call and no tick.
pub data Ending (m : Machine) : Machine → Type 0 where
  nothing : Ending m m
  end_pass : {n : Machine} → Ending m n → (p : ℕ) → In p n.polling → Ending m (finish p n)
  run_callbacks : {n : Machine} → Ending m n → (p : ℕ) → In p n.settling → Ending m (settle p n)

-- The pass has run from its start to its end.
abbrev pub IsOver : Machine → ℕ → Type 0
IsOver m q = (q < m.started) × (IsOpen m q → ⊥)

-- A later machine that has lost no answer and no number of a started pass.
pub record Extends (m k : Machine) : Type 0 where
  pub more : m.started ≤ k.started
  pub kept : (x : ℕ × ℕ) → In x m.follows → In x k.follows

pub settle-Extends : (p : ℕ) (m : Machine) → Extends m (settle p m)
unfolding settle start
settle-Extends p m = elim (Bool-cases (is_pass p m.queued)) [
  | inl waits ↦
      let longer : Extends m
          (start (record m {
            settling = without p m.settling;
            queued = none;
            follows = (p, m.started) ∷ m.follows;
          })).0 =
        record { more = omega arith; kept = λ x h. inr h } in
      rw (waits, settle) longer
  | inr free ↦
      let same : Extends m (record m { settling = without p m.settling }) = record {
        more = omega arith;
        kept = λ x h. h;
      } in
      rw (free, settle) same
]

-- The callback of a queued promise answers it with the pass it starts.
pub settle-follows :
    (p : ℕ) (m : Machine)
    → m.queued ≡ some p
    → In (p, m.started) (settle p m).follows × (m.started < (settle p m).started)
unfolding settle start
settle-follows p m waits =
    let hit : is_pass p m.queued ≡ true = ap (λ o. is_pass p o) waits ∙ ground arith in
    rw (hit, settle) (inl refl, omega arith)

-- The callbacks run once: the pass is over after them.
settle-IsOver : (p : ℕ) (m : Machine) → IsOrdered m → In p m.settling → IsOver (settle p m) p
unfolding settle start
settle-IsOver p m ordered settles = elim (Bool-cases (is_pass p m.queued)) [
  | inl waits ↦ rw (waits, settle) (let b = before in omega arith, λ h. closed_with h)
  | inr free ↦ rw (free, settle) (before, closed)
]
  where
    before : p < m.started
    before = ordered.open_started p (inr settles)

    closed : In p m.polling ⊎ In p (without p m.settling) → ⊥
    closed (inl h) = ordered.apart p h settles
    closed (inr h) = (In_of_without p p m.settling h).1 refl

    closed_with : In p (m.started ∷ m.polling) ⊎ In p (without p m.settling) → ⊥
    closed_with (inl (inl e)) = let b = before in absurd (omega arith)
    closed_with (inl (inr h)) = closed (inl h)
    closed_with (inr h) = closed (inr h)

pub Ending-trans : {m n k : Machine} → Ending m n → Ending n k → Ending m k
Ending-trans first nothing = first
Ending-trans first (end_pass rest p h) = end_pass (Ending-trans first rest) p h
Ending-trans first (run_callbacks rest p h) = run_callbacks (Ending-trans first rest) p h

pub Ending-IsOrdered : {m k : Machine} → Ending m k → IsOrdered m → IsOrdered k
Ending-IsOrdered nothing ordered = ordered
Ending-IsOrdered (end_pass run p h) ordered = finish-IsOrdered p _ h (Ending-IsOrdered run ordered)
Ending-IsOrdered (run_callbacks run p h) ordered =
    settle-IsOrdered p _ h (Ending-IsOrdered run ordered)

pub Ending-Extends : {m k : Machine} → Ending m k → Extends m k
unfolding finish
Ending-Extends nothing = record { more = omega arith; kept = λ x h. h }
Ending-Extends (end_pass run p h) =
    let before = Ending-Extends run in record { more = before.more; kept = before.kept }
Ending-Extends (run_callbacks {n} run p h) =
    let before = Ending-Extends run in
    let after = settle-Extends p n in
    record {
      more = let a = before.more in let b = after.more in omega arith;
      kept = λ x h. after.kept x (before.kept x h);
    }

-- What closing the pass `p` comes to.
pub record Closing (p : ℕ) (m : Machine) : Type 0 where
  pub later : Machine
  pub run : Ending m later
  pub over : IsOver later p
  pub answers : m.queued ≡ some p → (q : ℕ) × In (p, q) later.follows × (q < later.started)

close_settling : (p : ℕ) (m : Machine) → IsOrdered m → In p m.settling → Closing p m
close_settling p m ordered settles = record {
  later = settle p m;
  run = run_callbacks nothing p settles;
  over = settle-IsOver p m ordered settles;
  answers = λ waits. let (h, more) = settle-follows p m waits in (m.started, h, more);
}

pub close : (p : ℕ) (m : Machine) → IsOrdered m → IsOpen m p → Closing p m
unfolding finish
close p m ordered (inr settles) = close_settling p m ordered settles
close p m ordered (inl polls) =
    let rest = close_settling p (finish p m) (finish-IsOrdered p m polls ordered) (inl refl) in
    record {
      later = rest.later;
      run = Ending-trans (end_pass nothing p polls) rest.run;
      over = rest.over;
      answers = rest.answers;
    }

In-cases : (p : ℕ) (ps : List ℕ) → In p ps ⊎ (In p ps → ⊥)
In-cases p [] = inr (λ h. h)
In-cases p (q ∷ ps) = elim (Bool-cases (p == q)) [
  | inl same ↦ inl (inl (ground arith))
  | inr differs ↦ elim (In-cases p ps) [
    | inl there ↦ inl (inr there)
    | inr away ↦ inr (not_first differs away)
  ]
]
  where
    not_first : p == q ≡ false → (In p ps → ⊥) → In p (q ∷ ps) → ⊥
    not_first differs away (inl e) = absurd (ground (arith, e))
    not_first differs away (inr h) = away h

IsOpen-cases : (m : Machine) (p : ℕ) → IsOpen m p ⊎ (IsOpen m p → ⊥)
IsOpen-cases m p = elim (In-cases p m.polling) [
  | inl polls ↦ inl (inl polls)
  | inr idle ↦ elim (In-cases p m.settling) [
    | inl settles ↦ inl (inr settles)
    | inr done ↦ inr (λ h. elim h [ inl a ↦ idle a | inr b ↦ done b ])
  ]
]

-- Every started pass can be brought to its end.
pub finish_pass :
    (q : ℕ) (m : Machine) → IsOrdered m → q < m.started → (k : Machine) × Ending m k × IsOver k q
finish_pass q m ordered begun = elim (IsOpen-cases m q) [
  | inl open_pass ↦ let it = close q m ordered open_pass in (it.later, it.run, it.over)
  | inr closed ↦ (m, nothing, (begun, closed))
]

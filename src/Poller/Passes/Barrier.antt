-- ===== src/Poller/Passes/Barrier.antt =====
-- What the promise of `ingestNow` waits for: a pass that starts after the call.
use kamu_llm_gateway.Prelude.{
  ℕ, ◌≤◌, ◌≡◌, refl, sym, ap, inl, inr, Option, none, some, ◌∷◌, arith, subst, In, Bool-cases,
}
use kamu_llm_gateway.Poller.Passes.{
  Machine, at_rest, Ticket, direct, behind, Step, called, ticked, finished, settled, Reach, here,
  next, is_pass, without, start, finish, settle, enqueue, ingest_now, ingest_by, tick, tick_by,
}
use kamu_llm_gateway.Poller.Passes.Order.{IsOpen, IsOrdered, at_rest-IsOrdered, Reach-IsOrdered}

-- The promise has settled on the pass `q`, or will settle with it.
abbrev pub Gets : Machine → Ticket → ℕ → Type 0
Gets m (direct p) q = p ≡ q
Gets m (behind p) q = In (p, q) m.follows

-- Any pass that the promise gets is the one numbered `n` or a later one.
record IsAfter (n : ℕ) (t : Ticket) (m : Machine) : Type 0 where
  after : (q : ℕ) → Gets m t q → n ≤ q
  started : n ≤ m.started

-- A step that starts no pass and answers no promise changes nothing here.
same-IsAfter :
    (n : ℕ) (t : Ticket) (m k : Machine)
    → m.follows ≡ k.follows
    → m.started ≤ k.started
    → IsAfter n t m
    → IsAfter n t k
same-IsAfter n (direct p) m k e le it = record {
  after = it.after;
  started = let s = it.started in omega arith;
}
same-IsAfter n (behind p) m k e le it = record {
  after = λ q h. it.after q (subst (In (p, q)) (sym e) h);
  started = let s = it.started in omega arith;
}

follow-IsAfter :
    (n : ℕ) (t : Ticket) (p : ℕ) (m k : Machine)
    → k.follows ≡ (p, m.started) ∷ m.follows
    → m.started ≤ k.started
    → IsAfter n t m
    → IsAfter n t k
follow-IsAfter n (direct r) p m k e le it = record {
  after = it.after;
  started = let s = it.started in omega arith;
}
follow-IsAfter n (behind r) p m k e le it = record {
  after = λ q h. later q (subst (In (r, q)) e h);
  started = let s = it.started in omega arith;
}
  where
    later : (q : ℕ) → In (r, q) ((p, m.started) ∷ m.follows) → n ≤ q
    later q (inl f) =
        let s = it.started in let g : q ≡ m.started = ap (λ (x : ℕ × ℕ). x.1) f in omega arith
    later q (inr h) = it.after q h

ingest_by-IsAfter :
    (n : ℕ) (t : Ticket) (o : Option ℕ) (m : Machine)
    → IsAfter n t m
    → IsAfter n t (ingest_by o m).0
unfolding start
ingest_by-IsAfter n t none m it = same-IsAfter n t m (start m).0 refl (omega arith) it
ingest_by-IsAfter n t (some p) m it =
    same-IsAfter n t m (ingest_by (some p) m).0 refl (omega arith) it

tick_by-IsAfter :
    (n : ℕ) (t : Ticket) (o : Option ℕ) (m : Machine) → IsAfter n t m → IsAfter n t (tick_by o m)
unfolding start
tick_by-IsAfter n t none m it = same-IsAfter n t m (start m).0 refl (omega arith) it
tick_by-IsAfter n t (some p) m it = it

settle-IsAfter :
    (n : ℕ) (t : Ticket) (p : ℕ) (m : Machine) → IsAfter n t m → IsAfter n t (settle p m)
unfolding settle start
settle-IsAfter n t p m it = elim (Bool-cases (is_pass p m.queued)) [
  | inl waits ↦
      rw (waits, settle)
        (follow-IsAfter n t p m
          (start (record m {
            settling = without p m.settling;
            queued = none;
            follows = (p, m.started) ∷ m.follows;
          })).0
          refl (omega arith) it)
  | inr free ↦
      rw (free, settle)
        (same-IsAfter n t m (record m { settling = without p m.settling }) refl (omega arith) it)
]

Step-IsAfter : (n : ℕ) (t : Ticket) {m k : Machine} → Step m k → IsAfter n t m → IsAfter n t k
unfolding ingest_now tick finish
Step-IsAfter n t (called m) it = ingest_by-IsAfter n t m.running m it
Step-IsAfter n t (ticked m) it = tick_by-IsAfter n t m.running m it
Step-IsAfter n t (finished p m h) it = same-IsAfter n t m (finish p m) refl (omega arith) it
Step-IsAfter n t (settled p m h) it = settle-IsAfter n t p m it

Reach-IsAfter : (n : ℕ) (t : Ticket) {m k : Machine} → Reach m k → IsAfter n t m → IsAfter n t k
Reach-IsAfter n t here it = it
Reach-IsAfter n t (next run step) it = Step-IsAfter n t step (Reach-IsAfter n t run it)

-- A promise that is queued behind an open pass has not got its pass yet.
open-IsAfter : (p : ℕ) (m : Machine) → IsOrdered m → IsOpen m p → IsAfter m.started (behind p) m
open-IsAfter p m ordered waits = record {
  after = λ q h. absurd ((ordered.follows_over p q h).0 waits);
  started = omega arith;
}

ticket-IsAfter :
    (o : Option ℕ) (m : Machine)
    → m.running ≡ o
    → IsOrdered m
    → IsAfter m.started (ingest_by o m).1 (ingest_by o m).0
unfolding start
ticket-IsAfter none m e ordered = record { after = λ q h. omega (arith, h); started = omega arith }
ticket-IsAfter (some p) m e ordered = held m.queued refl
  where
    held :
        (o : Option ℕ)
        → m.queued ≡ o
        → IsAfter m.started (behind (enqueue p o)) (record m { queued = some (enqueue p o) })
    held none was =
        same-IsAfter m.started (behind p) m (record m { queued = some p }) refl (omega arith)
          (open-IsAfter p m ordered (inl (ordered.running_polls p e)))
    held (some q) was =
        same-IsAfter m.started (behind q) m (record m { queued = some q }) refl (omega arith)
          (open-IsAfter q m ordered (ordered.queued_open q was))

-- On a machine that has come from rest by any steps, the pass whose result a caller of `ingestNow`
-- gets, after any further steps, is one that started after the call.
pub ingest_now_after :
    {m k : Machine} (q : ℕ)
    → Reach at_rest m
    → Reach (ingest_now m).0 k
    → Gets k (ingest_now m).1 q
    → m.started ≤ q
unfolding ingest_now
ingest_now_after {m} q past future gets =
    (Reach-IsAfter m.started (ingest_now m).1 future
        (ticket-IsAfter m.running m refl (Reach-IsOrdered past at_rest-IsOrdered))).after
      q gets

-- ===== src/Poller/Passes/Answered.antt =====
-- That a promise of `ingestNow` is never lost: ending passes is enough to answer it.
use kamu_llm_gateway.Prelude.{
  ℕ, ◌<◌, ◌≤◌, ◌≡◌, refl, sym, ap, ◌∙◌, ◌⊎◌, inl, inr, false, Option, none, some, arith, subst, In,
  Bool-cases, ◌==◌,
}
use kamu_llm_gateway.Poller.Passes.{
  Machine, at_rest, Ticket, direct, behind, Step, called, ticked, finished, settled, Reach, here,
  next, is_pass, start, finish, settle, enqueue, ingest_now, ingest_by, tick, tick_by,
}
use kamu_llm_gateway.Poller.Passes.Order.{
  IsOrdered, at_rest-IsOrdered, Reach-IsOrdered, ingest_now-IsOrdered,
}
use kamu_llm_gateway.Poller.Passes.Barrier.{Gets}
use kamu_llm_gateway.Poller.Passes.Ending.{
  Ending, IsOver, settle-Extends, settle-follows, Ending-trans, Ending-IsOrdered, Ending-Extends,
  close, finish_pass,
}

-- Where a promise stands: its pass is known, or its callback waits on an open pass.
abbrev Stands : Machine → Ticket → Type 0
Stands m (direct p) = p < m.started
Stands m (behind p) = (m.queued ≡ some p) ⊎ ((q : ℕ) × In (p, q) m.follows × (q < m.started))

-- The promise has got a pass, and the pass is over.
pub record IsAnswered (t : Ticket) (k : Machine) : Type 0 where
  pub pass : ℕ
  pub gets : Gets k t pass
  pub over : IsOver k pass

answer_followed :
    (p q : ℕ) (m : Machine)
    → IsOrdered m
    → In (p, q) m.follows
    → q < m.started
    → (k : Machine) × Ending m k × IsAnswered (behind p) k
answer_followed p q m ordered h begun =
    let (k, run, over) = finish_pass q m ordered begun in
    (k, run, record { pass = q; gets = (Ending-Extends run).kept (p, q) h; over = over })

answer :
    (t : Ticket) (m : Machine)
    → IsOrdered m
    → Stands m t
    → (k : Machine) × Ending m k × IsAnswered t k
answer (direct p) m ordered begun =
    let (k, run, over) = finish_pass p m ordered begun in
    (k, run, record { pass = p; gets = refl; over = over })
answer (behind p) m ordered (inr (q, h, begun)) = answer_followed p q m ordered h begun
answer (behind p) m ordered (inl waits) =
    let first = close p m ordered (ordered.queued_open p waits) in
    let (q, h, begun) = first.answers waits in
    let (k, run, it) =
      answer_followed p q first.later (Ending-IsOrdered first.run ordered) h begun in
    (k, Ending-trans first.run run, it)

wider-Stands :
    (t : Ticket) (m k : Machine)
    → m.started ≤ k.started
    → m.queued ≡ k.queued
    → m.follows ≡ k.follows
    → Stands m t
    → Stands k t
wider-Stands (direct p) m k le same kept begun = omega arith
wider-Stands (behind p) m k le same kept (inl waits) = inl (sym same ∙ waits)
wider-Stands (behind p) m k le same kept (inr (q, h, begun)) =
    inr (q, subst (In (p, q)) kept h, omega arith)

ingest_by-Stands :
    (t : Ticket) (o : Option ℕ) (m : Machine) → Stands m t → Stands (ingest_by o m).0 t
unfolding start
ingest_by-Stands t none m it = wider-Stands t m (start m).0 (omega arith) refl refl it
ingest_by-Stands (direct p) (some r) m it = it
ingest_by-Stands (behind p) (some r) m (inl waits) = inl (ap (λ o. some (enqueue r o)) waits)
ingest_by-Stands (behind p) (some r) m (inr it) = inr it

tick_by-Stands : (t : Ticket) (o : Option ℕ) (m : Machine) → Stands m t → Stands (tick_by o m) t
unfolding start
tick_by-Stands t none m it = wider-Stands t m (start m).0 (omega arith) refl refl it
tick_by-Stands t (some r) m it = it

settle-queued : (r : ℕ) (m : Machine) → is_pass r m.queued ≡ false → (settle r m).queued ≡ m.queued
unfolding settle
settle-queued r m free = rw (free, settle) refl

settle-Stands : (t : Ticket) (r : ℕ) (m : Machine) → Stands m t → Stands (settle r m) t
settle-Stands (direct p) r m it = let e = (settle-Extends r m).more in omega arith
settle-Stands (behind p) r m (inr (q, h, begun)) =
    let e = settle-Extends r m in inr (q, e.kept (p, q) h, let more = e.more in omega arith)
settle-Stands (behind p) r m (inl waits) = elim (Bool-cases (r == p)) [
  | inl same ↦
      let it : r ≡ p = ground arith in
      rw it (let (h, more) = settle-follows p m waits in inr (m.started, h, more))
  | inr differs ↦ inl (settle-queued r m (ap (λ o. is_pass r o) waits ∙ differs) ∙ waits)
]

Step-Stands : (t : Ticket) {m k : Machine} → Step m k → Stands m t → Stands k t
unfolding ingest_now tick finish
Step-Stands t (called m) it = ingest_by-Stands t m.running m it
Step-Stands t (ticked m) it = tick_by-Stands t m.running m it
Step-Stands t (finished p m h) it = wider-Stands t m (finish p m) (omega arith) refl refl it
Step-Stands t (settled p m h) it = settle-Stands t p m it

Reach-Stands : (t : Ticket) {m k : Machine} → Reach m k → Stands m t → Stands k t
Reach-Stands t here it = it
Reach-Stands t (next run step) it = Step-Stands t step (Reach-Stands t run it)

ticket-Stands : (o : Option ℕ) (m : Machine) → Stands (ingest_by o m).0 (ingest_by o m).1
unfolding start
ticket-Stands none m = omega arith
ticket-Stands (some p) m = inl refl

-- Whatever happens after a call of `ingestNow` on a machine that has come from rest, its promise is
-- not lost: from the machine reached, the ends of passes alone, without a call or a tick, lead to a
-- machine where the promise has got its pass and the pass is over.
pub ingest_now_answered :
    {m k : Machine}
    → Reach at_rest m
    → Reach (ingest_now m).0 k
    → (later : Machine) × Ending k later × IsAnswered (ingest_now m).1 later
unfolding ingest_now
ingest_now_answered {m} {k} past future =
    answer (ingest_now m).1 k
      (Reach-IsOrdered future (ingest_now-IsOrdered m (Reach-IsOrdered past at_rest-IsOrdered)))
      (Reach-Stands (ingest_now m).1 future (ticket-Stands m.running m))

-- ===== src/Poller/Passes/Alone.antt =====
-- How many passes there are at a time: readers that share a queued pass, and when two passes poll
-- together.
use kamu_llm_gateway.Prelude.{
  ℕ, zero, suc, ◌≤◌, ◌≡◌, refl, sym, ap, ◌∙◌, ◌⊎◌, inl, inr, true, Option, none, some, List, [],
  ◌∷◌, arith, subst, In, length, ◌==◌,
}
use kamu_llm_gateway.Poller.Passes.{
  Machine, at_rest, Ticket, called, settled, Reach, here, next, is_pass, start, finish, settle,
  enqueue, ingest_now, ingest_by, tick,
}

-- The machine after `n` calls of `ingestNow` in a row.
unfoldable pub calls : ℕ → Machine → Machine
calls zero m = m
calls (suc n) m = (ingest_now (calls n m)).0

busy_call : (p : ℕ) (m : Machine) → m.running ≡ some p → ingest_now m ≡ ingest_by (some p) m
unfolding ingest_now
busy_call p m runs = ap (λ o. ingest_by o m) runs

calls_settle :
    (n p : ℕ) (m : Machine) → m.running ≡ some p → calls (suc n) m ≡ (ingest_by (some p) m).0
unfolding calls
calls_settle zero p m runs = ap (λ (x : Machine × Ticket). x.0) (busy_call p m runs)
calls_settle (suc n) p m runs =
    ap (λ (k : Machine). (ingest_now k).0) (calls_settle n p m runs)
    ∙ ap (λ (x : Machine × Ticket). x.0) (busy_call p (ingest_by (some p) m).0 runs)

-- While a pass runs, any number of readers start no pass, and each gets the same promise.
pub calls_share :
    (n p : ℕ) (m : Machine)
    → m.running ≡ some p
    → ((calls n m).started ≡ m.started)
      × ((calls n m).polling ≡ m.polling)
      × ((ingest_now (calls n m)).1 ≡ (ingest_now m).1)
unfolding calls ingest_now
calls_share zero p m runs = (refl, refl, refl)
calls_share (suc n) p m runs =
    let same = calls_settle n p m runs in
    (
      ap (λ (k : Machine). k.started) same,
      ap (λ (k : Machine). k.polling) same,
      ap (λ (k : Machine). (ingest_now k).1) same
          ∙ (ap (λ (x : Machine × Ticket). x.1) (busy_call p (ingest_by (some p) m).0 runs)
              ∙ sym (ap (λ (x : Machine × Ticket). x.1) (busy_call p m runs))),
    )

-- Nothing happens between the end of a pass and the callbacks on its promise.
pub data PromptReach (m : Machine) : Machine → Type 0 where
  prompt : PromptReach m m
  then_call : {n : Machine} → PromptReach m n → PromptReach m (ingest_now n).0
  then_tick : {n : Machine} → PromptReach m n → PromptReach m (tick n)
  then_end :
      {n : Machine}
      → PromptReach m n
      → (p : ℕ) → In p n.polling
      → PromptReach m (settle p (finish p n))

-- The running pass is the only one, and a queued promise waits on it.
data IsAlone : Machine → Type 0 where
  idle :
      (s : ℕ) (f : List (ℕ × ℕ))
      → IsAlone (record {
        started = s;
        running = none;
        queued = none;
        polling = [];
        settling = [];
        follows = f;
      })
  busy :
      (s p : ℕ) (o : Option ℕ) (f : List (ℕ × ℕ))
      → (o ≡ none) ⊎ (o ≡ some p)
      → IsAlone (record {
        started = s;
        running = some p;
        queued = o;
        polling = p ∷ [];
        settling = [];
        follows = f;
      })

enqueue-eq : (p : ℕ) (o : Option ℕ) → (o ≡ none) ⊎ (o ≡ some p) → some (enqueue p o) ≡ some p
enqueue-eq p o (inl e) = ap (λ o. some (enqueue p o)) e
enqueue-eq p o (inr e) = ap (λ o. some (enqueue p o)) e

call-IsAlone : {m : Machine} → IsAlone m → IsAlone (ingest_now m).0
unfolding ingest_now start
call-IsAlone (idle s f) = busy (suc s) s none f (inl refl)
call-IsAlone (busy s p o f w) = busy s p (some (enqueue p o)) f (inr (enqueue-eq p o w))

tick-IsAlone : {m : Machine} → IsAlone m → IsAlone (tick m)
unfolding tick start
tick-IsAlone (idle s f) = busy (suc s) s none f (inl refl)
tick-IsAlone (busy s p o f w) = busy s p o f w

number_refl : (p : ℕ) → (p == p) ≡ true
number_refl p = ground arith

end-IsAlone : {m : Machine} (p : ℕ) → In p m.polling → IsAlone m → IsAlone (settle p (finish p m))
unfolding settle finish start
end-IsAlone q h (idle s f) = absurd h
end-IsAlone q (inr h) (busy s p o f w) = absurd h
end-IsAlone q (inl e) (busy s p o f (inl w)) = rw (e, w, number_refl p) (idle s f)
end-IsAlone q (inl e) (busy s p o f (inr w)) =
    rw (e, w, number_refl p) (busy (suc s) s none ((p, s) ∷ f) (inl refl))

PromptReach-IsAlone : {m k : Machine} → PromptReach m k → IsAlone m → IsAlone k
PromptReach-IsAlone prompt it = it
PromptReach-IsAlone (then_call run) it = call-IsAlone (PromptReach-IsAlone run it)
PromptReach-IsAlone (then_tick run) it = tick-IsAlone (PromptReach-IsAlone run it)
PromptReach-IsAlone (then_end run p h) it = end-IsAlone p h (PromptReach-IsAlone run it)

at_most_one : {m : Machine} → IsAlone m → length m.polling ≤ 1
at_most_one (idle s f) = omega arith
at_most_one (busy s p o f w) = omega arith

-- Where the callbacks of an ended pass run at once, two passes never poll at a time.
pub polling_alone : {m : Machine} → PromptReach at_rest m → length m.polling ≤ 1
polling_alone run = at_most_one (PromptReach-IsAlone run (idle 0 []))

-- A call between the end of a pass and its callbacks starts a pass of its own, beside the one that
-- the queued promise starts then.
pub polling_together :
    {m : Machine} (p : ℕ)
    → Reach at_rest m
    → m.running ≡ none
    → m.queued ≡ some p
    → In p m.settling
    → (k : Machine) × Reach m k × (k.polling ≡ suc m.started ∷ m.started ∷ m.polling)
unfolding ingest_now settle start
polling_together {m} p past free waits settles =
    let call = (ingest_now m).0 in
    let started_one : call ≡ (start m).0 = ap (λ o. (ingest_by o m).0) free in
    let hit : is_pass p (start m).0.queued ≡ true = ap (λ o. is_pass p o) waits ∙ ground arith in
    (
      settle p call,
      next (next here (called m))
          (settled p call (subst (λ (k : Machine). In p k.settling) (sym started_one) settles)),
      ap (λ (k : Machine). (settle p k).polling) started_one ∙ rw (hit, settle) refl,
    )

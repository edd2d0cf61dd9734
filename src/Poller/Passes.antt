-- ===== src/Poller/Passes.antt =====
-- api/src/lib/usage-poller.ts, `running`, `queued`, `start`, `ingestNow` and the interval's tick: the
-- passes over the machines that one api machine starts. A pass is named by the number of passes
-- started before it. It ends in two moments: `finish` is the callback of its `finally`, and `settle`
-- the moment after it in which the callbacks on its promise run. `pollAll` never rejects.
pub mod Order
pub mod Barrier
pub mod Ending
pub mod Answered
pub mod Alone
use kamu_llm_gateway.Prelude.{
  ℕ, zero, suc, ◌+◌, ◌≡◌, Bool, true, false, not, Option, none, some, List, [], ◌∷◌, select, In,
  ◌==◌, if◌then◌else◌,
}

-- `follows` are the queued promises that have got their pass: behind which one, and which it is.
pub record Machine : Type 0 where
  pub started : ℕ
  pub running : Option ℕ
  pub queued : Option ℕ
  pub polling : List ℕ
  pub settling : List ℕ
  pub follows : List (ℕ × ℕ)

abbrev pub at_rest : Machine
at_rest = record {
  started = 0;
  running = none;
  queued = none;
  polling = [];
  settling = [];
  follows = [];
}

-- The promise that a caller gets: a pass, or the promise that is queued behind one.
pub data Ticket : Type 0 where
  direct behind : ℕ → Ticket

abbrev pub is_pass : ℕ → Option ℕ → Bool
is_pass p none = false
is_pass p (some q) = p == q

abbrev pub without : ℕ → List ℕ → List ℕ
without p ps = select (λ q. not (q == p)) ps

unfoldable pub start : Machine → Machine × Ticket
start m = (
  record m { started = suc m.started; running = some m.started; polling = m.started ∷ m.polling },
  direct m.started,
)

-- `pollAll().finally(...)`: the pass is over, and is no longer the running one.
unfoldable pub finish : ℕ → Machine → Machine
finish p m = record m {
  running = if is_pass p m.running then none else m.running;
  polling = without p m.polling;
  settling = p ∷ m.settling;
}

-- The callback that `ingestNow` has put on the pass, if it has: `queued = null; return start()`.
unfoldable pub settle : ℕ → Machine → Machine
unfolding start
settle p m =
    let settled : Machine = record m { settling = without p m.settling } in
    if is_pass p m.queued
    then (start (record settled { queued = none; follows = (p, m.started) ∷ m.follows })).0
    else settled

-- `queued ??= running.then(...)`
abbrev pub enqueue : ℕ → Option ℕ → ℕ
enqueue p none = p
enqueue p (some q) = q

abbrev pub ingest_by : Option ℕ → Machine → Machine × Ticket
ingest_by none m = start m
ingest_by (some p) m =
    (record m { queued = some (enqueue p m.queued) }, behind (enqueue p m.queued))

unfoldable pub ingest_now : Machine → Machine × Ticket
ingest_now m = ingest_by m.running m

abbrev pub tick_by : Option ℕ → Machine → Machine
tick_by none m = (start m).0
tick_by (some p) m = m

-- A tick of the interval.
unfoldable pub tick : Machine → Machine
tick m = tick_by m.running m

-- What can happen next.
pub data Step : Machine → Machine → Type 0 where
  called : (m : Machine) → Step m (ingest_now m).0
  ticked : (m : Machine) → Step m (tick m)
  finished : (p : ℕ) (m : Machine) → In p m.polling → Step m (finish p m)
  settled : (p : ℕ) (m : Machine) → In p m.settling → Step m (settle p m)

pub data Reach (m : Machine) : Machine → Type 0 where
  here : Reach m m
  next : {n k : Machine} → Reach m n → Step n k → Reach m k

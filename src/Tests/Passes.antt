-- ===== src/Tests/Passes.antt =====
-- Examples of the results on the passes of the usage poller.
use kamu_llm_gateway.Prelude.{◌≤◌, refl, inl, none, some, [], ◌∷◌, length}
use kamu_llm_gateway.Poller.Passes.{
  Machine, at_rest, behind, called, finished, settled, Reach, here, next, start, finish, settle,
  ingest_now,
}
use kamu_llm_gateway.Poller.Passes.Ending.{Ending}
use kamu_llm_gateway.Poller.Passes.Barrier.{ingest_now_after}
use kamu_llm_gateway.Poller.Passes.Answered.{IsAnswered, ingest_now_answered}
use kamu_llm_gateway.Poller.Passes.Alone.{PromptReach, prompt, then_call, then_end, polling_alone}

-- A pass runs; a reader has queued behind it; it is over; the reader's pass has begun.
abbrev busy_machine : Machine
busy_machine = record {
  started = 1;
  running = some 0;
  queued = none;
  polling = 0 ∷ [];
  settling = [];
  follows = [];
}

abbrev waited_machine : Machine
waited_machine = record busy_machine { queued = some 0 }

abbrev over_machine : Machine
over_machine = record {
  started = 1;
  running = none;
  queued = some 0;
  polling = [];
  settling = 0 ∷ [];
  follows = [];
}

abbrev answered_machine : Machine
answered_machine = record {
  started = 2;
  running = some 1;
  queued = none;
  polling = 1 ∷ [];
  settling = [];
  follows = (0, 1) ∷ [];
}

first_call : Reach at_rest busy_machine
unfolding ingest_now start
first_call = next here (called at_rest)

pass_ends : Reach waited_machine over_machine
unfolding finish
pass_ends = next here (finished 0 waited_machine (inl refl))

callbacks_run : Reach waited_machine answered_machine
unfolding settle start
callbacks_run = next pass_ends (settled 0 over_machine (inl refl))

run_on : {m n k : Machine} → Reach m n → Reach n k → Reach m k
run_on first here = first
run_on first (next rest step) = next (run_on first rest) step

ingest_now_after_example : busy_machine.started ≤ 1
unfolding ingest_now
ingest_now_after_example =
    ingest_now_after {m = busy_machine} {k = answered_machine} 1 first_call callbacks_run (inl refl)

ingest_now_answered_example :
    (later : Machine) × Ending over_machine later × IsAnswered (behind 0) later
unfolding ingest_now
ingest_now_answered_example =
    ingest_now_answered {m = busy_machine} {k = over_machine} first_call pass_ends

prompt_run : PromptReach at_rest answered_machine
unfolding ingest_now start settle finish
prompt_run = then_end (then_call (then_call prompt)) 0 (inl refl)

polling_alone_example : length answered_machine.polling ≤ 1
polling_alone_example = polling_alone {m = answered_machine} prompt_run

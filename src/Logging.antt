-- ===== src/Logging.antt =====
-- api/src/lib/logger.ts and api/src/middleware/request-logger.ts: which lines are written, where, and
-- which level a request has. The text of a line, `JSON.stringify` of its fields, is not modelled.
use kamu_llm_gateway.Prelude.{
  ℕ, ◌≤◌, ◌≡◌, refl, true, false, ◌||◌, Option, none, some, Text, codes, text_eq, ltb, leb, arith,
  if◌then◌else◌,
}

pub data Level : Type 0 where
  debug info warn error : Level

abbrev pub order : Level → ℕ
order debug = 10
order info = 20
order warn = 30
order error = 40

pub data Stream : Type 0 where
  stdout stderr : Stream

abbrev pub stream_of : Level → Stream
stream_of debug = stdout
stream_of info = stdout
stream_of warn = stderr
stream_of error = stderr

-- `emit`, for the threshold of LOG_LEVEL.
unfoldable pub emit : Level → Level → Option Stream
emit log_level level = if ltb (order level) (order log_level) then none else some (stream_of level)

-- The level of a request.
unfoldable pub request_level : Text → ℕ → ℕ → Level
request_level path status dur_ms =
    if text_eq path (codes "/health")
    then debug
    else if leb 500 status
    then error
    else if leb 400 status || ltb 1000 dur_ms
    then warn
    else info

unfoldable pub request_logger : Level → Text → ℕ → ℕ → Option Stream
unfolding emit request_level
request_logger log_level path status dur_ms = emit log_level (request_level path status dur_ms)

-- A server error is written to stderr whatever the threshold, unless it is the health probe's.
pub request_logger_error :
    (log_level : Level) (path : Text) (status dur_ms : ℕ)
    → text_eq path (codes "/health") ≡ false
    → 500 ≤ status
    → request_logger log_level path status dur_ms ≡ some stderr
unfolding request_logger emit request_level
request_logger_error log_level path status dur_ms other high =
    let hit : leb 500 status ≡ true = ground (arith, high) in rw (other, hit) (always log_level)
  where
    always : (l : Level) → emit l error ≡ some stderr
    always debug = refl
    always info = refl
    always warn = refl
    always error = refl

-- ===== src/Http.antt =====
-- Replies of the handlers: a value, or an error status with its message (an `HTTPException` that
-- `app.onError` of api/src/main.ts turns into a reply, or a `c.json({ error }, status)`).
use kamu_llm_gateway.Prelude.{
  ℕ, ◌≡◌, ◌⊎◌, inl, inr, refl, Bool, true, false, Option, none, some, [], Text, codes, starts_with,
  to_lower_case, trim, drop, if◌then◌else◌,
}

pub data Reply (A : Type 0) : Type 0 where
  ok : A → Reply A
  err : ℕ → Text → Reply A

infixl 5 ◌>>=◌
abbrev pub ◌>>=◌ : {Got Next : Type 0} → Reply Got → (Got → Reply Next) → Reply Next
err status message >>= continue = err status message
ok got >>= continue = continue got

-- A check, and then the rest of the handler.
infixl 5 ◌>>◌
abbrev pub ◌>>◌ : {Next : Type 0} → Reply (Unit {0}) → Reply Next → Reply Next
check >> rest = check >>= (λ (_ : Unit {0}). rest)

-- `if (!test) return c.json({ error: message }, status)`
abbrev pub require : Bool → ℕ → Text → Reply (Unit {0})
require true status message = ok tt
require false status message = err status message

abbrev pub some_or : {A : Type 0} → Option A → ℕ → Text → Reply A
some_or none status message = err status message
some_or (some a) status message = ok a

-- A chain that succeeds is its rest, at what its first step gave.
pub >>=-eq-ok :
    {Got Next : Type 0} (first : Reply Got) (continue : Got → Reply Next) {next : Next}
    → (first >>= continue) ≡ ok next
    → (got : Got) × (first ≡ ok got) × (continue got ≡ ok next)
>>=-eq-ok (err status message) continue e = cc
>>=-eq-ok (ok got) continue e = (got, refl, e)

pub require-then :
    {B : Type 0} (t : Bool) (status : ℕ) (message : Text) (k : Reply B) {b : B}
    → (require t status message >> k) ≡ ok b
    → (t ≡ true) × (k ≡ ok b)
require-then true status message k h = (refl, h)
require-then false status message k h = cc

pub require-true :
    (t : Bool) (status : ℕ) (message : Text) → require t status message ≡ ok tt → t ≡ true
require-true true status message e = refl
require-true false status message e = cc e

pub some_or-then :
    {A B : Type 0} (o : Option A) (status : ℕ) (message : Text) (f : A → Reply B) {b : B}
    → (some_or o status message >>= f) ≡ ok b
    → (a : A) × (o ≡ some a) × (f a ≡ ok b)
some_or-then none status message f h = cc
some_or-then (some a) status message f h = (a, refl, h)

pub ok-injective : {A : Type 0} {a b : A} → ok a ≡ ok b → a ≡ b
ok-injective e = cc

pub Reply-cases :
    {A : Type 0} (m : Reply A)
    → ((a : A) × (m ≡ ok a)) ⊎ ((status : ℕ) × (message : Text) × (m ≡ err status message))
Reply-cases (ok a) = inl (a, refl)
Reply-cases (err status message) = inr (status, message, refl)

abbrev pub or_blank : Option Text → Text
or_blank none = []
or_blank (some t) = t

-- `header.toLowerCase().startsWith("bearer ") ? header.slice(7).trim() : ""`
unfoldable pub bearer_token : Option Text → Text
bearer_token authorization =
    let header = or_blank authorization in
    if starts_with (to_lower_case header) (codes "bearer ") then trim (drop 7 header) else []

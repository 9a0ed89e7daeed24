-- ===== src/Api/Idempotency/Laws.antt =====
-- What an idempotency key manager keeps from one attempt to the next.
use g_manager.Common.{String, Bool, true, false, none, some, List, [], ◌∷◌, ◌≡◌, arith}
use g_manager.Api.Http.{Cause}
use g_manager.Api.Idempotency.{IdempotencyKeyManager, begin, succeeded, failed, retain_for_retry}

-- The manager after a row of failed attempts, each begun with the next random key.
pub attempts : IdempotencyKeyManager → List (String × Cause) → IdempotencyKeyManager
attempts m [] = m
attempts m ((uuid, error) ∷ rest) = attempts (failed (begin m uuid).0 error) rest

-- Every failure leaves the outcome of the request open.
abbrev pub AllUncertain : Bool → List (String × Cause) → Type 0
AllUncertain uncertain [] = Unit
AllUncertain uncertain ((_, error) ∷ rest) =
    (retain_for_retry uncertain error ≡ true) × AllUncertain true rest

-- While every attempt ends in an outcome that is not known, each next attempt is sent with the key
-- of the first one, whatever random keys are at hand.
pub begin-attempts :
    (m : IdempotencyKeyManager) (k uuid : String) (row : List (String × Cause))
    → m.key ≡ some k
    → AllUncertain m.uncertain row
    → (begin (attempts m row) uuid).1 ≡ k
unfolding attempts begin failed
begin-attempts m k uuid [] h _ = ground arith
begin-attempts m k uuid ((u, error) ∷ rest) h (open_now, later) =
    begin-attempts (failed (begin m u).0 error) k uuid rest (ground arith) (ground arith)

-- Of a manager with a key that makes random keys: a failure that settles the outcome releases the key,
-- so that the next attempt gets a new one, and so does success; any other failure keeps the key.
begin-failed :
    (m : IdempotencyKeyManager) (k uuid : String) (error : Cause)
    → m.key ≡ some k
    → m.generate ≡ none
    → (retain_for_retry m.uncertain error ≡ false → (begin (failed m error) uuid).1 ≡ uuid)
      × (retain_for_retry m.uncertain error ≡ true → (begin (failed m error) uuid).1 ≡ k)
      × ((begin (succeeded m) uuid).1 ≡ uuid)
unfolding begin failed succeeded
begin-failed m k uuid error h g = (λ e. ground arith, λ e. ground arith, ground arith)

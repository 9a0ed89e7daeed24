-- ===== src/Api/Idempotency.antt =====
-- api/idempotency.ts: IdempotencyKeyManager. A method returns the new manager.
-- `generate` is `none` for the default generator, crypto.randomUUID, whose next value is an argument
-- of `begin`, and `some k` for a generator that always answers k.
pub mod Laws
use g_manager.Common.{
  ℕ, String, Bool, true, false, ◌&&◌, ◌||◌, Option, none, some, List, [], ◌∷◌, map, ◌==◌,
  if◌then◌else◌, CodePoints, codes, lower, begins, somewhere,
}
use g_manager.Api.Http.{
  Cause, is_axios_error, has_no_response, status_is, status_from, message_or_empty,
}

pub record IdempotencyKeyManager : Type 0 where
  pub key : Option String
  pub uncertain : Bool
  pub generate : Option String

-- constructor
abbrev pub new : Option String → IdempotencyKeyManager
new generate = record { key = none; uncertain = false; generate = generate }

-- The value of `this.generate()`, where `uuid` is the next random one.
abbrev generated : IdempotencyKeyManager → String → String
generated m uuid = elim m.generate [ none ↦ uuid | some k ↦ k ]

-- `this.key ??= this.generate()`
unfoldable pub begin : IdempotencyKeyManager → String → IdempotencyKeyManager × String
begin m uuid = elim m.key [
  | none ↦ (record m { key = some (generated m uuid) }, generated m uuid)
  | some k ↦ (m, k)
]

unfoldable pub succeeded : IdempotencyKeyManager → IdempotencyKeyManager
succeeded m = record m { key = none; uncertain = false }

-- The rest of a match of /idempotency[- ]?key/i after its first word.
abbrev pub begins_key : CodePoints → Bool
begins_key [] = false
begins_key (c ∷ s) =
    begins (codes "key") (c ∷ s) || ((c == b'-' || c == b' ') && begins (codes "key") s)

abbrev pub drop_word : CodePoints → CodePoints → Option CodePoints
drop_word [] s = some s
drop_word (p ∷ ps) [] = none
drop_word (p ∷ ps) (c ∷ s) = if p == c then drop_word ps s else none

-- /idempotency[- ]?key/i.test(text)
unfoldable pub mentions_idempotency_key : String → Bool
mentions_idempotency_key text =
    somewhere
      (λ s. elim (drop_word (codes "idempotency") s) [ none ↦ false | some rest ↦ begins_key rest ])
      (map lower (codes text))

-- The `retainForRetry` of `failed`.
unfoldable pub retain_for_retry : Bool → Cause → Bool
retain_for_retry uncertain error =
    is_axios_error error
    && (has_no_response error
        || status_is 425 error
        || status_from 500 error
        || (status_is 409 error && mentions_idempotency_key (message_or_empty error))
        || (uncertain && (status_is 401 error || status_is 403 error)))

unfoldable pub failed : IdempotencyKeyManager → Cause → IdempotencyKeyManager
unfolding retain_for_retry
failed m error =
    let retain = retain_for_retry m.uncertain error in
    record m { uncertain = retain; key = if retain then m.key else none }

unfoldable pub pending_key : IdempotencyKeyManager → Option String
pending_key m = m.key

unfoldable pub is_conflict_response : Cause → Bool
is_conflict_response error = is_axios_error error && status_is 409 error

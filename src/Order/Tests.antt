-- ===== src/Order/Tests.antt =====
-- The cart on concrete inputs, and the theorems about it applied there.
use g_manager.Common.{
  ℕ, String, Bool, true, false, none, some, List, [], ◌∷◌, ◌++◌, ◌≡◌, ◌↔◌, ◌⊎◌, inr, refl, subst,
  arith, lookup,
}
use mathlib.Core.Option.{some-injective}
use g_manager.Common.Json.{Value, number, object, field, end, finite, from_ℕ, boolean}
use g_manager.Auth.Types.{AuthUser, customer}
use g_manager.Auth.Capabilities.{has_capability}
use g_manager.Api.Http.{Cause, http}
use g_manager.Api.Idempotency.{begin, retain_for_retry, mentions_idempotency_key}
use g_manager.Api.Idempotency.Laws.{attempts, begin-attempts}
use g_manager.Order.Types.{CatalogItem, product}
use g_manager.Order.Cart.{CartLine, normalize_cart_quantities, calculate_estimated_total}
use g_manager.Order.Customer.{Attempt, CartState, Context, initial, total_differs}
use g_manager.Order.Customer.Draft.{persist, restored}
use g_manager.Order.Customer.Edit.{change, add}
use g_manager.Order.Customer.Send.{send, is_uncertain, caught}
use g_manager.Order.Customer.Steps.{
  Session, idle, requesting, writing, Event, change_to, add_item, load, load_failure, submit,
  written, accepted, denied, step, run, rests, request_of,
}
use g_manager.Order.Customer.Laws.Invariant.{IsValid, run-initial-IsValid}
use g_manager.Order.Customer.Laws.Attempts.{repeat, run-Sends, submit_stores_first}
use g_manager.Order.Customer.Laws.Settled.{AreApart, accepted_empties}
use g_manager.Order.Customer.Laws.RoundTrip.{IsAttempt, Agrees, IsStorable, restored-persist}

abbrev ana : AuthUser
ana = record {
  id = "u1";
  name = "Ana";
  email = "ana@example.com";
  role = customer;
  active = true;
  avatar_url = none;
  permissions = none;
}

abbrev here : Context
here = record { user_id = "u1"; can_catalog = true; mounted = true; user = some ana }

abbrev cola : CatalogItem
cola = record {
  id = "p1";
  name = "Cola";
  description = none;
  item_type = product;
  price = 150_000;
  duration_minutes = none;
  active = true;
  version = 1;
  deleted_at = none;
}

abbrev two_colas : CartLine
two_colas = record { product = cola; quantity = 2 }

abbrev before : String → String → Bool
before a b = true

abbrev lost : Cause
lost = http none

abbrev expired : Cause
expired = http (some (record { status = 403; message = none; request_id = none }))

abbrev shopping : List (Context × Event)
shopping =
    (here, load none)
    ∷ (here, add_item cola false)
    ∷ (here, change_to "p1" (from_ℕ 2))
    ∷ (here, submit before (two_colas ∷ []) [] "k1")
    ∷ []

abbrev sending : List (Context × Event)
sending = shopping ++ (here, written true) ∷ []

abbrev sent_attempt : Attempt
sent_attempt = record {
  key = "k1";
  lines = record { product_id = "p1"; quantity = 2 } ∷ [];
  estimated_total = 300_000;
}

abbrev start : Session
start = rests initial []

-- The request waits for its answer, and its attempt holds the cart.
shopping_sends :
    ((run sending start).phase ≡ requesting false sent_attempt)
    × ((run sending start).sent ≡ request_of sent_attempt ∷ [])
    × ((run sending start).cart.state.attempt ≡ some sent_attempt)
unfolding run step send change add restored has_capability begin calculate_estimated_total
shopping_sends = (refl, refl, refl)

run-initial-IsValid_example : IsValid (run sending start)
run-initial-IsValid_example = run-initial-IsValid sending (tt, (refl, (refl, (tt, (tt, tt)))))

-- The first answer is lost, the retry is refused because the session has expired.
abbrev trouble : List (Context × Event)
trouble =
    (here, denied lost)
    ∷ (here, change_to "p1" (from_ℕ 5))
    ∷ (here, submit before (two_colas ∷ []) [] "k2")
    ∷ (here, denied expired)
    ∷ []

run-Sends_example :
    ((run trouble (run sending start)).cart.state ≡ (run sending start).cart.state)
    × ((n : ℕ) × ((run trouble (run sending start)).sent
          ≡ repeat n (request_of sent_attempt) ++ (run sending start).sent))
unfolding run step send change add restored has_capability begin calculate_estimated_total
    is_uncertain caught
run-Sends_example =
    run-Sends trouble (run sending start) sent_attempt (tt, (refl, (tt, (tt, tt))))
      run-initial-IsValid_example shopping_sends.2 (inr refl, (tt, (tt, (inr refl, tt))))

abbrev filled : Session
filled = run ((here, load none) ∷ (here, add_item cola false) ∷ []) start

submit_stores_first_example :
    let t = step here (submit before (two_colas ∷ []) [] "k1") filled in
    (t.sent ≡ filled.sent)
    × ((t ≡ filled) ⊎ ((a : Attempt) × (t.phase ≡ writing a) × (t.cart.state.attempt ≡ some a)))
unfolding run step send change add restored has_capability begin calculate_estimated_total
submit_stores_first_example = submit_stores_first here before (two_colas ∷ []) [] "k1" filled refl

accepted_empties_example :
    let t = step here (written true) (
      run
        ((here, add_item cola false) ∷ (here, load_failure) ∷ [])
        (step here (accepted 310_000) (run sending start))) in
    (t.cart.state ≡ record { ready = true; quantities = []; attempt = none })
    × (t.phase ≡ idle)
    × (t.cart.submit_in_flight ≡ false)
    × (t.sent ≡ (run sending start).sent)
    × ((t.cart.notice ≡ total_differs) ↔ AreApart 310_000 300_000)
accepted_empties_example =
    accepted_empties here here 310_000 false sent_attempt (run sending start)
      ((here, add_item cola false) ∷ (here, load_failure) ∷ []) true run-initial-IsValid_example
      shopping_sends.0 refl refl (refl, (refl, tt))

abbrev pending : CartState
pending = record { ready = true; quantities = ("p1", 2) ∷ []; attempt = some sent_attempt }

sent_attempt-IsAttempt : IsAttempt sent_attempt
sent_attempt-IsAttempt = record {
  keyed = refl;
  short = omega arith;
  filled = λ e. cc e;
  lines = ((refl, omega arith, omega arith), tt);
  distinct = (refl, tt);
}

pending-IsStorable : IsStorable pending
unfolding lookup
pending-IsStorable = record {
  ready = refl;
  quantities = ((refl, omega arith, omega arith), tt);
  free = refl;
  attempt = λ a e.
      subst (λ x. IsAttempt x × Agrees (("p1", 2) ∷ []) x.lines) (some-injective _ _ e)
        (sent_attempt-IsAttempt, (refl, tt));
}

restored-persist_example : (restored here (persist here pending none) initial).state ≡ pending
restored-persist_example = restored-persist here pending none initial refl pending-IsStorable

begin-attempts_example :
    (begin
      (attempts
        (record { key = some "k"; uncertain = false; generate = none })
        (("a", lost) ∷ ("b", expired) ∷ []))
      "c").1
    ≡ "k"
unfolding retain_for_retry
begin-attempts_example =
    begin-attempts (record { key = some "k"; uncertain = false; generate = none }) "k" "c"
      (("a", lost) ∷ ("b", expired) ∷ []) refl (refl, (refl, tt))

conflict_test :
    (mentions_idempotency_key "IDEMPOTENCY key reused" ≡ true)
    × (mentions_idempotency_key "idempotency--key" ≡ false)
unfolding mentions_idempotency_key
conflict_test = (refl, refl)

abbrev stored_cart : Value
stored_cart = object (
    field "p1" (number (finite false 2_700)) (
      field "p2" (number (finite false 999_900))
        (field "p3" (number (finite true 5_000)) (field "p4" (boolean true) end))))

normalize_test : normalize_cart_quantities stored_cart ≡ ("p1", 2) ∷ ("p2", 999) ∷ []
unfolding normalize_cart_quantities
normalize_test = refl

-- ===== src/Order/Customer/Send.antt =====
-- order/customer/useCustomerCart.ts: `send`, cut at each point where it waits. `uuid` is the next
-- random key, and `before a b` says that `localeCompare` does not put b in front of a.
use g_manager.Common.{
  ℕ, ◌+◌, ◌-◌, String, Bool, true, false, ◌&&◌, ◌||◌, not, Option, none, some, List, [], ◌∷◌, map,
  ltb, if◌then◌else◌, is_empty, codes, contains,
}
use g_manager.Auth.Types.{AuthUser, customer, order_create, is_role}
use g_manager.Auth.Capabilities.{has_capability}
use g_manager.Api.Http.{
  Cause, failure, is_axios_error, has_no_response, status_is, status_from, message_or_empty,
}
use g_manager.Api.Idempotency.{new, begin, failed}
use g_manager.Order.Types.{OrderLine}
use g_manager.Order.Cart.{CartLine, calculate_estimated_total}
use g_manager.Order.Customer.{
  Attempt, CustomerCart, Context, current_actor, no_warning, empty_not_saved, silent, total_differs,
  outcome_unknown, no_error, unknown_outcome, reported,
}

-- The request that `orderApi.create` sends.
pub record Sent : Type 0 where
  pub key : String
  pub lines : List OrderLine

-- Array.prototype.sort by product id.
abbrev pub insert_line : (String → String → Bool) → OrderLine → List OrderLine → List OrderLine
insert_line before line [] = line ∷ []
insert_line before line (l ∷ ls) =
    if before line.product_id l.product_id then line ∷ l ∷ ls else l ∷ insert_line before line ls

abbrev pub sort_lines : (String → String → Bool) → List OrderLine → List OrderLine
sort_lines before [] = []
sort_lines before (l ∷ ls) = insert_line before l (sort_lines before ls)

unfoldable pub is_customer : Option AuthUser → Bool
is_customer none = false
is_customer (some user) = is_role user.role customer && has_capability (some user) order_create

-- What `send` does until it first waits: nothing, an error with no effect, a new attempt that has to
-- be stored first, or the request of the attempt that was left open.
pub data Start : Type 0 where
  refused unconfirmed : Start
  storing retrying : CustomerCart → Attempt → Start

abbrev pub with_attempt : Option Attempt → CustomerCart → CustomerCart
with_attempt attempt cart =
    let s = cart.state in record cart { state = record s { attempt = attempt } }

abbrev pub submitted : CustomerCart → CustomerCart
submitted cart = record cart { submit_in_flight = true; submitting = true; submit_error = no_error }

abbrev pub to_line : CartLine → OrderLine
to_line l = record { product_id = l.product.id; quantity = l.quantity }

abbrev pub new_attempt : (String → String → Bool) → List CartLine → String → Attempt
new_attempt before snapshot key = record {
  key = key;
  lines = sort_lines before (map to_line snapshot);
  estimated_total = calculate_estimated_total snapshot;
}

-- The rest of it, by the attempt that was left open.
unfoldable pub start_with :
    Option Attempt
    → (String → String → Bool)
    → List CartLine
    → List String
    → String
    → CustomerCart
    → Start
start_with (some attempt) before snapshot unresolved uuid cart = retrying (submitted cart) attempt
start_with none before snapshot unresolved uuid cart =
    if is_empty snapshot || not (is_empty unresolved)
    then unconfirmed
    else let (manager, key) = begin cart.create_attempt uuid in
      let attempt = new_attempt before snapshot key in
      storing (with_attempt (some attempt) (record (submitted cart) { create_attempt = manager }))
        attempt

unfoldable pub send :
    Context → (String → String → Bool) → List CartLine → List String → String → CustomerCart → Start
unfolding start_with is_customer begin
send c before snapshot unresolved uuid cart =
    if not (current_actor c)
      || (not (is_customer c.user) || (not cart.state.ready || cart.submit_in_flight))
    then refused
    else start_with cart.state.attempt before snapshot unresolved uuid cart

-- The `finally` block.
unfoldable pub finished : Context → CustomerCart → CustomerCart
finished c cart =
    if current_actor c
    then record cart { submit_in_flight = false; submitting = false }
    else record cart { submit_in_flight = false }

-- code === 409 and a message that names the header
unfoldable pub is_key_conflict : Cause → Bool
is_key_conflict cause =
    status_is 409 cause && contains (codes "Idempotency-Key") (codes (message_or_empty cause))

-- Whether the outcome of the request stays open. `requested` is false when the attempt could not be
-- stored, and `previous` is true of a retry.
unfoldable pub is_uncertain : Bool → Bool → Cause → Bool
unfolding is_key_conflict
is_uncertain requested previous cause =
    requested
    && (is_axios_error cause
        && (has_no_response cause
            || (status_is 425 cause
                || (status_from 500 cause
                    || (is_key_conflict cause
                        || (previous && (status_is 401 cause || status_is 403 cause)))))))

-- The `catch` block and the `finally` block.
unfoldable pub caught : Context → Bool → Bool → Cause → CustomerCart → CustomerCart
unfolding is_uncertain finished failed
caught c requested previous cause cart =
    if current_actor c
    then finished c (
        if is_uncertain requested previous cause
        then record cart {
          create_attempt =
              if has_no_response cause || status_is 425 cause
              then failed cart.create_attempt cause
              else cart.create_attempt;
          notice = outcome_unknown;
          submit_error = unknown_outcome;
        }
        else record (with_attempt none cart) {
          create_attempt = new none;
          notice = silent;
          submit_error = reported cause;
        })
    else finished c cart

-- The error that is thrown when the attempt could not be stored.
abbrev pub store_failure : Cause
store_failure =
    failure
      "Pokušaj slanja nije moguće sačuvati na uređaju. Narudžbina nije poslata. Pokušajte ponovo."

-- A write of the draft went through.
abbrev pub saved : Context → CustomerCart → CustomerCart
saved c cart = if current_actor c then record cart { warning = no_warning } else cart

-- After the order was created: an empty cart, which has to be stored.
unfoldable pub confirmed : CustomerCart → CustomerCart
confirmed cart = record cart {
  create_attempt = new none;
  state = record { ready = true; quantities = []; attempt = none };
  notice = silent;
}

-- The manager is reset also when the actor has changed meanwhile.
abbrev pub confirmed_elsewhere : CustomerCart → CustomerCart
confirmed_elsewhere cart = record cart { create_attempt = new none }

-- `Math.abs(a - b) > .005`
abbrev pub differs : ℕ → ℕ → Bool
differs a b = ltb 5 ((a - b) + (b - a))

-- After the write of the empty cart, which may have failed.
unfoldable pub cleared : Context → Bool → ℕ → Attempt → CustomerCart → CustomerCart
unfolding finished
cleared c written total attempt cart =
    if current_actor c
    then finished c (record cart {
      warning = if written then no_warning else empty_not_saved;
      notice = if differs total attempt.estimated_total then total_differs else cart.notice;
    })
    else finished c cart

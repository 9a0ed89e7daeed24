-- ===== src/Order/Customer/Steps.antt =====
-- order/customer/useCustomerCart.ts: the hook as a machine over events. `send` waits three times: for
-- the write of a new attempt, for the server, and for the write of the empty cart; other events may
-- come in between. An event carries the context in which it is handled, and one that answers nothing
-- that is waited for changes nothing. The writes of the draft are made one after the other, as `draftWrites`
-- chains them, so their ends are events in the order of their snapshots; what the store holds meanwhile is
-- not part of the state.
use g_manager.Common.{ℕ, String, Bool, true, false, ◌&&◌, Option, List, [], ◌∷◌, if◌then◌else◌}
use g_manager.Common.Json.{JsNumber, Value}
use g_manager.Api.Http.{Cause}
use g_manager.Order.Types.{CatalogItem}
use g_manager.Order.Cart.{CartLine}
use g_manager.Order.Customer.{Attempt, CustomerCart, Context, current_actor, no_warning, not_saved}
use g_manager.Order.Customer.Draft.{restored, restore_failed}
use g_manager.Order.Customer.Edit.{change, add, clear, drop_unavailable, note_prices}
use g_manager.Order.Customer.Send.{
  Sent, Start, storing, retrying, send, finished, caught, store_failure, saved, confirmed,
  confirmed_elsewhere, cleared,
}

pub data Phase : Type 0 where
  idle : Phase
  writing : Attempt → Phase
  requesting : (previous : Bool) → Attempt → Phase
  emptying : (total : ℕ) → Attempt → Phase

-- The requests that were sent, the newest first.
pub record Session : Type 0 where
  pub cart : CustomerCart
  pub phase : Phase
  pub sent : List Sent

pub data Event : Type 0 where
  load : Option Value → Event
  load_failure : Event
  change_to : String → JsNumber → Event
  add_item : CatalogItem → Bool → Event
  clear_all : Event
  unavailable : List String → Event
  resolved : List CatalogItem → Event
  submit : (before : String → String → Bool) → List CartLine → List String → String → Event
  written : Bool → Event
  accepted : (total : ℕ) → Event
  denied : Cause → Event
  autosaved : (ok : Bool) → Event
  retry_draft : Event

abbrev pub request_of : Attempt → Sent
request_of a = record { key = a.key; lines = a.lines }

abbrev pub sends : Bool → Attempt → CustomerCart → List Sent → Session
sends previous a cart sent = record {
  cart = cart;
  phase = requesting previous a;
  sent = request_of a ∷ sent;
}

abbrev pub rests : CustomerCart → List Sent → Session
rests cart sent = record { cart = cart; phase = idle; sent = sent }

unfoldable pub begin_send : Start → Session → Session
begin_send (storing cart a) s = record { cart = cart; phase = writing a; sent = s.sent }
begin_send (retrying cart a) s = sends true a cart s.sent
begin_send _ s = s

unfoldable pub on_written : Context → Bool → Phase → Session → Session
on_written c true (writing a) s =
    if current_actor c
    then sends false a (saved c s.cart) s.sent
    else rests (finished c s.cart) s.sent
on_written c false (writing a) s = rests (caught c false false store_failure s.cart) s.sent
on_written c ok (emptying total a) s = rests (cleared c ok total a s.cart) s.sent
on_written c ok _ s = s

unfoldable pub on_accepted : Context → ℕ → Phase → Session → Session
on_accepted c total (requesting previous a) s =
    if current_actor c
    then record { cart = confirmed s.cart; phase = emptying total a; sent = s.sent }
    else rests (finished c (confirmed_elsewhere s.cart)) s.sent
on_accepted c total _ s = s

unfoldable pub on_denied : Context → Cause → Phase → Session → Session
on_denied c cause (requesting previous a) s = rests (caught c true previous cause s.cart) s.sent
on_denied c cause _ s = s

-- The draft is loaded when the hook is mounted and when an earlier load has failed, so before the cart
-- is ready; `retryDraft` is offered only then.
abbrev pub if_loading : (CustomerCart → CustomerCart) → CustomerCart → CustomerCart
if_loading f cart = if cart.state.ready then cart else f cart

abbrev pub on_cart : (CustomerCart → CustomerCart) → Session → Session
on_cart f s = record s { cart = f s.cart }

-- The effect that stores a ready cart after each change of it, when its write has ended.
unfoldable pub on_autosaved : Context → Bool → CustomerCart → CustomerCart
on_autosaved c ok cart =
    if cart.state.ready && current_actor c
    then record cart { warning = if ok then no_warning else not_saved }
    else cart

unfoldable pub step : Context → Event → Session → Session
unfolding begin_send on_written on_accepted on_denied on_autosaved
step c (load stored) s = on_cart (if_loading (restored c stored)) s
step c load_failure s = on_cart (if_loading (restore_failed c)) s
step c (change_to id q) s = on_cart (change id q) s
step c (add_item item minimum) s = on_cart (add c item minimum) s
step c clear_all s = on_cart clear s
step c (unavailable ids) s = on_cart (drop_unavailable ids) s
step c (resolved products) s = on_cart (note_prices products) s
step c (submit before snapshot unresolved uuid) s =
    begin_send (send c before snapshot unresolved uuid s.cart) s
step c (written ok) s = on_written c ok s.phase s
step c (accepted total) s = on_accepted c total s.phase s
step c (denied cause) s = on_denied c cause s.phase s
step c (autosaved ok) s = on_cart (on_autosaved c ok) s
step c retry_draft s = on_cart (λ cart. record cart { warning = no_warning }) s

unfoldable pub run : List (Context × Event) → Session → Session
run [] s = s
run ((c, e) ∷ more) s = run more (step c e s)

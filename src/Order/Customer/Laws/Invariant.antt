-- ===== src/Order/Customer/Laws/Invariant.antt =====
-- The invariant of the hook, kept by every event.
use g_manager.Common.{
  ℕ, String, Bool, true, false, not, Option, none, some, List, [], ◌∷◌, ◌≡◌, refl, ◌∙◌, arith, All,
  is_some, if◌then◌else◌,
}
use g_manager.Common.Json.{JsNumber, is_truthy_text}
use g_manager.Order.Customer.Laws.Quantities.{
  Good, restored-Good, change-Good, add-Good, clear-Good, drop_unavailable-Good,
}
use g_manager.Api.Http.{Cause}
use g_manager.Order.Cart.{CartLine}
use g_manager.Order.Types.{CatalogItem}
use g_manager.Order.Cart.Laws.{IsQuantity}
use g_manager.Order.Customer.{Attempt, CustomerCart, Context, initial}
use g_manager.Order.Customer.Draft.{restored, restore_failed}
use g_manager.Order.Customer.Edit.{
  set_quantity, change, add_one, add, clear, drop_unavailable, note_prices,
}
use g_manager.Order.Customer.Send.{send, caught, finished, cleared, confirmed}
use g_manager.Order.Customer.Steps.{
  begin_send, on_written, on_accepted, on_denied, Phase, idle, writing, requesting, emptying,
  Session, Event, load, load_failure, change_to, add_item, clear_all, unavailable, resolved, submit,
  written, accepted, denied, autosaved, retry_draft, on_autosaved, step, run, rests,
}

-- What the phase says of the attempt in the cart.
abbrev pub Holds : Phase → Option Attempt → Type 0
Holds idle o = Unit
Holds (writing a) o = o ≡ some a
Holds (requesting _ a) o = o ≡ some a
Holds (emptying _ _) o = o ≡ none

abbrev pub is_idle : Phase → Bool
is_idle idle = true
is_idle _ = false

pub record IsValid (s : Session) : Type 0 where
  pub quantities : All IsQuantity s.cart.state.quantities
  pub in_flight : s.cart.submit_in_flight ≡ not (is_idle s.phase)
  pub held : Holds s.phase s.cart.state.attempt
  pub ready_busy : is_idle s.phase ≡ false → s.cart.state.ready ≡ true
  pub loaded : is_some s.cart.state.attempt ≡ true → s.cart.state.ready ≡ true

-- The product id of an edit is not empty.
abbrev pub IsNamed : Event → Type 0
IsNamed (change_to id _) = is_truthy_text id ≡ true
IsNamed (add_item item _) = is_truthy_text item.id ≡ true
IsNamed _ = Unit

-- What an edit of the cart leaves: valid quantities, and the rest of the state that the invariant reads.
pub record Edited (old new : CustomerCart) : Type 0 where
  pub good : Good new.state
  pub same_attempt : new.state.attempt ≡ old.state.attempt
  pub same_ready : new.state.ready ≡ old.state.ready
  pub same_flight : new.submit_in_flight ≡ old.submit_in_flight

change-Edited :
    (id : String) (q : JsNumber) (cart : CustomerCart)
    → is_truthy_text id ≡ true
    → Good cart.state
    → Edited cart (change id q cart)
change-Edited id q cart h g = record {
  good = change-Good id q cart h g;
  same_attempt = unfold change set_quantity in ground arith;
  same_ready = unfold change set_quantity in ground arith;
  same_flight = unfold change in ground arith;
}

add-Edited :
    (c : Context) (item : CatalogItem) (minimum : Bool) (cart : CustomerCart)
    → is_truthy_text item.id ≡ true
    → Good cart.state
    → Edited cart (add c item minimum cart)
add-Edited c item minimum cart h g = record {
  good = add-Good c item minimum cart h g;
  same_attempt = unfold add add_one in ground arith;
  same_ready = unfold add add_one in ground arith;
  same_flight = unfold add in ground arith;
}

clear-Edited : (cart : CustomerCart) → Good cart.state → Edited cart (clear cart)
clear-Edited cart g = record {
  good = clear-Good cart g;
  same_attempt = unfold clear in ground arith;
  same_ready = unfold clear in ground arith;
  same_flight = unfold clear in ground arith;
}

drop_unavailable-Edited :
    (ids : List String) (cart : CustomerCart)
    → Good cart.state
    → Edited cart (drop_unavailable ids cart)
drop_unavailable-Edited ids cart g = record {
  good = drop_unavailable-Good ids cart g;
  same_attempt = unfold drop_unavailable in ground arith;
  same_ready = unfold drop_unavailable in ground arith;
  same_flight = unfold drop_unavailable in ground arith;
}

note_prices-Edited :
    (products : List CatalogItem) (cart : CustomerCart)
    → Good cart.state
    → Edited cart (note_prices products cart)
unfolding note_prices
note_prices-Edited products cart g = ground arith

Edited-IsValid :
    (s : Session) (cart : CustomerCart)
    → IsValid s
    → Edited s.cart cart
    → IsValid (record s { cart = cart })
Edited-IsValid s cart v e = record {
  quantities = e.good.0;
  in_flight = ground arith;
  held = rw e.same_attempt v.held;
  ready_busy = rw e.same_ready v.ready_busy;
  loaded = e.good.1;
}

-- Loading does something only in a cart that is not ready, so that nothing is under way in it.
load-IsValid :
    (f : CustomerCart → CustomerCart) (s : Session) (ready : Bool)
    → s.cart.state.ready ≡ ready
    → (Good s.cart.state → Good (f s.cart).state)
    → (f s.cart).submit_in_flight ≡ s.cart.submit_in_flight
    → IsValid s
    → IsValid (record s { cart = if ready then s.cart else f s.cart })
load-IsValid f s true e good same v = v
load-IsValid f s false e good same v =
    let quiet : s.phase ≡ idle = ground arith in
    record {
      quantities = (good (v.quantities, v.loaded)).0;
      in_flight = same ∙ v.in_flight;
      held = rw quiet tt;
      ready_busy = ground arith;
      loaded = (good (v.quantities, v.loaded)).1;
    }

submit-IsValid :
    (c : Context) (before : String → String → Bool) (snapshot : List CartLine)
    (unresolved : List String) (uuid : String) (s : Session)
    → IsValid s
    → IsValid (begin_send (send c before snapshot unresolved uuid s.cart) s)
unfolding begin_send send
submit-IsValid c before snapshot unresolved uuid s v = ground arith

on_written-IsValid :
    (c : Context) (ok : Bool) (phase : Phase) (s : Session)
    → s.phase ≡ phase
    → IsValid s
    → IsValid (on_written c ok phase s)
unfolding on_written caught finished cleared
on_written-IsValid c true (writing a) s e v = ground arith
on_written-IsValid c false (writing a) s e v = ground arith
on_written-IsValid c ok (emptying total a) s e v = ground arith
on_written-IsValid c ok _ s e v = v

on_accepted-IsValid :
    (c : Context) (total : ℕ) (phase : Phase) (s : Session)
    → s.phase ≡ phase
    → IsValid s
    → IsValid (on_accepted c total phase s)
unfolding on_accepted confirmed finished
on_accepted-IsValid c total (requesting previous a) s e v = ground arith
on_accepted-IsValid c total _ s e v = v

on_denied-IsValid :
    (c : Context) (cause : Cause) (phase : Phase) (s : Session)
    → s.phase ≡ phase
    → IsValid s
    → IsValid (on_denied c cause phase s)
unfolding on_denied caught finished
on_denied-IsValid c cause (requesting previous a) s e v = ground arith
on_denied-IsValid c cause _ s e v = v

-- Every event keeps the invariant.
pub step-IsValid :
    (c : Context) (e : Event) (s : Session) → IsNamed e → IsValid s → IsValid (step c e s)
unfolding step
step-IsValid c (load stored) s n v =
    load-IsValid (restored c stored) s s.cart.state.ready refl (restored-Good c stored s.cart)
      (unfold restored in ground arith) v
step-IsValid c load_failure s n v =
    load-IsValid (restore_failed c) s s.cart.state.ready refl
      (λ g. unfold restore_failed in ground arith) (unfold restore_failed in ground arith) v
step-IsValid c (change_to id q) s n v =
    Edited-IsValid s _ v (change-Edited id q s.cart n (v.quantities, v.loaded))
step-IsValid c (add_item item minimum) s n v =
    Edited-IsValid s _ v (add-Edited c item minimum s.cart n (v.quantities, v.loaded))
step-IsValid c clear_all s n v = Edited-IsValid s _ v (clear-Edited s.cart (v.quantities, v.loaded))
step-IsValid c (unavailable ids) s n v =
    Edited-IsValid s _ v (drop_unavailable-Edited ids s.cart (v.quantities, v.loaded))
step-IsValid c (resolved products) s n v =
    Edited-IsValid s _ v (note_prices-Edited products s.cart (v.quantities, v.loaded))
step-IsValid c (submit before snapshot unresolved uuid) s n v =
    submit-IsValid c before snapshot unresolved uuid s v
step-IsValid c (written ok) s n v = on_written-IsValid c ok s.phase s refl v
step-IsValid c (accepted total) s n v = on_accepted-IsValid c total s.phase s refl v
step-IsValid c (denied cause) s n v = on_denied-IsValid c cause s.phase s refl v
step-IsValid c (autosaved ok) s n v = unfold on_autosaved in ground arith
step-IsValid c retry_draft s n v = ground arith

-- The hook starts in a valid state, and stays in one whatever happens to it.
pub run-IsValid :
    (events : List (Context × Event)) (s : Session)
    → All (λ e. IsNamed e.1) events
    → IsValid s
    → IsValid (run events s)
unfolding run
run-IsValid [] s n v = v
run-IsValid ((c, e) ∷ more) s n v = run-IsValid more (step c e s) n.1 (step-IsValid c e s n.0 v)

-- From its initial values the hook is always in a state where every quantity lies between 1 and 999,
-- where `submitInFlight` is set exactly while `send` waits, and where an attempt that is being written
-- or requested is the one in the cart; the events name products by ids that are not empty.
pub run-initial-IsValid :
    (events : List (Context × Event))
    → All (λ e. IsNamed e.1) events
    → IsValid (run events (rests initial []))
run-initial-IsValid events n = run-IsValid events (rests initial []) n (ground arith)

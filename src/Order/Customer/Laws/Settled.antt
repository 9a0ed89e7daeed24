-- ===== src/Order/Customer/Laws/Settled.antt =====
-- What becomes of an attempt when its request has been answered.
use g_manager.Common.{
  ℕ, ◌+◌, ◌<◌, ◌≤◌, Bool, true, false, none, some, List, [], ◌∷◌, ◌≡◌, ◌≢◌, ◌⊎◌, ◌↔◌, arith, All,
  codes, contains,
}
use g_manager.Api.Http.{Cause, http, failure, unknown, message_or_empty}
use g_manager.Order.Cart.{retain_available_products}
use g_manager.Order.Customer.{Attempt, Context, current_actor, total_differs}
use g_manager.Order.Customer.Edit.{change, add, clear, drop_unavailable, note_prices}
use g_manager.Order.Customer.Send.{Sent, send, finished, cleared, confirmed}
use g_manager.Order.Customer.Steps.{
  idle, requesting, emptying, Session, Event, load, load_failure, change_to, add_item, clear_all,
  unavailable, resolved, submit, written, accepted, denied, autosaved, retry_draft, on_autosaved,
  step, run, begin_send, on_written, on_accepted, on_denied,
}
use g_manager.Order.Customer.Laws.Invariant.{IsValid}

-- The failure does not say whether the order was placed: there was no response, it came too early, the
-- server failed, the key is in use, or a retry was refused, which says nothing of the first request.
abbrev pub TellsNothing : (retry : Bool) → Cause → Type 0
TellsNothing retry (http none) = Unit
TellsNothing retry (http (some r)) =
    (500 ≤ r.status)
    ⊎ ((r.status ≡ 425)
        ⊎ (((r.status ≡ 409)
              × (contains (codes "Idempotency-Key") (codes (message_or_empty (http (some r))))
                  ≡ true))
            ⊎ ((retry ≡ true) × ((r.status ≡ 401) ⊎ (r.status ≡ 403)))))
TellsNothing retry (failure message) = ⊥
TellsNothing retry unknown = ⊥

-- The order is confirmed, and the empty cart is being written.
abbrev pub IsEmptying : ℕ → Attempt → List Sent → Session → Type 0
IsEmptying total a sent s =
    (s.phase ≡ emptying total a)
    × (s.cart.state ≡ record { ready = true; quantities = []; attempt = none })
    × (s.cart.submit_in_flight ≡ true)
    × (s.cart.notice ≢ total_differs)
    × (s.sent ≡ sent)

abbrev pub is_written : Event → Bool
is_written (written ok) = true
is_written _ = false

step-IsEmptying :
    (c : Context) (e : Event) (total : ℕ) (a : Attempt) (sent : List Sent) (s : Session)
    → is_written e ≡ false
    → IsEmptying total a sent s
    → IsEmptying total a sent (step c e s)
unfolding step
step-IsEmptying c (load stored) total a sent s n h = ground arith
step-IsEmptying c load_failure total a sent s n h = ground arith
step-IsEmptying c (change_to id q) total a sent s n h = unfold change in ground arith
step-IsEmptying c (add_item item minimum) total a sent s n h = unfold add in ground arith
step-IsEmptying c clear_all total a sent s n h = unfold clear in ground arith
step-IsEmptying c (unavailable ids) total a sent s n h =
    unfold drop_unavailable retain_available_products in ground arith
step-IsEmptying c (resolved products) total a sent s n h = unfold note_prices in ground arith
step-IsEmptying c (submit before snapshot unresolved uuid) total a sent s n h =
    unfold begin_send send in ground arith
step-IsEmptying c (written ok) total a sent s n h = ground arith
step-IsEmptying c (accepted other) total a sent s n h = unfold on_accepted in ground arith
step-IsEmptying c (denied cause) total a sent s n h = unfold on_denied in ground arith
step-IsEmptying c (autosaved ok) total a sent s n h = unfold on_autosaved in ground arith
step-IsEmptying c retry_draft total a sent s n h = ground arith

run-IsEmptying :
    (events : List (Context × Event)) (total : ℕ) (a : Attempt) (sent : List Sent) (s : Session)
    → All (λ e. is_written e.1 ≡ false) events
    → IsEmptying total a sent s
    → IsEmptying total a sent (run events s)
unfolding run
run-IsEmptying [] total a sent s n h = h
run-IsEmptying ((c, e) ∷ more) total a sent s n h =
    run-IsEmptying more total a sent (step c e s) n.1 (step-IsEmptying c e total a sent s n.0 h)

on_accepted-IsEmptying :
    (c : Context) (total : ℕ) (previous : Bool) (a : Attempt) (s : Session)
    → IsValid s
    → s.phase ≡ requesting previous a
    → current_actor c ≡ true
    → IsEmptying total a s.sent (step c (accepted total) s)
unfolding step on_accepted confirmed
on_accepted-IsEmptying c total previous a s v p h = ground (arith, v.in_flight)

-- The two amounts, in thousandths, are more than half a hundredth apart.
abbrev pub AreApart : ℕ → ℕ → Type 0
AreApart a b = (a + 5 < b) ⊎ (b + 5 < a)

on_written_emptying :
    (c : Context) (ok : Bool) (total : ℕ) (a : Attempt) (sent : List Sent) (s : Session)
    → IsEmptying total a sent s
    → current_actor c ≡ true
    → let t = step c (written ok) s in
      (t.cart.state ≡ record { ready = true; quantities = []; attempt = none })
      × (t.phase ≡ idle)
      × (t.cart.submit_in_flight ≡ false)
      × (t.sent ≡ sent)
      × ((t.cart.notice ≡ total_differs) ↔ AreApart total a.estimated_total)
unfolding step on_written cleared finished
on_written_emptying c ok total a sent s h here = ground arith

-- From a valid state in which a request waits: an order that is confirmed to the customer who waits for it
-- leaves, once the empty cart was written or could not be written, an empty cart without an attempt that is
-- open for changes, whatever edits, submissions and other events come before the end of that write; none of
-- them sends anything; and another total is reported exactly if it is more than half a hundredth above or
-- below the estimate.
pub accepted_empties :
    (c later : Context) (total : ℕ) (previous : Bool) (a : Attempt) (s : Session)
    (events : List (Context × Event)) (ok : Bool)
    → IsValid s
    → s.phase ≡ requesting previous a
    → current_actor c ≡ true
    → current_actor later ≡ true
    → All (λ e. is_written e.1 ≡ false) events
    → let t = step later (written ok) (run events (step c (accepted total) s)) in
      (t.cart.state ≡ record { ready = true; quantities = []; attempt = none })
      × (t.phase ≡ idle)
      × (t.cart.submit_in_flight ≡ false)
      × (t.sent ≡ s.sent)
      × ((t.cart.notice ≡ total_differs) ↔ AreApart total a.estimated_total)
accepted_empties c later total previous a s events ok v p here there quiet =
    on_written_emptying later ok total a s.sent (run events (step c (accepted total) s))
      (run-IsEmptying events total a s.sent (step c (accepted total) s) quiet
        (on_accepted-IsEmptying c total previous a s v p here))
      there

-- ===== src/Order/Customer/Laws/Attempts.antt =====
-- What an open attempt guarantees: the cart is locked, and only that attempt is sent.
use g_manager.Common.{
  ℕ, zero, suc, String, Bool, true, false, none, some, List, [], ◌∷◌, ◌++◌, ◌≡◌, ◌⊎◌, inl, inr,
  refl, ap, ◌∙◌, arith, All,
}
use g_manager.Api.Http.{Cause}
use g_manager.Order.Cart.{CartLine}
use g_manager.Order.Customer.{Attempt, Context, current_actor}
use g_manager.Order.Customer.Edit.{change, add, clear, drop_unavailable, note_prices}
use g_manager.Order.Customer.Send.{Sent, send, caught, finished, cleared, confirmed, is_uncertain}
use g_manager.Order.Customer.Steps.{
  Phase, writing, requesting, emptying, Session, Event, load, load_failure, change_to, add_item,
  clear_all, unavailable, resolved, submit, written, accepted, denied, autosaved, retry_draft,
  on_autosaved, step, run, begin_send, on_written, on_accepted, on_denied, request_of,
}
use g_manager.Order.Customer.Laws.Invariant.{IsValid, IsNamed, is_idle, step-IsValid}

-- The event does not settle what became of the attempt: the order is not confirmed to this customer,
-- and no failure is one that says it was not placed.
abbrev pub LeavesOpen : Context → Event → Phase → Type 0
LeavesOpen c (accepted _) (requesting _ _) = current_actor c ≡ false
LeavesOpen c (denied cause) (requesting previous _) =
    (current_actor c ≡ false) ⊎ (is_uncertain true previous cause ≡ true)
LeavesOpen c (written false) (writing _) = current_actor c ≡ false
LeavesOpen c _ _ = Unit

-- What a step does with an open attempt: it stays, and at most its request is sent.
abbrev pub Sends : Attempt → Session → Session → Type 0
Sends a s t = (t.cart.state ≡ s.cart.state) × ((t.sent ≡ s.sent) ⊎ (t.sent ≡ request_of a ∷ s.sent))

on_written-Sends :
    (c : Context) (ok : Bool) (phase : Phase) (s : Session) (a : Attempt)
    → s.phase ≡ phase
    → IsValid s
    → s.cart.state.attempt ≡ some a
    → LeavesOpen c (written ok) phase
    → Sends a s (on_written c ok phase s)
unfolding on_written caught finished cleared
on_written-Sends c true (writing b) s a e v h open_still = ground arith
on_written-Sends c false (writing b) s a e v h open_still = ground arith
on_written-Sends c ok (emptying total b) s a e v h open_still = ground arith
on_written-Sends c ok _ s a e v h open_still = (refl, inl refl)

on_accepted-Sends :
    (c : Context) (total : ℕ) (phase : Phase) (s : Session) (a : Attempt)
    → LeavesOpen c (accepted total) phase
    → Sends a s (on_accepted c total phase s)
unfolding on_accepted confirmed finished
on_accepted-Sends c total (requesting previous b) s a open_still = ground arith
on_accepted-Sends c total _ s a open_still = (refl, inl refl)

on_denied-Sends :
    (c : Context) (cause : Cause) (phase : Phase) (s : Session) (a : Attempt)
    → LeavesOpen c (denied cause) phase
    → Sends a s (on_denied c cause phase s)
unfolding on_denied caught finished
on_denied-Sends c cause (requesting previous b) s a open_still = ground arith
on_denied-Sends c cause _ s a open_still = (refl, inl refl)

-- While an attempt is open, an event that does not settle it changes neither the quantities nor the
-- attempt, and the only request that it may send is that of the attempt: same key, same lines.
pub step-Sends :
    (c : Context) (e : Event) (s : Session) (a : Attempt)
    → IsValid s
    → s.cart.state.attempt ≡ some a
    → LeavesOpen c e s.phase
    → Sends a s (step c e s)
unfolding step
step-Sends c (load stored) s a v h o = ground (arith, v.loaded)
step-Sends c load_failure s a v h o = ground (arith, v.loaded)
step-Sends c (change_to id q) s a v h o = unfold change in ground arith
step-Sends c (add_item item minimum) s a v h o = unfold add in ground arith
step-Sends c clear_all s a v h o = unfold clear in ground arith
step-Sends c (unavailable ids) s a v h o = unfold drop_unavailable in ground arith
step-Sends c (resolved products) s a v h o = unfold note_prices in ground arith
step-Sends c (submit before snapshot unresolved uuid) s a v h o =
    unfold begin_send send in ground arith
step-Sends c (written ok) s a v h o = on_written-Sends c ok s.phase s a refl v h o
step-Sends c (accepted total) s a v h o = on_accepted-Sends c total s.phase s a o
step-Sends c (denied cause) s a v h o = on_denied-Sends c cause s.phase s a o
step-Sends c (autosaved ok) s a v h o = unfold on_autosaved in ground arith
step-Sends c retry_draft s a v h o = ground arith

-- Every event in turn leaves the attempt open.
abbrev pub AllLeaveOpen : List (Context × Event) → Session → Type 0
AllLeaveOpen [] s = Unit
AllLeaveOpen ((c, e) ∷ more) s = LeavesOpen c e s.phase × AllLeaveOpen more (step c e s)

abbrev pub repeat : ℕ → Sent → List Sent
repeat zero r = []
repeat (suc n) r = r ∷ repeat n r

repeat-append : (n : ℕ) (r : Sent) (xs : List Sent) → repeat n r ++ r ∷ xs ≡ repeat (suc n) r ++ xs
repeat-append zero r xs = refl
repeat-append (suc n) r xs = ap (λ ys. r ∷ ys) (repeat-append n r xs)

-- From a state with an open attempt, over any events that are about named products and none of which
-- settles the attempt, the cart keeps its quantities and its attempt, and every request that is sent
-- is the one of that attempt, with its key and its lines.
pub run-Sends :
    (events : List (Context × Event)) (s : Session) (a : Attempt)
    → All (λ e. IsNamed e.1) events
    → IsValid s
    → s.cart.state.attempt ≡ some a
    → AllLeaveOpen events s
    → ((run events s).cart.state ≡ s.cart.state)
      × ((n : ℕ) × ((run events s).sent ≡ repeat n (request_of a) ++ s.sent))
unfolding run
run-Sends [] s a names v h o = (refl, (0, refl))
run-Sends ((c, e) ∷ more) s a names v h o =
    let one = step-Sends c e s a v h o.0 in
    let held : (step c e s).cart.state.attempt ≡ some a = rw one.0 h in
    let later = run-Sends more (step c e s) a names.1 (step-IsValid c e s names.0 v) held o.1 in
    (
      later.0 ∙ one.0,
      elim one.1 [
        | inl quiet ↦
            (later.1.0, later.1.1 ∙ ap (λ xs. repeat later.1.0 (request_of a) ++ xs) quiet)
        | inr asked ↦ (
          suc later.1.0,
          later.1.1
              ∙ ap (λ xs. repeat later.1.0 (request_of a) ++ xs) asked
              ∙ repeat-append later.1.0 (request_of a) s.sent,
        )
      ],
    )

-- In a valid state, while `send` waits, a second `send` does nothing at all.
submit_in_flight :
    (c : Context) (before : String → String → Bool) (snapshot : List CartLine)
    (unresolved : List String) (uuid : String) (s : Session)
    → IsValid s
    → is_idle s.phase ≡ false
    → step c (submit before snapshot unresolved uuid) s ≡ s
unfolding step begin_send send
submit_in_flight c before snapshot unresolved uuid s v h = ground arith

-- A request is sent for the first time only when its attempt has been stored: a submission of a cart
-- with no open attempt sends nothing, and what it stores is kept in the cart.
pub submit_stores_first :
    (c : Context) (before : String → String → Bool) (snapshot : List CartLine)
    (unresolved : List String) (uuid : String) (s : Session)
    → s.cart.state.attempt ≡ none
    → let t = step c (submit before snapshot unresolved uuid) s in
      (t.sent ≡ s.sent)
      × ((t ≡ s) ⊎ ((a : Attempt) × (t.phase ≡ writing a) × (t.cart.state.attempt ≡ some a)))
unfolding step begin_send send
submit_stores_first c before snapshot unresolved uuid s h = ground arith

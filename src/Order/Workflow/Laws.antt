-- ===== src/Order/Workflow/Laws.antt =====
-- The life of an order, as its buttons allow it.
use g_manager.Common.{
  ℕ, suc, ◌≤◌, true, ◌&&◌, ◌||◌, some, List, [], ◌∷◌, ◌≡◌, refl, ap, arith, length,
}
use g_manager.Auth.Types.{AuthUser, order_read_all, order_change_status}
use g_manager.Auth.Capabilities.{has_capability}
use g_manager.Order.Types.{Order, OrderStatus, created, in_progress, ready, completed, cancelled}
use g_manager.Order.Workflow.{
  may_move, can_change_order, is_management, is_employee, handles, is_created, is_ready,
}

-- The changes of status that the workflow knows.
pub data Next : OrderStatus → OrderStatus → Type 0 where
  taken : Next created in_progress
  prepared : Next in_progress ready
  picked_up : Next ready completed
  dropped : Next created cancelled
  stopped : Next in_progress cancelled
  returned : Next ready cancelled

may_move-Next :
    (order : Order) (to : OrderStatus) (user : AuthUser) (from : OrderStatus)
    → order.status ≡ from
    → may_move order to user ≡ true
    → Next from to
may_move-Next order in_progress user created s e = taken
may_move-Next order ready user in_progress s e = prepared
may_move-Next order completed user ready s e = picked_up
may_move-Next order cancelled user created s e = dropped
may_move-Next order cancelled user in_progress s e = stopped
may_move-Next order cancelled user ready s e = returned
may_move-Next order _ user _ s e = ground arith

may_move_actor :
    (order : Order) (to : OrderStatus) (user : AuthUser)
    → may_move order to user ≡ true
    → (is_management user
        || is_employee user && (is_created order.status || handles order.handled_by user.id))
      ≡ true
may_move_actor order created user h = ground arith
may_move_actor order in_progress user h = ground arith
may_move_actor order ready user h = ground arith
may_move_actor order completed user h = ground arith
may_move_actor order cancelled user h = ground arith

may_move_ready :
    (order : Order) (to : OrderStatus) (user : AuthUser)
    → is_ready order.status ≡ true
    → to ≡ cancelled
    → may_move order to user ≡ true
    → is_management user ≡ true
may_move_ready order to user r c h = ground arith

module _ (order : Order) (to : OrderStatus) (user : AuthUser) where
  can_change_order-may_move :
      can_change_order order to (some user) ≡ true
      → (has_capability (some user) order_read_all ≡ true)
        × (has_capability (some user) order_change_status ≡ true)
        × (may_move order to user ≡ true)
  unfolding can_change_order
  can_change_order-may_move h = ground arith

  -- A change that is offered is a step of the workflow, so a completed or cancelled order stays as it is.
  can_change_order-Next : can_change_order order to (some user) ≡ true → Next order.status to
  can_change_order-Next h =
      may_move-Next order to user order.status refl (can_change_order-may_move h).2

  -- Who is offered a change has both capabilities, and manages, or is an employee for whom the order is
  -- new or who handles it; an order that is ready is cancelled by the management only.
  pub can_change_order_actor :
      can_change_order order to (some user) ≡ true
      → (has_capability (some user) order_read_all ≡ true)
        × (has_capability (some user) order_change_status ≡ true)
        × ((is_management user
              || is_employee user && (is_created order.status || handles order.handled_by user.id))
            ≡ true)
        × ((is_ready order.status ≡ true) → (to ≡ cancelled) → is_management user ≡ true)
  can_change_order_actor h =
      let (a, b, m) = can_change_order-may_move h in
      (a, b, may_move_actor order to user m, λ r c. may_move_ready order to user r c m)

-- Changes made one after the other, each on the order as it then stands, by users who were offered them.
abbrev pub AreOffered : OrderStatus → List (Order × OrderStatus × AuthUser) → Type 0
AreOffered from [] = Unit
AreOffered from ((order, to, user) ∷ rest) =
    (order.status ≡ from) × (can_change_order order to (some user) ≡ true) × AreOffered to rest

-- How many changes are left at most.
abbrev pub changes_left : OrderStatus → ℕ
changes_left created = 3
changes_left in_progress = 2
changes_left ready = 1
changes_left _ = 0

Next-changes_left :
    {from to : OrderStatus} → Next from to → suc (changes_left to) ≤ changes_left from
Next-changes_left taken = omega arith
Next-changes_left prepared = omega arith
Next-changes_left picked_up = omega arith
Next-changes_left dropped = omega arith
Next-changes_left stopped = omega arith
Next-changes_left returned = omega arith

-- An order is changed three times at most, whoever changes it: twice from being in progress, once from
-- being ready, and never when it is completed or cancelled.
pub AreOffered-length :
    (from : OrderStatus) (changes : List (Order × OrderStatus × AuthUser))
    → AreOffered from changes
    → length changes ≤ changes_left from
AreOffered-length from [] h = omega arith
AreOffered-length from ((order, to, user) ∷ rest) (e, c, h) =
    let step = Next-changes_left (can_change_order-Next order to user c) in
    let there : changes_left order.status ≡ changes_left from = ap changes_left e in
    omega (arith, step, there, AreOffered-length to rest h)

-- ===== src/Order/Workflow.antt =====
-- order/orderPresentation.model.ts: who may move an order to which status.
pub mod Laws
pub mod Tests
use g_manager.Common.{
  ℕ, String, Bool, true, false, not, ◌&&◌, ◌||◌, Option, none, some, ◌===◌, ◌==◌, if◌then◌else◌,
  List, [], ◌∷◌, ◌+◌, ◌%◌, leb, ltb,
}
use g_manager.Auth.Types.{
  Role, owner, admin, employee, is_role, AuthUser, order_read_all, order_change_status,
  customer_read,
}
use g_manager.Order.Types.{Order, OrderStatus, created, in_progress, ready, completed, cancelled}
use g_manager.Auth.Capabilities.{has_capability}

abbrev pub is_created : OrderStatus → Bool
is_created created = true
is_created _ = false

abbrev pub is_in_progress : OrderStatus → Bool
is_in_progress in_progress = true
is_in_progress _ = false

abbrev pub is_ready : OrderStatus → Bool
is_ready ready = true
is_ready _ = false

abbrev pub is_management : AuthUser → Bool
is_management user = is_role user.role owner || is_role user.role admin

abbrev pub is_employee : AuthUser → Bool
is_employee user = is_role user.role employee

abbrev pub handles : Option String → String → Bool
handles none id = false
handles (some handler) id = handler === id

abbrev pub is_handler : Order → AuthUser → Bool
is_handler order user = is_employee user && handles order.handled_by user.id

-- The part of `canChangeOrder` behind the capabilities.
abbrev pub may_move : Order → OrderStatus → AuthUser → Bool
may_move order in_progress user =
    is_created order.status && (is_employee user || is_management user)
may_move order ready user =
    is_in_progress order.status && (is_handler order user || is_management user)
may_move order completed user =
    is_ready order.status && (is_handler order user || is_management user)
may_move order cancelled user =
    is_created order.status && (is_employee user || is_management user)
    || (is_in_progress order.status && (is_handler order user || is_management user)
        || is_ready order.status && is_management user)
may_move order created user = false

unfoldable pub can_change_order : Order → OrderStatus → Option AuthUser → Bool
can_change_order order status none = false
can_change_order order status (some user) =
    if not (has_capability (some user) order_read_all)
      || not (has_capability (some user) order_change_status)
    then false
    else may_move order status user

-- `handlerLabel`: nobody, the user, another person by name, or one whose name is not there.
pub data HandlerLabel : Type 0 where
  untaken unavailable : HandlerLabel
  own_name other_name : String → HandlerLabel

abbrev pub is_own : String → Option AuthUser → Bool
is_own id none = false
is_own id (some user) = id === user.id

abbrev pub name_of : Option AuthUser → String
name_of none = ""
name_of (some user) = user.name

-- An empty `handledBy` is no handler.
unfoldable pub handler_label :
    Order → (handled_by_name : Option String) → Option AuthUser → HandlerLabel
handler_label order handled_by_name user = elim order.handled_by [
  | none ↦ untaken
  | some id ↦
      if id === ""
      then untaken
      else if is_own id user
      then own_name (name_of user)
      else elim handled_by_name [ none ↦ unavailable | some name ↦ other_name name ]
]

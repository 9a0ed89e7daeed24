-- ===== src/Order/Workflow/Tests.antt =====
-- An employee who takes an order, prepares it and hands it over.
use g_manager.Common.{
  ◌≤◌, String, true, false, Option, none, some, List, [], ◌∷◌, ◌≡◌, ◌&&◌, ◌||◌, refl, length,
}
use g_manager.Auth.Types.{AuthUser, employee, order_read_all, order_change_status}
use g_manager.Auth.Capabilities.{has_capability}
use g_manager.Order.Types.{Order, OrderStatus, created, in_progress, ready, completed, cancelled}
use g_manager.Order.Workflow.{
  can_change_order, is_management, is_employee, is_created, is_ready, handles, handler_label,
  own_name,
}
use g_manager.Order.Workflow.Laws.{can_change_order_actor, AreOffered-length}

abbrev eva : AuthUser
eva = record {
  id = "u2";
  name = "Eva";
  email = "eva@example.com";
  role = employee;
  active = true;
  avatar_url = none;
  permissions = none;
}

abbrev order_in : OrderStatus → Option String → Order
order_in status handled_by = record {
  id = "o1";
  customer_id = "u1";
  handled_by = handled_by;
  status = status;
  total_price = 250000;
  order_items = [];
  version = 1;
}

abbrev own : Order
own = order_in in_progress (some "u2")

abbrev changes : List (Order × OrderStatus × AuthUser)
changes = (order_in created none, in_progress, eva) ∷ (own, ready, eva) ∷ []

own-label : handler_label own none (some eva) ≡ own_name "Eva"
unfolding handler_label
own-label = refl

foreign : can_change_order (order_in ready (some "u3")) completed (some eva) ≡ false
unfolding can_change_order has_capability
foreign = refl

own-offered : can_change_order own ready (some eva) ≡ true
unfolding can_change_order has_capability
own-offered = refl

new-offered : can_change_order (order_in created none) in_progress (some eva) ≡ true
unfolding can_change_order has_capability
new-offered = refl

can_change_order_actor_example :
    (has_capability (some eva) order_read_all ≡ true)
    × (has_capability (some eva) order_change_status ≡ true)
    × ((is_management eva
          || is_employee eva && (is_created in_progress || handles (some "u2") "u2"))
        ≡ true)
    × ((is_ready in_progress ≡ true) → (ready ≡ cancelled) → is_management eva ≡ true)
can_change_order_actor_example = can_change_order_actor own ready eva own-offered

AreOffered-length_example : length changes ≤ 3
AreOffered-length_example =
    AreOffered-length created changes (refl, new-offered, (refl, own-offered, tt))

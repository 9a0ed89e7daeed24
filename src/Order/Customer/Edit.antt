-- ===== src/Order/Customer/Edit.antt =====
-- order/customer/useCustomerCart.ts: `change`, `add`, `clear`, and the effects that remove products
-- which are not available and that watch prices. The query cache that `add` also fills is left out.
use g_manager.Common.{
  ℕ, ◌+◌, min, max, String, Bool, true, false, ◌&&◌, ◌||◌, not, none, some, List, [], ◌∷◌, ◌==◌,
  if◌then◌else◌, Dict, lookup, insert, remove, includes, is_empty, is_some,
}
use g_manager.Common.Json.{JsNumber, is_finite, to_ℕ}
use g_manager.Order.Types.{CatalogItem, ItemType, product, service}
use g_manager.Order.Cart.{quantity_of, retain_available_products}
use g_manager.Order.Customer.{
  CartState, CustomerCart, Context, no_error, unavailable_removed, price_changed,
}

-- `Math.max(0, Math.min(999, Math.trunc(quantity)))`, of a finite number.
abbrev pub amount_of : JsNumber → ℕ
amount_of q = min 999 (to_ℕ q)

-- The update of the state that `change` makes.
unfoldable pub set_quantity : String → ℕ → CartState → CartState
set_quantity id amount s = if is_some s.attempt then s else record s {
  quantities = if amount == 0 then remove id s.quantities else insert id amount s.quantities;
}

unfoldable pub change : String → JsNumber → CustomerCart → CustomerCart
unfolding set_quantity
change id quantity cart =
    if not cart.state.ready
      || (is_some cart.state.attempt || (cart.submit_in_flight || not (is_finite quantity)))
    then cart
    else record cart {
      state = set_quantity id (amount_of quantity) cart.state;
      submit_error = no_error;
    }

abbrev pub is_product : ItemType → Bool
is_product product = true
is_product service = false

-- The update of the state that `add` makes.
unfoldable pub add_one : String → Bool → CartState → CartState
add_one id minimum s = if not s.ready || is_some s.attempt then s else record s {
  quantities =
      insert id
        (if minimum
          then max 1 (quantity_of s.quantities id)
          else min 999 (quantity_of s.quantities id + 1))
        s.quantities;
}

unfoldable pub add : Context → CatalogItem → Bool → CustomerCart → CustomerCart
unfolding add_one
add c item minimum cart =
    if not c.can_catalog
      || (not item.active
          || (is_some item.deleted_at
              || (not (is_product item.item_type)
                  || (is_some cart.state.attempt || cart.submit_in_flight))))
    then cart
    else record cart { state = add_one item.id minimum cart.state; submit_error = no_error }

unfoldable pub clear : CustomerCart → CustomerCart
clear cart =
    if cart.submit_in_flight || is_some cart.state.attempt
    then cart
    else let s = cart.state in
      record cart { state = record s { quantities = [] }; submit_error = no_error }

-- Object.keys
abbrev pub keys : Dict ℕ → List String
keys [] = []
keys ((id, n) ∷ q) = id ∷ keys q

-- The effect on products that the server no longer offers.
unfoldable pub drop_unavailable : List String → CustomerCart → CustomerCart
drop_unavailable unavailable cart =
    if not cart.state.ready || (is_some cart.state.attempt || is_empty unavailable)
    then cart
    else let s = cart.state in
      record cart {
        state = record s {
          quantities =
              retain_available_products s.quantities
                (λ id. includes (keys s.quantities) id && not (includes unavailable id));
        };
        notice = unavailable_removed;
      }

-- The loop of the effect on prices: the new prices, and whether a known one differs.
unfoldable pub note_from : Dict ℕ → Bool → List CatalogItem → Dict ℕ × Bool
note_from prices changed [] = (prices, changed)
note_from prices changed (item ∷ rest) =
    note_from (insert item.id item.price prices)
      (changed
        || (elim (lookup item.id prices) [ none ↦ false | some known ↦ not (known == item.price) ]))
      rest

unfoldable pub note_prices : List CatalogItem → CustomerCart → CustomerCart
unfolding note_from
note_prices resolved cart =
    let (prices, changed) = note_from cart.prices false resolved in
    if changed
    then record cart { prices = prices; notice = price_changed }
    else record cart { prices = prices }

-- ===== src/Order/Customer/Laws/Quantities.antt =====
-- Every quantity in the cart stays between 1 and 999, for a product id that is not empty.
use g_manager.Common.{
  ℕ, ◌≤◌, ◌<◌, ◌+◌, min, max, String, Bool, true, not, Option, some, List, [], ◌∷◌, ◌≡◌, arith,
  Dict, insert, remove, All, is_some, Option-cases, inl, inr, lookup, includes, ◌&&◌, if◌then◌else◌,
}
use g_manager.Common.Json.{JsNumber, Value, number, text, array, Items, nil, cons, is_truthy_text}
use g_manager.Order.Types.{OrderLine, CatalogItem}
use g_manager.Order.Cart.{quantity_of, normalize_cart_quantities}
use g_manager.Order.Cart.Laws.{
  IsQuantity, normalize_cart_quantities-All, retain_available_products-All,
}
use g_manager.Order.Customer.{Attempt, CartState, CustomerCart, Context}
use g_manager.Order.Customer.Draft.{
  property, read_line, read_lines, read_attempt, saved_attempt, insert_lines, restored,
  stored_value,
}
use g_manager.Order.Customer.Edit.{
  set_quantity, amount_of, keys, change, add_one, add, clear, drop_unavailable,
}

insert-All :
    (id : String) (n : ℕ) (q : Dict ℕ)
    → IsQuantity (id, n)
    → All IsQuantity q
    → All IsQuantity (insert id n q)
unfolding insert
insert-All id n [] h hs = (h, tt)
insert-All id n ((j, k) ∷ q) h hs = ground (arith, insert-All id n q h hs.1)

remove-All : (id : String) (q : Dict ℕ) → All IsQuantity q → All IsQuantity (remove id q)
unfolding remove
remove-All id [] h = tt
remove-All id ((j, k) ∷ q) h = ground (arith, remove-All id q h.1)

abbrev pub IsLine : OrderLine → Type 0
IsLine line = IsQuantity (line.product_id, line.quantity)

read_line-IsLine : (v w : Value) {line : OrderLine} → read_line v w ≡ some line → IsLine line
unfolding read_line
read_line-IsLine (text id) (number q) h = ground arith
read_line-IsLine v w h = ground arith

read_lines-All :
    (ids : List String) (vs : Items) {lines : List OrderLine}
    → read_lines ids vs ≡ some lines
    → All IsLine lines
unfolding read_lines
read_lines-All ids nil h = ground arith
read_lines-All ids (cons v vs) h =
    elim (Option-cases (read_line (property "productId" v) (property "quantity" v))) [
      | inl missing ↦ cc missing
      | inr (line, found) ↦ elim (Option-cases (read_lines (line.product_id ∷ ids) vs)) [
        | inl missing ↦ ground arith
        | inr (lines, rest) ↦ ground (
          arith,
          read_line-IsLine (property "productId" v) (property "quantity" v) found,
          read_lines-All (line.product_id ∷ ids) vs rest,
        )
      ]
    ]

-- Every line of an attempt that is read back names a product and asks for 1 to 999 pieces of it.
pub read_attempt-All :
    (k i t : Value) {a : Attempt} → read_attempt k i t ≡ some a → All IsLine a.lines
unfolding read_attempt
read_attempt-All (text key) (array (cons item more)) (number total) h =
    elim (Option-cases (read_lines [] (cons item more))) [
      | inl missing ↦ ground arith
      | inr (lines, found) ↦ ground (arith, read_lines-All [] (cons item more) found)
    ]
read_attempt-All _ _ _ h = ground arith

pub saved_attempt-All : (v : Value) {a : Attempt} → saved_attempt v ≡ some a → All IsLine a.lines
unfolding saved_attempt
saved_attempt-All v h =
    read_attempt-All (property "key" v) (property "items" v) (property "estimatedTotal" v) h

insert_lines-All :
    (lines : List OrderLine) (q : Dict ℕ)
    → All IsLine lines
    → All IsQuantity q
    → All IsQuantity (insert_lines lines q)
insert_lines-All [] q h hq = hq
insert_lines-All (line ∷ lines) q h hq =
    insert_lines-All lines (insert line.product_id line.quantity q) h.1
      (insert-All line.product_id line.quantity q h.0 hq)

abbrev pub Good : CartState → Type 0
Good s = All IsQuantity s.quantities × (is_some s.attempt ≡ true → s.ready ≡ true)

pub restored-Good :
    (c : Context) (stored : Option Value) (cart : CustomerCart)
    → Good cart.state
    → Good (restored c stored cart).state
unfolding restored
restored-Good c stored cart h =
    elim (Option-cases (saved_attempt (property "__attempt" (stored_value stored)))) [
      | inl fresh ↦
          rw (fresh, restored) (ground (arith, normalize_cart_quantities-All (stored_value stored)))
      | inr (a, found) ↦
          rw (found, restored)
            (ground (
              arith,
              insert_lines-All a.lines (normalize_cart_quantities (stored_value stored))
                  (saved_attempt-All (property "__attempt" (stored_value stored)) found)
                  (normalize_cart_quantities-All (stored_value stored)),
            ))
    ]

set_quantity-Good :
    (id : String) (n : ℕ) (s : CartState)
    → is_truthy_text id ≡ true
    → n ≤ 999
    → Good s
    → Good (set_quantity id n s)
unfolding set_quantity
set_quantity-Good id n s h le g =
    ground (arith, insert-All id n s.quantities, remove-All id s.quantities)

lookup-le : (id : String) (q : Dict ℕ) (n : ℕ) → All IsQuantity q → lookup id q ≡ some n → n ≤ 999
unfolding lookup
lookup-le id [] n h e = ground arith
lookup-le id ((j, k) ∷ q) n h e = ground (arith, lookup-le id q n h.1)

quantity_of-le : (id : String) (q : Dict ℕ) → All IsQuantity q → quantity_of q id ≤ 999
quantity_of-le id q h = elim (Option-cases (lookup id q)) [
  | inl absent ↦ rw (absent, quantity_of) (omega arith)
  | inr (n, found) ↦ rw (found, quantity_of) (lookup-le id q n h found)
]

add_one-Good :
    (id : String) (minimum : Bool) (s : CartState)
    → is_truthy_text id ≡ true
    → Good s
    → Good (add_one id minimum s)
unfolding add_one
add_one-Good id minimum s h g =
    let n =
      if minimum
      then max 1 (quantity_of s.quantities id)
      else min 999 (quantity_of s.quantities id + 1) in
    let few : (0 < n) × (n ≤ 999) = ground (arith, quantity_of-le id s.quantities g.0) in
    ground (arith, insert-All id n s.quantities (h, few.0, few.1) g.0)

-- An edit of the cart by the customer, or by the effects on the catalog, keeps the quantities valid.
pub change-Good :
    (id : String) (n : JsNumber) (cart : CustomerCart)
    → is_truthy_text id ≡ true
    → Good cart.state
    → Good (change id n cart).state
unfolding change
change-Good id n cart h g =
    ground (arith, set_quantity-Good id (amount_of n) cart.state h (omega arith) g)

pub add-Good :
    (c : Context) (item : CatalogItem) (minimum : Bool) (cart : CustomerCart)
    → is_truthy_text item.id ≡ true
    → Good cart.state
    → Good (add c item minimum cart).state
unfolding add
add-Good c item minimum cart h g = ground (arith, add_one-Good item.id minimum cart.state h g)

pub clear-Good : (cart : CustomerCart) → Good cart.state → Good (clear cart).state
unfolding clear
clear-Good cart g = ground arith

pub drop_unavailable-Good :
    (ids : List String) (cart : CustomerCart)
    → Good cart.state
    → Good (drop_unavailable ids cart).state
unfolding drop_unavailable
drop_unavailable-Good ids cart g = ground (
  arith,
  retain_available_products-All cart.state.quantities
      (λ (id : String). includes (keys cart.state.quantities) id && not (includes ids id)) g.0,
)

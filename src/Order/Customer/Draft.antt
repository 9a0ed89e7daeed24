-- ===== src/Order/Customer/Draft.antt =====
-- order/customer/useCustomerCart.ts: `savedAttempt`, `persist` and the effect that loads the draft.
use g_manager.Common.{
  ℕ, String, true, false, ◌&&◌, not, Option, none, some, List, [], ◌∷◌, ◌===◌, leb, if◌then◌else◌,
  Dict, insert, remove, includes, is_empty,
}
use g_manager.Common.Json.{
  JsNumber, finite, from_ℕ, is_integer, is_below, is_at_most, is_negative, to_ℕ, Value, undefined,
  null, number, text, array, object, Items, nil, cons, Fields, end, field, text_length,
  is_truthy_text,
}
use g_manager.Api.Idempotency.{new, begin}
use g_manager.Order.Types.{OrderLine}
use g_manager.Order.Cart.{normalize_cart_quantities}
use g_manager.Order.Customer.{
  Attempt, CartState, CustomerCart, Context, current_actor, is_user, not_loaded, attempt_waiting,
}

-- `value[key]`
abbrev pub field_of : String → Fields → Value
field_of k end = undefined
field_of k (field j v fs) = if j === k then v else field_of k fs

abbrev pub property : String → Value → Value
property k (object fs) = field_of k fs
property k _ = undefined

-- A product id that is a text and not empty, and a whole quantity from 1 to 999. What else an item
-- holds is not read.
unfoldable pub read_line : Value → Value → Option OrderLine
read_line (text id) (number q) =
    if is_truthy_text id && (is_integer q && (not (is_below 1 q) && is_at_most 999 q))
    then some (record { product_id = id; quantity = to_ℕ q })
    else none
read_line _ _ = none

-- The loop over the items, with the ids seen so far.
unfoldable pub read_lines : List String → Items → Option (List OrderLine)
read_lines ids nil = some []
read_lines ids (cons item more) =
    elim (read_line (property "productId" item) (property "quantity" item)) [
      | none ↦ none
      | some line ↦
          if includes ids line.product_id
          then none
          else elim (read_lines (line.product_id ∷ ids) more) [
            | none ↦ none
            | some lines ↦ some (line ∷ lines)
          ]
    ]

-- A total that is a finite number and not negative, as a count of thousandths.
unfoldable pub read_total : JsNumber → Option ℕ
read_total (finite s m) = if is_negative (finite s m) then none else some m
read_total _ = none

unfoldable pub read_attempt : Value → Value → Value → Option Attempt
unfolding read_lines read_line read_total
read_attempt (text key) (array (cons item more)) (number total) =
    if is_truthy_text key && leb (text_length key) 255
    then elim (read_total total) [
      | none ↦ none
      | some t ↦ elim (read_lines [] (cons item more)) [
        | none ↦ none
        | some lines ↦ some (record { key = key; lines = lines; estimated_total = t })
      ]
    ]
    else none
read_attempt _ _ _ = none

unfoldable pub saved_attempt : Value → Option Attempt
unfolding read_attempt
saved_attempt value =
    read_attempt (property "key" value) (property "items" value) (property "estimatedTotal" value)

abbrev pub line_value : OrderLine → Value
line_value line = object (
    field "productId" (text line.product_id) (field "quantity" (number (from_ℕ line.quantity)) end))

abbrev pub line_values : List OrderLine → Items
line_values [] = nil
line_values (line ∷ lines) = cons (line_value line) (line_values lines)

abbrev pub attempt_value : Attempt → Value
attempt_value a = object (
    field "key" (text a.key) (
      field "items" (array (line_values a.lines))
        (field "estimatedTotal" (number (finite false a.estimated_total)) end)))

abbrev pub quantity_fields : Dict ℕ → Fields → Fields
quantity_fields [] more = more
quantity_fields ((id, n) ∷ rest) more = field id (number (from_ℕ n)) (quantity_fields rest more)

-- `{ ...quantities, ...(attempt ? { __attempt: attempt } : {}) }`
unfoldable pub draft_value : CartState → Value
draft_value s = elim s.attempt [
  | none ↦ object (quantity_fields s.quantities end)
  | some a ↦
      object (
        quantity_fields (remove "__attempt" s.quantities) (field "__attempt" (attempt_value a) end))
]

-- A write of the draft that goes through: what is stored for the user afterwards, where `none` is no
-- draft.
unfoldable pub persist : Context → CartState → Option Value → Option Value
unfolding draft_value
persist c snapshot stored =
    if is_user c.user_id c.user
    then if is_empty snapshot.quantities && (elim snapshot.attempt [ none ↦ true | some _ ↦ false ])
      then none
      else some (draft_value snapshot)
    else stored

-- `attempt.items.forEach(item => { quantities[item.productId] = item.quantity })`
abbrev pub insert_lines : List OrderLine → Dict ℕ → Dict ℕ
insert_lines [] q = q
insert_lines (line ∷ lines) q = insert_lines lines (insert line.product_id line.quantity q)

abbrev pub stored_value : Option Value → Value
stored_value none = null
stored_value (some v) = v

-- The effect's success: `stored` is what loadDraft gave. A manager made for the stored key answers it
-- at once.
unfoldable pub restored : Context → Option Value → CustomerCart → CustomerCart
unfolding saved_attempt begin
restored c stored cart =
    let quantities = normalize_cart_quantities (stored_value stored) in
    let found = saved_attempt (property "__attempt" (stored_value stored)) in
    if current_actor c
    then elim found [
      | none ↦ record cart {
        state = record { ready = true; quantities = quantities; attempt = none };
      }
      | some a ↦ record cart {
        create_attempt = (begin (new (some a.key)) a.key).0;
        notice = attempt_waiting;
        state = record {
          ready = true;
          quantities = insert_lines a.lines quantities;
          attempt = some a;
        };
      }
    ]
    else cart

-- The effect's failure.
unfoldable pub restore_failed : Context → CustomerCart → CustomerCart
restore_failed c cart = if current_actor c then record cart { warning = not_loaded } else cart

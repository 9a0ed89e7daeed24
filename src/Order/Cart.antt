-- ===== src/Order/Cart.antt =====
-- order/cart.ts: quantities by product, and the lines and total that they make.
pub mod Laws
use g_manager.Common.{
  ℕ, zero, suc, ◌+◌, ◌*◌, String, Bool, true, false, ◌&&◌, ◌||◌, not, Option, none, some, List, [],
  ◌∷◌, map, Dict, lookup, insert, ltb, if◌then◌else◌, filter, includes,
}
use g_manager.Common.Json.{
  JsNumber, nan, trunc, is_above, is_at_most, to_ℕ, Value, number, object, Fields, end, field,
  is_truthy_text,
}
use g_manager.Order.Types.{CatalogItem}

pub record CartLine : Type 0 where
  pub product : CatalogItem
  pub quantity : ℕ

-- `typeof quantity === 'number' ? Math.trunc(quantity) : Number.NaN`
abbrev pub normalized : Value → JsNumber
normalized (number x) = trunc x
normalized _ = nan

-- The test of one entry.
unfoldable pub is_kept : String → Value → Bool
is_kept id v = is_truthy_text id && (is_above 0 (normalized v) && is_at_most 999 (normalized v))

-- The entries of an object have different keys, so `Object.fromEntries` keeps them all.
unfoldable pub normalize_entries : Fields → Dict ℕ
normalize_entries end = []
normalize_entries (field id v fs) =
    let rest = normalize_entries fs in
    if is_kept id v then (id, to_ℕ (normalized v)) ∷ rest else rest

unfoldable pub normalize_cart_quantities : Value → Dict ℕ
unfolding normalize_entries is_kept
normalize_cart_quantities (object fs) = normalize_entries fs
normalize_cart_quantities _ = []

unfoldable pub retain_available_products : Dict ℕ → (String → Bool) → Dict ℕ
retain_available_products [] has = []
retain_available_products ((id, n) ∷ rest) has =
    let kept = retain_available_products rest has in if has id then (id, n) ∷ kept else kept

-- `quantities[id] ?? 0`
abbrev pub quantity_of : Dict ℕ → String → ℕ
quantity_of quantities id = elim (lookup id quantities) [ none ↦ 0 | some n ↦ n ]

unfoldable pub build_cart : List CatalogItem → Dict ℕ → List CartLine
build_cart products quantities =
    map (λ p. record { product = p; quantity = quantity_of quantities p.id })
      (filter (λ p. ltb 0 (quantity_of quantities p.id)) products)

-- The `reduce` of the total, from the sum so far.
unfoldable pub total_from : ℕ → List CartLine → ℕ
total_from total [] = total
total_from total (item ∷ cart) = total_from (total + item.product.price * item.quantity) cart

unfoldable pub calculate_estimated_total : List CartLine → ℕ
unfolding total_from
calculate_estimated_total cart = total_from 0 cart

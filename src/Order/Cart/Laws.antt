-- ===== src/Order/Cart/Laws.antt =====
-- What a cart holds after it is read back, and the lines that it makes.
use g_manager.Common.{
  ℕ, ◌+◌, ◌*◌, ◌≤◌, ◌<◌, String, Bool, true, none, some, List, [], ◌∷◌, ◌≡◌, ap, arith, Dict,
  lookup, ltb, if◌then◌else◌, All, Bool-cases, inl, inr, eq_iff,
}
use g_manager.Common.Json.{Value, object, Fields, end, field, is_truthy_text}
use g_manager.Order.Types.{CatalogItem}
use g_manager.Order.Cart.{
  is_kept, normalize_entries, normalize_cart_quantities, retain_available_products, quantity_of,
  build_cart, total_from, calculate_estimated_total,
}

-- A quantity that the program accepts: a product id that is not empty, and 1 to 999 pieces.
abbrev pub IsQuantity : String × ℕ → Type 0
IsQuantity (id, n) = (is_truthy_text id ≡ true) × (0 < n) × (n ≤ 999)

normalize_entries-All : (fs : Fields) → All IsQuantity (normalize_entries fs)
unfolding normalize_entries is_kept
normalize_entries-All end = tt
normalize_entries-All (field id v fs) = ground (arith, normalize_entries-All fs)

-- Whatever the stored value, every quantity that is read from it belongs to a product id that is not
-- empty and lies between 1 and 999.
pub normalize_cart_quantities-All : (v : Value) → All IsQuantity (normalize_cart_quantities v)
unfolding normalize_cart_quantities
normalize_cart_quantities-All (object fs) = normalize_entries-All fs
normalize_cart_quantities-All _ = tt

retain-All :
    (P : String × ℕ → Type 0) (q : Dict ℕ) (has : String → Bool)
    → All P q
    → All P (retain_available_products q has)
unfolding retain_available_products
retain-All P [] has h = tt
retain-All P ((id, n) ∷ q) has h = ground (arith, retain-All P q has h.1)

pub retain_available_products-All :
    (q : Dict ℕ) (has : String → Bool)
    → All IsQuantity q
    → All IsQuantity (retain_available_products q has)
retain_available_products-All q has h = retain-All IsQuantity q has h

-- Retaining products keeps the quantity of every product that is available, and removes all others.
lookup-retain_available_products :
    (q : Dict ℕ) (has : String → Bool) (id : String)
    → lookup id (retain_available_products q has) ≡ (if has id then lookup id q else none)
unfolding retain_available_products lookup
lookup-retain_available_products [] has id = ground arith
lookup-retain_available_products ((j, n) ∷ q) has id =
    ground (arith, eq_iff j id, lookup-retain_available_products q has id)

-- The sum of price times quantity over the catalog, for a product that is not in the cart 0.
abbrev pub worth : List CatalogItem → Dict ℕ → ℕ
worth [] q = 0
worth (p ∷ ps) q = p.price * quantity_of q p.id + worth ps q

total_from-build_cart :
    (total : ℕ) (products : List CatalogItem) (q : Dict ℕ)
    → total_from total (build_cart products q) ≡ total + worth products q
unfolding total_from build_cart
total_from-build_cart total [] q = omega arith
total_from-build_cart total (p ∷ ps) q = elim (Bool-cases (ltb 0 (quantity_of q p.id))) [
  | inl more ↦
      rw more (omega (arith, total_from-build_cart (total + p.price * quantity_of q p.id) ps q))
  | inr zero_left ↦
      let none_left : quantity_of q p.id ≡ 0 = ground arith in
      rw zero_left
        (omega (arith, total_from-build_cart total ps q, ap (λ (n : ℕ). p.price * n) none_left))
]

-- The estimated total of the cart that is built is the sum over all products of price times chosen
-- quantity.
calculate_estimated_total-build_cart :
    (products : List CatalogItem) (q : Dict ℕ)
    → calculate_estimated_total (build_cart products q) ≡ worth products q
unfolding calculate_estimated_total
calculate_estimated_total-build_cart products q = omega (arith, total_from-build_cart 0 products q)

-- Every line of a built cart has a positive quantity, which is the one chosen for its product.
pub build_cart-All :
    (products : List CatalogItem) (q : Dict ℕ)
    → All
        (λ line. (0 < line.quantity) × (lookup line.product.id q ≡ some line.quantity))
        (build_cart products q)
unfolding build_cart
build_cart-All [] q = tt
build_cart-All (p ∷ ps) q = ground (arith, build_cart-All ps q)

-- ===== src/Order/Customer/Laws/RoundTrip.antt =====
-- The stored draft of a cart, read back.
use g_manager.Common.{
  ℕ, ◌≤◌, String, true, false, Option, none, some, List, [], ◌∷◌, ◌≡◌, ◌≢◌, ◌⊎◌, refl, ap, ◌∙◌,
  arith, Dict, lookup, insert, remove, All, includes, inl, inr, Option-cases, eq_iff,
}
use g_manager.Common.Json.{
  Value, number, text, from_ℕ, Fields, end, field, is_truthy_text, text_length,
}
use g_manager.Order.Types.{OrderLine}
use g_manager.Order.Cart.{is_kept, normalize_entries, normalize_cart_quantities}
use g_manager.Order.Cart.Laws.{IsQuantity}
use g_manager.Order.Customer.{Attempt, CartState, CustomerCart, Context, current_actor}
use g_manager.Order.Customer.Draft.{
  field_of, property, read_line, read_lines, read_total, read_attempt, saved_attempt, line_values,
  attempt_value, quantity_fields, draft_value, persist, insert_lines, restored,
}
use g_manager.Order.Customer.Laws.Quantities.{IsLine}

is_kept-from_ℕ : (id : String) (n : ℕ) → IsQuantity (id, n) → is_kept id (number (from_ℕ n)) ≡ true
unfolding is_kept
is_kept-from_ℕ id n h = ground arith

normalize_entries-quantity_fields :
    (q : Dict ℕ) (more : Fields)
    → All IsQuantity q
    → normalize_entries more ≡ []
    → normalize_entries (quantity_fields q more) ≡ q
unfolding normalize_entries
normalize_entries-quantity_fields [] more h e = e
normalize_entries-quantity_fields ((id, n) ∷ q) more h e =
    rw (is_kept-from_ℕ id n h.0) (ground (arith, normalize_entries-quantity_fields q more h.1 e))

remove_absent : (k : String) (q : Dict ℕ) → lookup k q ≡ none → remove k q ≡ q
unfolding lookup remove
remove_absent k [] h = refl
remove_absent k ((j, n) ∷ q) h = ground (arith, remove_absent k q)

field_of-quantity_fields :
    (k : String) (q : Dict ℕ) (more : Fields)
    → lookup k q ≡ none
    → field_of k (quantity_fields q more) ≡ field_of k more
unfolding lookup
field_of-quantity_fields k [] more h = refl
field_of-quantity_fields k ((j, n) ∷ q) more h = ground (arith, field_of-quantity_fields k q more)

insert_same : (k : String) (n : ℕ) (q : Dict ℕ) → lookup k q ≡ some n → insert k n q ≡ q
unfolding lookup insert
insert_same k n [] h = ground arith
insert_same k n ((j, m) ∷ q) h = ground (arith, eq_iff j k, insert_same k n q)

-- Every line asks for the quantity that the cart has of its product.
abbrev pub Agrees : Dict ℕ → List OrderLine → Type 0
Agrees q lines = All (λ l. lookup l.product_id q ≡ some l.quantity) lines

insert_lines_same :
    (lines : List OrderLine) (q : Dict ℕ) → Agrees q lines → insert_lines lines q ≡ q
insert_lines_same [] q h = refl
insert_lines_same (l ∷ lines) q h =
    ap (insert_lines lines) (insert_same l.product_id l.quantity q h.0)
    ∙ insert_lines_same lines q h.1

-- No line names a product of `ids`, nor one of an earlier line.
abbrev pub AreDistinct : List String → List OrderLine → Type 0
AreDistinct ids [] = Unit
AreDistinct ids (l ∷ lines) =
    (includes ids l.product_id ≡ false) × AreDistinct (l.product_id ∷ ids) lines

read_line-line_value :
    (l : OrderLine) → IsLine l → read_line (text l.product_id) (number (from_ℕ l.quantity)) ≡ some l
unfolding read_line
read_line-line_value l h = ground arith

read_lines-line_values :
    (ids : List String) (lines : List OrderLine)
    → All IsLine lines
    → AreDistinct ids lines
    → read_lines ids (line_values lines) ≡ some lines
unfolding read_lines
read_lines-line_values ids [] h d = refl
read_lines-line_values ids (l ∷ lines) h d =
    ground
      (arith, read_line-line_value l h.0, read_lines-line_values (l.product_id ∷ ids) lines h.1 d.1)

-- An attempt as `send` makes it: a key of 1 to 255 units, and at least one line, each of another
-- product.
pub record IsAttempt (a : Attempt) : Type 0 where
  pub keyed : is_truthy_text a.key ≡ true
  pub short : text_length a.key ≤ 255
  pub filled : a.lines ≢ []
  pub lines : All IsLine a.lines
  pub distinct : AreDistinct [] a.lines

saved_attempt-fields :
    (key : String) (lines : List OrderLine) (total : ℕ)
    → IsAttempt (record { key = key; lines = lines; estimated_total = total })
    → saved_attempt (attempt_value (record { key = key; lines = lines; estimated_total = total }))
      ≡ some (record { key = key; lines = lines; estimated_total = total })
unfolding saved_attempt read_attempt read_total
saved_attempt-fields key [] total h = absurd (h.filled refl)
saved_attempt-fields key (l ∷ ls) total h =
    rw (h.keyed, read_lines-line_values [] (l ∷ ls) h.lines h.distinct) (ground arith)

saved_attempt-attempt_value : (a : Attempt) → IsAttempt a → saved_attempt (attempt_value a) ≡ some a
saved_attempt-attempt_value a h = saved_attempt-fields a.key a.lines a.estimated_total h

-- What is asked of a cart that is stored: its quantities are valid, none is for a product called
-- "__attempt", and an open attempt asks for what the cart holds.
pub record IsStorable (s : CartState) : Type 0 where
  pub ready : s.ready ≡ true
  pub quantities : All IsQuantity s.quantities
  pub free : lookup "__attempt" s.quantities ≡ none
  pub attempt : (a : Attempt) → s.attempt ≡ some a → IsAttempt a × Agrees s.quantities a.lines

draft-attempt :
    (s : CartState) (o : Option Attempt)
    → s.attempt ≡ o
    → IsStorable s
    → saved_attempt (property "__attempt" (draft_value s)) ≡ o
draft-attempt s none e v =
    unfold draft_value saved_attempt read_attempt in
    rw (e, field_of-quantity_fields "__attempt" s.quantities end v.free)
draft-attempt s (some a) e v =
    unfold draft_value in
    rw
      (
        e,
        remove_absent "__attempt" s.quantities v.free,
        field_of-quantity_fields "__attempt" s.quantities (field "__attempt" (attempt_value a) end)
            v.free,
      )
      (saved_attempt-attempt_value a (v.attempt a e).0)

draft-quantities :
    (s : CartState) (o : Option Attempt)
    → s.attempt ≡ o
    → IsStorable s
    → normalize_cart_quantities (draft_value s) ≡ s.quantities
unfolding draft_value normalize_cart_quantities
draft-quantities s none e v =
    rw (e, draft_value) (normalize_entries-quantity_fields s.quantities end v.quantities refl)
draft-quantities s (some a) e v =
    rw (e, draft_value, remove_absent "__attempt" s.quantities v.free)
      (normalize_entries-quantity_fields s.quantities (field "__attempt" (attempt_value a) end)
        v.quantities (unfold normalize_entries is_kept in refl))

restored-draft_value :
    (c : Context) (s : CartState) (cart : CustomerCart)
    → current_actor c ≡ true
    → IsStorable s
    → (restored c (some (draft_value s)) cart).state ≡ s
unfolding restored
restored-draft_value c s cart h v = elim (Option-cases s.attempt) [
  | inl e ↦ ground (arith, draft-attempt s none e v, draft-quantities s none e v, v.ready, h)
  | inr (a, e) ↦ ground (
    arith,
    draft-attempt s (some a) e v,
    draft-quantities s (some a) e v,
    insert_lines_same a.lines s.quantities (v.attempt a e).1,
  )
]

restored-none :
    (c : Context) (cart : CustomerCart)
    → current_actor c ≡ true
    → (restored c none cart).state ≡ record { ready = true; quantities = []; attempt = none }
unfolding restored saved_attempt read_attempt normalize_cart_quantities
restored-none c cart h = ground arith

persist-cases :
    (c : Context) (s : CartState) (old : Option Value)
    → current_actor c ≡ true
    → ((persist c s old ≡ none) × (s.quantities ≡ []) × (s.attempt ≡ none))
      ⊎ (persist c s old ≡ some (draft_value s))
unfolding persist
persist-cases c s old h = ground arith

-- Loading what `persist` stored of a cart, in the session of its customer, gives the cart back: the
-- same quantities and the same open attempt, whatever was stored before. An empty cart leaves no draft
-- and comes back empty.
pub restored-persist :
    (c : Context) (s : CartState) (old : Option Value) (cart : CustomerCart)
    → current_actor c ≡ true
    → IsStorable s
    → (restored c (persist c s old) cart).state ≡ s
restored-persist c s old cart h v = elim (persist-cases c s old h) [
  | inl (gone, empty, closed) ↦ rw gone (restored-none c cart h ∙ ground (arith, v.ready))
  | inr kept ↦ rw kept (restored-draft_value c s cart h v)
]

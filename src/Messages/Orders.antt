-- ===== src/Messages/Orders.antt =====
-- `orderErrorMessage` of order/orderPresentation.model.ts.
use g_manager.Common.{String, none, some, [], ◌∷◌, Dict, if◌then◌else◌}
use Prim.Native.String.{◌++◌}
use g_manager.Api.Http.{Cause, failure}
use g_manager.Api.Client.{given}
use g_manager.Api.Idempotency.{is_conflict_response}
use g_manager.Api.Errors.{api_error_message}
use g_manager.Messages.Chain.{replace_each}

abbrev pub order_messages : Dict String
order_messages =
    ("Order was changed; refresh and try again", "Narudžbina je u međuvremenu promenjena.")
    ∷ ("Invalid order status transition", "Ova promena statusa više nije dostupna.")
    ∷ ("This order action is not permitted", "Nemate dozvolu za ovu akciju nad narudžbinom.")
    ∷ ("Order not found", "Narudžbina nije pronađena.")
    ∷ ("Catalog item not found", "Proizvod nije dostupan u katalogu.")
    ∷ ("Only products can be added to an order", "Narudžbina može sadržati samo proizvode.")
    ∷ (
      "Each product may appear only once per order",
      "Proizvod može biti naveden samo jednom u narudžbini.",
    )
    ∷ ("Only customers can create orders", "Naručivanje je dostupno samo kupcima.")
    ∷ ("Customer access is required", "Pregled je dostupan samo kupcima.")
    ∷ ("Order management is not permitted", "Nemate dozvolu za pregled narudžbina.")
    ∷ ("Access is denied", "Nemate dozvolu za ovu akciju.")
    ∷ ("Authentication is required", "Potrebno je da se ponovo prijavite.")
    ∷ []

abbrev own_message : Cause → (fallback : String) → String
own_message (failure message) fallback = elim (given (some message)) [
  | none ↦ fallback
  | some m ↦ m
]
own_message cause fallback = api_error_message cause fallback

unfoldable pub order_error_message : Cause → (fallback : String) → String
unfolding api_error_message replace_each is_conflict_response
order_error_message cause fallback =
    let message = replace_each order_messages (own_message cause fallback) in
    if is_conflict_response cause
    then message ++ " Zatvorite potvrdu i ponovo izaberite akciju nad osveženim podacima."
    else message

-- ===== src/Messages/Waitlist.antt =====
-- `waitlistError` of waitlist/waitlistPresentation.model.ts.
use g_manager.Common.{String, Option, none, some, [], ◌∷◌, Dict, lookup, if◌then◌else◌}
use g_manager.Api.Http.{Cause, failure, status_is}
use g_manager.Api.Errors.{api_error_message, api_error_details, with_request_id}

abbrev pub translations : Dict String
translations =
    (
      "Slot is available and can be reserved directly",
      "Izabrani termin je slobodan. Možete napraviti direktnu rezervaciju.",
    )
    ∷ ("An active waitlist entry already exists", "Klijent već ima aktivnu prijavu za ovaj termin.")
    ∷ ("Waitlist entry not found", "Prijava nije pronađena ili više nije u vašem opsegu.")
    ∷ ("Customer is not available for booking", "Izaberite aktivan nalog klijenta.")
    ∷ ("Selected user is not an active employee", "Izabrani zaposleni nije aktivan.")
    ∷ ("Waitlist time must be in the future", "Željeni termin mora biti u budućnosti.")
    ∷ (
      "Waitlist management is outside your assigned scope",
      "Prijava je van vašeg dodeljenog opsega.",
    )
    ∷ ("Station management is not permitted", "Nemate pristup izabranom resursu.")
    ∷ ("Resource does not support the selected service", "Resurs ne podržava izabranu uslugu.")
    ∷ ("Resource does not belong to the selected location", "Resurs ne pripada izabranom lokalu.")
    ∷ ("Resource does not belong to the selected area", "Resurs ne pripada izabranoj zoni.")
    ∷ ("Area does not belong to the selected location", "Zona ne pripada izabranom lokalu.")
    ∷ ("Reservation is outside working hours", "Ceo termin mora biti unutar radnog vremena.")
    ∷ ("Employee is on approved time off", "Zaposleni je odsutan u izabranom terminu.")
    ∷ ("No compatible bookable resource", "Nema odgovarajućeg resursa za izabranu uslugu.")
    ∷ (
      "Resource or location is inactive or not bookable",
      "Resurs ili lokal nije aktivan ili dostupan za rezervisanje.",
    )
    ∷ ("Area is inactive", "Izabrana zona nije aktivna.")
    ∷ ("Location is inactive", "Izabrani lokal nije aktivan.")
    ∷ ("Catalog item is not a service", "Izaberite uslugu.")
    ∷ ("Catalog item not found", "Usluga nije dostupna.")
    ∷ []

unfoldable pub waitlist_error : Cause → (fallback : String) → String
unfolding lookup api_error_message
waitlist_error (failure message) fallback = message
waitlist_error cause fallback =
    let shown = api_error_message cause fallback in
    let message : String = elim (api_error_details cause) [
      | none ↦ shown
      | some r ↦ elim r.message [ none ↦ shown | some m ↦ m ]
    ] in
    let request_id : Option String = elim (api_error_details cause) [
      | none ↦ none
      | some r ↦ r.request_id
    ] in
    elim (lookup message translations) [
      | some translation ↦ with_request_id request_id translation
      | none ↦
          if status_is 409 cause
          then with_request_id request_id
              "Podaci su promenjeni ili akcija više nije dozvoljena. Osvežite prijavu i pokušajte ponovo."
          else shown
    ]

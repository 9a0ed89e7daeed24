-- ===== src/Messages/Booking.antt =====
-- reservations/bookingConflictReason.ts, and the error text of
-- reservations/customer/customerPresentation.model.ts.
use g_manager.Common.{String, Option, none, some, [], ◌∷◌, Dict, lookup, replace}
use g_manager.Api.Http.{Cause}
use g_manager.Api.Client.{given}
use g_manager.Api.Errors.{api_error_message, details_message, translated_or}
use g_manager.Messages.Chain.{replace_each}

abbrev pub conflict_reasons : Dict String
conflict_reasons =
    ("No active employee is available", "Nema aktivnog zaposlenog dostupnog za rezervaciju.")
    ∷ ("Area is inactive", "Izabrana zona nije aktivna.")
    ∷ ("Area does not belong to the selected location", "Zona ne pripada izabranom lokalu.")
    ∷ ("Resource does not belong to the selected area", "Resurs ne pripada izabranoj zoni.")
    ∷ ("Resource does not belong to the selected location", "Resurs ne pripada izabranom lokalu.")
    ∷ (
      "Resource does not support the selected service",
      "Resurs nije kompatibilan sa izabranom uslugom.",
    )
    ∷ (
      "This service has a fixed reservation duration",
      "Izabrana usluga ima fiksno trajanje rezervacije.",
    )
    ∷ (
      "Reservation duration is outside the permitted range",
      "Trajanje nije u dozvoljenom opsegu. Proverite granice prikazane uz interval.",
    )
    ∷ (
      "Service has no valid reservation duration",
      "Usluga nema podešeno validno trajanje. Obratite se administratoru.",
    )
    ∷ (
      "Customer is not available for booking",
      "Klijent je deaktiviran ili više nije dostupan za rezervisanje.",
    )
    ∷ ("Reservation must be in the future", "Rezervacija mora početi u budućnosti.")
    ∷ ("Selected user is not an active employee", "Izabrani zaposleni više nije aktivan.")
    ∷ (
      "Selected resource is not bookable for this service",
      "Izabrani resurs trenutno nije dostupan za ovu uslugu.",
    )
    ∷ ("Station management is not permitted", "Nemate pravo upravljanja izabranim resursom.")
    ∷ (
      "Recurring reservation contains unavailable occurrences",
      "Neki termini serije nisu dostupni. Proverite pregled ponavljanja.",
    )
    ∷ (
      "No recurring occurrence could be reserved", "Nijedan termin serije nije moguće rezervisati.",
    )
    ∷ (
      "Reservation date does not match its start time",
      "Datum rezervacije ne odgovara izabranom početku.",
    )
    ∷ ("Resource interval is invalid", "Vremenski interval resursa nije validan.")
    ∷ ("Staff access is required", "Ova radnja je dostupna osoblju.")
    ∷ ("Employee is on approved time off", "Zaposleni nije dostupan zbog odobrenog odsustva.")
    ∷ (
      "Reservation is outside working hours",
      "Termin je van radnog vremena ili usluga traje posle zatvaranja.",
    )
    ∷ ("Service duration exceeds working hours", "Usluga traje posle zatvaranja.")
    ∷ ("Employee has a reservation at this time", "Zaposleni ima rezervaciju u ovom terminu.")
    ∷ ("Resource has a reservation at this time", "Resurs je zauzet rezervacijom.")
    ∷ ("Resource has an active gaming session", "Resurs je zauzet aktivnom gaming sesijom.")
    ∷ (
      "Resource or location is inactive or not bookable",
      "Resurs ili lokacija trenutno nisu dostupni za rezervisanje.",
    )
    ∷ ("Station is unavailable for booking", "Stanica trenutno nije dostupna za rezervisanje.")
    ∷ ("Location is inactive", "Lokacija nije aktivna.")
    ∷ ("Slot must be in the future", "Termin je već počeo.")
    ∷ ("Occurrence must be in the future", "Termin je već počeo.")
    ∷ ("No compatible bookable resource", "Nema kompatibilnog resursa za ovu uslugu.")
    ∷ ("No compatible resource is available at this time", "Nema slobodnog kompatibilnog resursa.")
    ∷ ("Employee is unavailable at this time", "Zaposleni više nije dostupan u ovom terminu.")
    ∷ ("Resource is unavailable at this time", "Resurs više nije dostupan u ovom terminu.")
    ∷ []

unfoldable pub booking_conflict_reason : Option String → String
unfolding lookup
booking_conflict_reason reason = elim (given reason) [
  | none ↦ "Termin više nije dostupan."
  | some r ↦ translated_or conflict_reasons r r
]

unfoldable pub reservation_api_error_message : Cause → (fallback : String) → String
unfolding booking_conflict_reason replace api_error_message
reservation_api_error_message error fallback =
    let original = api_error_message error fallback in
    elim (details_message error) [
      | none ↦ original
      | some message ↦ replace message (booking_conflict_reason (some message)) original
    ]

abbrev pub customer_messages : Dict String
customer_messages =
    ("Reservation not found", "Rezervacija nije pronađena.")
    ∷ ("It is too late to cancel this reservation", "Rok za otkazivanje ovog termina je istekao.")
    ∷ ("Invalid reservation status transition", "Status rezervacije se promenio. Osvežite pregled.")
    ∷ (
      "A reason is required to reject or cancel a reservation",
      "Unesite razlog otkazivanja rezervacije.",
    )
    ∷ (
      "Reservation was modified by another request",
      "Rezervacija je u međuvremenu promenjena. Osvežite podatke.",
    )
    ∷ ("Customer access is required", "Ovaj pregled je dostupan prijavljenom klijentu.")
    ∷ (
      "Reservation duration is outside the permitted range",
      "Trajanje rezervacije je izvan dozvoljenog raspona.",
    )
    ∷ (
      "This service has a fixed reservation duration",
      "Ova usluga ima fiksno trajanje rezervacije.",
    )
    ∷ []

unfoldable pub customer_reservation_error : Cause → (fallback : String) → String
unfolding reservation_api_error_message replace_each
customer_reservation_error cause fallback =
    replace_each customer_messages (reservation_api_error_message cause fallback)

-- ===== src/Messages/Settings.antt =====
-- `settingsError` of settings/settingsPresentation.model.ts.
use g_manager.Common.{String, Option, none, some, [], ◌∷◌, Dict, lookup}
use g_manager.Api.Http.{Cause, failure}
use g_manager.Api.Errors.{api_error_message, api_error_details, details_message, with_request_id}

abbrev pub translated : Dict String
translated =
    (
      "Resource was changed; refresh and try again",
      "Podaci su promenjeni u međuvremenu. Osvežite ih i ponovo unesite izmene.",
    )
    ∷ (
      "Working hours cannot have zero duration",
      "Vreme otvaranja i zatvaranja ne sme biti identično.",
    )
    ∷ (
      "Exception date must be in the future",
      "Datum izuzetka mora biti posle današnjeg datuma u zoni Europe/Belgrade.",
    )
    ∷ ("An exception already exists for this date", "Za ovaj datum već postoji izuzetak.")
    ∷ ("Working hours exception not found", "Izuzetak više nije dostupan. Osvežite pregled.")
    ∷ (
      "Closed days cannot define override hours", "Zatvoren dan ne može imati posebno radno vreme.",
    )
    ∷ ("Both override times are required", "Unesite vreme otvaranja i zatvaranja.")
    ∷ ("Working hours management is not permitted", "Nemate dozvolu za upravljanje podešavanjima.")
    ∷ ("Employee not found", "Izabrani zaposleni nije dostupan.")
    ∷ ("Selected user is not an active employee", "Izaberite aktivnog zaposlenog.")
    ∷ ("Time-off end must be after start", "Kraj odsustva mora biti posle početka.")
    ∷ (
      "Employee time off overlaps an existing request",
      "Odsustvo se preklapa sa postojećim zahtevom ovog zaposlenog.",
    )
    ∷ ("Past time off cannot be approved", "Odsustvo koje je završeno ne može biti odobreno.")
    ∷ (
      "Time-off transition is not allowed",
      "Status je promenjen ili ova akcija više nije dozvoljena.",
    )
    ∷ ("Unsupported time-off transition", "Izabrana promena statusa nije dozvoljena.")
    ∷ ("Time off not found", "Odsustvo više nije dostupno. Osvežite pregled.")
    ∷ []

unfoldable pub settings_error : Cause → (fallback : String) → String
unfolding lookup api_error_message
settings_error (failure message) fallback = message
settings_error cause fallback =
    let text : Option String = elim (details_message cause) [
      | none ↦ none
      | some m ↦ lookup m translated
    ] in
    let request_id : Option String = elim (api_error_details cause) [
      | none ↦ none
      | some r ↦ r.request_id
    ] in
    elim text [ none ↦ api_error_message cause fallback | some t ↦ with_request_id request_id t ]

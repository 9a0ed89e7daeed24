-- ===== src/Messages/Station.antt =====
-- `stationError` of stations/stationPresentation.model.ts.
use g_manager.Common.{String, [], ◌∷◌, Dict}
use g_manager.Api.Http.{Cause}
use g_manager.Api.Errors.{api_error_message}
use g_manager.Messages.Chain.{replace_each}

abbrev pub station_messages : Dict String
station_messages =
    (
      "Configuration was changed; refresh and try again",
      "Konfiguracija je u međuvremenu promenjena. Ponovo otvorite podešavanja nakon osvežavanja.",
    )
    ∷ ("Application is used by a profile", "Aplikacija je deo profila i ne može biti obrisana.")
    ∷ (
      "Application profile is assigned to a station",
      "Profil je dodeljen stanici i ne može biti obrisan.",
    )
    ∷ ("Application profile code is already in use", "Kod profila je već zauzet.")
    ∷ ("Application code is already in use", "Kod aplikacije je već zauzet.")
    ∷ (
      "A retired station cannot be reactivated",
      "Stanica van upotrebe ne može ponovo biti aktivirana.",
    )
    ∷ (
      "A client-enabled station requires an active application profile",
      "Uključen Gaming Client zahteva aktivan profil aplikacija.",
    )
    ∷ (
      "Executable path must be an absolute Windows .exe path",
      "Unesite apsolutnu Windows putanju do .exe datoteke.",
    )
    ∷ (
      "Publisher or executable SHA-256 is required",
      "Potreban je izdavač, sertifikat ili SHA-256 izvršne datoteke.",
    )
    ∷ (
      "Application profile must include at least one game",
      "Profil mora sadržati najmanje jednu igru.",
    )
    ∷ (
      "Profile references an unavailable application",
      "Profil sadrži neaktivnu ili nedostupnu aplikaciju.",
    )
    ∷ (
      "Every launcher must share a dependency group with an explicitly allowed game",
      "Svaki pokretač mora deliti grupu zavisnosti sa dozvoljenom igrom.",
    )
    ∷ (
      "Application arguments must be a single command-line value",
      "Argumenti moraju biti u jednom redu.",
    )
    ∷ ("Application profile contains duplicate entries", "Profil sadrži duplirane aplikacije.")
    ∷ ("Application profile is inactive", "Profil aplikacija nije aktivan.")
    ∷ ("Application profile not found", "Profil aplikacija nije pronađen.")
    ∷ ("Application definition not found", "Aplikacija nije pronađena.")
    ∷ (
      "Gaming Client must be enabled before enrollment",
      "Uključite Gaming Client u podešavanjima stanice pre upisa.",
    )
    ∷ (
      "Station already has a machine identity",
      "Stanica već ima identitet. Za promenu ključa koristite rotaciju.",
    )
    ∷ (
      "Station has no active identity to rotate",
      "Stanica nema aktivan identitet za rotaciju. Ponovo učitajte identitete.",
    )
    ∷ ("Gaming station not found", "Gaming stanica nije pronađena.")
    ∷ (
      "Only a gaming PC can have a station profile",
      "Profil stanice može biti dodeljen samo gaming računaru.",
    )
    ∷ ("Access is denied", "Nemate dozvolu za ovu akciju.")
    ∷ []

unfoldable pub station_error : Cause → (fallback : String) → String
unfolding api_error_message replace_each
station_error cause fallback = replace_each station_messages (api_error_message cause fallback)

-- ===== src/Api/Errors.antt =====
-- api/errorMessage.ts, and what api/client.ts makes of a failed request for the user.
pub mod Laws
mod Tests
use g_manager.Common.{
  ℕ, String, Bool, true, false, ◌&&◌, ◌||◌, Option, none, some, List, [], ◌∷◌, ◌==◌, leb,
  if◌then◌else◌, Dict, lookup,
}
use Prim.Native.String.{◌++◌}
use g_manager.Api.Http.{Response, Cause, http}
use g_manager.Api.Client.{given}

abbrev pub waitlist_messages : Dict String
waitlist_messages =
    ("An active waitlist entry already exists", "Već imate aktivnu prijavu za ovaj termin.")
    ∷ (
      "Slot is available and can be reserved directly",
      "Termin je oslobođen. Možete ga rezervisati direktno.",
    )
    ∷ ("Waitlist offer has expired", "Ponuda je istekla. Rezervacija nije potvrđena.")
    ∷ (
      "Waitlist offer has expired or is no longer active",
      "Ponuda je istekla ili više nije aktivna. Rezervacija nije potvrđena.",
    )
    ∷ (
      "Accepted waitlist entry cannot be cancelled",
      "Prihvaćena prijava ne može se otkazati. Rezervaciju možete zasebno otkazati u Mojim terminima.",
    )
    ∷ (
      "Waitlist entry was changed; refresh and try again",
      "Prijava se promenila. Osvežite listu čekanja i pokušajte ponovo.",
    )
    ∷ []

abbrev pub activation_messages : Dict String
activation_messages =
    (
      "Activation code is invalid or expired",
      "Aktivacioni kod nije važeći ili je istekao. Proverite email i kod ili se obratite osoblju.",
    )
    ∷ []

-- messages[text] ?? other
abbrev pub translated_or : Dict String → String → (other : String) → String
translated_or messages message other = elim (lookup message messages) [
  | none ↦ other
  | some translation ↦ translation
]

abbrev pub status_equals : ℕ → Option ℕ → Bool
status_equals n none = false
status_equals n (some s) = s == n

abbrev pub is_server_failure : Option ℕ → Bool
is_server_failure none = false
is_server_failure (some s) = leb 500 s

-- `(ID zahteva: …)`, if the server gave an id.
abbrev pub with_request_id : Option String → String → String
with_request_id request_id text = elim (given request_id) [
  | none ↦ text
  | some id ↦ text ++ " (ID zahteva: " ++ id ++ ")"
]

unfoldable pub text_for : (status : Option ℕ) (text fallback : String) → String
text_for status text fallback =
    if status_equals 409 status
    then text ++ " Osvežite podatke pre ponovnog pokušaja."
    else if status_equals 429 status
    then "Previše zahteva. Sačekajte i pokušajte ponovo."
    else if status_equals 413 status
    then "Fajl je veći od dozvoljene veličine."
    else if is_server_failure status
    then fallback
    else text

unfoldable pub user_facing_api_error :
    (status : Option ℕ) (message request_id : Option String) (fallback : String) → String
unfolding text_for lookup
user_facing_api_error status message request_id fallback =
    let text : String = elim (given message) [
      | none ↦ fallback
      | some m ↦ translated_or activation_messages m (translated_or waitlist_messages m m)
    ] in
    with_request_id request_id (text_for status text fallback)

unfoldable pub api_error_message : Cause → (fallback : String) → String
unfolding user_facing_api_error
api_error_message (http none) fallback = user_facing_api_error none none none fallback
api_error_message (http (some r)) fallback =
    user_facing_api_error (some r.status) r.message r.request_id fallback
api_error_message _ fallback = fallback

abbrev pub api_error_details : Cause → Option Response
api_error_details (http r) = r
api_error_details _ = none

-- apiErrorDetails(error)?.message
abbrev pub details_message : Cause → Option String
details_message c = elim (api_error_details c) [ none ↦ none | some r ↦ given r.message ]

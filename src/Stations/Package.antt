-- ===== src/Stations/Package.antt =====
-- stations/clientPackageDistribution.ts. `Web` is what the browser does with addresses, letters and
-- digests; the answers of the server are arguments. Bytes are numbers.
pub mod Laws
mod Tests
use g_manager.Common.{
  ℕ, ◌/◌, ◌%◌, String, Bool, true, false, ◌&&◌, ◌||◌, not, Option, none, some, List, [], ◌∷◌, map,
  ◌==◌, ◌===◌, leb, if◌then◌else◌, codes, CodePoints, begins, lower, same_text, split_on, is_digit,
  all, any, is_empty, length, is_some, flat_map, get_or,
}
use g_manager.Api.Sse.{trim}
use g_manager.Booking.Types.{Query}

pub record GamingClientPackage : Type 0 where
  pub status : String
  pub version : String
  pub sha256 : String
  pub signing_subject : Option String
  pub download_url : String

pub record Url : Type 0 where
  pub href : String
  pub origin : String
  pub protocol : String
  pub username : String
  pub password : String

-- `new URL(value, window.location.origin)`, `none` where it throws; toUpperCase; and SHA-256.
pub record Web : Type 0 where
  pub parse_url : CodePoints → Option Url
  pub own_origin : String
  pub to_upper_case : CodePoints → CodePoints
  pub digest : List ℕ → List ℕ

-- `url`, or the message without one.
pub data Configuration : Type 0 where
  configured : Url → Configuration
  refused : (message : String) → Configuration

abbrev unpublished : String
unpublished = "Gaming Client paket još nije objavljen."

-- /^[0-9]+[.][0-9]+(?:[.][0-9]+){0,2}$/
abbrev pub is_version : CodePoints → Bool
is_version s =
    let parts = split_on b'.' s in
    all (λ part. not (is_empty part) && all is_digit part) parts
    && (leb 2 (length parts) && leb (length parts) 4)

-- /^[0-9a-f]{64}$/i
abbrev pub is_sha256 : CodePoints → Bool
is_sha256 s =
    (length s == 64) && all (λ c. is_digit c || (leb b'a' (lower c) && leb (lower c) b'f')) s

abbrev is_signed : Web → Option String → Bool
is_signed w none = false
is_signed w (some subject) =
    let name = trim (codes subject) in
    not (is_empty name) && not (same_text (w.to_upper_case name) (codes "UNPUBLISHED"))

abbrev pub is_address : CodePoints → Bool
is_address value =
    not (is_empty value)
    && ((begins (codes "/") value && not (begins (codes "//") value))
        || begins (codes "https://") (map lower value))

abbrev pub is_foreign : Web → Url → Bool
is_foreign w url = not (url.origin === w.own_origin)

abbrev pub has_credentials : Url → Bool
has_credentials url = not (url.username === "") || not (url.password === "")

abbrev checked_url : Web → Option Url → Configuration
checked_url w none = refused "URL za preuzimanje paketa nije ispravno konfigurisan."
checked_url w (some url) =
    if has_credentials url || (is_foreign w url && not (url.protocol === "https:"))
    then refused "Spoljašnje preuzimanje zahteva ispravan HTTPS URL."
    else configured url

unfoldable pub package_configuration : Web → Option GamingClientPackage → Configuration
package_configuration w none = refused unpublished
package_configuration w (some p) =
    if not (same_text (trim (codes p.status)) (codes "RELEASED"))
    then refused unpublished
    else if not (is_version (trim (codes p.version)))
        || (not (is_sha256 (codes p.sha256)) || not (is_signed w p.signing_subject))
    then refused "Objava paketa nema ispravnu verziju, SHA-256 ili podatak o potpisivanju."
    else if not (is_address (trim (codes p.download_url)))
    then refused "URL za preuzimanje paketa nije ispravno konfigurisan."
    else checked_url w (w.parse_url (trim (codes p.download_url)))

abbrev first_part : List CodePoints → CodePoints
first_part [] = []
first_part (part ∷ parts) = part

unfoldable pub zip_content_type : Option String → Bool
zip_content_type value =
    let text : CodePoints = elim value [ none ↦ [] | some t ↦ codes t ] in
    let kind = map lower (trim (first_part (split_on b';' text))) in
    any (λ known. same_text (codes known) kind)
      ("application/zip" ∷ "application/x-zip-compressed" ∷ "application/octet-stream" ∷ [])

pub record Answer : Type 0 where
  pub status : ℕ
  pub ok : Bool
  pub content_type : Option String
  pub content_length : Option String
  pub body : List ℕ

pub record GamingClientPackageAvailability : Type 0 where
  pub available : Bool
  pub message : String

abbrev is_zero_length : Option String → Bool
is_zero_length o = elim o [ none ↦ false | some t ↦ t === "0" ]

-- The answer to HEAD.
unfoldable pub local_availability : Answer → GamingClientPackageAvailability
unfolding zip_content_type
local_availability a =
    if a.status == 404
    then record { available = false; message = unpublished }
    else if not a.ok
    then record {
      available = false;
      message = "Gaming Client paket trenutno nije dostupan. Pokušajte ponovo.";
    }
    else if not (zip_content_type a.content_type) || is_zero_length a.content_length
    then record {
      available = false;
      message = "Konfigurisana adresa ne vraća ZIP paket. Proverite objavu Gaming Client-a.";
    }
    else record { available = true; message = "" }

-- How a download ends: an error with its message, a request that fails, an abortion, or the saved file.
pub data Download : Type 0 where
  thrown : (message : String) → Download
  rejected aborted : Download
  saved : List ℕ → Download

abbrev hex_digit : ℕ → ℕ
hex_digit d = get_or (codes "0123456789abcdef") d 0

-- Two digits for each byte.
abbrev pub hex : List ℕ → CodePoints
hex bytes = flat_map (λ b. hex_digit (b / 16) ∷ hex_digit (b % 16) ∷ []) bytes

abbrev pub zip_magic : List ℕ
zip_magic = 0x50 ∷ 0x4b ∷ 0x03 ∷ 0x04 ∷ []

-- What follows once the bytes are there.
unfoldable pub verified : Web → GamingClientPackage → (is_aborted : Bool) → List ℕ → Download
verified w p is_aborted bytes =
    if not (begins zip_magic bytes)
    then thrown "Preuzeti sadržaj nije ispravan ZIP paket. Fajl nije sačuvan."
    else if not (same_text (hex (w.digest bytes)) (map lower (codes p.sha256)))
    then thrown "SHA-256 paketa se ne poklapa sa objavljenom vrednošću. Fajl nije sačuvan."
    else if is_aborted
    then aborted
    else saved bytes

-- The answer of the own server.
unfoldable pub from_own_server :
    Web → GamingClientPackage → (is_aborted : Bool) → Option Answer → Download
unfolding verified zip_content_type
from_own_server w p is_aborted none = rejected
from_own_server w p is_aborted (some a) =
    if a.status == 404
    then thrown unpublished
    else if not a.ok
    then thrown "Gaming Client paket trenutno nije dostupan. Pokušajte ponovo."
    else if not (zip_content_type a.content_type)
    then thrown "Adresa za preuzimanje ne vraća ZIP paket."
    else verified w p is_aborted a.body

-- The bytes that the backend forwards.
unfoldable pub forwarded :
    Web → GamingClientPackage → (is_aborted : Bool) → Option (List ℕ) → Download
unfolding verified
forwarded w p is_aborted none = rejected
forwarded w p is_aborted (some bytes) = verified w p is_aborted bytes

unfoldable pub fetched :
    Web
    → GamingClientPackage
    → (has_subtle is_aborted : Bool) → (own : Option Answer) → (foreign : Option (List ℕ))
    → Configuration
    → Download
unfolding from_own_server forwarded
fetched w p has_subtle is_aborted own foreign (refused message) = thrown message
fetched w p has_subtle is_aborted own foreign (configured url) =
    if not has_subtle
    then thrown "Za proveru integriteta paketa otvorite aplikaciju preko HTTPS-a ili localhost-a."
    else if is_foreign w url
    then forwarded w p is_aborted foreign
    else from_own_server w p is_aborted own

unfoldable pub download_client_package :
    Web
    → GamingClientPackage
    → (has_subtle is_aborted : Bool) → (own : Option Answer) → (foreign : Option (List ℕ))
    → Download
unfolding package_configuration fetched
download_client_package w p has_subtle is_aborted own foreign =
    fetched w p has_subtle is_aborted own foreign (package_configuration w (some p))

-- What `useClientPackageAvailability` answers, for its query.
pub record PackageAvailability : Type 0 where
  pub url : Option Url
  pub ready : Bool
  pub checking : Bool
  pub known : Bool
  pub message : String

abbrev shown_message : Query GamingClientPackageAvailability → String
shown_message check =
    if check.is_error
    then "Dostupnost Gaming Client paketa nije moguće potvrditi. Pokušajte ponovo."
    else elim check.result [ none ↦ "" | some r ↦ r.message ]

abbrev is_available : Query GamingClientPackageAvailability → Bool
is_available check = elim check.result [ none ↦ false | some r ↦ r.available ]

abbrev availability_view :
    Query GamingClientPackageAvailability → Configuration → PackageAvailability
availability_view check (refused message) = record {
  url = none;
  ready = false;
  checking = false;
  known = true;
  message = if message === "" then shown_message check else message;
}
availability_view check (configured url) = record {
  url = some url;
  ready = not check.is_error && is_available check;
  checking = check.is_fetching;
  known = is_some check.result || check.is_error;
  message = shown_message check;
}

unfoldable pub client_package_availability :
    Web → Option GamingClientPackage → Query GamingClientPackageAvailability → PackageAvailability
unfolding package_configuration
client_package_availability w p check = availability_view check (package_configuration w p)

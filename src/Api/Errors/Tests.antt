-- ===== src/Api/Errors/Tests.antt =====
-- A server failure and a refused activation.
use g_manager.Common.{none, some, ◌≡◌, refl}
use g_manager.Api.Errors.{user_facing_api_error}
use g_manager.Api.Errors.Laws.{user_facing_api_error_hidden}

conflict_text :
    user_facing_api_error (some 409) (some "Waitlist offer has expired") (some "r1") "Greška."
    ≡ "Ponuda je istekla. Rezervacija nije potvrđena. Osvežite podatke pre ponovnog pokušaja. (ID zahteva: r1)"
unfolding user_facing_api_error
conflict_text = refl

user_facing_api_error_hidden_example :
    user_facing_api_error (some 503) (some "Connection refused: db") (some "r1") "Greška."
    ≡ user_facing_api_error (some 503) none (some "r1") "Greška."
user_facing_api_error_hidden_example =
    user_facing_api_error_hidden 503 (some "Connection refused: db") none (some "r1") "Greška." refl

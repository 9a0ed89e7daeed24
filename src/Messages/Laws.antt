-- ===== src/Messages/Laws.antt =====
-- The reasons of a conflict are shown in the language of the user.
use g_manager.Common.{
  ℕ, String, Bool, true, false, ◌&&◌, not, Option, none, some, [], ◌∷◌, ◌≡◌, refl, arith, all,
  is_some, Dict, lookup, is_plain, replace-append, eq_iff, &&-eq-true,
}
use Prim.Native.String.{◌++◌}
use g_manager.Api.Http.{Cause, http}
use g_manager.Api.Client.{given}
use g_manager.Api.Errors.{api_error_message, activation_messages, waitlist_messages}
use g_manager.Api.Errors.Laws.{
  is_hidden, advice, id_note, user_facing_api_error_shown, translated_or-some,
}
use g_manager.Messages.Booking.{
  conflict_reasons, booking_conflict_reason, reservation_api_error_message,
}

all-lookup :
    (p : String × String → Bool) (d : Dict String) (key value : String)
    → all p d ≡ true
    → lookup key d ≡ some value
    → p (key, value) ≡ true
unfolding lookup
all-lookup p [] key value h e = ground arith
all-lookup p ((k, v) ∷ d) key value h e = ground (arith, eq_iff k key, all-lookup p d key value)

-- The reason is not translated on the way, and its translation is put in as it is.
abbrev is_fine : String × String → Bool
is_fine (reason, text) =
    is_some (given (some reason))
    && (not (is_some (lookup reason activation_messages))
        && (not (is_some (lookup reason waitlist_messages)) && is_plain text))

some_or_none : {A : Type 0} (o : Option A) → not (is_some o) ≡ true → o ≡ none
some_or_none none h = refl
some_or_none (some a) h = ground arith

given_kept : (t : String) → is_some (given (some t)) ≡ true → given (some t) ≡ some t
given_kept t h = ground arith

fine_parts :
    (reason text : String)
    → is_fine (reason, text) ≡ true
    → (given (some reason) ≡ some reason)
      × (lookup reason activation_messages ≡ none)
      × (lookup reason waitlist_messages ≡ none)
      × (is_plain text ≡ true)
fine_parts reason text h =
    let f = &&-eq-true (is_some (given (some reason))) _ h in
    let g = &&-eq-true (not (is_some (lookup reason activation_messages))) _ f.1 in
    let k = &&-eq-true (not (is_some (lookup reason waitlist_messages))) (is_plain text) g.1 in
    (
      given_kept reason f.0,
      some_or_none (lookup reason activation_messages) g.0,
      some_or_none (lookup reason waitlist_messages) k.0,
      k.1,
    )

reasons_fine : all is_fine conflict_reasons ≡ true
unfolding lookup
reasons_fine = refl

abbrev pub refusal : ℕ → String → Option String → Cause
refusal status reason request_id =
    http (some (record { status = status; message = some reason; request_id = request_id }))

-- For a status whose message is for the user, a known reason is shown as its translation alone, with
-- the advice of a conflict and the id of the request.
pub reservation_api_error_message_translates :
    (reason text : String) (status : ℕ) (request_id : Option String) (fallback : String)
    → lookup reason conflict_reasons ≡ some text
    → is_hidden status ≡ false
    → reservation_api_error_message (refusal status reason request_id) fallback
      ≡ text ++ (advice status ++ id_note request_id)
unfolding reservation_api_error_message booking_conflict_reason api_error_message
reservation_api_error_message_translates reason text status request_id fallback e h =
    let (n, a, w, plain) =
      fine_parts reason text (all-lookup is_fine conflict_reasons reason text reasons_fine e) in
    let translated : booking_conflict_reason (some reason) ≡ text =
      rw (booking_conflict_reason, n) (translated_or-some conflict_reasons reason reason text e) in
    rw
      (
        reservation_api_error_message,
        n,
        translated,
        user_facing_api_error_shown status reason request_id fallback n a w h,
      )
      (replace-append reason text (advice status ++ id_note request_id) plain)

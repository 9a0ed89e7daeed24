-- ===== src/Api/Errors/Laws.antt =====
-- What the text for the user depends on.
use g_manager.Common.{
  ℕ, String, Dict, Bool, true, false, ◌||◌, Option, none, some, ◌==◌, ◌≡◌, refl, sym, ap, ◌∙◌, inl,
  inr, Option-cases, Bool-cases, arith, leb, if◌then◌else◌, lookup,
}
use Prim.Native.String.{◌++◌}
use text.Mathlib.TextLemmas.{append-nil, append_assoc}
use g_manager.Api.Client.{given}
use g_manager.Api.Errors.{
  user_facing_api_error, text_for, with_request_id, activation_messages, waitlist_messages,
  translated_or,
}

-- The statuses for which the server's message is not for the user.
abbrev pub is_hidden : ℕ → Bool
is_hidden s = s == 429 || (s == 413 || leb 500 s)

text_for_hidden :
    (s : ℕ) (a b fallback : String)
    → is_hidden s ≡ true
    → text_for (some s) a fallback ≡ text_for (some s) b fallback
unfolding text_for
text_for_hidden s a b fallback h = ground arith

-- For a status of 500 or more, for 413 and for 429, the text does not depend on the server's message.
pub user_facing_api_error_hidden :
    (s : ℕ) (a b request_id : Option String) (fallback : String)
    → is_hidden s ≡ true
    → user_facing_api_error (some s) a request_id fallback
      ≡ user_facing_api_error (some s) b request_id fallback
unfolding user_facing_api_error
user_facing_api_error_hidden s a b request_id fallback h =
    ap (with_request_id request_id) (text_for_hidden s _ _ fallback h)

-- What follows the message: the advice of a conflict, and the id of the request.
abbrev pub advice : ℕ → String
advice s = if s == 409 then " Osvežite podatke pre ponovnog pokušaja." else ""

abbrev pub id_note : Option String → String
id_note r = elim (given r) [ none ↦ "" | some id ↦ " (ID zahteva: " ++ id ++ ")" ]

with_request_id-note : (r : Option String) (t : String) → with_request_id r t ≡ t ++ id_note r
with_request_id-note r t = elim (Option-cases (given r)) [
  | inl e ↦ rw (with_request_id, id_note, e) (sym (append-nil t))
  | inr (id, e) ↦ rw (with_request_id, id_note, e) refl
]

text_for_shown :
    (s : ℕ) (t fallback : String)
    → is_hidden s ≡ false
    → text_for (some s) t fallback ≡ t ++ advice s
unfolding text_for
text_for_shown s t fallback h = elim (Bool-cases (s == 409)) [
  | inl e ↦ rw e refl
  | inr e ↦
      (let shown : text_for (some s) t fallback ≡ t = ground arith in shown)
      ∙ rw e (sym (append-nil t))
]

-- A text that is shown, with what follows it.
pub with_request_id-text_for :
    (s : ℕ) (r : Option String) (t fallback : String)
    → is_hidden s ≡ false
    → with_request_id r (text_for (some s) t fallback) ≡ t ++ (advice s ++ id_note r)
with_request_id-text_for s r t fallback h =
    ap (with_request_id r) (text_for_shown s t fallback h)
    ∙ with_request_id-note r (t ++ advice s)
    ∙ append_assoc t (advice s) (id_note r)

pub translated_or-some :
    (d : Dict String) (message other text : String)
    → lookup message d ≡ some text
    → translated_or d message other ≡ text
translated_or-some d message other text e = rw (translated_or, e) refl

translated_or-none :
    (d : Dict String) (message other : String)
    → lookup message d ≡ none
    → translated_or d message other ≡ other
translated_or-none d message other e = rw (translated_or, e) refl

-- A message that has no translation here, and what follows it.
pub user_facing_api_error_shown :
    (s : ℕ) (message : String) (r : Option String) (fallback : String)
    → given (some message) ≡ some message
    → lookup message activation_messages ≡ none
    → lookup message waitlist_messages ≡ none
    → is_hidden s ≡ false
    → user_facing_api_error (some s) (some message) r fallback ≡ message ++ (advice s ++ id_note r)
unfolding user_facing_api_error
user_facing_api_error_shown s message r fallback n a w h =
    let kept =
      translated_or-none activation_messages message _ a
      ∙ translated_or-none waitlist_messages message message w in
    rw (user_facing_api_error, n, kept) (with_request_id-text_for s r message fallback h)

-- ===== src/Pwa/Storage/Laws.antt =====
-- Drafts that are read back, and the deletion of one user's records.
use g_manager.Common.{
  ℕ, Bool, true, false, Option, none, some, [], ◌∷◌, ◌≡◌, refl, sym, subst, ◌∙◌, arith, inl, inr,
  if◌then◌else◌, CodePoints, same_text, same_text_refl, same_text_sound, is_empty, All, Bool-cases,
  Option-cases, ==_iff,
}
use mathlib.Core.Option.{some-injective}
use g_manager.Pwa.Storage.{
  Draft, Crypto, draft, secret, StoredRecord, Store, put, get, draft_key, secret_key, key_of,
  encryption_key, save_draft, load_draft, purge_private_data, is_json,
}

if-twice :
    {A : Type 0} (b : Bool) (u v w : A)
    → (if b then u else w) ≡ (if b then u else if b then v else w)
if-twice true u v w = refl
if-twice false u v w = refl

if-swap :
    {A : Type 0} (b c : Bool) (u v w : A)
    → (b ≡ true → c ≡ true → ⊥)
    → (if b then u else if c then v else w) ≡ (if c then v else if b then u else w)
if-swap true true u v w h = absurd (h refl refl)
if-swap true false u v w h = refl
if-swap false c u v w h = refl

same_text_trans :
    (s t k : CodePoints) → same_text s k ≡ true → same_text t k ≡ true → same_text s t ≡ true
same_text_trans s t k a b = rw (same_text_sound s k a, same_text_sound t k b) (same_text_refl k)

some_is_not_none : {A : Type 0} {a : A} → none ≡ some a → ⊥
some_is_not_none h = ground arith

module _ (crypto : Crypto) where
  get-put :
      (r : StoredRecord crypto) (k : CodePoints) (s : Store crypto)
      → get crypto k (put crypto r s) ≡ (if same_text r.key k then some r else get crypto k s)
  unfolding get put
  get-put r k [] = refl
  get-put r k (x ∷ xs) = elim (Bool-cases (same_text x.key r.key)) [
    | inl e ↦
        rw (e, same_text_sound x.key r.key e)
          (if-twice (same_text r.key k) (some r) _ (get crypto k xs))
    | inr e ↦
        rw (e, get-put r k xs)
          (if-swap (same_text x.key k) (same_text r.key k) (some x) (some r) (get crypto k xs)
            (λ a b. ground (arith, e, same_text_trans x.key r.key k a b)))
  ]

  -- A record that was put is found under its key.
  get-put_same :
      (r : StoredRecord crypto) (s : Store crypto) → get crypto r.key (put crypto r s) ≡ some r
  get-put_same r s = get-put r r.key s ∙ rw (same_text_refl r.key) refl

  get-put_other :
      (r : StoredRecord crypto) (k : CodePoints) (s : Store crypto)
      → same_text r.key k ≡ false
      → get crypto k (put crypto r s) ≡ get crypto k s
  get-put_other r k s h = get-put r k s ∙ rw h refl

  load_found :
      (user_id form : CodePoints) (d : Draft) (iv : crypto.Iv) (k fresh : crypto.Key) (now now' : ℕ)
      (r : StoredRecord crypto) (s : Store crypto)
      → is_json d.value ≡ true
      → get crypto (secret_key crypto user_id) s ≡ some r
      → key_of crypto r ≡ some k
      → let p : StoredRecord crypto = record {
        key = draft_key crypto user_id form;
        user_id = user_id;
        content = draft iv (crypto.encrypt k iv (crypto.stringify d));
        updated_at = now;
      } in
        (load_draft crypto user_id form d.version fresh now' (put crypto p s)).0 ≡ some d.value
  unfolding load_draft encryption_key
  load_found user_id form d iv k fresh now now' r s j found key =
      let p : StoredRecord crypto = record {
        key = draft_key crypto user_id form;
        user_id = user_id;
        content = draft iv (crypto.encrypt k iv (crypto.stringify d));
        updated_at = now;
      } in
      rw
        (
          load_draft,
          get-put_same p s,
          encryption_key,
          get-put_other p (secret_key crypto user_id) s refl,
          found,
          key,
          crypto.opens k iv (crypto.stringify d),
          crypto.reads d j,
        )
        (rw ((==_iff d.version d.version).1 refl) refl)

  abbrev saved :
      (user_id form : CodePoints) → Draft → crypto.Iv → crypto.Key → ℕ → StoredRecord crypto
  saved user_id form d iv k now = record {
    key = draft_key crypto user_id form;
    user_id = user_id;
    content = draft iv (crypto.encrypt k iv (crypto.stringify d));
    updated_at = now;
  }

  abbrev made : CodePoints → crypto.Key → ℕ → StoredRecord crypto
  made user_id k now = record {
    key = secret_key crypto user_id;
    user_id = user_id;
    content = secret k;
    updated_at = now;
  }

  module _ (user_id form : CodePoints) (d : Draft) (iv : crypto.Iv) (first later : crypto.Key)
      (now now' : ℕ) (s : Store crypto) (json : is_json d.value ≡ true) where
    save_first :
        get crypto (secret_key crypto user_id) s ≡ none
        → save_draft crypto user_id form d iv first now s
          ≡ some (
              put crypto
                (saved user_id form d iv first now)
                (put crypto (made user_id first now) s))
    unfolding save_draft encryption_key
    save_first e = rw (save_draft, encryption_key, e, encryption_key, e) refl

    save_again :
        (r : StoredRecord crypto) (o : Option crypto.Key)
        → get crypto (secret_key crypto user_id) s ≡ some r
        → key_of crypto r ≡ o
        → save_draft crypto user_id form d iv first now s
          ≡ (elim o [ none ↦ none | some k ↦ some (put crypto (saved user_id form d iv k now) s) ])
    unfolding save_draft encryption_key
    save_again r none e key = rw (save_draft, encryption_key, e, key) refl
    save_again r (some k) e key = rw (save_draft, encryption_key, e, key, encryption_key, e) refl

    -- A draft of a value that JSON gives back as it was: saved, it is given back when the same version is expected, whatever was stored before,
    -- whichever key is at hand then and whenever that is.
    pub load_draft-save_draft :
        (t : Store crypto)
        → save_draft crypto user_id form d iv first now s ≡ some t
        → (load_draft crypto user_id form d.version later now' t).0 ≡ some d.value
    load_draft-save_draft t h = elim (Option-cases (get crypto (secret_key crypto user_id) s)) [
      | inl none_yet ↦
          subst (λ u. (load_draft crypto user_id form d.version later now' u).0 ≡ some d.value)
            (some-injective _ _ (sym (save_first none_yet) ∙ h))
            (load_found user_id form d iv first later now now' (made user_id first now)
              (put crypto (made user_id first now) s) json (get-put_same (made user_id first now) s)
              refl)
      | inr (r, found) ↦ elim (Option-cases (key_of crypto r)) [
        | inl spoiled ↦ absurd (some_is_not_none (sym (save_again r none found spoiled) ∙ h))
        | inr (k, key) ↦
            subst (λ u. (load_draft crypto user_id form d.version later now' u).0 ≡ some d.value)
              (some-injective _ _ (sym (save_again r (some k) found key) ∙ h))
              (load_found user_id form d iv k later now now' r s json found key)
      ]
    ]

  -- After the deletion of the records of a user, whose id is not empty, none of them is left, and every
  -- record of another user is found under its key as before; the service worker is told if there is one.
  pub get-purge_private_data :
      (controlled : Bool) (user_id key : CodePoints) (r : StoredRecord crypto) (s : Store crypto)
      → is_empty user_id ≡ false
      → let (t, posted) = purge_private_data crypto controlled (some user_id) s in
        All (λ x. same_text x.user_id user_id ≡ false) t
        × ((get crypto key s ≡ some r)
            → (same_text r.user_id user_id ≡ false)
            → get crypto key t ≡ some r)
        × (posted ≡ controlled)
  unfolding purge_private_data get
  get-purge_private_data controlled user_id key r [] n = (tt, (λ e f. e), refl)
  get-purge_private_data controlled user_id key r (x ∷ xs) n =
      let (gone, kept, posted) = get-purge_private_data controlled user_id key r xs n in
      elim (Bool-cases (same_text x.user_id user_id)) [
        | inl e ↦ rw (n, e) (gone, (λ g f. ground (arith, kept)), refl)
        | inr e ↦ rw (n, e) ((e, gone), (λ g f. ground (arith, kept)), refl)
      ]

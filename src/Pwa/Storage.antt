-- ===== src/Pwa/Storage.antt =====
-- pwa/clientStorage.ts: the private records on the device, of all users. A record is stored under its key,
-- as in the object store of the browser. The cipher and JSON are parameters. A write gives the records
-- afterwards; that the browser has no store, or refuses a write, is not modelled.
pub mod Laws
pub mod Tests
use g_manager.Common.{
  ℕ, String, Bool, true, false, not, ◌&&◌, ◌||◌, ◌===◌, any, is_digit, Option, none, some, List, [],
  ◌∷◌, ◌++◌, ◌==◌, if◌then◌else◌, filter, find, CodePoints, codes, same_text, is_empty, ◌≡◌,
}
use g_manager.Common.Json.{
  JsNumber, finite, is_finite, Value, undefined, null, boolean, number, text, array, object, Items,
  nil, cons, Fields, end, field,
}

-- A draft as it is encrypted.
pub record Draft : Type 0 where
  pub version : ℕ
  pub value : Value

abbrev pub is_minus_zero : JsNumber → Bool
is_minus_zero (finite true m) = m == 0
is_minus_zero _ = false

-- Object keys like "12" come first in every object, wherever they were added.
abbrev pub is_index : String → Bool
is_index k = not (is_empty (codes k)) && not (any (λ c. not (is_digit c)) (codes k))

abbrev pub has_key : String → Fields → Bool
has_key k end = false
has_key k (field l v fs) = l === k || has_key k fs

-- The values that JSON gives back as they were: JSON.stringify writes null for NaN and the infinities and 0
-- for -0, and drops undefined; and keys that stand in the order and once, as they do in an object without
-- indices.
abbrev mutual
  pub is_json : Value → Bool
  is_json undefined = false
  is_json null = true
  is_json (boolean b) = true
  is_json (number x) = is_finite x && not (is_minus_zero x)
  is_json (text t) = true
  is_json (array vs) = are_json vs
  is_json (object fs) = have_json fs

  pub are_json : Items → Bool
  are_json nil = true
  are_json (cons v vs) = is_json v && are_json vs

  pub have_json : Fields → Bool
  have_json end = true
  have_json (field k v fs) = not (is_index k || has_key k fs) && (is_json v && have_json fs)

-- The platform: AES-GCM, and JSON.stringify and JSON.parse with the encoding of the text. `decrypt` and
-- `parse` give nothing where they throw, and `parse` also where what is read is no draft. What was encrypted
-- is decrypted under the same key and vector, and a draft of such values is read back from its text.
pub record Crypto : Type 1 where
  pub Key : Type 0
  pub Iv : Type 0
  pub Plain : Type 0
  pub Cipher : Type 0
  pub encrypt : Key → Iv → Plain → Cipher
  pub decrypt : Key → Iv → Cipher → Option Plain
  pub stringify : Draft → Plain
  pub parse : Plain → Option Draft
  pub opens : (k : Key) (iv : Iv) (p : Plain) → decrypt k iv (encrypt k iv p) ≡ some p
  pub reads : (d : Draft) → is_json d.value ≡ true → parse (stringify d) ≡ some d

-- The value of a record, by its kind.
pub data Content (crypto : Crypto) : Type 0 where
  read : Value → Content crypto
  draft : crypto.Iv → crypto.Cipher → Content crypto
  secret : crypto.Key → Content crypto

pub record StoredRecord (crypto : Crypto) : Type 0 where
  pub key : CodePoints
  pub user_id : CodePoints
  pub content : Content crypto
  pub updated_at : ℕ

module _ (crypto : Crypto) where
  abbrev pub Store : Type 0
  Store = List (StoredRecord crypto)

  -- IDBObjectStore's put, get and delete.
  unfoldable pub put : StoredRecord crypto → Store → Store
  put r [] = r ∷ []
  put r (x ∷ xs) = let rest = put r xs in if same_text x.key r.key then r ∷ xs else x ∷ rest

  unfoldable pub get : CodePoints → Store → Option (StoredRecord crypto)
  get key [] = none
  get key (x ∷ xs) = if same_text x.key key then some x else get key xs

  unfoldable pub delete : CodePoints → Store → Store
  delete key s = filter (λ r. not (same_text r.key key)) s

  abbrev pub read_key : (user_id request : CodePoints) → CodePoints
  read_key user_id request = codes "read:" ++ user_id ++ codes ":" ++ request

  abbrev pub draft_key : (user_id form : CodePoints) → CodePoints
  draft_key user_id form = codes "draft:" ++ user_id ++ codes ":" ++ form

  abbrev pub secret_key : CodePoints → CodePoints
  secret_key user_id = codes "key:" ++ user_id

  unfoldable pub cache_read : (user_id request : CodePoints) → Value → (now : ℕ) → Store → Store
  cache_read user_id request value now s =
      put
        (record {
          key = read_key user_id request;
          user_id = user_id;
          content = read value;
          updated_at = now;
        })
        s

  abbrev pub value_of : StoredRecord crypto → Option (Value × ℕ)
  value_of r = elim r.content [
    | read value ↦ some (value, r.updated_at)
    | draft iv c ↦ none
    | secret k ↦ none
  ]

  unfoldable pub read_cached : (user_id request : CodePoints) → Store → Option (Value × ℕ)
  read_cached user_id request s = elim (get (read_key user_id request) s) [
    | none ↦ none
    | some r ↦ value_of r
  ]

  abbrev pub key_of : StoredRecord crypto → Option crypto.Key
  key_of r = elim r.content [ read value ↦ none | draft iv c ↦ none | secret k ↦ some k ]

  -- The user's key, made from `fresh` and stored if there is none; no key if the record holds something
  -- else.
  unfoldable pub encryption_key :
      (user_id : CodePoints) (fresh : crypto.Key) (now : ℕ) → Store → Option crypto.Key × Store
  encryption_key user_id fresh now s = elim (get (secret_key user_id) s) [
    | some r ↦ (key_of r, s)
    | none ↦ (
      some fresh,
      put
          (record {
            key = secret_key user_id;
            user_id = user_id;
            content = secret fresh;
            updated_at = now;
          })
          s,
    )
  ]

  -- `none` where the promise is rejected.
  unfoldable pub save_draft :
      (user_id form : CodePoints)
      → Draft
      → (iv : crypto.Iv) (fresh : crypto.Key) (now : ℕ) → Store
      → Option Store
  unfolding encryption_key
  save_draft user_id form d iv fresh now s =
      let (k, t) = encryption_key user_id fresh now s in
      elim k [
        | none ↦ none
        | some k ↦ some (
            put
              (record {
                key = draft_key user_id form;
                user_id = user_id;
                content = draft iv (crypto.encrypt k iv (crypto.stringify d));
                updated_at = now;
              })
              t)
      ]

  unfoldable pub delete_draft : (user_id form : CodePoints) → Store → Store
  unfolding delete
  delete_draft user_id form s = delete (draft_key user_id form) s

  -- A draft of another version is deleted, and so is one that cannot be opened.
  abbrev pub checked : (user_id form : CodePoints) → ℕ → Option Draft → Store → Option Value × Store
  checked user_id form expected none s = (none, delete_draft user_id form s)
  checked user_id form expected (some d) s =
      if d.version == expected then (some d.value, s) else (none, delete_draft user_id form s)

  abbrev pub parsed : Option crypto.Plain → Option Draft
  parsed none = none
  parsed (some p) = crypto.parse p

  abbrev pub opened : StoredRecord crypto → Option crypto.Key → Option Draft
  opened r none = none
  opened r (some k) = elim r.content [
    | read value ↦ none
    | draft iv c ↦ parsed (crypto.decrypt k iv c)
    | secret j ↦ none
  ]

  unfoldable pub load_draft :
      (user_id form : CodePoints) (expected : ℕ) (fresh : crypto.Key) (now : ℕ)
      → Store
      → Option Value × Store
  unfolding encryption_key
  load_draft user_id form expected fresh now s = elim (get (draft_key user_id form) s) [
    | none ↦ (none, s)
    | some r ↦
        let (k, t) = encryption_key user_id fresh now s in
        checked user_id form expected (opened r k) t
  ]

  -- Without a user, or with an empty id, everything goes.
  abbrev pub is_kept : Option CodePoints → StoredRecord crypto → Bool
  is_kept none r = false
  is_kept (some user_id) r = not (is_empty user_id || same_text r.user_id user_id)

  -- The records afterwards, and whether PURGE_PRIVATE is posted to the service worker: it is if one
  -- controls the page.
  unfoldable pub purge_private_data : (controlled : Bool) → Option CodePoints → Store → Store × Bool
  purge_private_data controlled user_id s = (filter (is_kept user_id) s, controlled)

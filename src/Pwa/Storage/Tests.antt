-- ===== src/Pwa/Storage/Tests.antt =====
-- Two users on one device, with a cipher that keeps key and vector beside the draft.
use g_manager.Common.{
  ℕ, true, false, ◌&&◌, Option, none, some, [], ◌∷◌, ◌≡◌, ◌==◌, ==_iff, refl, if◌then◌else◌,
  CodePoints, codes, same_text, All,
}
use g_manager.Common.Json.{boolean}
use g_manager.Pwa.Storage.{
  Draft, Crypto, StoredRecord, Store, read, put, get, save_draft, encryption_key, load_draft,
  purge_private_data, cache_read, read_cached, draft, secret,
}
use g_manager.Pwa.Storage.Laws.{load_draft-save_draft, get-purge_private_data}

abbrev unlock : ℕ → ℕ → ℕ × ℕ × (ℕ × Draft) → Option (ℕ × Draft)
unlock k iv (j, jv, d) = if k == j && iv == jv then some d else none

unlock_opens : (k iv : ℕ) (d : ℕ × Draft) → unlock k iv (k, iv, d) ≡ some d
unlock_opens k iv d = rw ((==_iff k k).1 refl, (==_iff iv iv).1 refl) refl

-- A text that is read only if it is the one of a draft.
abbrev read_text : ℕ × Draft → Option Draft
read_text (n, d) = if n == 1 then some d else none

abbrev boxes : Crypto
boxes = record {
  Key = ℕ;
  Iv = ℕ;
  Plain = ℕ × Draft;
  Cipher = ℕ × ℕ × (ℕ × Draft);
  encrypt = λ k iv d. (k, iv, d);
  decrypt = unlock;
  stringify = λ d. (1, d);
  parse = read_text;
  opens = unlock_opens;
  reads = λ d h. refl;
}

abbrev ana : CodePoints
ana = codes "u1"

abbrev eva : CodePoints
eva = codes "u2"

abbrev form : CodePoints
form = codes "order-cart"

abbrev cart : Draft
cart = record { version = 1; value = boolean true }

abbrev before : Store boxes
before = cache_read boxes eva (codes "/catalog") (boolean false) 5 []

abbrev after : Store boxes
after =
    record {
      key = codes "read:u2:/catalog";
      user_id = eva;
      content = read (boolean false);
      updated_at = 5;
    }
    ∷ record { key = codes "key:u1"; user_id = ana; content = secret 7; updated_at = 9 }
    ∷ record {
      key = codes "draft:u1:order-cart";
      user_id = ana;
      content = draft 3 (7, 3, (1, cart));
      updated_at = 9;
    }
    ∷ []

after-saved : save_draft boxes ana form cart 3 7 9 before ≡ some after
unfolding save_draft encryption_key cache_read get put
after-saved = refl

other_version : (load_draft boxes ana form 2 8 10 after).0 ≡ none
unfolding load_draft encryption_key get
other_version = refl

cached : read_cached boxes eva (codes "/catalog") after ≡ some (boolean false, 5)
unfolding read_cached get
cached = refl

found :
    get boxes (codes "read:u2:/catalog") before
    ≡ some (record {
      key = codes "read:u2:/catalog";
      user_id = eva;
      content = read (boolean false);
      updated_at = 5;
    })
unfolding get cache_read put
found = refl

load_draft-save_draft_example : (load_draft boxes ana form 1 8 10 after).0 ≡ some (boolean true)
load_draft-save_draft_example =
    load_draft-save_draft boxes ana form cart 3 7 8 9 10 before refl after after-saved

abbrev cached_record : StoredRecord boxes
cached_record = record {
  key = codes "read:u2:/catalog";
  user_id = eva;
  content = read (boolean false);
  updated_at = 5;
}

get-purge_private_data_example :
    let (t, posted) = purge_private_data boxes true (some ana) after in
    All (λ (x : StoredRecord boxes). same_text x.user_id ana ≡ false) t
    × ((get boxes (codes "read:u2:/catalog") after ≡ some cached_record)
        → (same_text eva ana ≡ false)
        → get boxes (codes "read:u2:/catalog") t ≡ some cached_record)
    × (posted ≡ true)
get-purge_private_data_example =
    get-purge_private_data boxes true ana (codes "read:u2:/catalog") cached_record after refl

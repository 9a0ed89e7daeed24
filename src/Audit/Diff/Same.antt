-- ===== src/Audit/Diff/Same.antt =====
-- The comparison of a state with itself.
use g_manager.Common.{
  ℕ, zero, suc, String, Bool, true, false, ◌&&◌, Option, none, some, List, [], ◌∷◌, ◌≡◌, refl,
  arith, lookup, ltb, both_branches, ◌===◌, ===_refl, &&-eq-true,
}
use g_manager.Common.Json.{
  Value, undefined, null, boolean, number, text, array, object, Items, nil, cons, Fields, end,
  field, JsNumber, nan, finite, pos_infinity, neg_infinity, items, entries,
}
use g_manager.Audit.Diff.{
  ChangeValue, Snapshot, missing, json, plain, Walk, Visit, walk, walk_keys, walk_items,
  compare_leaf, compare_values, compare_snapshots, walked, entered, fields_of, value_of, all_keys,
}
use g_manager.Audit.Diff.Laws.{Ends, Ends-unless, after-Ends, start}

-- A value in which nothing is NaN, as every value that JSON.parse gives.
abbrev is_number : JsNumber → Bool
is_number nan = false
is_number _ = true

abbrev mutual
  pub is_json : Value → Bool
  is_json (number x) = is_number x
  is_json (array vs) = are_json vs
  is_json (object fs) = have_json fs
  is_json _ = true

  pub are_json : Items → Bool
  are_json nil = true
  are_json (cons v vs) = is_json v && are_json vs

  pub have_json : Fields → Bool
  have_json end = true
  have_json (field k v fs) = is_json v && have_json fs

abbrev pub is_json_change : ChangeValue → Bool
is_json_change none = true
is_json_change (some v) = is_json v

lookup-is_json :
    (k : String) (fs : Fields) → have_json fs ≡ true → is_json_change (lookup k (entries fs)) ≡ true
unfolding lookup
lookup-is_json k end h = refl
lookup-is_json k (field key v fs) h =
    both_branches (λ o. is_json_change o ≡ true) (key === k) (some v) (lookup k (entries fs))
      (&&-eq-true (is_json v) (have_json fs) h).0
      (lookup-is_json k fs (&&-eq-true (is_json v) (have_json fs) h).1)

fields_of-is_json :
    (k : String) (v : ChangeValue)
    → is_json_change v ≡ true
    → is_json_change (lookup k (fields_of v)) ≡ true
unfolding lookup
fields_of-is_json k none h = refl
fields_of-is_json k (some (object fs)) h = lookup-is_json k fs h
fields_of-is_json k (some undefined) h = refl
fields_of-is_json k (some null) h = refl
fields_of-is_json k (some (boolean b)) h = refl
fields_of-is_json k (some (number x)) h = refl
fields_of-is_json k (some (text t)) h = refl
fields_of-is_json k (some (array vs)) h = refl

abbrev HasNone : Walk → Type 0
HasNone w = w.changes ≡ []

module _ (visit : Visit)
    (visit_lem : (v : ChangeValue) (path label : String) (w : Walk)
      → is_json_change v ≡ true
      → HasNone w
      → Ends HasNone (visit v v path label w)) where
  walk_keys-same :
      (v : ChangeValue) (path label : String) (ks : List String) (w : Walk)
      → is_json_change v ≡ true
      → HasNone w
      → Ends HasNone (walk_keys visit v v path label ks w)
  unfolding walk_keys
  walk_keys-same v path label [] w j h = h
  walk_keys-same v path label (k ∷ ks) w j h =
      after-Ends HasNone _ _ (visit_lem _ _ _ w (fields_of-is_json k v j) h)
        (λ u. walk_keys-same v path label ks u j)

  walk_items-same :
      (path label : String) (i : ℕ) (vs : Items) (w : Walk)
      → are_json vs ≡ true
      → HasNone w
      → Ends HasNone (walk_items visit path label i (items vs) (items vs) w)
  unfolding walk_items
  walk_items-same path label i nil w j h = h
  walk_items-same path label i (cons v vs) w j h =
      let parts = &&-eq-true (is_json v) (are_json vs) j in
      after-Ends HasNone _ _ (visit_lem (some v) _ _ w parts.0 h)
        (λ u. walk_items-same path label (suc i) vs u parts.1)

  compare_values-same :
      (v : ChangeValue) (path label : String) (w : Walk)
      → is_json_change v ≡ true
      → HasNone w
      → Ends HasNone (compare_values visit v v path label w)
  unfolding compare_values compare_leaf
  compare_values-same none path label w j h = h
  compare_values-same (some undefined) path label w j h = h
  compare_values-same (some null) path label w j h = h
  compare_values-same (some (boolean true)) path label w j h = h
  compare_values-same (some (boolean false)) path label w j h = h
  compare_values-same (some (number (finite true m))) path label w j h = ground (arith, h)
  compare_values-same (some (number (finite false m))) path label w j h = ground (arith, h)
  compare_values-same (some (number pos_infinity)) path label w j h = h
  compare_values-same (some (number neg_infinity)) path label w j h = h
  compare_values-same (some (number nan)) path label w j h = ground arith
  compare_values-same (some (text t)) path label w j h = rw (===_refl t) h
  compare_values-same (some (array vs)) path label w j h = walk_items-same path label 0 vs w j h
  compare_values-same (some (object end)) path label w j h = h
  compare_values-same (some (object (field k v fs))) path label w j h =
      walk_keys-same (some (object (field k v fs))) path label
        (all_keys (some (object (field k v fs))) (some (object (field k v fs)))) w j h

walk-same :
    (d : ℕ) (v : ChangeValue) (path label : String) (w : Walk)
    → is_json_change v ≡ true
    → HasNone w
    → Ends HasNone (walk d v v path label w)
unfolding walk
walk-same zero v path label w j h = tt
walk-same (suc d) v path label w j h =
    Ends-unless HasNone (ltb 2000 (suc w.visited)) _
      (λ e. compare_values-same (walk d) (walk-same d) v path label (entered w) j h)

walked-same : (o : Option Walk) → Ends HasNone o → (walked o).changes ≡ []
walked-same none h = refl
walked-same (some w) h = h

-- A state that is JSON, text or missing has no changes in comparison with itself.
pub compare_snapshots_same :
    (s : Snapshot) → is_json_change (value_of s) ≡ true → (compare_snapshots s s).changes ≡ []
unfolding compare_snapshots
compare_snapshots_same missing j = refl
compare_snapshots_same (json raw v) j =
    walked-same (walk 25 (some v) (some v) "" "" start) (walk-same 25 (some v) "" "" start j refl)
compare_snapshots_same (plain raw) j = rw (===_refl raw) refl

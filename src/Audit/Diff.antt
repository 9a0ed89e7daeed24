-- ===== src/Audit/Diff.antt =====
-- audit/auditDiff.ts. A change value is an optional one, `none` standing for `absent`.
-- The platform gives JSON.parse and JSON.stringify; an object has its fields in the order of Object.keys.
-- Both functions that descend into a value give up below the depth 24: they recurse on the depth that
-- is left, and answer `none` where the source throws.
pub mod Laws
pub mod Same
mod Tests
use Prim.Native.Char.{code}
use Prim.Native.String.{◌++◌}
use g_manager.Common.{
  ℕ, zero, suc, ◌+◌, String, Bool, true, false, ◌&&◌, ◌||◌, not, Option, none, some, List, [], ◌∷◌,
  map, ltb, ◌==◌, ◌===◌, if◌then◌else◌, Dict, lookup, includes, is_empty, length, codes, all,
  is_some, decimal, ◌++◌ as append,
}
use g_manager.Common.Json.{
  Value, undefined, null, boolean, number, text, array, object, JsNumber, nan, pos_infinity,
  neg_infinity, finite, items, entries, is_truthy_text,
}
use g_manager.Api.Sse.{is_space}

abbrev pub ChangeValue : Type 0
ChangeValue = Option Value

pub data Snapshot : Type 0 where
  missing : Snapshot
  json : (raw : String) → Value → Snapshot
  plain : (raw : String) → Snapshot

pub record AuditChange : Type 0 where
  pub path : String
  pub label : String
  pub before : ChangeValue
  pub after : ChangeValue

abbrev pub parse_snapshot : (parse : String → Option Value) → Option String → Snapshot
parse_snapshot parse none = missing
parse_snapshot parse (some raw) =
    if all is_space (codes raw)
    then missing
    else elim (parse raw) [ some value ↦ json raw value | none ↦ plain raw ]

-- Object.keys and a property of an object; of anything else there are none.
abbrev pub fields_of : ChangeValue → Dict Value
fields_of (some (object fs)) = entries fs
fields_of _ = []

abbrev pub is_object : ChangeValue → Bool
is_object (some (object fs)) = true
is_object _ = false

-- `replaceAll` of one character.
abbrev replace_all : (pattern : ℕ) → (replacement : String) → String → String
replace_all p r String.[] = ""
replace_all p r (String.◌∷◌ c s) = (if code c == p then r else String.◌∷◌ c "") ++ replace_all p r s

abbrev pub pointer : String → String
pointer key = replace_all b'/' "~1" (replace_all b'~' "~0" key)

abbrev same_number : JsNumber → JsNumber → Bool
same_number (finite s m) (finite t n) = m == n && (m == 0 || (s && t || not s && not t))
same_number pos_infinity pos_infinity = true
same_number neg_infinity neg_infinity = true
same_number _ _ = false

-- `===` of two values that were parsed apart: objects and arrays are never identical.
abbrev pub is_identical : ChangeValue → ChangeValue → Bool
is_identical none none = true
is_identical (some undefined) (some undefined) = true
is_identical (some null) (some null) = true
is_identical (some (boolean a)) (some (boolean b)) = a && b || not a && not b
is_identical (some (number a)) (some (number b)) = same_number a b
is_identical (some (text a)) (some (text b)) = a === b
is_identical _ _ = false

abbrev pub keys : Dict Value → List String
keys fs = map (λ (key, value). key) fs

-- [...new Set(…)], where `seen` was there before.
abbrev pub distinct : (seen : List String) → List String → List String
distinct seen [] = []
distinct seen (k ∷ ks) =
    let rest = distinct (if includes seen k then seen else k ∷ seen) ks in
    if includes seen k then rest else k ∷ rest

abbrev pub all_keys : ChangeValue → ChangeValue → List String
all_keys left right = distinct [] (append (keys (fields_of left)) (keys (fields_of right)))

-- The variables `visited` and `changes` of a comparison.
pub record Walk : Type 0 where
  pub visited : ℕ
  pub changes : List AuditChange

abbrev pub Visit : Type 0
Visit = ChangeValue → ChangeValue → (path label : String) → Walk → Option Walk

abbrev pub after : Option Walk → (Walk → Option Walk) → Option Walk
after none next = none
after (some w) next = next w

abbrev pub label_of_key : (label key : String) → String
label_of_key label key = (if is_truthy_text label then label ++ " › " else "") ++ key

unfoldable pub walk_keys :
    Visit → ChangeValue → ChangeValue → (path label : String) → List String → Walk → Option Walk
unfolding lookup
walk_keys visit left right path label [] w = some w
walk_keys visit left right path label (key ∷ more) w =
    after
      (visit (lookup key (fields_of left)) (lookup key (fields_of right))
        (path ++ "/" ++ pointer key) (label_of_key label key) w)
      (walk_keys visit left right path label more)

unfoldable pub index_path : (path : String) → ℕ → String
unfolding decimal
index_path path index = path ++ "/" ++ decimal index

unfoldable pub index_label : (label : String) → ℕ → String
unfolding decimal
index_label label index =
    (if is_truthy_text label then label else "Niz") ++ "[" ++ decimal index ++ "]"

unfoldable pub walk_items :
    Visit → (path label : String) → (index : ℕ) → List Value → List Value → Walk → Option Walk
walk_items visit path label index [] [] w = some w
walk_items visit path label index (l ∷ ls) [] w =
    after (visit (some l) none (index_path path index) (index_label label index) w)
      (walk_items visit path label (suc index) ls [])
walk_items visit path label index [] (r ∷ rs) w =
    after (visit none (some r) (index_path path index) (index_label label index) w)
      (walk_items visit path label (suc index) [] rs)
walk_items visit path label index (l ∷ ls) (r ∷ rs) w =
    after (visit (some l) (some r) (index_path path index) (index_label label index) w)
      (walk_items visit path label (suc index) ls rs)

abbrev pub entered : Walk → Walk
entered w = record w { visited = suc w.visited }

abbrev pub changed : ChangeValue → ChangeValue → (path label : String) → Walk → Walk
changed left right path label w = record w {
  changes = append w.changes (
      record {
        path = path;
        label = if is_truthy_text label then label else "Celo stanje";
        before = left;
        after = right;
      }
      ∷ []);
}

abbrev pub is_absent : ChangeValue → Bool
is_absent v = not (is_some v)

-- Both sides are objects, or one is and the other is absent.
abbrev pub objects_meet : ChangeValue → ChangeValue → Bool
objects_meet left right =
    (is_object left && (is_object right || is_absent right)) || (is_object right && is_absent left)

abbrev pub arrays_of : ChangeValue → ChangeValue → Option (List Value × List Value)
arrays_of (some (array ls)) (some (array rs)) = some (items ls, items rs)
arrays_of _ _ = none

-- What is compared after the limits: no keys, arrays, and everything else.
unfoldable pub compare_leaf :
    Visit → ChangeValue → ChangeValue → (path label : String) → Walk → Option Walk
unfolding walk_items
compare_leaf visit left right path label w = elim (arrays_of left right) [
  | some (ls, rs) ↦ walk_items visit path label 0 ls rs w
  | none ↦
      if is_object left
        && (is_object right && (is_empty (fields_of left) && is_empty (fields_of right)))
      then some w
      else some (changed left right path label w)
]

unfoldable pub compare_values :
    Visit → ChangeValue → ChangeValue → (path label : String) → Walk → Option Walk
unfolding walk_keys compare_leaf
compare_values visit left right path label w =
    if is_identical left right
    then some w
    else if objects_meet left right && not (is_empty (all_keys left right))
    then walk_keys visit left right path label (all_keys left right) w
    else compare_leaf visit left right path label w

-- A step at the depth 25 - `depth_left`.
unfoldable pub walk : (depth_left : ℕ) → Visit
unfolding compare_values
walk zero left right path label w = none
walk (suc depth_left) left right path label w =
    let entry = entered w in
    let rest = compare_values (walk depth_left) left right path label entry in
    if ltb 2000 entry.visited then none else rest

pub record Comparison : Type 0 where
  pub changes : List AuditChange
  pub limited : Bool

abbrev pub is_plain_snapshot : Snapshot → Bool
is_plain_snapshot (plain raw) = true
is_plain_snapshot _ = false

abbrev pub raw_of : Snapshot → String
raw_of missing = ""
raw_of (json raw value) = raw
raw_of (plain raw) = raw

abbrev pub value_of : Snapshot → ChangeValue
value_of missing = none
value_of (json raw value) = some value
value_of (plain raw) = some (text raw)

abbrev pub same_kind : Snapshot → Snapshot → Bool
same_kind missing missing = true
same_kind (json _ _) (json _ _) = true
same_kind (plain _) (plain _) = true
same_kind _ _ = false

abbrev pub compare_texts : (before after : Snapshot) → Comparison
compare_texts before after = record {
  changes =
      if not (raw_of before === raw_of after) || not (same_kind before after)
      then record {
        path = "";
        label = "Ceo zapis (tekst)";
        before = value_of before;
        after = value_of after;
      }
        ∷ []
      else [];
  limited = false;
}

abbrev pub walked : Option Walk → Comparison
walked (some w) = record { changes = w.changes; limited = false }
walked none = record { changes = []; limited = true }

unfoldable pub compare_snapshots : (before after : Snapshot) → Comparison
unfolding walk
compare_snapshots before after =
    if is_plain_snapshot before || is_plain_snapshot after
    then compare_texts before after
    else walked
        (walk 25 (value_of before) (value_of after) "" "" (record { visited = 0; changes = [] }))

-- ===== src/Audit/Lines.antt =====
-- audit/auditDiff.ts: `changeText` and `snapshotLines`. The platform's JSON.stringify is a parameter;
-- `render` recurses on the depth that is left, and answers `none` where the source throws.
pub mod Laws
mod Tests
use Prim.Native.String.{◌++◌}
use g_manager.Common.{
  ℕ, zero, suc, String, Bool, true, false, Option, none, some, List, [], ◌∷◌, map, ltb,
  if◌then◌else◌, Dict, is_empty, length, decimal, ◌++◌ as append,
}
use g_manager.Common.Json.{Value, text, array, object, items, entries}
use g_manager.Audit.Diff.{ChangeValue, Snapshot, json, pointer}

pub record JsonLine : Type 0 where
  pub line : String
  pub path : String

-- `pretty` is JSON.stringify with an indentation, `none` where that throws.
abbrev pub change_text : (pretty : Value → Option String) → ChangeValue → String
change_text pretty none = "Nije zabeleženo"
change_text pretty (some value) = elim (pretty value) [
  | some t ↦ t
  | none ↦ "Pogledajte kompletno stanje."
]

abbrev pub repeat : String → ℕ → String
repeat t zero = ""
repeat t (suc n) = t ++ repeat t n

unfoldable pub numbered : ℕ → List Value → Dict Value
unfolding decimal
numbered index [] = []
numbered index (v ∷ vs) = (decimal index, v) ∷ numbered (suc index) vs

-- Whether the value is an array or an object, and its entries.
abbrev pub container : Value → Option (Bool × Dict Value)
unfolding numbered
container (array vs) = some (true, numbered 0 (items vs))
container (object fs) = some (false, entries fs)
container _ = none

abbrev pub Render : Type 0
Render =
    Value
    → (path : String) → (depth : ℕ) → (prefix comma : String) → List JsonLine
    → Option (List JsonLine)

abbrev pub pushed : (path line : String) → List JsonLine → List JsonLine
pushed path line lines = append lines (record { line = line; path = path } ∷ [])

abbrev pub after_lines :
    Option (List JsonLine) → (List JsonLine → Option (List JsonLine)) → Option (List JsonLine)
after_lines none next = none
after_lines (some lines) next = next lines

unfoldable pub render_entries :
    (stringify : Value → String)
    → Render
    → (is_array : Bool) (path : String) (depth : ℕ) → Dict Value
    → List JsonLine
    → Option (List JsonLine)
render_entries stringify render is_array path depth [] lines = some lines
render_entries stringify render is_array path depth ((key, entry) ∷ more) lines =
    after_lines
      (render entry (path ++ "/" ++ pointer key) (suc depth)
        (if is_array then "" else stringify (text key) ++ ": ") (if is_empty more then "" else ",")
        lines)
      (render_entries stringify render is_array path depth more)

unfoldable pub render_container :
    (stringify : Value → String)
    → Render
    → (is_array : Bool) → Dict Value
    → (path : String) (depth : ℕ) (prefix comma : String) → List JsonLine
    → Option (List JsonLine)
unfolding render_entries
render_container stringify render is_array [] path depth prefix comma lines =
    some (
      pushed path (repeat "  " depth ++ prefix ++ (if is_array then "[]" else "{}") ++ comma) lines)
render_container stringify render is_array (e ∷ more) path depth prefix comma lines =
    let opened =
      pushed path (repeat "  " depth ++ prefix ++ (if is_array then "[" else "{")) lines in
    after_lines (render_entries stringify render is_array path depth (e ∷ more) opened) (λ inner.
      some (pushed path (repeat "  " depth ++ (if is_array then "]" else "}") ++ comma) inner))

unfoldable pub render_value : (stringify : Value → String) → Render → Render
unfolding render_container
render_value stringify render value path depth prefix comma lines = elim (container value) [
  | some (is_array, inside) ↦
      render_container stringify render is_array inside path depth prefix comma lines
  | none ↦ some (pushed path (repeat "  " depth ++ prefix ++ stringify value ++ comma) lines)
]

unfoldable pub render : (stringify : Value → String) → (depth_left : ℕ) → Render
unfolding render_value
render stringify zero value path depth prefix comma lines = none
render stringify (suc depth_left) value path depth prefix comma lines =
    let rest =
      render_value stringify (render stringify depth_left) value path depth prefix comma lines in
    if ltb 3000 (length lines) then none else rest

unfoldable pub snapshot_lines : (stringify : Value → String) → Snapshot → Option (List JsonLine)
unfolding render
snapshot_lines stringify (json raw value) = render stringify 25 value "" 0 "" "" []
snapshot_lines stringify _ = none

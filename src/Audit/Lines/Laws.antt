-- ===== src/Audit/Lines/Laws.antt =====
-- The size of what is displayed of a state.
use g_manager.Common.{
  ℕ, zero, suc, ◌≤◌, String, Bool, true, false, Option, none, some, List, [], ◌∷◌, ◌≡◌, refl, arith,
  length, length-append, ltb, if◌then◌else◌, Option-cases, inl, inr, Dict,
}
use Prim.Native.String.{◌++◌}
use g_manager.Common.Json.{Value}
use g_manager.Audit.Diff.{Snapshot, missing, json, plain}
use g_manager.Audit.Lines.{
  JsonLine, Render, repeat, after_lines, pushed, container, render_entries, render_container,
  render_value, render, snapshot_lines,
}

abbrev pub Longer : ℕ → List JsonLine → Option (List JsonLine) → Type 0
Longer n lines none = Unit
Longer n lines (some more) = (suc (length lines) ≤ length more) × (length more ≤ n)

abbrev NotShorter : ℕ → List JsonLine → Option (List JsonLine) → Type 0
NotShorter n lines none = Unit
NotShorter n lines (some more) = (length lines ≤ length more) × (length more ≤ n)

length-pushed :
    (path line : String) (lines : List JsonLine)
    → length (pushed path line lines) ≡ suc (length lines)
length-pushed path line lines =
    let h = length-append lines (record { line = line; path = path } ∷ []) in omega (arith, h)

pushed-Longer :
    (n : ℕ) (path line : String) (lines : List JsonLine)
    → suc (length lines) ≤ n
    → Longer n lines (some (pushed path line lines))
pushed-Longer n path line lines h =
    let e = length-pushed path line lines in (omega (arith, e), omega (arith, e, h))

closed-Longer :
    (n : ℕ) (path line : String) (lines : List JsonLine) (o : Option (List JsonLine))
    → NotShorter n lines o
    → Longer (suc n) lines (after_lines o (λ inner. some (pushed path line inner)))
closed-Longer n path line lines none h = tt
closed-Longer n path line lines (some inner) h =
    let e = length-pushed path line inner in (omega (arith, e, h.0), omega (arith, e, h.1))

NotShorter-trans :
    (n : ℕ) (lines inner : List JsonLine) (o : Option (List JsonLine))
    → length lines ≤ length inner
    → NotShorter n inner o
    → NotShorter n lines o
NotShorter-trans n lines inner none h k = tt
NotShorter-trans n lines inner (some more) h k = (omega (arith, h, k.0), k.1)

module _ (stringify : Value → String) (n : ℕ) (sub : Render)
    (sub_lem : (v : Value) (path : String) (depth : ℕ) (prefix comma : String)
        (lines : List JsonLine)
      → Longer n lines (sub v path depth prefix comma lines)) where
  entries-continued :
      (is_array : Bool) (path : String) (depth : ℕ) (more : Dict Value) (lines : List JsonLine)
      (o : Option (List JsonLine))
      → ((inner : List JsonLine)
          → length inner ≤ n
          → NotShorter n inner (render_entries stringify sub is_array path depth more inner))
      → Longer n lines o
      → NotShorter n lines (after_lines o (render_entries stringify sub is_array path depth more))
  entries-continued is_array path depth more lines none f h = tt
  entries-continued is_array path depth more lines (some inner) f h =
      NotShorter-trans n lines inner _ (omega (arith, h.0)) (f inner h.1)

  render_entries-NotShorter :
      (is_array : Bool) (path : String) (depth : ℕ) (entries : Dict Value) (lines : List JsonLine)
      → length lines ≤ n
      → NotShorter n lines (render_entries stringify sub is_array path depth entries lines)
  unfolding render_entries
  render_entries-NotShorter is_array path depth [] lines h = (omega arith, h)
  render_entries-NotShorter is_array path depth ((k, v) ∷ more) lines h =
      entries-continued is_array path depth more lines _
        (render_entries-NotShorter is_array path depth more) (sub_lem v _ _ _ _ lines)

  opened :
      (is_array : Bool) (entries : Dict Value) (path : String) (depth : ℕ) (prefix comma : String)
      (lines : List JsonLine)
      → suc (length lines) ≤ n
      → Longer
          (suc n)
          lines
          (render_container stringify sub is_array entries path depth prefix comma lines)
  unfolding render_container
  opened is_array [] path depth prefix comma lines h =
      pushed-Longer (suc n) path _ lines (omega (arith, h))
  opened is_array (entry ∷ more) path depth prefix comma lines h =
      let first =
        pushed path (repeat "  " depth ++ prefix ++ (if is_array then "[" else "{")) lines in
      let e =
        length-pushed path (repeat "  " depth ++ prefix ++ (if is_array then "[" else "{")) lines in
      closed-Longer n path _ lines _ (
        NotShorter-trans n lines first _ (omega (arith, e)) (
          render_entries-NotShorter is_array path depth (entry ∷ more) first (omega (arith, e, h))))

  render_value-Longer :
      (v : Value) (path : String) (depth : ℕ) (prefix comma : String) (lines : List JsonLine)
      → suc (length lines) ≤ n
      → Longer (suc n) lines (render_value stringify sub v path depth prefix comma lines)
  unfolding render_value render_container
  render_value-Longer v path depth prefix comma lines h = elim (Option-cases (container v)) [
    | inl e ↦ rw (render_value, e) (pushed-Longer (suc n) path _ lines (omega (arith, h)))
    | inr ((is_array, inside), e) ↦
        rw (render_value, e) (opened is_array inside path depth prefix comma lines h)
  ]

Longer-unless :
    (n : ℕ) (lines : List JsonLine) (b : Bool) (o : Option (List JsonLine))
    → (b ≡ false → Longer n lines o)
    → Longer n lines (if b then none else o)
Longer-unless n lines true o h = tt
Longer-unless n lines false o h = h refl

fits : {n m : ℕ} → ltb 3000 n ≡ false → 3001 ≤ m → suc n ≤ m
fits h k = ground (arith, h, k)

-- 3001 lines, and one for each level that is left.
abbrev bound : ℕ → ℕ
bound zero = 3001
bound (suc d) = suc (bound d)

bound_le : (d : ℕ) → 3001 ≤ bound d
bound_le zero = omega arith
bound_le (suc d) = omega (arith, bound_le d)

render-Longer :
    (stringify : Value → String) (d : ℕ) (v : Value) (path : String) (depth : ℕ)
    (prefix comma : String) (lines : List JsonLine)
    → Longer (bound d) lines (render stringify d v path depth prefix comma lines)
unfolding render
render-Longer stringify zero v path depth prefix comma lines = tt
render-Longer stringify (suc d) v path depth prefix comma lines =
    Longer-unless (bound (suc d)) lines (ltb 3000 (length lines)) _ (λ e.
      render_value-Longer stringify (bound d) (render stringify d) (render-Longer stringify d) v
        path depth prefix comma lines (fits e (bound_le d)))

-- A state that is displayed has between 1 and 3026 lines.
snapshot_lines_bounded :
    (stringify : Value → String) (s : Snapshot) → Longer 3026 [] (snapshot_lines stringify s)
unfolding snapshot_lines
snapshot_lines_bounded stringify missing = tt
snapshot_lines_bounded stringify (plain raw) = tt
snapshot_lines_bounded stringify (json raw v) = render-Longer stringify 25 v "" 0 "" "" []

-- ===== src/Audit/Diff/Laws.antt =====
-- The size of a comparison, and the comparison of a state with itself.
use g_manager.Common.{
  ℕ, zero, suc, ◌≤◌, String, Bool, true, false, ◌&&◌, ◌||◌, not, Option, none, some, List, [], ◌∷◌,
  ◌≡◌, refl, arith, length, length-append, both_branches, Option-cases, inl, inr, ltb,
  if◌then◌else◌, is_empty,
}
use g_manager.Common.Json.{Value, is_truthy_text}
use g_manager.Audit.Diff.{
  ChangeValue, Snapshot, Walk, Visit, walk, walk_keys, walk_items, compare_leaf, compare_values,
  compare_snapshots, compare_texts, walked, after, changed, entered, arrays_of, is_identical,
  value_of, all_keys, objects_meet, is_plain_snapshot,
}

abbrev IsBounded : Walk → Type 0
IsBounded w = (length w.changes ≤ w.visited) × (w.visited ≤ 2000)

-- Of a walk that did not reach the limit.
abbrev pub Ends : (Walk → Type 0) → Option Walk → Type 0
Ends P none = Unit
Ends P (some w) = P w

module _ (P : Walk → Type 0) where
  pub Ends-unless :
      (b : Bool) (o : Option Walk) → (b ≡ false → Ends P o) → Ends P (if b then none else o)
  Ends-unless true o h = tt
  Ends-unless false o h = h refl

  pub after-Ends :
      (o : Option Walk) (next : Walk → Option Walk)
      → Ends P o
      → ((w : Walk) → P w → Ends P (next w))
      → Ends P (after o next)
  after-Ends none next h f = tt
  after-Ends (some w) next h f = f w h

  module _ (visit : Visit)
      (visit_lem : (l r : ChangeValue) (path label : String) (w : Walk)
        → P w
        → Ends P (visit l r path label w)) where
    walk_keys-Ends :
        (l r : ChangeValue) (path label : String) (ks : List String) (w : Walk)
        → P w
        → Ends P (walk_keys visit l r path label ks w)
    unfolding walk_keys
    walk_keys-Ends l r path label [] w h = h
    walk_keys-Ends l r path label (k ∷ ks) w h =
        after-Ends _ _ (visit_lem _ _ _ _ w h) (walk_keys-Ends l r path label ks)

    walk_items-Ends :
        (path label : String) (i : ℕ) (ls rs : List Value) (w : Walk)
        → P w
        → Ends P (walk_items visit path label i ls rs w)
    unfolding walk_items
    walk_items-Ends path label i [] [] w h = h
    walk_items-Ends path label i (l ∷ ls) [] w h =
        after-Ends _ _ (visit_lem _ _ _ _ w h) (walk_items-Ends path label (suc i) ls [])
    walk_items-Ends path label i [] (r ∷ rs) w h =
        after-Ends _ _ (visit_lem _ _ _ _ w h) (walk_items-Ends path label (suc i) [] rs)
    walk_items-Ends path label i (l ∷ ls) (r ∷ rs) w h =
        after-Ends _ _ (visit_lem _ _ _ _ w h) (walk_items-Ends path label (suc i) ls rs)

changed-IsBounded :
    (l r : ChangeValue) (path label : String) (w : Walk)
    → suc (length w.changes) ≤ w.visited
    → w.visited ≤ 2000
    → IsBounded (changed l r path label w)
changed-IsBounded l r path label w h k = (
  rw
      (length-append w.changes (
        record {
          path = path;
          label = if is_truthy_text label then label else "Celo stanje";
          before = l;
          after = r;
        }
        ∷ []))
      (omega (arith, h)),
  k,
)

module _ (visit : Visit)
    (visit_lem : (l r : ChangeValue) (path label : String) (w : Walk)
      → IsBounded w
      → Ends IsBounded (visit l r path label w)) where
  compare_leaf-IsBounded :
      (l r : ChangeValue) (path label : String) (w : Walk)
      → suc (length w.changes) ≤ w.visited
      → w.visited ≤ 2000
      → Ends IsBounded (compare_leaf visit l r path label w)
  unfolding compare_leaf
  compare_leaf-IsBounded l r path label w h k = elim (Option-cases (arrays_of l r)) [
    | inr ((ls, rs), e) ↦
        rw (compare_leaf, e)
          (walk_items-Ends IsBounded visit visit_lem path label 0 ls rs w (omega (arith, h), k))
    | inl e ↦
        rw (compare_leaf, e)
          (both_branches (Ends IsBounded) _ (some w) (some (changed l r path label w))
            (omega (arith, h), k) (changed-IsBounded l r path label w h k))
  ]

  compare_values-IsBounded :
      (l r : ChangeValue) (path label : String) (w : Walk)
      → suc (length w.changes) ≤ w.visited
      → w.visited ≤ 2000
      → Ends IsBounded (compare_values visit l r path label w)
  unfolding compare_values
  compare_values-IsBounded l r path label w h k =
      both_branches (Ends IsBounded) (is_identical l r) _ _ (omega (arith, h), k)
        (both_branches (Ends IsBounded) (objects_meet l r && not (is_empty (all_keys l r))) _ _
          (walk_keys-Ends IsBounded visit visit_lem l r path label (all_keys l r) w
            (omega (arith, h), k))
          (compare_leaf-IsBounded l r path label w h k))

walk-IsBounded :
    (d : ℕ) (l r : ChangeValue) (path label : String) (w : Walk)
    → IsBounded w
    → Ends IsBounded (walk d l r path label w)
unfolding walk
walk-IsBounded zero l r path label w h = tt
walk-IsBounded (suc d) l r path label w h = Ends-unless IsBounded (ltb 2000 (suc w.visited)) _ (λ e.
    compare_values-IsBounded (walk d) (walk-IsBounded d) l r path label (entered w)
      (omega (arith, h.0)) (ground (arith, e)))

abbrev pub start : Walk
start = record { visited = 0; changes = [] }

walked-bounded :
    (o : Option Walk)
    → Ends IsBounded o
    → (length (walked o).changes ≤ 2000) × ((walked o).limited ≡ true → (walked o).changes ≡ [])
walked-bounded none h = (omega arith, λ e. refl)
walked-bounded (some w) h = (omega (arith, h.0, h.1), λ e. ground arith)

-- A comparison reports 2000 changes at most, and none when it is limited.
compare_snapshots_bounded :
    (before after : Snapshot)
    → let c = compare_snapshots before after in
      (length c.changes ≤ 2000) × (c.limited ≡ true → c.changes ≡ [])
unfolding compare_snapshots
compare_snapshots_bounded before after =
    both_branches (λ c. (length c.changes ≤ 2000) × (c.limited ≡ true → c.changes ≡ []))
      (is_plain_snapshot before || is_plain_snapshot after) (compare_texts before after)
      (walked (walk 25 (value_of before) (value_of after) "" "" start))
      (ground arith, λ e. ground arith)
      (walked-bounded _ (
        walk-IsBounded 25 (value_of before) (value_of after) "" "" start
          (omega arith, omega arith)))

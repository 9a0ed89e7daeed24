-- ===== src/Audit/Diff/Tests.antt =====
-- Two states of a product.
use g_manager.Common.{none, some, [], ◌∷◌, ◌≡◌, refl}
use g_manager.Common.Json.{null, number, text, array, object, nil, cons, end, field, from_ℕ}
use g_manager.Audit.Diff.{Snapshot, json, index_path, index_label, compare_snapshots}
use g_manager.Audit.Diff.Same.{compare_snapshots_same}

abbrev old : Snapshot
old = json "{…}" (
    object (
      field "name" (text "Kafa")
        (field "price" (number (from_ℕ 100)) (field "tags" (array (cons (text "a") nil)) end))))

abbrev changed_price : Snapshot
changed_price = json "{…}" (
    object (
      field "price" (number (from_ℕ 120)) (
        field "name" (text "Kafa")
          (field "tags" (array (cons (text "a") (cons null nil))) (field "a/b" null end)))))

reported :
    (compare_snapshots old changed_price).changes
    ≡ record {
      path = "/price";
      label = "price";
      before = some (number (from_ℕ 100));
      after = some (number (from_ℕ 120));
    }
      ∷ record { path = "/tags/1"; label = "tags[1]"; before = none; after = some null }
      ∷ record { path = "/a~1b"; label = "a/b"; before = none; after = some null }
      ∷ []
unfolding compare_snapshots index_path index_label
reported = refl

compare_snapshots_same_example : (compare_snapshots old old).changes ≡ []
compare_snapshots_same_example = compare_snapshots_same old refl

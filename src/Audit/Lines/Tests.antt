-- ===== src/Audit/Lines/Tests.antt =====
-- The display of a product.
use g_manager.Common.{String, some, [], ◌∷◌, ◌≡◌, refl}
use Prim.Native.String.{◌++◌}
use g_manager.Common.Json.{Value, text, array, object, nil, cons, end, field}
use g_manager.Audit.Diff.{Snapshot, json}
use g_manager.Audit.Lines.{snapshot_lines, numbered}

abbrev quoted : Value → String
quoted (text t) = "\"" ++ t ++ "\""
quoted _ = ""

abbrev coffee : Snapshot
coffee =
    json "{…}"
      (object (field "name" (text "Kafa") (field "tags" (array (cons (text "a") nil)) end)))

displayed :
    snapshot_lines quoted coffee
    ≡ some (
        record { line = "{"; path = "" }
        ∷ record { line = "  \"name\": \"Kafa\","; path = "/name" }
        ∷ record { line = "  \"tags\": ["; path = "/tags" }
        ∷ record { line = "    \"a\""; path = "/tags/0" }
        ∷ record { line = "  ]"; path = "/tags" }
        ∷ record { line = "}"; path = "" }
        ∷ [])
unfolding snapshot_lines numbered
displayed = refl

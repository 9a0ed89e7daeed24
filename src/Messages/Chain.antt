-- ===== src/Messages/Chain.antt =====
-- A chain of calls `.replace(pattern, translation)`, the first one first.
use g_manager.Common.{String, [], ◌∷◌, Dict, replace}

unfoldable pub replace_each : Dict String → String → String
unfolding replace
replace_each [] text = text
replace_each ((pattern, translation) ∷ more) text =
    replace_each more (replace pattern translation text)

-- ===== src/Common/Replace.antt =====
-- `text.replace(pattern, replacement)` for two texts: the first occurrence is replaced, and the
-- replacement may name the match and its surroundings with a dollar sign.
use Prim.Native.Char.{code}
use Prim.Native.String.{String, ◌++◌}
use mathlib.Core.Path.{◌≡◌, refl, ◌∙◌, ap}
use mathlib.Core.Bool.{Bool, true, ◌&&◌, not}
use mathlib.Core.Option.{Option, none, some}
use native.Mathlib.Omega.{arith}
use text.Mathlib.TextLemmas.{nil-append, cons-append}
use g_manager.Common.Tests.{◌==◌, if◌then◌else◌}

-- What follows a prefix of the text.
unfoldable pub drop_start : String → String → Option String
drop_start String.[] s = some s
drop_start (String.◌∷◌ p ps) String.[] = none
drop_start (String.◌∷◌ p ps) (String.◌∷◌ c s) =
    let rest = drop_start ps s in if code p == code c then rest else none

-- $$, $&, $` and $'; any other dollar sign stands for itself.
unfoldable pub expand : (before pattern after : String) → String → String
expand before pattern after String.[] = ""
expand before pattern after (String.◌∷◌ c String.[]) = String.◌∷◌ c ""
expand before pattern after (String.◌∷◌ c (String.◌∷◌ d r)) =
    let rest = expand before pattern after r in
    let kept = String.◌∷◌ c (expand before pattern after (String.◌∷◌ d r)) in
    if code c == b'$'
    then if code d == b'$'
      then "$" ++ rest
      else if code d == b'&'
      then pattern ++ rest
      else if code d == b'`'
      then before ++ rest
      else if code d == b'\''
      then after ++ rest
      else kept
    else kept

abbrev replaced : (before pattern after replacement : String) → String
unfolding expand
replaced before pattern after replacement =
    before ++ (expand before pattern after replacement ++ after)

unfoldable pub replace_from : (before pattern replacement : String) → String → String
unfolding drop_start expand
replace_from before pattern replacement String.[] = elim (drop_start pattern "") [
  | none ↦ before
  | some after ↦ replaced before pattern after replacement
]
replace_from before pattern replacement (String.◌∷◌ c s) =
    let later = replace_from (before ++ String.◌∷◌ c "") pattern replacement s in
    elim (drop_start pattern (String.◌∷◌ c s)) [
      | none ↦ later
      | some after ↦ replaced before pattern after replacement
    ]

unfoldable pub replace : (pattern replacement : String) → String → String
unfolding replace_from
replace pattern replacement s = replace_from "" pattern replacement s

abbrev pub is_plain : String → Bool
is_plain String.[] = true
is_plain (String.◌∷◌ c s) = not (code c == b'$') && is_plain s

drop_start-append : (p s : String) → drop_start p (p ++ s) ≡ some s
unfolding drop_start
drop_start-append String.[] s = ap (λ t. some t) (nil-append s)
drop_start-append (String.◌∷◌ c p) s =
    ap (drop_start (String.◌∷◌ c p)) (cons-append c p s) ∙ ground (arith, drop_start-append p s)

expand_plain :
    (before pattern after r : String) → is_plain r ≡ true → expand before pattern after r ≡ r
unfolding expand
expand_plain b p a String.[] h = refl
expand_plain b p a (String.◌∷◌ c String.[]) h = refl
expand_plain b p a (String.◌∷◌ c (String.◌∷◌ d r)) h =
    ground (arith, expand_plain b p a (String.◌∷◌ d r))

replace_from-append :
    (p r s : String) (t : String)
    → is_plain r ≡ true
    → drop_start p t ≡ some s
    → replace p r t ≡ r ++ s
unfolding replace replace_from replaced
replace_from-append p r s String.[] h e =
    rw (replace_from, e, expand_plain "" p s r h) (nil-append (r ++ s))
replace_from-append p r s (String.◌∷◌ c t) h e =
    rw (replace_from, e, expand_plain "" p s r h) (nil-append (r ++ s))

-- A text that begins with the pattern.
pub replace-append : (p r s : String) → is_plain r ≡ true → replace p r (p ++ s) ≡ r ++ s
replace-append p r s h = replace_from-append p r s (p ++ s) h (drop_start-append p s)

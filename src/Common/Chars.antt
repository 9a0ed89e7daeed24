-- ===== src/Common/Chars.antt =====
-- Text as the list of its code points, for the parts of the program that walk or search a text.
use Prim.Native.Char.{code}
use Prim.Native.Nat.{ℕ, ◌+◌}
use Prim.Native.String.{String}
use mathlib.Core.Path.{◌≡◌, refl}
use native.Mathlib.Omega.{arith}
use mathlib.Core.Bool.{Bool, true, false, ◌&&◌, ◌||◌}
use mathlib.Core.List.{List, [], ◌∷◌}
use g_manager.Common.Tests.{leb, ◌==◌, if◌then◌else◌}

abbrev pub CodePoints : Type 0
CodePoints = List ℕ

abbrev pub codes : String → CodePoints
codes String.[] = []
codes (String.◌∷◌ c s) = code c ∷ codes s

-- Letters of a pattern under the `i` flag, and `toLowerCase`, for ASCII.
abbrev pub lower : ℕ → ℕ
lower c = if leb b'A' c && leb c b'Z' then c + 32 else c

-- `startsWith`
abbrev pub begins : CodePoints → CodePoints → Bool
begins [] s = true
begins (p ∷ ps) [] = false
begins (p ∷ ps) (c ∷ s) = p == c && begins ps s

-- A test at some position of the text, its end included.
abbrev pub somewhere : (CodePoints → Bool) → CodePoints → Bool
somewhere p [] = p []
somewhere p (c ∷ s) = p (c ∷ s) || somewhere p s

-- `includes`
abbrev pub contains : CodePoints → CodePoints → Bool
contains pattern s = somewhere (begins pattern) s

abbrev pub same_text : CodePoints → CodePoints → Bool
same_text [] [] = true
same_text (a ∷ s) (b ∷ t) = a == b && same_text s t
same_text _ _ = false

pub same_text_refl : (s : CodePoints) → same_text s s ≡ true
same_text_refl [] = refl
same_text_refl (c ∷ s) = ground (arith, same_text_refl s)

pub same_text_sound : (s t : CodePoints) → same_text s t ≡ true → s ≡ t
same_text_sound [] [] h = refl
same_text_sound (c ∷ s) (d ∷ t) h = ground (arith, same_text_sound s t)
same_text_sound [] (d ∷ t) h = ground arith
same_text_sound (c ∷ s) [] h = ground arith

-- A character in front of the first part.
abbrev pub push_first : ℕ → List CodePoints → List CodePoints
push_first c [] = (c ∷ []) ∷ []
push_first c (part ∷ parts) = (c ∷ part) ∷ parts

-- `split` at one character.
abbrev pub split_on : (separator : ℕ) → CodePoints → List CodePoints
split_on separator [] = [] ∷ []
split_on separator (c ∷ s) =
    let rest = split_on separator s in if c == separator then [] ∷ rest else push_first c rest

abbrev pub is_digit : ℕ → Bool
is_digit c = leb b'0' c && leb c b'9'

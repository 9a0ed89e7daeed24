-- ===== src/Common/Json.antt =====
-- Values of unknown shape, as the program reads them back from storage or from a response, and the
-- operators of the language that it applies to them.
-- A finite number is a sign and a count of thousandths: prices and quantities fit, and the
-- arithmetic on them is exact.
use Prim.Native.Char.{code}
use g_manager.Common.{
  ℕ, ◌+◌, ◌*◌, ◌/◌, ◌%◌, String, Bool, true, false, ◌&&◌, not, List, [], ◌∷◌, ltb, leb, ◌==◌,
  if◌then◌else◌, Dict,
}

pub data JsNumber : Type 0 where
  nan pos_infinity neg_infinity : JsNumber
  finite : (negative : Bool) (thousandths : ℕ) → JsNumber

-- A whole number that is not negative.
abbrev pub from_ℕ : ℕ → JsNumber
from_ℕ n = finite false (n * 1000)

-- Number.isFinite
abbrev pub is_finite : JsNumber → Bool
is_finite (finite _ _) = true
is_finite _ = false

-- Number.isInteger
abbrev pub is_integer : JsNumber → Bool
is_integer (finite _ m) = (m % 1000) == 0
is_integer _ = false

-- Math.trunc
abbrev pub trunc : JsNumber → JsNumber
trunc (finite s m) = finite s (m / 1000 * 1000)
trunc x = x

-- x < 0; x > 0; x > k and x < k for a whole k that is not negative. Each is false of NaN.
abbrev pub is_negative : JsNumber → Bool
is_negative (finite s m) = s && ltb 0 m
is_negative neg_infinity = true
is_negative _ = false

abbrev pub is_above : ℕ → JsNumber → Bool
is_above k (finite s m) = not s && ltb (k * 1000) m
is_above k pos_infinity = true
is_above k _ = false

abbrev pub is_below : ℕ → JsNumber → Bool
is_below k (finite true m) = ltb 0 (k * 1000 + m)
is_below k (finite false m) = ltb m (k * 1000)
is_below k neg_infinity = true
is_below k _ = false

-- x <= k
abbrev pub is_at_most : ℕ → JsNumber → Bool
is_at_most k (finite true m) = true
is_at_most k (finite false m) = leb m (k * 1000)
is_at_most k neg_infinity = true
is_at_most k _ = false

-- The whole part of a finite number that is not negative.
abbrev pub to_ℕ : JsNumber → ℕ
to_ℕ (finite false m) = m / 1000
to_ℕ _ = 0

mutual
  pub data Value : Type 0 where
    undefined : Value
    null : Value
    boolean : Bool → Value
    number : JsNumber → Value
    text : String → Value
    array : Items → Value
    object : Fields → Value

  pub data Items : Type 0 where
    nil : Items
    cons : Value → Items → Items

  pub data Fields : Type 0 where
    end : Fields
    field : String → Value → Fields → Fields

abbrev pub items : Items → List Value
items nil = []
items (cons v vs) = v ∷ items vs

abbrev pub to_items : List Value → Items
to_items [] = nil
to_items (v ∷ vs) = cons v (to_items vs)

-- Object.entries
abbrev pub entries : Fields → Dict Value
entries end = []
entries (field k v fs) = (k, v) ∷ entries fs

-- Object.fromEntries, for entries with different keys.
abbrev pub from_entries : Dict Value → Fields
from_entries [] = end
from_entries ((k, v) ∷ fs) = field k v (from_entries fs)

-- `text.length` counts UTF-16 units.
abbrev pub text_length : String → ℕ
text_length String.[] = 0
text_length (String.◌∷◌ c s) = (if ltb (code c) 0x10000 then 1 else 2) + text_length s

-- A text is falsy when it is empty.
abbrev pub is_truthy_text : String → Bool
is_truthy_text String.[] = false
is_truthy_text (String.◌∷◌ c s) = true

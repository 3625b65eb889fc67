-- ===== src/Lexicon/Values.antt =====
-- packages/core/src/lexicon.ts: the values that the validation reads, and the tests on them. A number
-- is a double: a finite one is a sign and a count of units of 2^-1074, of which every double is a
-- whole number. An object has its own entries, and inherits the methods of `Object.prototype` (the
-- accessor `__proto__` is left aside).
use subspace_transceiver.Prelude.{
  ℕ, suc, ◌+◌, ◌^◌, ◌%◌, ◌==◌, Bool, true, false, not, ◌&&◌, List, [], ◌∷◌, Option, none, some, ltb,
  if◌then◌else◌,
}
use subspace_transceiver.Prelude.Sets.{includes}
use subspace_transceiver.Prelude.Text.{Text, codes, text_eq}

pub data Number : Type 0 where
  finite : Bool → ℕ → Number
  infinite : Bool → Number
  not_a_number : Number

-- The units of 1.
abbrev pub unit : ℕ
unit = 2 ^ 1074

-- `Number.isInteger(n)`
unfoldable pub is_integer : Number → Bool
is_integer (finite negative units) = units % unit == 0
is_integer (infinite negative) = false
is_integer not_a_number = false

-- `a < b`; the flag says whether a number is negative.
unfoldable pub less : Number → Number → Bool
less (finite true m) (finite true n) = ltb n m
less (finite true m) (finite false n) = ltb 0 (m + n)
less (finite false m) (finite true n) = false
less (finite false m) (finite false n) = ltb m n
less (finite s m) (infinite t) = not t
less (infinite s) (finite t n) = s
less (infinite s) (infinite t) = s && not t
less not_a_number b = false
less (finite s m) not_a_number = false
less (infinite s) not_a_number = false

mutual
  pub data Value : Type 0 where
    undefined null method : Value
    boolean : Bool → Value
    number : Number → Value
    string : Text → Value
    array : Items → Value
    object : Fields → Value

  pub data Items : Type 0 where
    nil : Items
    cons : Value → Items → Items

  pub data Fields : Type 0 where
    done : Fields
    entry : Text → Value → Fields → Fields

unfoldable pub is_nullish : Value → Bool
is_nullish undefined = true
is_nullish null = true
is_nullish _ = false

-- `typeof value === 'string'`, and the string.
unfoldable pub as_text : Value → Option Text
as_text (string s) = some s
as_text _ = none

unfoldable pub as_number : Value → Option Number
as_number (number n) = some n
as_number _ = none

-- `typeof value === 'number' && Number.isInteger(value)`, and the number.
unfoldable pub as_integer : Value → Option Number
unfolding as_number
as_integer value = elim (as_number value) [
  | none ↦ none
  | some n ↦ if is_integer n then some n else none
]

unfoldable pub is_boolean : Value → Bool
is_boolean (boolean b) = true
is_boolean _ = false

-- `Array.isArray(value)`, and the items.
unfoldable pub as_items : Value → Option Items
as_items (array xs) = some xs
as_items _ = none

-- An object that is neither null nor an array, and its entries.
unfoldable pub as_fields : Value → Option Fields
as_fields (object o) = some o
as_fields _ = none

unfoldable pub count : Items → ℕ
count nil = 0
count (cons x xs) = suc (count xs)

unfoldable pub own : Text → Fields → Option Value
own k done = none
own k (entry j value fields) = if text_eq j k then some value else own k fields

abbrev pub inherited : List Text
inherited =
    codes "constructor"
    ∷ codes "__defineGetter__"
    ∷ codes "__defineSetter__"
    ∷ codes "hasOwnProperty"
    ∷ codes "__lookupGetter__"
    ∷ codes "__lookupSetter__"
    ∷ codes "isPrototypeOf"
    ∷ codes "propertyIsEnumerable"
    ∷ codes "toString"
    ∷ codes "valueOf"
    ∷ codes "toLocaleString"
    ∷ []

-- `k in object ? object[k] : absent`
unfoldable pub lookup : Text → Fields → Option Value
lookup k fields = elim (own k fields) [
  | none ↦ if includes inherited k then some method else none
  | some value ↦ some value
]

-- `k in object`
unfoldable pub is_in : Text → Fields → Bool
is_in k fields = elim (lookup k fields) [ none ↦ false | some value ↦ true ]

-- ===== src/Common/Json.antt =====
-- Values that `JSON.parse` gives. An object's keys differ from each other; a number is the text that
-- `String` gives it.
use Prim.Native.Nat.{ℕ, suc}
use mathlib.Core.Bool.{Bool, true, false, ◌||◌}
use mathlib.Core.Option.{Option, none, some}
use locus_pi.Common.Tests.{if◌then◌else◌}
use locus_pi.Common.Text.{Text, text_eq}

mutual
  pub data Json : Type 0 where
    null : Json
    boolean : Bool → Json
    number : Text → Json
    string : Text → Json
    array : Items → Json
    object : Fields → Json

  pub data Items : Type 0 where
    no_items : Items
    item : Json → Items → Items

  pub data Fields : Type 0 where
    no_fields : Fields
    field : Text → Json → Fields → Fields

-- `record[key]`; a missing key reads as `undefined`, which is `none`.
abbrev pub get_field : Text → Fields → Option Json
get_field key no_fields = none
get_field key (field k v fs) = if text_eq k key then some v else get_field key fs

abbrev pub field_count : Fields → ℕ
field_count no_fields = 0
field_count (field k v fs) = suc (field_count fs)

abbrev pub has_field : Text → Fields → Bool
has_field key no_fields = false
has_field key (field k v fs) = text_eq k key || has_field key fs

-- `typeof value === "object" && value !== null && !Array.isArray(value)`
abbrev pub fields_of : Option Json → Option Fields
fields_of none = none
fields_of (some null) = none
fields_of (some (boolean b)) = none
fields_of (some (number n)) = none
fields_of (some (string s)) = none
fields_of (some (array items)) = none
fields_of (some (object fs)) = some fs

-- `typeof value === "string"`
abbrev pub string_of : Option Json → Option Text
string_of none = none
string_of (some null) = none
string_of (some (boolean b)) = none
string_of (some (number n)) = none
string_of (some (string s)) = some s
string_of (some (array items)) = none
string_of (some (object fs)) = none

-- `value === b`
abbrev pub is_boolean : Bool → Option Json → Bool
is_boolean b none = false
is_boolean b (some null) = false
is_boolean true (some (boolean c)) = c
is_boolean false (some (boolean c)) = if c then false else true
is_boolean b (some (number n)) = false
is_boolean b (some (string s)) = false
is_boolean b (some (array items)) = false
is_boolean b (some (object fs)) = false

-- `value === text`
abbrev pub is_text : Text → Option Json → Bool
is_text t v = elim (string_of v) [ none ↦ false | some s ↦ text_eq s t ]

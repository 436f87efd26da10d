-- ===== src/Command/Strings.antt =====
-- String literals of JSON, as `JSON.stringify` writes and the pattern in `parseWorkflowCommandToken`
-- of extensions/workflows/command/command-parser.ts reads them.
use locus_pi.Common.{
  ℕ, zero, suc, ◌+◌, ◌-◌, ◌*◌, ◌/◌, ◌%◌, Bool, false, not, ◌&&◌, ◌||◌, [], ◌∷◌, ◌++◌, Option, none,
  some, if◌then◌else◌, ltb, leb, ◌==◌,
}
use locus_pi.Common.Text.{Text}

-- The surrogates of UTF-16
abbrev pub is_high : ℕ → Bool
is_high c = leb 0xd800 c && leb c 0xdbff

abbrev pub is_low : ℕ → Bool
is_low c = leb 0xdc00 c && leb c 0xdfff

abbrev pub starts_low : Text → Bool
starts_low [] = false
starts_low (c ∷ cs) = is_low c

-- A surrogate without its other half
abbrev pub is_lone : Bool → ℕ → Text → Bool
is_lone after_high c cs = (is_high c && not (starts_low cs)) || (is_low c && not after_high)

abbrev pub hex_digit : ℕ → ℕ
hex_digit d = if ltb d 10 then d + b'0' else d + 87

abbrev pub unicode_escape : ℕ → Text
unicode_escape c =
    b'\\'
    ∷ b'u'
    ∷ hex_digit (c / 4096 % 16)
    ∷ hex_digit (c / 256 % 16)
    ∷ hex_digit (c / 16 % 16)
    ∷ hex_digit (c % 16)
    ∷ []

unfoldable pub escape_unit : Bool → ℕ → Text
escape_unit lone c =
    if c == 34
    then b'\\' ∷ 34 ∷ []
    else if c == 92
    then b'\\' ∷ 92 ∷ []
    else if c == 8
    then b'\\' ∷ b'b' ∷ []
    else if c == 12
    then b'\\' ∷ b'f' ∷ []
    else if c == 10
    then b'\\' ∷ b'n' ∷ []
    else if c == 13
    then b'\\' ∷ b'r' ∷ []
    else if c == 9
    then b'\\' ∷ b't' ∷ []
    else if ltb c 32 || lone
    then unicode_escape c
    else c ∷ []

unfoldable pub escape_units : Bool → Text → Text
unfolding escape_unit
escape_units after_high [] = []
escape_units after_high (c ∷ cs) =
    escape_unit (is_lone after_high c cs) c ++ escape_units (is_high c) cs

-- `JSON.stringify` of a text
unfoldable pub stringify : Text → Text
unfolding escape_units
stringify value = 34 ∷ escape_units false value ++ 34 ∷ []

abbrev pub hex_value : ℕ → Option ℕ
hex_value c =
    if leb b'0' c && leb c b'9'
    then some (c - b'0')
    else if leb b'a' c && leb c b'f'
    then some (c - 87)
    else if leb b'A' c && leb c b'F'
    then some (c - 55)
    else none

-- Where a scan stands: among plain units, after a backslash, or in front of the last digits of a
-- number, with the digits before.
pub data Mode : Type 0 where
  plain escaped : Mode
  digits : (left sofar : ℕ) → Mode

pub data Move : Type 0 where
  closes refuses : Move
  emits : ℕ → Move
  moves : Mode → Move

abbrev pub escape_move : ℕ → Move
escape_move c =
    if c == 34
    then emits 34
    else if c == 92
    then emits 92
    else if c == b'/'
    then emits b'/'
    else if c == b'b'
    then emits 8
    else if c == b'f'
    then emits 12
    else if c == b'n'
    then emits 10
    else if c == b'r'
    then emits 13
    else if c == b't'
    then emits 9
    else if c == b'u'
    then moves (digits 3 0)
    else refuses

abbrev pub move : Mode → ℕ → Move
move plain c =
    if c == 34
    then closes
    else if c == 92
    then moves escaped
    else if ltb c 32
    then refuses
    else emits c
move escaped c = escape_move c
move (digits zero sofar) c = elim (hex_value c) [ none ↦ refuses | some d ↦ emits (sofar * 16 + d) ]
move (digits (suc left) sofar) c = elim (hex_value c) [
  | none ↦ refuses
  | some d ↦ moves (digits left (sofar * 16 + d))
]

abbrev pub put : ℕ → Option (Text × Text) → Option (Text × Text)
put c none = none
put c (some (value, rest)) = some (c ∷ value, rest)

-- After the opening quote: the value of the literal, and what follows the closing quote.
unfoldable pub scan : Mode → Text → Option (Text × Text)
scan m [] = none
scan m (c ∷ cs) = elim (move m c) [
  | closes ↦ some ([], cs)
  | refuses ↦ none
  | emits v ↦ put v (scan plain cs)
  | moves n ↦ scan n cs
]

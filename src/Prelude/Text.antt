-- ===== src/Prelude/Text.antt =====
-- Python's text as the program walks it: code points, UTF-8 bytes, split, join and hexadecimal.
use Prim.Native.Char.{code}
use Prim.Native.String.{◌++◌ as concat}
use lapsecoin.Prelude.{
  ℕ, ◌+◌, ◌-◌, ◌*◌, ◌/◌, ◌%◌, String, ◌≡◌, refl, Bool, true, false, ◌&&◌, ◌||◌, Option, none, some,
  List, [], ◌∷◌, ◌++◌, ltb, leb, ◌==◌, if◌then◌else◌,
}

-- The code points of a text. `String` has its own `[]` and `∷`.
abbrev pub codes : String → List ℕ
codes String.[] = []
codes (String.◌∷◌ c s) = code c ∷ codes s

-- The UTF-8 bytes of a code point, and of a text: `s.encode()`.
unfoldable pub utf8 : ℕ → List ℕ
utf8 c =
    if ltb c 0x80
    then c ∷ []
    else if ltb c 0x800
    then (0xc0 + c / 64) ∷ (0x80 + c % 64) ∷ []
    else if ltb c 0x10000
    then (0xe0 + c / 4096) ∷ (0x80 + c / 64 % 64) ∷ (0x80 + c % 64) ∷ []
    else (0xf0 + c / 262144) ∷ (0x80 + c / 4096 % 64) ∷ (0x80 + c / 64 % 64) ∷ (0x80 + c % 64) ∷ []

encode_codes : List ℕ → List ℕ
encode_codes [] = []
encode_codes (c ∷ s) = utf8 c ++ encode_codes s

unfoldable pub encode : String → List ℕ
unfolding utf8 encode_codes
encode s = encode_codes (codes s)

-- Equality of code sequences.
unfoldable pub same_codes : List ℕ → List ℕ → Bool
same_codes [] [] = true
same_codes [] (y ∷ ys) = false
same_codes (x ∷ xs) [] = false
same_codes (x ∷ xs) (y ∷ ys) = x == y && same_codes xs ys

-- Is the code point in the text?
unfoldable pub has_code : ℕ → List ℕ → Bool
has_code c [] = false
has_code c (x ∷ xs) = x == c || has_code c xs

-- `s.split(sep)`: the pieces between separators, one more than there are separators.
unfoldable pub prepend : ℕ → List (List ℕ) → List (List ℕ)
prepend c [] = (c ∷ []) ∷ []
prepend c (w ∷ ws) = (c ∷ w) ∷ ws

unfoldable pub split : ℕ → List ℕ → List (List ℕ)
unfolding prepend
split sep [] = [] ∷ []
split sep (c ∷ s) = let rest = split sep s in if c == sep then [] ∷ rest else prepend c rest

-- `sep.join(words)`
unfoldable pub join : String → List String → String
join sep [] = ""
join sep (w ∷ []) = w
join sep (w ∷ v ∷ ws) = concat w (concat sep (join sep (v ∷ ws)))

hex_digit : ℕ → Option ℕ
hex_digit c =
    if leb b'0' c && leb c b'9'
    then some (c - b'0')
    else if leb b'a' c && leb c b'f'
    then some (c - b'a' + 10)
    else if leb b'A' c && leb c b'F'
    then some (c - b'A' + 10)
    else none

hex_byte : ℕ → ℕ → Option (List ℕ) → Option (List ℕ)
unfolding hex_digit
hex_byte x y rest = elim (hex_digit x) [
  | none ↦ none
  | some a ↦ elim (hex_digit y) [
    | none ↦ none
    | some b ↦ elim rest [ none ↦ none | some bs ↦ some ((a * 16 + b) ∷ bs) ]
  ]
]

is_space : ℕ → Bool
is_space c = c == 32 || (leb 9 c && leb c 13)

from_hex_codes : List ℕ → Option (List ℕ)
from_hex_codes [] = some []
from_hex_codes (x ∷ []) = if is_space x then some [] else none
from_hex_codes (x ∷ y ∷ s) = elim (is_space x) [
  | true ↦ from_hex_codes (y ∷ s)
  | false ↦ hex_byte x y (from_hex_codes s)
]

-- `bytes.fromhex(s)`: pairs of digits, white space between them; `none` is its ValueError.
unfoldable pub from_hex : String → Option (List ℕ)
unfolding from_hex_codes hex_byte is_space
from_hex s = from_hex_codes (codes s)

from_hex_runs : from_hex "0aF f 10" ≡ none
unfolding from_hex
from_hex_runs = refl

from_hex_spaced : from_hex " 0aFf 10 " ≡ some (10 ∷ 255 ∷ 16 ∷ [])
unfolding from_hex
from_hex_spaced = refl

join_runs : join "." ("a" ∷ "bc" ∷ "d" ∷ []) ≡ "a.bc.d"
unfolding join
join_runs = refl

split_runs : split b'.' (codes "a..b") ≡ codes "a" ∷ [] ∷ codes "b" ∷ []
unfolding split
split_runs = refl

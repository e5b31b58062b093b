-- ===== src/Swap/Tag.antt =====
-- `session_tag` and `parse_session_tag` of src/swap.py: the memo that ties a payment to a step of a
-- trade. Texts are sequences of code points here; the Unicode database is a parameter.
pub mod RoundTrip
use lapsecoin.Prelude.{
  ℕ, zero, suc, ◌+◌, ◌-◌, ◌*◌, ◌/◌, ◌%◌, Bool, true, false, not, ◌&&◌, ◌||◌, Option, none, some,
  List, [], ◌∷◌, ◌++◌, map, ltb, leb, ◌==◌, if◌then◌else◌, length, take,
}
use lapsecoin.Prelude.Text.{split, utf8}
use lapsecoin.Prelude.Result.{Result, ok, raised, value_error, ◌>>=◌}

-- `c.isdigit()`, the value of a decimal digit, and `c.isspace()`, for the code points that are not
-- ASCII.
pub record Unicode : Type 0 where
  pub isdigit : ℕ → Bool
  pub decimal : ℕ → Option ℕ
  pub isspace : ℕ → Bool

abbrev pub order_tag_len : ℕ
order_tag_len = 8

abbrev pub session_tag_len : ℕ
session_tag_len = 8

-- `s.replace("-", "")`
unfoldable pub without_dashes : List ℕ → List ℕ
without_dashes [] = []
without_dashes (c ∷ s) = let rest = without_dashes s in if c == b'-' then rest else c ∷ rest

-- `str(n)`, on fuel: a number has no more digits than its value and one.
unfoldable pub digits : ℕ → ℕ → List ℕ
digits zero n = []
digits (suc fuel) n =
    let high = digits fuel (n / 10) in
    if ltb n 10 then (b'0' + n) ∷ [] else high ++ (b'0' + n % 10) ∷ []

abbrev pub decimal_of : ℕ → List ℕ
decimal_of n = digits (n + 1) n

-- `len(s.encode())`
unfoldable pub encoded_length : List ℕ → ℕ
encoded_length [] = 0
encoded_length (c ∷ s) = length (utf8 c) + encoded_length s

unfoldable pub session_tag : List ℕ → List ℕ → ℕ → Result (List ℕ)
session_tag order_id session_id n =
    let order8 = take order_tag_len (without_dashes order_id) in
    let session8 = take session_tag_len session_id in
    let tag = order8 ++ b':' ∷ (session8 ++ b':' ∷ decimal_of n) in
    if ltb 28 (encoded_length tag) then raised value_error else ok tag

abbrev pub is_hex_digit : ℕ → Bool
is_hex_digit c =
    (leb b'0' c && leb c b'9') || (leb b'a' c && leb c b'f') || (leb b'A' c && leb c b'F')

abbrev pub is_ascii_space : ℕ → Bool
is_ascii_space c = c == 32 || (leb 9 c && leb c 13)

unfoldable pub all_spaces : List ℕ → Bool
all_spaces [] = true
all_spaces (c ∷ s) = is_ascii_space c && all_spaces s

-- The digits of `int(s, 16)` after the first: single underscores between them, spaces at the end.
-- The flag says that an underscore came just before.
unfoldable pub hex_rest : Bool → List ℕ → Bool
hex_rest after [] = not after
hex_rest after (c ∷ s) =
    let next = hex_rest false s in
    let skip = hex_rest true s in
    if is_hex_digit c
    then next
    else if after
    then false
    else if c == b'_'
    then skip
    else all_spaces (c ∷ s)

abbrev hex_start : List ℕ → Bool
hex_start [] = false
hex_start (c ∷ s) = is_hex_digit c && hex_rest false s

-- After the prefix `0x` one underscore may stand.
abbrev after_prefix : List ℕ → Bool
after_prefix [] = false
after_prefix (c ∷ s) = if c == b'_' then hex_start s else hex_start (c ∷ s)

abbrev unprefixed : List ℕ → Bool
unprefixed (c ∷ x ∷ s) =
    if c == b'0' && (x == b'x' || x == b'X') then after_prefix s else hex_start (c ∷ x ∷ s)
unprefixed s = hex_start s

abbrev unsigned : List ℕ → Bool
unsigned [] = false
unsigned (c ∷ s) = if c == b'+' || c == b'-' then unprefixed s else unprefixed (c ∷ s)

unfoldable pub skip_spaces : List ℕ → List ℕ
skip_spaces [] = []
skip_spaces (c ∷ s) = let rest = skip_spaces s in if is_ascii_space c then rest else c ∷ s

module _ (u : Unicode) where
  -- How `int` reads a code point: a decimal digit or a space of any script as the ASCII one.
  unfoldable pub to_ascii : ℕ → ℕ
  to_ascii c =
      if ltb c 127
      then c
      else if u.isspace c
      then 32
      else elim (u.decimal c) as (λ o. ℕ) [ none ↦ b'?' | some d ↦ b'0' + d ]

  -- Does `int(s, 16)` give a number?
  unfoldable pub is_int16 : List ℕ → Bool
  is_int16 s = unsigned (skip_spaces (map to_ascii s))

  unfoldable pub is_hex_of_length : List ℕ → ℕ → Bool
  is_hex_of_length s n = length s == n && is_int16 s

  abbrev pub is_digit : ℕ → Bool
  is_digit c = if ltb c 128 then leb b'0' c && leb c b'9' else u.isdigit c

  -- `s.isdigit()`: not empty, and digits only.
  unfoldable pub all_digits : List ℕ → Bool
  all_digits [] = true
  all_digits (c ∷ s) = is_digit c && all_digits s

  abbrev pub isdigit : List ℕ → Bool
  isdigit [] = false
  isdigit (c ∷ s) = all_digits (c ∷ s)

  -- `int(s)` of digits: those that are no decimal digits, such as superscripts, make it raise.
  unfoldable pub int_from : ℕ → List ℕ → Result ℕ
  int_from value [] = ok value
  int_from value (c ∷ s) =
      let d = to_ascii c in
      let rest = int_from (value * 10 + (d - b'0')) s in
      if leb b'0' d && leb d b'9' then rest else raised value_error

  pub record Tag : Type 0 where
    pub order8 : List ℕ
    pub session8 : List ℕ
    pub step : ℕ

  abbrev pub parsed : List ℕ → List ℕ → Result ℕ → Result (Option Tag)
  parsed order8 session8 step = do
    n ← step
    ok (some (record { order8 = order8; session8 = session8; step = n }))

  abbrev pub parse_parts : List (List ℕ) → Result (Option Tag)
  parse_parts (order8 ∷ session8 ∷ step ∷ []) =
      if not (is_hex_of_length order8 order_tag_len)
      then ok none
      else if not (is_hex_of_length session8 session_tag_len)
      then ok none
      else if not (isdigit step)
      then ok none
      else parsed order8 session8 (int_from 0 step)
  parse_parts _ = ok none

  -- A memo that is no text is none of this: the argument is the text.
  unfoldable pub parse_session_tag : List ℕ → Result (Option Tag)
  parse_session_tag memo = parse_parts (split b':' memo)

-- ===== src/Crypto.antt =====
-- src/crypto.py: addresses. SHA-256 (hashlib), FALCON-512 (liboqs) and the serializer (orjson) are
-- no code of the repository; they are the fields of `Crypto`, as is the word list, a data file.
use lapsecoin.Prelude.{
  ℕ, zero, suc, ◌+◌, ◌*◌, ◌/◌, ◌%◌, ◌^◌, ◌-◌, String, Bool, true, false, ◌&&◌, ◌||◌, Option, none,
  some, List, [], ◌∷◌, length, get_elem?, ◌==◌,
}
use lapsecoin.Prelude.Text.{codes, split, same_codes, join}
use lapsecoin.Params.{address_word_count, word_bits}
use lapsecoin.Json.{Json, Fields, str}
use mathlib.Core.List.{reverse}

-- `falcon` is `none` where the library raises.
pub record Crypto : Type 0 where
  pub wordlist : List String
  pub sha256 : List ℕ → List ℕ
  pub sha256_hex : List ℕ → String
  pub canonical_json : Fields → List ℕ
  pub falcon : List ℕ → List ℕ → List ℕ → Option Bool

-- `verify`: an exception of the library counts as a bad signature.
unfoldable pub verify : Crypto → List ℕ → List ℕ → List ℕ → Bool
verify c message signature public_key = elim (c.falcon message signature public_key) [
  | none ↦ false
  | some answer ↦ answer
]

-- `int.from_bytes(h[:n], "big")`
from_bytes : ℕ → List ℕ → ℕ → ℕ
from_bytes zero h acc = acc
from_bytes (suc n) [] acc = acc
from_bytes (suc n) (b ∷ h) acc = from_bytes n h (acc * 256 + b)

-- The loop over the words, lowest eleven bits first; `none` is an index past the list.
address_words : List String → ℕ → ℕ → Option (List String)
address_words wordlist zero bits = some []
address_words wordlist (suc n) bits = elim (get_elem? wordlist (bits % 2 ^ word_bits)) [
  | none ↦ none
  | some w ↦ elim (address_words wordlist n (bits / 2 ^ word_bits)) [
    | none ↦ none
    | some ws ↦ some (w ∷ ws)
  ]
]

joined : Option (List String) → Option String
joined none = none
joined (some ws) = some (join "." (reverse ws))

unfoldable pub public_key_to_address : Crypto → List ℕ → Option String
unfolding from_bytes address_words joined
public_key_to_address c public_key =
    let bits =
      from_bytes 17 (c.sha256 public_key) 0 / 2 ^ (17 * 8 - address_word_count * word_bits) in
    joined (address_words c.wordlist address_word_count bits)

-- The first words of the list, as many as there are.
first_words : ℕ → List String → List String
first_words zero ws = []
first_words (suc n) [] = []
first_words (suc n) (w ∷ ws) = w ∷ first_words n ws

unfoldable pub burn_address : Crypto → String
unfolding first_words
burn_address c = join "." (first_words address_word_count c.wordlist)

in_wordlist : List String → List ℕ → Bool
in_wordlist [] w = false
in_wordlist (v ∷ vs) w = same_codes (codes v) w || in_wordlist vs w

all_in_wordlist : List String → List (List ℕ) → Bool
all_in_wordlist wordlist [] = true
all_in_wordlist wordlist (w ∷ ws) = in_wordlist wordlist w && all_in_wordlist wordlist ws

-- `is_valid_address`, on any value: a text of twelve words of the list, joined by dots.
unfoldable pub is_valid_address : Crypto → Json → Bool
unfolding in_wordlist all_in_wordlist
is_valid_address c (str s) =
    let words = split b'.' (codes s) in
    length words == address_word_count && all_in_wordlist c.wordlist words
is_valid_address c _ = false

-- ===== src/Prelude/Result.antt =====
-- What a check or a method of the program can end in. The checks return `(True, None)` or
-- `(False, error_string)`, and any of them may raise: a `Result` is a value, a refusal with its
-- message, or an exception.
use mathlib.Core.Path.{◌≡◌, refl, ap}
use mathlib.Core.Bool.{Bool, true, false}
use Prim.Native.String.{String}

-- The messages of tx.py, block.py and mempool.py, without the numbers that they print.
pub data Reason : Type 0 where
  unexpected_fields outputs_not_list too_many_outputs output_keys amount_not_positive : Reason
  invalid_address own_address fee_negative nonce_not_int memo_not_str memo_null_byte : Reason
  memo_too_long burn_sender not_hex_strings pubkey_mismatch invalid_signature malformed : Reason
  bad_nonce insufficient_balance board_fee_low : Reason
  missing_field : String → Reason
  over_size_limit hash_mismatch no_parent parent_mismatch height_gap no_timestamp : Reason
  timestamp_ahead timestamp_early invalid_builder no_vdf iterations_mismatch invalid_vdf : Reason
  tx_not_dict duplicate mempool_full genesis_mismatch validation_error not_better : Reason
  trade_too_large : Reason
  order_rejected : String → Reason
  invalid_tx : Reason → Reason

-- The Python exceptions that the modelled code can raise.
pub data Raised : Type 0 where
  key_error type_error value_error attribute_error index_error overflow_error : Raised
  assertion_error swap_error unreachable : Raised

pub data Result {ℓ} (A : Type ℓ) : Type ℓ where
  ok : A → Result A
  refused : Reason → Result A
  raised : Raised → Result A

-- A check that passes has no more to say.
abbrev pub Check : Type 0
Check = Result (Unit {0})

infixl 5 ◌>>=◌ ◌>>◌
abbrev pub ◌>>=◌ {ℓ κ} : {A : Type ℓ} {B : Type κ} → Result A → (A → Result B) → Result B
ok a >>= f = f a
refused e >>= f = refused e
raised x >>= f = raised x

abbrev pub ◌>>◌ {ℓ} : {B : Type ℓ} → Check → Result B → Result B
m >> k = m >>= λ _. k

-- `if test: return False, reason`
abbrev pub refuse_if : Bool → Reason → Check
refuse_if true e = refused e
refuse_if false e = ok tt

value_or {ℓ} : {A : Type ℓ} → Result A → A → A
value_or (ok a) d = a
value_or (refused e) d = d
value_or (raised x) d = d

-- What a chain that ended well has gone through.
pub >>=-eq-ok {ℓ κ} :
    {A : Type ℓ} {B : Type κ} {last : B} (first : Result A) (next : A → Result B)
    → (first >>= next) ≡ ok last
    → (between : A) × (first ≡ ok between) × (next between ≡ ok last)
>>=-eq-ok (refused why) next e = cc
>>=-eq-ok (raised x) next e = cc
>>=-eq-ok (ok between) next e = (between, refl, e)

pub ok-injective {ℓ} : {A : Type ℓ} {a b : A} → ok a ≡ ok b → a ≡ b
unfolding value_or
ok-injective {a = a} e = ap (λ r. value_or r a) e

pub refuse_if-eq-ok : (b : Bool) (e : Reason) {u : Unit {0}} → refuse_if b e ≡ ok u → b ≡ false
refuse_if-eq-ok true e h = cc
refuse_if-eq-ok false e h = refl

pub bind-ok {ℓ} : {A : Type ℓ} (m : Result A) → (m >>= λ a. ok a) ≡ m
bind-ok (ok a) = refl
bind-ok (refused e) = refl
bind-ok (raised x) = refl

-- Two chains that begin alike and go on alike.
pub bind_assoc {ℓ κ μ} :
    {A : Type ℓ} {B : Type κ} {C : Type μ} (m : Result A) (f : A → Result B) (g : B → Result C)
    (k : A → Result C)
    → ((a : A) → k a ≡ (f a >>= g))
    → (m >>= k) ≡ ((m >>= f) >>= g)
bind_assoc (ok a) f g k h = h a
bind_assoc (refused e) f g k h = refl
bind_assoc (raised x) f g k h = refl

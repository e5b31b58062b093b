-- ===== src/Tx/Signature.antt =====
-- `_check_signature` of src/tx.py and its cache of verdicts, an LRU of cachetools.
use lapsecoin.Prelude.{ℕ, String, ◌≡◌, ◌⊎◌, Bool, not, Option, none, some, List}
use lapsecoin.Prelude.Text.{from_hex}
use lapsecoin.Prelude.Result.{
  Result, Check, ok, refused, raised, ◌>>=◌, ◌>>◌, refuse_if, not_hex_strings, pubkey_mismatch,
  invalid_signature, malformed,
}
use lapsecoin.Json.{Json, Fields, str, get, index, is_str}
use lapsecoin.Crypto.{Crypto, verify, public_key_to_address}
use lapsecoin.Tx.{serialize_for_signing}

-- `(crypto.sha256(signed), sig_hex, pubkey_hex)`
pub record Key : Type 0 where
  pub digest : List ℕ
  pub signature : String
  pub pubkey : String

-- The cache of the library: a look-up may reorder it, a store may drop other entries, and neither
-- makes an entry that was not stored.
pub record LruCache : Type 1 where
  pub Cache : Type 0
  pub get : Cache → Key → Option Bool
  pub touch : Cache → Key → Cache
  pub set : Cache → Key → Bool → Cache
  pub get-touch : (m : Cache) (k j : Key) (v : Bool) → get (touch m k) j ≡ some v → get m j ≡ some v
  pub get-set :
      (m : Cache) (k j : Key) (v w : Bool)
      → get (set m k v) j ≡ some w
      → ((k ≡ j) × (v ≡ w)) ⊎ (get m j ≡ some w)

-- What a look-up needs of the two texts, once both are known to be texts.
abbrev pub or_malformed {ℓ} : {A : Type ℓ} → Option A → Result A
or_malformed none = refused malformed
or_malformed (some a) = ok a

abbrev pub text_or_refuse : Json → Result String
text_or_refuse (str s) = ok s
text_or_refuse _ = refused not_hex_strings

-- The parts of the question: what was signed, the signature and the key, in bytes.
pub record Question : Type 0 where
  pub signed : List ℕ
  pub sig_bytes : List ℕ
  pub pubkey_bytes : List ℕ
  pub key : Key

-- The address that the public key stands for is compared with `tx_dict["from"]`.
abbrev pub same_address : Option String → Json → Result Bool
same_address none v = refused malformed
same_address (some a) v = ok (is_str v a)

module _ (c : Crypto) where
  -- Everything before the verdict. Both fields are there when this runs, after the check of the
  -- fields; the `try` turns each exception into the same refusal.
  unfoldable pub question : Fields → Result Question
  question tx = do
    pubkey ← index "pubkey" tx
    signature ← index "signature" tx
    pubkey_hex ← text_or_refuse pubkey
    sig_hex ← text_or_refuse signature
    pubkey_bytes ← or_malformed (from_hex pubkey_hex)
    sig_bytes ← or_malformed (from_hex sig_hex)
    from ← or_malformed (get "from" tx)
    same ← same_address (public_key_to_address c pubkey_bytes) from
    refuse_if (not same) pubkey_mismatch
    let signed = serialize_for_signing c tx
    ok (record {
      signed = signed;
      sig_bytes = sig_bytes;
      pubkey_bytes = pubkey_bytes;
      key = record { digest = c.sha256 signed; signature = sig_hex; pubkey = pubkey_hex };
    })

  module _ (lru : LruCache) where
    open lru use {Cache}

    -- The cached verdict, or a fresh one that is stored.
    unfoldable pub answered : Question → Option Bool → Cache → Bool × Cache
    answered q (some v) m = (v, lru.touch m q.key)
    answered q none m =
        let v = verify c q.signed q.sig_bytes q.pubkey_bytes in (v, lru.set m q.key v)

    unfoldable pub verdict : Question → Cache → Bool × Cache
    unfolding answered
    verdict q m = answered q (lru.get m q.key) m

    unfoldable pub judged : Result Question → Cache → Check × Cache
    unfolding verdict
    judged (ok q) m = let (v, m') = verdict q m in (refuse_if (not v) invalid_signature, m')
    judged (refused e) m = (refused e, m)
    judged (raised x) m = (raised x, m)

    unfoldable pub check_signature : Fields → Cache → Check × Cache
    unfolding question judged
    check_signature tx m = judged (question tx) m

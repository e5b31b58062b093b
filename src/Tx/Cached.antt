-- ===== src/Tx/Cached.antt =====
-- The cache of signature verdicts in src/tx.py changes no answer.
use mathlib.Core.Path.{subst}
use lapsecoin.Prelude.{◌≡◌, refl, ap, sym, ◌∙◌, Bool, not, Option, none, some, inl, inr}
use lapsecoin.Prelude.Text.{from_hex}
use lapsecoin.Prelude.Result.{
  Result, Check, ok, refused, raised, ◌>>=◌, >>=-eq-ok, ok-injective, refuse_if, invalid_signature,
  pubkey_mismatch,
}
use lapsecoin.Json.{Fields, get, index}
use lapsecoin.Crypto.{Crypto, verify, public_key_to_address}
use lapsecoin.Tx.{serialize_for_signing}
use lapsecoin.Tx.Signature.{
  Key, LruCache, Question, or_malformed, text_or_refuse, same_address, question, answered, verdict,
  judged, check_signature,
}

-- The verdict with no cache: the verification that the code would do.
pub fresh : Crypto → Question → Bool
fresh c q = verify c q.signed q.sig_bytes q.pubkey_bytes

fresh_lem : (c : Crypto) (q : Question) → fresh c q ≡ verify c q.signed q.sig_bytes q.pubkey_bytes
unfolding fresh
fresh_lem c q = refl

or_malformed-ok {ℓ} : {A : Type ℓ} (o : Option A) {a : A} → or_malformed o ≡ ok a → o ≡ some a
or_malformed-ok none e = cc
or_malformed-ok (some a) e = cc

-- What the key of a question says of the question.
record Reads (c : Crypto) (tx : Fields) (q : Question) : Type 0 where
  signed-eq : q.signed ≡ serialize_for_signing c tx
  digest-eq : q.key.digest ≡ c.sha256 q.signed
  sig-eq : from_hex q.key.signature ≡ some q.sig_bytes
  pubkey-eq : from_hex q.key.pubkey ≡ some q.pubkey_bytes

question-Reads : (c : Crypto) (tx : Fields) {q : Question} → question c tx ≡ ok q → Reads c tx q
unfolding question
question-Reads c tx {q = q} e =
    let (pubkey, e0, r0) = >>=-eq-ok (index "pubkey" tx) _ e in
    let (signature, e1, r1) = >>=-eq-ok (index "signature" tx) _ r0 in
    let (pubkey_hex, e2, r2) = >>=-eq-ok (text_or_refuse pubkey) _ r1 in
    let (sig_hex, e3, r3) = >>=-eq-ok (text_or_refuse signature) _ r2 in
    let (pubkey_bytes, e4, r4) = >>=-eq-ok (or_malformed (from_hex pubkey_hex)) _ r3 in
    let (sig_bytes, e5, r5) = >>=-eq-ok (or_malformed (from_hex sig_hex)) _ r4 in
    let (from, e6, r6) = >>=-eq-ok (or_malformed (get "from" tx)) _ r5 in
    let (same, e7, r7) =
      >>=-eq-ok (same_address (public_key_to_address c pubkey_bytes) from) _ r6 in
    let (u, e8, r8) = >>=-eq-ok (refuse_if (not same) pubkey_mismatch) _ r7 in
    subst (Reads c tx) (ok-injective r8) (record {
      signed-eq = refl;
      digest-eq = refl;
      sig-eq = or_malformed-ok (from_hex sig_hex) e5;
      pubkey-eq = or_malformed-ok (from_hex pubkey_hex) e4;
    })

-- No other transaction has the digest of this one: what SHA-256 is used for.
abbrev pub IsUnique : Crypto → Fields → Type 0
IsUnique c tx =
    (tx' : Fields)
    → c.sha256 (serialize_for_signing c tx') ≡ c.sha256 (serialize_for_signing c tx)
    → serialize_for_signing c tx' ≡ serialize_for_signing c tx

-- Questions with one key are one question.
same_fresh :
    (c : Crypto) (tx tx' : Fields) (q q' : Question)
    → IsUnique c tx
    → Reads c tx q
    → Reads c tx' q'
    → q.key ≡ q'.key
    → fresh c q ≡ fresh c q'
unfolding fresh
same_fresh c tx tx' q q' unique r r' e =
    let digest : c.sha256 (serialize_for_signing c tx') ≡ c.sha256 (serialize_for_signing c tx) =
      ap c.sha256 (sym r'.signed-eq)
      ∙ sym r'.digest-eq
      ∙ ap (λ (k : Key). k.digest) (sym e)
      ∙ r.digest-eq
      ∙ ap c.sha256 r.signed-eq in
    let signed : q'.signed ≡ q.signed = r'.signed-eq ∙ unique tx' digest ∙ sym r.signed-eq in
    let sig : some q.sig_bytes ≡ some q'.sig_bytes =
      sym r.sig-eq ∙ ap (λ (k : Key). from_hex k.signature) e ∙ r'.sig-eq in
    let pubkey : some q.pubkey_bytes ≡ some q'.pubkey_bytes =
      sym r.pubkey-eq ∙ ap (λ (k : Key). from_hex k.pubkey) e ∙ r'.pubkey-eq in
    cc (signed, sig, pubkey)

module _ (c : Crypto) (lru : LruCache) where
  open lru use {Cache}

  -- Every verdict in the cache is the one that a fresh verification would give.
  abbrev pub IsSound : Cache → Type 0
  IsSound m =
      (tx : Fields) (q : Question)
      → question c tx ≡ ok q
      → (v : Bool) → lru.get m q.key ≡ some v
      → v ≡ fresh c q

  -- The answer of the check with no cache at all.
  pub fresh_check : Fields → Check
  fresh_check tx = do q ← question c tx; refuse_if (not (fresh c q)) invalid_signature

  answered-fresh :
      (tx : Fields) (q : Question) (o : Option Bool) (m : Cache)
      → IsSound m
      → question c tx ≡ ok q
      → lru.get m q.key ≡ o
      → (answered c lru q o m).0 ≡ fresh c q
  unfolding answered fresh
  answered-fresh tx q (some v) m h e g = h tx q e v g
  answered-fresh tx q none m h e g = refl

  answered-IsSound :
      (tx : Fields) (q : Question) (o : Option Bool) (m : Cache)
      → IsUnique c tx
      → IsSound m
      → question c tx ≡ ok q
      → IsSound (answered c lru q o m).1
  unfolding answered
  answered-IsSound tx q (some x) m unique h e =
      λ tx' q' e' v found. h tx' q' e' v (lru.get-touch m q.key q'.key v found)
  answered-IsSound tx q none m unique h e = λ tx' q' e' v found.
      elim (lru.get-set m q.key q'.key (verify c q.signed q.sig_bytes q.pubkey_bytes) v found) [
        | inl (same, value) ↦
            sym value
            ∙ sym (fresh_lem c q)
            ∙ same_fresh c tx tx' q q' unique (question-Reads c tx e) (question-Reads c tx' e') same
        | inr old ↦ h tx' q' e' v old
      ]

  -- With a cache whose verdicts are right, and when no other transaction has the signing digest of
  -- this one, the cached signature check gives the answer of a fresh verification and leaves a
  -- cache whose verdicts are right.
  pub check_signature-fresh :
      (tx : Fields) (m : Cache)
      → IsUnique c tx
      → IsSound m
      → ((check_signature c lru tx m).0 ≡ fresh_check tx) × IsSound (check_signature c lru tx m).1
  unfolding check_signature fresh_check verdict
  check_signature-fresh tx m unique h = by_answer (question c tx) refl
    where
      by_answer :
          (r : Result Question)
          → question c tx ≡ r
          → ((judged c lru r m).0 ≡ (do q ← r; refuse_if (not (fresh c q)) invalid_signature))
            × IsSound (judged c lru r m).1
      by_answer (ok q) e = (
        ap (λ v. refuse_if (not v) invalid_signature)
            (answered-fresh tx q (lru.get m q.key) m h e refl),
        answered-IsSound tx q (lru.get m q.key) m unique h e,
      )
      by_answer (refused x) e = (refl, h)
      by_answer (raised x) e = (refl, h)

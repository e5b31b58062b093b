-- ===== src/Market/Offer.antt =====
-- What an order is that src/market.py accepts.
use lapsecoin.Prelude.{
  ℕ, ◌<◌, ◌≡◌, ◌⊎◌, refl, sym, ◌∙◌, ap, String, Bool, true, false, not, ◌||◌, Option, some, List,
  [], ◌∷◌, leb, arith,
}
use lapsecoin.Prelude.Int.{ℤ, pos, ◌+ℤ◌, ◌≤ℤ◌, leb_ℤ, ltb_ℤ}
use lapsecoin.Prelude.Result.{ok, >>=-eq-ok, refuse_if, refuse_if-eq-ok, ok-injective}
use lapsecoin.Json.{Json, Fields, index, null, bool, int, float, str, arr, obj, is_str}
use lapsecoin.Prelude.Text.{from_hex}
use lapsecoin.Crypto.{Crypto, verify, public_key_to_address, is_valid_address}
use lapsecoin.Market.{
  Row, signed_fields, has_unsigned, whole, whole_field, signed_part, check_direction, check_terms,
  check_expiry, check_admission, count_rows, live_orders, hex_or_refuse, address_of,
  verify_signature, verify_fields, verify_order, max_orders_per_maker, max_orders_total,
  max_expiry_horizon_blocks, lacks_field,
}

-- What the maker signed are exactly the fields that are kept, with a key of the maker's address.
pub record IsSigned (c : Crypto) (order : Fields) : Type 0 where
  pub maker : Json
  pub signed : Fields
  pub signature_hex : String
  pub pubkey_hex : String
  pub signature : List ℕ
  pub pubkey : List ℕ
  pub address : String
  pub signature_hex-eq : index "signature" order ≡ ok (str signature_hex)
  pub pubkey_hex-eq : index "pubkey" order ≡ ok (str pubkey_hex)
  pub signature-eq : from_hex signature_hex ≡ some signature
  pub pubkey-eq : from_hex pubkey_hex ≡ some pubkey
  pub maker-eq : index "maker_lapse_addr" order ≡ ok maker
  pub signed-eq : signed_part signed_fields order ≡ ok signed
  pub address-eq : public_key_to_address c pubkey ≡ some address
  pub same : is_str maker address ≡ true
  pub verified : c.falcon (c.canonical_json signed) signature pubkey ≡ some true

not-false : (b : Bool) → not b ≡ false → b ≡ true
not-false true e = refl
not-false false e = cc

hex_or_refuse-ok :
    (v : Json) {bytes : List ℕ}
    → hex_or_refuse v ≡ ok bytes
    → (text : String) × (v ≡ str text) × (from_hex text ≡ some bytes)
unfolding hex_or_refuse
hex_or_refuse-ok (str t) e = (t, refl, ground arith)
hex_or_refuse-ok _ e = cc

address_of-ok :
    (c : Crypto) (pubkey : List ℕ) {address : String}
    → address_of c pubkey ≡ ok address
    → public_key_to_address c pubkey ≡ some address
unfolding address_of
address_of-ok c pubkey e = ground arith

verify-answer :
    (c : Crypto) (message signature pubkey : List ℕ)
    → verify c message signature pubkey ≡ true
    → c.falcon message signature pubkey ≡ some true
unfolding verify
verify-answer c message signature pubkey e = ground arith

verify_signature-IsSigned :
    (c : Crypto) (order : Fields) {u : Unit {0}}
    → verify_signature c order ≡ ok u
    → IsSigned c order
unfolding verify_signature
verify_signature-IsSigned c order e =
    let (pubkey_hex, e0, r0) = >>=-eq-ok (index "pubkey" order) _ e in
    let (signature_hex, e1, r1) = >>=-eq-ok (index "signature" order) _ r0 in
    let (pubkey, e2, r2) = >>=-eq-ok (hex_or_refuse pubkey_hex) _ r1 in
    let (signature, e3, r3) = >>=-eq-ok (hex_or_refuse signature_hex) _ r2 in
    let (address, e4, r4) = >>=-eq-ok (address_of c pubkey) _ r3 in
    let (maker, e5, r5) = >>=-eq-ok (index "maker_lapse_addr" order) _ r4 in
    let (u6, e6, r6) = >>=-eq-ok (refuse_if (not (is_str maker address)) _) _ r5 in
    let (signed, e7, r7) = >>=-eq-ok (signed_part signed_fields order) _ r6 in
    let (pubkey_text, is_pubkey, pubkey_bytes) = hex_or_refuse-ok pubkey_hex e2 in
    let (signature_text, is_signature, signature_bytes) = hex_or_refuse-ok signature_hex e3 in
    record {
      maker = maker;
      signed = signed;
      signature_hex = signature_text;
      pubkey_hex = pubkey_text;
      signature_hex-eq = e1 ∙ ap ok is_signature;
      pubkey_hex-eq = e0 ∙ ap ok is_pubkey;
      signature-eq = signature_bytes;
      pubkey-eq = pubkey_bytes;
      signature = signature;
      pubkey = pubkey;
      address = address;
      maker-eq = e5;
      signed-eq = e7;
      address-eq = address_of-ok c pubkey e4;
      same = not-false _ (refuse_if-eq-ok _ _ e6);
      verified = verify-answer c _ signature pubkey (not-false _ (refuse_if-eq-ok _ _ r7));
    }

-- The bounds of a fill are within the order, where 0 is no bound from above.
pub record IsSound (lapse_total price min_fill max_fill : ℤ) : Type 0 where
  pub sold : pos 1 ≤ℤ lapse_total
  pub priced : pos 1 ≤ℤ price
  pub min_bound : pos 0 ≤ℤ min_fill
  pub min_fits : min_fill ≤ℤ lapse_total
  pub max_bound : (max_fill ≡ pos 0) ⊎ (min_fill ≤ℤ max_fill)

check_terms-IsSound :
    (lapse_total price min_fill max_fill : ℤ) {u : Unit {0}}
    → check_terms lapse_total price min_fill max_fill ≡ ok u
    → IsSound lapse_total price min_fill max_fill
unfolding check_terms
check_terms-IsSound l p lo hi e =
    let (u0, e0, r0) = >>=-eq-ok (refuse_if (leb_ℤ l (pos 0)) _) _ e in
    let (u1, e1, r1) = >>=-eq-ok (refuse_if (leb_ℤ p (pos 0)) _) _ r0 in
    let (u2, e2, r2) = >>=-eq-ok (refuse_if (ltb_ℤ lo (pos 0) || ltb_ℤ hi (pos 0)) _) _ r1 in
    let (u3, e3, r3) = >>=-eq-ok (refuse_if (ltb_ℤ l lo) _) _ r2 in
    let f0 = refuse_if-eq-ok _ _ e0 in
    let f1 = refuse_if-eq-ok _ _ e1 in
    let f2 = refuse_if-eq-ok _ _ e2 in
    let f3 = refuse_if-eq-ok _ _ e3 in
    let f4 = refuse_if-eq-ok _ _ r3 in
    record {
      sold = ground (arith, f0);
      priced = ground (arith, f1);
      min_bound = ground (arith, f2);
      min_fits = ground (arith, f3);
      max_bound = ground (arith, f2, f4);
    }

-- The order is in time, and there is room in the book for one more, of this maker too.
pub record IsAdmitted (rows : List Row) (height : Option ℤ) (maker : Json) (expiry : ℤ)
    : Type 0 where
  pub unexpired :
      (h : ℤ)
      → height ≡ some h
      → (ltb_ℤ h expiry ≡ true) × (expiry ≤ℤ h +ℤ pos max_expiry_horizon_blocks)
  pub room : count_rows rows < max_orders_total
  pub maker_room : live_orders maker rows < max_orders_per_maker

check-IsAdmitted :
    (rows : List Row) (height : Option ℤ) (maker : Json) (expiry : ℤ) {u v : Unit {0}}
    → check_expiry height expiry ≡ ok u
    → check_admission rows maker ≡ ok v
    → IsAdmitted rows height maker expiry
unfolding check_expiry check_admission
check-IsAdmitted rows height maker expiry e a =
    let (u0, e0, r0) = >>=-eq-ok (refuse_if (leb max_orders_total (count_rows rows)) _) _ a in
    let f0 = refuse_if-eq-ok _ _ e0 in
    let f1 = refuse_if-eq-ok _ _ r0 in
    record {
      unexpired = λ h w. in_time h (ap (λ o. check_expiry o expiry) (sym w) ∙ e);
      room = ground (arith, f0);
      maker_room = ground (arith, f1);
    }
  where
    in_time :
        (h : ℤ) {u : Unit {0}}
        → check_expiry (some h) expiry ≡ ok u
        → (ltb_ℤ h expiry ≡ true) × (expiry ≤ℤ h +ℤ pos max_expiry_horizon_blocks)
    in_time h e =
        let (u0, e0, r0) = >>=-eq-ok (refuse_if (leb_ℤ expiry h) _) _ e in
        let f0 = refuse_if-eq-ok _ _ e0 in
        let f1 = refuse_if-eq-ok _ _ r0 in (ground (arith, f0), ground (arith, f1))

pub record IsOffer (c : Crypto) (rows : List Row) (height : Option ℤ) (order : Fields)
    : Type 0 where
  pub lapse_total : ℤ
  pub price : ℤ
  pub min_fill : ℤ
  pub max_fill : ℤ
  pub expiry : ℤ
  pub maker : Json
  pub maker-eq : index "maker_lapse_addr" order ≡ ok maker
  pub lapse_total-eq : index "lapse_total" order ≡ ok (int lapse_total)
  pub price-eq : index "price_stroops_per_lapse" order ≡ ok (int price)
  pub min_fill-eq : index "min_fill" order ≡ ok (int min_fill)
  pub max_fill-eq : index "max_fill" order ≡ ok (int max_fill)
  pub expiry-eq : index "expiry_block" order ≡ ok (int expiry)
  pub complete : lacks_field signed_fields order ≡ false
  pub known : has_unsigned order ≡ false
  pub sound : IsSound lapse_total price min_fill max_fill
  pub signed : IsSigned c order
  pub admitted : IsAdmitted rows height maker expiry
  pub valid : is_valid_address c maker ≡ true

whole-eq : (k : String) (v : Json) {z : ℤ} → whole k v ≡ ok z → v ≡ int z
unfolding whole
whole-eq k (int a) e = ap int (ok-injective e)
whole-eq k null e = cc
whole-eq k (bool b) e = cc
whole-eq k (float f) e = cc
whole-eq k (str t) e = cc
whole-eq k (arr vs) e = cc
whole-eq k (obj d) e = cc

whole_field-eq :
    (k : String) (order : Fields) {z : ℤ} → whole_field k order ≡ ok z → index k order ≡ ok (int z)
unfolding whole_field
whole_field-eq k order e =
    let (v, e0, r0) = >>=-eq-ok (index k order) (whole k) e in e0 ∙ ap ok (whole-eq k v r0)

-- An order from the network that verify_order accepts has all the signed fields and no field
-- besides but a signature, whole numbers as its terms, a positive size and price, fill bounds
-- within the order, a valid maker address, an expiry after the known height and within the
-- horizon, room in the book and for this maker, and in its pubkey field a key with the maker's
-- address, under which its signature field verifies for those fields.
pub verify_order-IsOffer :
    (c : Crypto) (is_stellar_address : Json → Bool) (rows : List Row) (height : Option ℤ)
    (order : Fields) {u : Unit {0}}
    → verify_order c is_stellar_address rows height (obj order) ≡ ok u
    → IsOffer c rows height order
unfolding verify_order verify_fields
verify_order-IsOffer c is_stellar_address rows height order e =
    let (u0, e0, r0) = >>=-eq-ok (refuse_if (lacks_field signed_fields order) _) _ e in
    let (u1, e1, r1) = >>=-eq-ok (refuse_if (lacks_field ("signature" ∷ []) order) _) _ r0 in
    let (u2, e2, r2) = >>=-eq-ok (refuse_if (has_unsigned order) _) _ r1 in
    let (direction, e3, r3) = >>=-eq-ok (index "direction" order) _ r2 in
    let (u4, e4, r4) = >>=-eq-ok (check_direction direction) _ r3 in
    let (lapse_total, e5, r5) = >>=-eq-ok (whole_field "lapse_total" order) _ r4 in
    let (price, e6, r6) = >>=-eq-ok (whole_field "price_stroops_per_lapse" order) _ r5 in
    let (min_fill, e7, r7) = >>=-eq-ok (whole_field "min_fill" order) _ r6 in
    let (max_fill, e8, r8) = >>=-eq-ok (whole_field "max_fill" order) _ r7 in
    let (expiry, e9, r9) = >>=-eq-ok (whole_field "expiry_block" order) _ r8 in
    let (u10, e10, r10) = >>=-eq-ok (check_terms lapse_total price min_fill max_fill) _ r9 in
    let (maker, e11, r11) = >>=-eq-ok (index "maker_lapse_addr" order) _ r10 in
    let (u12, e12, r12) = >>=-eq-ok (refuse_if (not (is_valid_address c maker)) _) _ r11 in
    let (maker_xlm, e13, r13) = >>=-eq-ok (index "maker_xlm_addr" order) _ r12 in
    let (u14, e14, r14) = >>=-eq-ok (refuse_if (not (is_stellar_address maker_xlm)) _) _ r13 in
    let (u15, e15, r15) = >>=-eq-ok (check_expiry height expiry) _ r14 in
    let (u16, e16, r16) = >>=-eq-ok (check_admission rows maker) _ r15 in
    record {
      lapse_total = lapse_total;
      price = price;
      min_fill = min_fill;
      max_fill = max_fill;
      expiry = expiry;
      maker = maker;
      lapse_total-eq = whole_field-eq "lapse_total" order e5;
      price-eq = whole_field-eq "price_stroops_per_lapse" order e6;
      min_fill-eq = whole_field-eq "min_fill" order e7;
      max_fill-eq = whole_field-eq "max_fill" order e8;
      expiry-eq = whole_field-eq "expiry_block" order e9;
      maker-eq = e11;
      complete = refuse_if-eq-ok _ _ e0;
      known = refuse_if-eq-ok _ _ e2;
      sound = check_terms-IsSound lapse_total price min_fill max_fill e10;
      signed = verify_signature-IsSigned c order r16;
      admitted = check-IsAdmitted rows height maker expiry e15 e16;
      valid = not-false _ (refuse_if-eq-ok _ _ e12);
    }

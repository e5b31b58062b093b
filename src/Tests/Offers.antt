-- ===== src/Tests/Offers.antt =====
-- A run of src/market.py at a concrete order.
use lapsecoin.Prelude.{◌≡◌, refl, true, some, List, [], ◌∷◌}
use lapsecoin.Prelude.Int.{pos, ◌+ℤ◌}
use lapsecoin.Prelude.Text.{split, same_codes, from_hex, join}
use lapsecoin.Crypto.{is_valid_address, public_key_to_address, verify}
use lapsecoin.Prelude.Result.{ok}
use lapsecoin.Json.{Fields, end, field, str, int, obj}
use lapsecoin.Market.{
  Row, verify_order, verify_fields, lacks_field, has_unsigned, is_signed_field, whole, whole_field,
  check_direction, check_terms, check_expiry, check_admission, count_rows, live_orders,
  verify_signature, hex_or_refuse, address_of, signed_part,
}
use lapsecoin.Market.Offer.{IsOffer, verify_order-IsOffer}
use lapsecoin.Tests.Data.{crypto, alice}

abbrev offer : Fields
offer = field "order_id" (str "1") (
    field "maker_lapse_addr" (str alice) (
      field "maker_xlm_addr" (str "G") (
        field "direction" (str "sell") (
          field "lapse_total" (int (pos 900)) (
            field "price_stroops_per_lapse" (int (pos 7)) (
              field "min_fill" (int (pos 10)) (
                field "max_fill" (int (pos 0)) (
                  field "expiry_block" (int (pos 150))
                    (field "pubkey" (str "") (field "signature" (str "") end))))))))))

abbrev rows : List Row
rows = record { maker_lapse_addr = alice; cancelled = true } ∷ []

accepted : verify_order crypto (λ v. true) rows (some (pos 100)) (obj offer) ≡ ok tt
unfolding verify_order verify_fields lacks_field has_unsigned is_signed_field whole whole_field
    check_direction check_terms check_expiry check_admission count_rows live_orders verify_signature
    hex_or_refuse address_of signed_part is_valid_address split same_codes ◌+ℤ◌ from_hex
    public_key_to_address join verify
accepted = refl

verify_order-IsOffer_example : IsOffer crypto rows (some (pos 100)) offer
verify_order-IsOffer_example =
    verify_order-IsOffer crypto (λ v. true) rows (some (pos 100)) offer accepted

-- ===== src/Swap/Price.antt =====
-- The prices of src/swap.py round against whoever pays, and a quote can be paid.
use native.Mathlib.Nat.{div-mul-le_self}
use lapsecoin.Prelude.{ℕ, ◌+◌, ◌-◌, ◌*◌, ◌/◌, ◌≤◌, ◌<◌, ◌≡◌, sym, arith}
use lapsecoin.Prelude.Int.{ℤ, pos, pos_part, leb_ℤ}
use lapsecoin.Prelude.Result.{ok, >>=-eq-ok, ok-injective}
use lapsecoin.Params.{ticks_per_lapse}
use lapsecoin.Swap.{unless_value_error, xlm_for_lapse, lapse_for_xlm}

rounded_up : (a s : ℕ) → a ≤ s * ticks_per_lapse → (a + (ticks_per_lapse - 1)) / ticks_per_lapse ≤ s
rounded_up a s h = omega arith

-- The price of a LAPSE amount is the least number of stroops that covers it.
pub xlm_for_lapse-least :
    (lapse_ticks : ℕ) (price : ℤ) {x : ℕ}
    → xlm_for_lapse lapse_ticks price ≡ ok x
    → (lapse_ticks * pos_part price ≤ x * ticks_per_lapse)
      × (x * ticks_per_lapse < lapse_ticks * pos_part price + ticks_per_lapse)
unfolding xlm_for_lapse
xlm_for_lapse-least lapse_ticks price {x = x} e =
    let (u, e0, r0) = >>=-eq-ok (unless_value_error (leb_ℤ price (pos 0))) _ e in
    let same = sym (ok-injective r0) in rw same (omega arith, omega arith)

-- The LAPSE that an amount of XLM buys at a price costs at that price at most the amount.
pub xlm_for_lapse-lapse_for_xlm :
    (stroops : ℕ) (price : ℤ) {l x : ℕ}
    → lapse_for_xlm stroops price ≡ ok l
    → xlm_for_lapse l price ≡ ok x
    → x ≤ stroops
unfolding xlm_for_lapse lapse_for_xlm
xlm_for_lapse-lapse_for_xlm stroops price {l = l} {x = x} e f =
    let (u, e0, r0) = >>=-eq-ok (unless_value_error (leb_ℤ price (pos 0))) _ e in
    let (v, e1, r1) = >>=-eq-ok (unless_value_error (leb_ℤ price (pos 0))) _ f in
    let fits : l * pos_part price ≤ stroops * ticks_per_lapse =
      rw (sym (ok-injective r0)) (div-mul-le_self (stroops * ticks_per_lapse) (pos_part price)) in
    rw (sym (ok-injective r1)) (rounded_up (l * pos_part price) stroops fits)

-- ===== src/Tests/Swaps.antt =====
-- Runs of src/swap.py at concrete inputs. The floats of a schedule are the exact quotients here, and a
-- score is a whole number.
use lapsecoin.Prelude.{
  ℕ, ◌+◌, ◌*◌, ◌/◌, ◌≡◌, refl, true, false, none, some, List, [], ◌∷◌, take, length, total, All,
  ltb, ◌==◌, eq_iff, arith,
}
use lapsecoin.Prelude.Int.{pos, pos_part}
use lapsecoin.Prelude.Result.{ok}
use lapsecoin.Prelude.Text.{codes, utf8}
use lapsecoin.Chain.Fork.{codes_lt}
use lapsecoin.Swap.{
  Floats, build_schedule, plan_for_cap, opening_mover, i_move_first, xlm_for_lapse, lapse_for_xlm,
  increment_count, plan_from, split, amounts, spread, bump,
}
use lapsecoin.Swap.Schedule.{lapse_of, xlm_of, build_schedule-ok}
use lapsecoin.Swap.Plan.{IsSafe, plan_for_cap-IsSafe}
use lapsecoin.Swap.Opening.{i_move_first-one}
use lapsecoin.Swap.Tag.{
  Unicode, session_tag, parse_session_tag, order_tag_len, session_tag_len, without_dashes, digits,
  encoded_length,
}
use lapsecoin.Swap.Tag.RoundTrip.{IsHex, parse_session_tag-session_tag}

abbrev floats : Floats
floats = record {
  Score = ℕ;
  is_positive = λ s. ltb 0 s;
  same = λ a b. a == b;
  above = λ a b. ltb b a;
  scaled = λ cap s. pos (pos_part cap * (s + 1));
  body = λ wanted n. some (4 * wanted / (4 * n + 1));
  quarter = λ b. b / 4;
  needed = λ wanted cap. some (wanted / pos_part cap + 2);
}

abbrev plain : Unicode
plain = record { isdigit = λ c. false; decimal = λ c. none; isspace = λ c. false }

abbrev order : List ℕ
order = codes "0123-abcd-ef"

abbrev session : List ℕ
session = codes "89abcdef01"

tag_runs : session_tag order session 12 ≡ ok (codes "0123abcd:89abcdef:12")
unfolding session_tag without_dashes digits encoded_length utf8
tag_runs = refl

hex : All IsHex (take order_tag_len (without_dashes order))
unfolding without_dashes
hex = (refl, (refl, (refl, (refl, (refl, (refl, (refl, (refl, tt))))))))

session-IsHex : All IsHex (take session_tag_len session)
session-IsHex = (refl, (refl, (refl, (refl, (refl, (refl, (refl, (refl, tt))))))))

order_sized : length (take order_tag_len (without_dashes order)) ≡ 8
unfolding without_dashes
order_sized = refl

parse_session_tag-session_tag_example :
    parse_session_tag plain (codes "0123abcd:89abcdef:12")
    ≡ ok (
        some (record {
          order8 = take order_tag_len (without_dashes order);
          session8 = take session_tag_len session;
          step = 12;
        }))
parse_session_tag-session_tag_example =
    parse_session_tag-session_tag plain order session 12 order_sized refl hex session-IsHex tag_runs

plan_runs :
    plan_for_cap floats (pos 900) (pos 90) (pos 50)
    ≡ ok (record { schedule = (100, 10) ∷ (400, 40) ∷ (400, 40) ∷ []; count = 3; cap = pos 50 })
unfolding plan_for_cap increment_count plan_from build_schedule split amounts spread bump
plan_runs = refl

plan_for_cap-IsSafe_example :
    IsSafe floats
      (pos 900)
      (pos 90)
      (pos 50)
      (record { schedule = (100, 10) ∷ (400, 40) ∷ (400, 40) ∷ []; count = 3; cap = pos 50 })
plan_for_cap-IsSafe_example = plan_for_cap-IsSafe floats (pos 900) (pos 90) (pos 50) plan_runs

build_schedule-ok_example :
    (s : List (ℕ × ℕ)) × (build_schedule floats (pos 1000) (pos 77) 4 ≡ ok s)
    × (total (lapse_of s) ≡ 1000)
    × (total (xlm_of s) ≡ 77)
    × (length s ≡ 4)
build_schedule-ok_example =
    build_schedule-ok floats 3 1000 77 (omega arith) (omega arith)
      (record { body-eq = refl; quarter-eq = refl }) (record { body-eq = refl; quarter-eq = refl })

ann_second : i_move_first 2 (opening_mover floats 1 1 "ann" "bob") ≡ ok false
unfolding i_move_first opening_mover codes_lt
ann_second = refl

i_move_first-one_example : i_move_first 2 (opening_mover floats 1 1 "bob" "ann") ≡ ok true
i_move_first-one_example =
    i_move_first-one floats 1 1 "ann" "bob" 2 (record { same_comm = refl; above-not = λ e. cc })
      (λ e. cc ((eq_iff "ann" "bob").1 e)) ann_second

price_runs : lapse_for_xlm 1000 (pos 3) ≡ ok 33333333333
unfolding lapse_for_xlm
price_runs = refl

quote_runs : xlm_for_lapse 33333333333 (pos 3) ≡ ok 1000
unfolding xlm_for_lapse
quote_runs = refl

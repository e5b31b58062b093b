-- ===== src/Params.antt =====
-- Protocol constants (src/params.py). Durations are in microseconds, since a block's timestamp may
-- be a float; the other numbers are the program's.
use lapsecoin.Prelude.{String, ℕ, ◌*◌, ◌^◌}

abbrev pub ticks_per_lapse : ℕ
ticks_per_lapse = 100_000_000

abbrev pub supply_cap : ℕ
supply_cap = 21_000_000 * ticks_per_lapse

abbrev pub emission_decay_denominator : ℕ
emission_decay_denominator = 10 ^ 40

abbrev pub emission_decay_numerator : ℕ
emission_decay_numerator = 1386294265029292275522718605160789

abbrev pub block_size_limit : ℕ
block_size_limit = 2_000_000

abbrev pub address_word_count : ℕ
address_word_count = 12

abbrev pub word_bits : ℕ
word_bits = 11

abbrev pub vdf_iterations : ℕ
vdf_iterations = 12_200_000

abbrev pub vdf_adjust_interval : ℕ
vdf_adjust_interval = 10_080

abbrev pub vdf_adjust_numerator : ℕ
vdf_adjust_numerator = 51

abbrev pub vdf_adjust_denominator : ℕ
vdf_adjust_denominator = 50

-- One second, in the model's unit of time.
abbrev pub second : ℕ
second = 1_000_000

abbrev pub vdf_adjust_min_seconds : ℕ
vdf_adjust_min_seconds = 100 * second

abbrev pub timestamp_skew_seconds : ℕ
timestamp_skew_seconds = 30 * second

abbrev pub min_block_spacing_seconds : ℕ
min_block_spacing_seconds = 90 * second

abbrev pub genesis_timestamp : ℕ
genesis_timestamp = 1787869281 * second

abbrev pub genesis_message : String
genesis_message =
    "LapseCoin genesis. No premine. No authority. Every node earns. The chain is its own clock: one VDF per block, real elapsed time."

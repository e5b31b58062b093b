-- ===== src/Tests/Data.antt =====
-- A small world to run the model in: two addresses, a payment from one to the other, and two blocks.
-- The primitives are the simplest functions of their types; the VDF accepts any proof of the count
-- that the chain asks for at first.
use lapsecoin.Prelude.{ℕ, ◌+◌, ◌*◌, String, true, none, some, List, [], ◌∷◌, ◌==◌, if◌then◌else◌}
use lapsecoin.Prelude.Int.{ℤ, pos}
use lapsecoin.Prelude.Result.{Result, ok}
use lapsecoin.Params.{second, genesis_timestamp, vdf_iterations}
use lapsecoin.Json.{Json, Items, nil, cons, Fields, end, field, int, str, arr, obj}
use lapsecoin.Crypto.{Crypto}
use lapsecoin.Tx.Signature.{LruCache}
use lapsecoin.State
use lapsecoin.State.{State}
use lapsecoin.Block.{Block, World, create}

abbrev first_or_zero : List ℕ → ℕ
first_or_zero [] = 0
first_or_zero (b ∷ bytes) = b

abbrev small_hash : List ℕ → String
small_hash bytes =
    if first_or_zero bytes == 0 then "00" else if first_or_zero bytes == 1 then "01" else "02"

abbrev pub crypto : Crypto
crypto = record {
  wordlist = "aa" ∷ "bb" ∷ [];
  sha256 = λ bytes. bytes;
  sha256_hex = small_hash;
  canonical_json = λ fields. 7 ∷ [];
  falcon = λ message signature public_key. some true;
}

abbrev pub world : World
world = record {
  crypto = crypto;
  block_json = λ blk. blk.height ∷ [];
  create_discriminant = λ challenge. some challenge;
  verify_n_wesolowski = λ disc answer iterations. some (iterations == vdf_iterations);
}

-- A cache that keeps one verdict, or none.
abbrev pub no_cache : LruCache
no_cache = record {
  Cache = Unit {0};
  get = λ m key. none;
  touch = λ m key. m;
  set = λ m key verdict. m;
  get-touch = λ m k j v e. cc;
  get-set = λ m k j v w e. cc;
}

-- The address of the empty key, and another.
abbrev pub alice : String
alice = "aa.aa.aa.aa.aa.aa.aa.aa.aa.aa.aa.aa"

abbrev pub bob : String
bob = "bb.bb.bb.bb.bb.bb.bb.bb.bb.bb.bb.bb"

abbrev pub payment_outputs : Items
payment_outputs = cons (obj (field "to" (str bob) (field "amount" (int (pos 5)) end))) nil

-- Alice pays 5 to Bob, with a fee of 2, in a post on the board.
abbrev pub payment : Fields
payment = field "from" (str alice) (
    field "pubkey" (str "") (
      field "outputs" (arr payment_outputs) (
        field "nonce" (int (pos 1)) (
          field "fee" (int (pos 2))
            (field "signature" (str "") (field "memo" (str "[board] hello") end))))))

-- Alice has 100, all of it minted.
abbrev pub funded : State
funded = record State.empty { balances = (alice, 100) ∷ []; total_minted = 100 }

abbrev block_of : ℕ → String → ℕ → List Json → String → Block
block_of height previous_hash seconds transactions builder = create world (record {
  height = height;
  previous_hash = previous_hash;
  timestamp = some (pos (genesis_timestamp + seconds * second));
  transactions = transactions;
  builder = str builder;
  vdf_output = some "05";
  vdf_proof = some "06";
  claimed_iterations = some vdf_iterations;
  hash = none;
  extra = end;
})

-- Alice builds the first block, and pays in the second, which Bob builds.
abbrev pub block_1 : Block
block_1 = block_of 1 "00" 100 [] alice

abbrev pub block_2 : Block
block_2 = block_of 2 "01" 200 (obj payment ∷ []) bob

-- Another block on genesis.
abbrev pub rival : Block
rival = block_of 2 "00" 120 [] bob

abbrev pub now : ℤ
now = pos (genesis_timestamp + 300 * second)

-- The value of a result, or one to fall back on.
abbrev pub value_or {ℓ} : {A : Type ℓ} → A → Result A → A
value_or d (ok a) = a
value_or d _ = d

-- ===== src/Lib.antt =====
-- The core of LapseCoin: what makes a transaction valid, what it does to the ledger, what makes a
-- block valid, how a chain grows, which of two chains is the better one, what a node takes, keeps and
-- passes on, what waits in its mempool, which peers it knows, and how a trade with XLM is carried out.
--
-- Parts, and the files that model them (paths of the program from the repository's root):
-- - src/params.py: Params, the constants of the rules.
-- - src/crypto.py: Crypto, addresses and verification. SHA-256, FALCON-512, orjson and the word
--   list are the fields of a record that every user takes as an argument.
-- - JSON values, as the program reads them from a peer: Json; Python's dict with text keys: Dict.
-- - src/tx.py: Tx (sizes, hashes, the board's fee floor), Tx/Shape (`_check_fields_and_outputs`,
--   `_check_not_from_burn_address`), Tx/Signature (`_check_signature` with its cache of verdicts,
--   an LRU cache given by an interface), Tx/Validate (the checks that read the ledger, and
--   `validate`). Tx/Payable, Tx/Accepted and Tx/Cached hold what follows from acceptance.
-- - src/state.py: State, with one function for each method. State/Ledger, Apply, Mint, Balance,
--   Dirty and Accept are about its invariants.
-- - src/block.py: Block (the record, its hash and size), Block/Retarget (`get_vdf_iterations`)
--   and Block/Validate (`validate` and its checks). Block/Ran gives the transactions as steps,
--   Block/Assemble and Block/Assemble/Draft `assemble`, which Block/Assemble/Size is about.
-- - src/vdf.py: `vdf_verify` in Block, around two calls of chiavdf that the record World holds.
-- - src/chainstate.py: Chain (`apply_builder_reward`, `from_chain`, `validate_and_apply`) and
--   Chain/Fork (`_fork_point`, `is_better_than` and the tie break). Chain/Accepted and Extends
--   with its child Header say what acceptance has checked, Chain/Supply and Backed what it does
--   to the supply.
-- - src/node.py: Chain/Grow (`_validate_tail`), `first_difference` in Chain/Fork/Search, Node
--   (`_evaluate_remote_chain`, the cache of recent states), Node/Judge (`_validate_candidate` and
--   its cache of verdicts), Node/Draw (`open_draw`, `_should_abandon`, `_pick_winner`), Node/Live
--   (`_commit`, `apply_better_chain`, `_reorg_mempool`) and Node/Live/Inbound
--   (`_handle_inbound_block`, `_reorg_to_sibling`). Node/Adopt and its child Built are about the
--   choice of a chain, Judge/* about verdicts, Draw/* about the window and the winner,
--   Live/Moved, Sibling and Relay about what is passed on, and Coherent/* about the states that a
--   node keeps.
-- - src/mempool.py: Mempool (admission, eviction, pruning), Mempool/Overlay (the read-through
--   view of the ledger) and Mempool/Probe. Mempool/Evict, Bounds and Admit are about the count of
--   bytes. The float fee rates are a parameter.
-- - src/swap.py: Swap (caps, schedules, plans, the order of the movers, prices) and Swap/Tag
--   (session tags). Swap/Schedule, Plan, Opening, Price and Tag/RoundTrip are about them.
-- - src/swap_engine.py, on the rows of src/trade_storage.py: Engine (the rows, the two chains and
--   the actions), Engine/Send (`ensure_sent`), Watch (`check_outbound`, `check_inbound`), Drive
--   (`advance`, `reconcile`) and Blame (`is_delinquent`, `trade_expired_by`). Keeps and Rows hold
--   the lemmas on actions and on the table; Ahead, Turn, Silent and Unanswered say what goes out
--   to the chains. The memos and the terms of a payment come from Swap/Tag.
-- - src/peerpool.py: Peers and Peers/Notes, with Count (the count by subnet), Held, Idle and
--   Bounds.
-- - src/market.py: Market (`verify_order`), with Market/Offer.
-- - src/syncer.py: Sync (`_find_fork_point` and `_highest_common`), with Sync/Common and
--   ForkPoint.
-- - Tests: runs at concrete inputs.
--
-- How the code is translated:
-- - A function that answers `(ok, err)` or raises has the type Result: `ok`, `refused` with the
--   reason, or `raised` with the kind of exception. A method returns the new state. Where it
--   raises there is none, since the program then drops the copy that it worked on.
-- - A block is a record with an Option for each key that the code reads by `.get` or tests for
--   its type. Timestamps are integers, in microseconds, where the program has floats; the clock
--   is an argument. Amounts from a peer are integers of any size and sign; balances are natural
--   numbers, because `debit` refuses to go below 0.
-- - The count of iterations that a block claims is a natural number or absent. A block with null,
--   a negative or no whole number there, which the program refuses above height 0, is not
--   modelled. `canonical_json` and the sizes are total functions, where orjson raises on an
--   integer beyond 64 bits. A builder that is true but no text raises where its reward is paid,
--   where the program credits it if the block claims height 0.
-- - The signature cache is passed through every function that asks it. Its interface says only
--   that a look-up finds nothing that was not stored.
-- - The cache of verdicts on blocks, by hash, is the interface VerdictCache of Node/Judge: what
--   was stored last is there, and a look-up finds nothing that was not stored. The monotonic
--   clock of the draw counts microseconds.
-- - The binary search of `_fork_point` runs on fuel, one more than the number of shared heights:
--   each round halves the interval, so that it does not run out.
-- - An exception in a call of the VDF library or of FALCON counts as a failed verification, as in
--   the code.
-- - An action on a trade takes the state of everything it reaches to a result and a new state:
--   the chains, the trade, the rows in the database and the row in hand, which is an object of
--   its own. What it has written stays when it raises. Assignments followed by `save()` are one
--   function. The two chains, the wallet and the clock are the record World of Engine, whose
--   calls may raise; every envelope handed to a chain is put on record with the row as the
--   database then had it.
-- - The search for a fork point over the network runs on fuel, one more than this node's blocks:
--   each round shrinks the interval. Its datagrams and its clock are the record Wire of Sync.
-- - `_plan_for_cap` tries the counts up to the maximum by recursion on how many are left.
--
-- Not modelled: key files, the evaluation of a VDF and the loop around it (`_run_cycle`), statistics
-- for the display (`race_odds`), the handshake by which a trade is agreed, the capacity of an order,
-- the adapters of the two chains, and the network, storage and interface parts of the program.
pub mod Prelude
pub mod Params
pub mod Dict
pub mod Json
pub mod Crypto
pub mod Tx
pub mod State
pub mod Block
pub mod Chain
pub mod Mempool
pub mod Node
pub mod Swap
pub mod Engine
pub mod Peers
pub mod Sync
pub mod Market
pub mod Tests

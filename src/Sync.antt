-- ===== src/Sync.antt =====
-- The search for the fork point against a peer in src/syncer.py, over the datagrams of a peer that
-- may not answer. `Result` has the exceptions; the one that is only for silence is a result of its own.
pub mod Common
pub mod ForkPoint
use lapsecoin.Prelude.{
  ℕ, zero, suc, ◌+◌, ◌-◌, ◌/◌, String, Bool, true, false, Option, none, some, List, [], ◌∷◌,
  get_elem?, length, str_eq, ltb, if◌then◌else◌,
}
use lapsecoin.Prelude.Result.{Result, ok, raised, Raised, attribute_error, index_error}
use lapsecoin.Json.{Json, Items, nil, cons, Fields, obj, arr, str, get}

abbrev pub fork_search_window : ℕ
fork_search_window = 20

abbrev pub sync_request_retries : ℕ
sync_request_retries = 2

-- The peer behind the network, with the clock: `request` is one `udp.request_sync` for one height,
-- within its timeout; `expired` tells whether the deadline is over.
pub record Wire : Type 1 where
  pub Net : Type 0
  pub request : ℕ → Net → Option Json × Net
  pub expired : Net → Bool

-- What a page says of a height at which this node has a hash.
pub data Verdict : Type 0 where
  absent same other : Verdict
  odd : Raised → Verdict

unfoldable pub matched : Option Json → String → Bool
matched (some (str theirs)) ours = str_eq theirs ours
matched _ ours = false

unfoldable pub compare_block : Json → Option String → Verdict
compare_block (obj blk) none = odd index_error
compare_block (obj blk) (some ours) = if matched (get "hash" blk) ours then same else other
compare_block _ ours = odd attribute_error

unfoldable pub read_page : Option Json → Option String → Verdict
read_page (some (arr (cons blk blks))) ours = compare_block blk ours
read_page _ ours = absent

-- `page = resp.get("chain") if isinstance(resp, dict) else None`, and its first block's hash.
unfoldable pub verdict : Json → Option String → Verdict
verdict (obj resp) ours = read_page (get "chain" resp) ours
verdict _ ours = absent

-- A search that ends, or the peer fell silent (`_Unanswered`), or the search raised.
pub data Found : Type 0 where
  answer : Option ℕ → Found
  unanswered : Found
  failed : Raised → Found

abbrev pub is_some : {A : Type 0} → Option A → Bool
is_some none = false
is_some (some a) = true

-- The height after the one found, where `start` is what no height found means.
unfoldable pub after_match : Option ℕ → Option ℕ → Option ℕ
after_match start none = start
after_match start (some height) = some (height + 1)

unfoldable pub hash_at : List String → ℕ → Option String
hash_at hashes height = get_elem? hashes height

module _ (w : Wire) where
  -- So many attempts are left.
  unfoldable pub request_with : ℕ → ℕ → w.Net → Option Json × w.Net
  request_with zero height net = (none, net)
  request_with (suc left) height net =
      let asked = w.request height net in
      let rest = request_with left height asked.1 in
      if w.expired net then (none, net) else if is_some asked.0 then asked else rest

  unfoldable pub request_sync_with_retry : ℕ → w.Net → Option Json × w.Net
  request_sync_with_retry height net = request_with (sync_request_retries + 1) height net

  -- What one answer makes of the search; `go` searches on in an interval.
  unfoldable pub narrow :
      ℕ → ℕ → ℕ → Option ℕ → (ℕ → ℕ → Option ℕ → Found × w.Net) → w.Net → Verdict → Found × w.Net
  narrow lo hi mid result go net same = go (mid + 1) hi (some mid)
  narrow lo hi mid result go net other = go lo mid result
  narrow lo hi mid result go net absent = go lo mid result
  narrow lo hi mid result go net (odd x) = (failed x, net)

  unfoldable pub weigh :
      ℕ
      → ℕ
      → ℕ
      → Option ℕ
      → (ℕ → ℕ → Option ℕ → Found × w.Net)
      → w.Net
      → Option String
      → Option Json
      → Found × w.Net
  weigh lo hi mid result go net ours none = (unanswered, net)
  weigh lo hi mid result go net ours (some resp) =
      narrow lo hi mid result go net (verdict resp ours)

  -- `_highest_common`, on fuel: the interval shrinks in every round. `hi` is one more than the
  -- source's, which may go below 0; `result` is what has been found so far.
  unfoldable pub search : List String → ℕ → ℕ → ℕ → Option ℕ → w.Net → Found × w.Net
  search hashes zero lo hi result net = (answer result, net)
  search hashes (suc fuel) lo hi result net =
      let mid = (lo + (hi - 1)) / 2 in
      let asked = request_sync_with_retry mid net in
      let rest =
        weigh lo hi mid result (λ l h r. search hashes fuel l h r asked.1) asked.1
          (hash_at hashes mid) asked.0 in
      if ltb lo hi
      then if w.expired net then (answer result, net) else rest
      else (answer result, net)

  unfoldable pub highest_common : List String → ℕ → w.Net → Found × w.Net
  highest_common hashes lo net = search hashes (length hashes + 1) lo (length hashes) none net

  -- The search of the whole chain. An expired deadline leaves it without an answer.
  unfoldable pub conclude : Found × w.Net → Result (Option ℕ) × w.Net
  conclude (answer found, net) =
      (ok (after_match (if w.expired net then none else some 0) found), net)
  conclude (unanswered, net) = (ok none, net)
  conclude (failed x, net) = (raised x, net)

  -- The search of the recent window, which widens to the whole chain.
  unfoldable pub widen : List String → Found × w.Net → Result (Option ℕ) × w.Net
  widen hashes (answer (some height), net) = (ok (some (height + 1)), net)
  widen hashes (answer none, net) =
      if w.expired net then (ok none, net) else conclude (highest_common hashes 0 net)
  widen hashes (unanswered, net) = (ok none, net)
  widen hashes (failed x, net) = (raised x, net)

  unfoldable pub search_window : List String → ℕ → w.Net → Result (Option ℕ) × w.Net
  search_window hashes window_lo net =
      if ltb 0 window_lo
      then widen hashes (highest_common hashes window_lo net)
      else conclude (highest_common hashes 0 net)

  unfoldable pub unless_expired : List String → ℕ → w.Net → Result (Option ℕ) × w.Net
  unless_expired hashes tip net =
      if w.expired net then (ok none, net) else search_window hashes (tip - fork_search_window) net

  -- The probe of the tip comes first.
  unfoldable pub judge_tip : List String → ℕ → w.Net → Verdict → Result (Option ℕ) × w.Net
  judge_tip hashes tip net same = (ok (some (tip + 1)), net)
  judge_tip hashes tip net other = unless_expired hashes tip net
  judge_tip hashes tip net absent = unless_expired hashes tip net
  judge_tip hashes tip net (odd x) = (raised x, net)

  unfoldable pub find_fork_point : List String → w.Net → Result (Option ℕ) × w.Net
  find_fork_point hashes net = probed (request_sync_with_retry tip net)
    where
      tip : ℕ
      tip = length hashes - 1

      probed : Option Json × w.Net → Result (Option ℕ) × w.Net
      probed (none, net') = (ok none, net')
      probed (some resp, net') = judge_tip hashes tip net' (verdict resp (hash_at hashes tip))

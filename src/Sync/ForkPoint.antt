-- ===== src/Sync/ForkPoint.antt =====
-- What `_find_fork_point` of src/syncer.py finds against a peer that answers, and against one that
-- does not.
use lapsecoin.Prelude.{
  ℕ, zero, suc, ◌+◌, ◌-◌, ◌/◌, ◌≤◌, ◌<◌, ◌≡◌, refl, sym, ap, ◌∙◌, inl, inr, String, Bool, true,
  false, Option, none, some, List, length, str_eq, ltb, lt→ltb, ltb→lt, ltb-false-le, arith,
  if◌then◌else◌, Bool-cases, if-cases,
}
use lapsecoin.Prelude.Result.{Result, ok}
use lapsecoin.Json.{Json}
use lapsecoin.Sync.{
  Wire, Verdict, absent, same, other, verdict, Found, answer, request_with, request_sync_with_retry,
  sync_request_retries, narrow, weigh, search, highest_common, conclude, widen, search_window,
  unless_expired, judge_tip, find_fork_point, fork_search_window, hash_at, after_match, is_some,
}
use lapsecoin.Sync.Common.{both_same, agree, common, IsLinked, common_le, agree-below, agree-from}

next_height : (k : ℕ) → after_match (some 0) (if ltb 0 k then some (k - 1) else none) ≡ some k
unfolding after_match
next_height k = ground arith

skipped : {A : Type 0} (x y : A) (k lo : ℕ) → k ≤ lo → (if ltb lo k then x else y) ≡ y
skipped x y k lo h = ground arith

taken : {A : Type 0} (b : Bool) (x y : A) → b ≡ true → (if b then x else y) ≡ x
taken b x y e = rw e refl

-- What a page of a peer that has these blocks says.
unfoldable pub expected : Option String → Option String → Verdict
expected none ours = absent
expected (some b) (some a) = if str_eq b a then same else other
expected (some b) none = absent

-- A peer that answers at once from its chain, and a search that is not out of time.
pub record IsAnswering (w : Wire) (ours theirs : List String) : Type 0 where
  pub in_time : (net : w.Net) → w.expired net ≡ false
  pub page :
      (height : ℕ) (net : w.Net)
      → height < length ours
      → (resp : Json) × ((w.request height net).0 ≡ some resp)
        × (verdict resp (hash_at ours height)
            ≡ expected (hash_at theirs height) (hash_at ours height))

module _ (w : Wire) (ours theirs : List String) (peer : IsAnswering w ours theirs) where
  request-page :
      (height : ℕ) (net : w.Net)
      → height < length ours
      → (resp : Json) × ((request_sync_with_retry w height net).0 ≡ some resp)
        × (verdict resp (hash_at ours height)
            ≡ expected (hash_at theirs height) (hash_at ours height))
  unfolding request_sync_with_retry request_with
  request-page height net h =
      let (resp, e, v) = peer.page height net h in
      let answered =
        taken (is_some (w.request height net).0) (w.request height net) _ (ap is_some e) in
      (resp, rw (peer.in_time net) (ap (λ x. x.0) answered ∙ e), v)

  narrow-cases :
      (lo hi mid : ℕ) (result : Option ℕ) (go : ℕ → ℕ → Option ℕ → Found × w.Net) (net : w.Net)
      (a b : Option String)
      → narrow w lo hi mid result go net (expected b a)
        ≡ (if both_same a b then go (mid + 1) hi (some mid) else go lo mid result)
  unfolding narrow expected both_same
  narrow-cases lo hi mid result go net none none = refl
  narrow-cases lo hi mid result go net none (some b) = refl
  narrow-cases lo hi mid result go net (some a) none = refl
  narrow-cases lo hi mid result go net (some a) (some b) = elim (Bool-cases (str_eq b a)) [
    | inl y ↦ rw y refl
    | inr k ↦ rw k refl
  ]

  narrow-expected :
      (lo hi mid : ℕ) (result : Option ℕ) (go : ℕ → ℕ → Option ℕ → Found × w.Net) (net : w.Net)
      → narrow w lo hi mid result go net (expected (hash_at theirs mid) (hash_at ours mid))
        ≡ (if agree ours theirs mid then go (mid + 1) hi (some mid) else go lo mid result)
  unfolding agree
  narrow-expected lo hi mid result go net =
      narrow-cases lo hi mid result go net (hash_at ours mid) (hash_at theirs mid)

  search-round :
      (fuel lo hi : ℕ) (result : Option ℕ) (net : w.Net)
      → lo < hi
      → hi ≤ length ours
      → (net' : w.Net) × (search w ours (suc fuel) lo hi result net ≡ (
          if agree ours theirs ((lo + (hi - 1)) / 2)
          then search w ours fuel ((lo + (hi - 1)) / 2 + 1) hi (some ((lo + (hi - 1)) / 2)) net'
          else search w ours fuel lo ((lo + (hi - 1)) / 2) result net'))
  unfolding search weigh
  search-round fuel lo hi result net h l =
      let (resp, e, v) = request-page ((lo + (hi - 1)) / 2) net (omega arith) in
      let net' = (request_sync_with_retry w ((lo + (hi - 1)) / 2) net).1 in
      (
        net',
        rw (lt→ltb lo hi h, peer.in_time net, e, v)
            (narrow-expected lo hi ((lo + (hi - 1)) / 2) result
              (λ l h r. search w ours fuel l h r net') net'),
      )

  found : ℕ → Option ℕ → Found
  found lo result =
      answer (if ltb lo (common ours theirs) then some (common ours theirs - 1) else result)

  below : (mid : ℕ) → IsLinked ours theirs → agree ours theirs mid ≡ true → mid < common ours theirs
  below mid linked q = elim (Bool-cases (ltb mid (common ours theirs))) [
    | inl y ↦ ltb→lt mid (common ours theirs) y
    | inr k ↦ cc (q, agree-from ours theirs mid linked (ltb-false-le mid (common ours theirs) k))
  ]

  above : (mid : ℕ) → agree ours theirs mid ≡ false → common ours theirs ≤ mid
  above mid q = elim (Bool-cases (ltb mid (common ours theirs))) [
    | inr k ↦ ltb-false-le mid (common ours theirs) k
    | inl y ↦ cc (q, agree-below ours theirs mid (ltb→lt mid (common ours theirs) y))
  ]

  raised_lo :
      (lo mid : ℕ) (result : Option ℕ)
      → lo ≤ mid
      → mid < common ours theirs
      → (if ltb (mid + 1) (common ours theirs) then some (common ours theirs - 1) else some mid)
        ≡ (if ltb lo (common ours theirs) then some (common ours theirs - 1) else result)
  raised_lo lo mid result h k = ground (arith, h, k)

  search-common :
      (fuel lo hi : ℕ) (result : Option ℕ) (net : w.Net)
      → IsLinked ours theirs
      → hi ≤ length ours
      → hi ≤ lo + fuel
      → common ours theirs ≤ hi
      → (search w ours fuel lo hi result net).0
        ≡ answer (if ltb lo (common ours theirs) then some (common ours theirs - 1) else result)
  unfolding search found
  search-common zero lo hi result net linked l f c =
      ap answer (sym (skipped _ _ (common ours theirs) lo (omega arith)))
  search-common (suc fuel) lo hi result net linked l f c = elim (Bool-cases (ltb lo hi)) [
    | inr k ↦ rw k (
        ap answer
          (sym (skipped _ _ (common ours theirs) lo (omega (arith, ltb-false-le lo hi k, c)))))
    | inl y ↦
        let (net', e) = search-round fuel lo hi result net (ltb→lt lo hi y) l in
        let mid = (lo + (hi - 1)) / 2 in
        ap (λ x. x.0) e
        ∙ if-cases (λ (x : Found × w.Net). x.0 ≡ found lo result) _ _ (agree ours theirs mid)
            (λ q.
              search-common fuel (mid + 1) hi (some mid) net' linked l
                (omega (arith, ltb→lt lo hi y, f)) c
              ∙ ap answer
                  (raised_lo lo mid result (omega (arith, ltb→lt lo hi y)) (below mid linked q)))
            (λ q.
              search-common fuel lo mid result net' linked (omega (arith, ltb→lt lo hi y, l))
                (omega (arith, ltb→lt lo hi y, f)) (above mid q))
  ]

  highest_common-common :
      (lo : ℕ) (net : w.Net)
      → IsLinked ours theirs
      → (highest_common w ours lo net).0 ≡ found lo none
  unfolding highest_common found
  highest_common-common lo net linked =
      search-common (length ours + 1) lo (length ours) none net linked (omega arith) (omega arith)
        (common_le ours theirs)

  whole :
      (r : Found) (net : w.Net)
      → r ≡ found 0 none
      → (conclude w (r, net)).0 ≡ ok (some (common ours theirs))
  unfolding conclude found
  whole r net e = rw (e, peer.in_time net) (ap ok (next_height (common ours theirs)))

  conclude-common :
      (net : w.Net)
      → IsLinked ours theirs
      → (conclude w (highest_common w ours 0 net)).0 ≡ ok (some (common ours theirs))
  conclude-common net linked =
      whole (highest_common w ours 0 net).0 (highest_common w ours 0 net).1
        (highest_common-common 0 net linked)

  window :
      (lo : ℕ) (r : Found) (net : w.Net)
      → IsLinked ours theirs
      → r ≡ found lo none
      → (widen w ours (r, net)).0 ≡ ok (some (common ours theirs))
  unfolding widen found
  window lo r net linked e = elim (Bool-cases (ltb lo (common ours theirs))) [
    | inl y ↦ rw (e, y) (ap (λ k. ok (some k)) (omega (arith, ltb→lt lo _ y)))
    | inr k ↦ rw (e, k, peer.in_time net) (conclude-common net linked)
  ]

  search_window-common :
      (lo : ℕ) (net : w.Net)
      → IsLinked ours theirs
      → (search_window w ours lo net).0 ≡ ok (some (common ours theirs))
  unfolding search_window
  search_window-common lo net linked =
      if-cases (λ (x : Result (Option ℕ) × w.Net). x.0 ≡ ok (some (common ours theirs))) _ _
        (ltb 0 lo)
        (λ _.
          window lo (highest_common w ours lo net).0 (highest_common w ours lo net).1 linked
            (highest_common-common lo net linked))
        (λ _. conclude-common net linked)

  judge_tip-cases :
      (tip : ℕ) (net : w.Net) (a b : Option String)
      → judge_tip w ours tip net (expected b a)
        ≡ (if both_same a b then (ok (some (tip + 1)), net) else unless_expired w ours tip net)
  unfolding judge_tip expected both_same
  judge_tip-cases tip net none none = refl
  judge_tip-cases tip net none (some b) = refl
  judge_tip-cases tip net (some a) none = refl
  judge_tip-cases tip net (some a) (some b) = elim (Bool-cases (str_eq b a)) [
    | inl y ↦ rw y refl
    | inr k ↦ rw k refl
  ]

  judge_tip-common :
      (tip : ℕ) (net : w.Net)
      → tip + 1 ≡ length ours
      → IsLinked ours theirs
      → (judge_tip w ours tip net (expected (hash_at theirs tip) (hash_at ours tip))).0
        ≡ ok (some (common ours theirs))
  unfolding unless_expired agree
  judge_tip-common tip net last linked =
      ap (λ x. x.0) (judge_tip-cases tip net (hash_at ours tip) (hash_at theirs tip))
      ∙ if-cases (λ (x : Result (Option ℕ) × w.Net). x.0 ≡ ok (some (common ours theirs))) _ _
          (agree ours theirs tip)
          (λ q.
            ap (λ k. ok (some k)) (omega (arith, below tip linked q, common_le ours theirs, last)))
          (λ _. rw (peer.in_time net) (search_window-common (tip - fork_search_window) net linked))

  -- Against a peer that answers from its chain, before any deadline, the search for the fork point
  -- ends with the number of blocks that the two chains begin with alike, when this node has a
  -- block and chains that agree at a height agree below it.
  pub find_fork_point-common :
      (net : w.Net)
      → 0 < length ours
      → IsLinked ours theirs
      → (find_fork_point w ours net).0 ≡ ok (some (common ours theirs))
  unfolding find_fork_point
  find_fork_point-common net some_blocks linked =
      let (resp, e, v) = request-page (length ours - 1) net (omega arith) in
      rw (e, v)
        (judge_tip-common (length ours - 1) (request_sync_with_retry w (length ours - 1) net).1
          (omega arith) linked)

-- A peer that never answers.
pub record IsSilent (w : Wire) : Type 0 where
  pub silent : (height : ℕ) (net : w.Net) → (w.request height net).0 ≡ none

module _ (w : Wire) (peer : IsSilent w) where
  request_with-silent : (left height : ℕ) (net : w.Net) → (request_with w left height net).0 ≡ none
  unfolding request_with
  request_with-silent zero height net = refl
  request_with-silent (suc left) height net =
      if-cases (λ (x : Option Json × w.Net). x.0 ≡ none) _ _ (w.expired net) (λ _. refl)
        (λ _.
          rw (peer.silent height net) (request_with-silent left height (w.request height net).1))

  -- Against a peer that never answers, the search for the fork point returns None, which is no
  -- fork point, on any chain.
  pub find_fork_point-silent :
      (ours : List String) (net : w.Net) → (find_fork_point w ours net).0 ≡ ok none
  unfolding find_fork_point request_sync_with_retry
  find_fork_point-silent ours net =
      rw (request_with-silent (sync_request_retries + 1) (length ours - 1) net) refl

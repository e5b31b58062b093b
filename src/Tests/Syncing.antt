-- ===== src/Tests/Syncing.antt =====
-- Runs of the search for a fork point in src/syncer.py at concrete inputs: a peer whose chain leaves
-- this node's after two blocks, and one that never answers.
use lapsecoin.Prelude.{
  ℕ, zero, suc, ◌+◌, ◌<◌, ◌≡◌, refl, String, false, Option, none, some, List, [], ◌∷◌, get_elem?,
  arith,
}
use lapsecoin.Prelude.Result.{ok}
use lapsecoin.Json.{Json, Items, nil, cons, end, field, obj, arr, str}
use lapsecoin.Sync.{Wire, find_fork_point, verdict, read_page, compare_block, matched, hash_at}
use lapsecoin.Sync.Common.{agree, both_same, common, IsLinked}
use lapsecoin.Sync.ForkPoint.{expected, IsAnswering, find_fork_point-common}

abbrev ours : List String
ours = "g" ∷ "a" ∷ "b" ∷ "c" ∷ []

abbrev theirs : List String
theirs = "g" ∷ "a" ∷ "x" ∷ []

abbrev page_of : Option String → Items
page_of none = nil
page_of (some h) = cons (obj (field "hash" (str h) end)) nil

abbrev talking : Wire
talking = record {
  Net = ℕ;
  request = λ height net.
      (some (obj (field "chain" (arr (page_of (get_elem? theirs height))) end)), net + 1);
  expired = λ net. false;
}

apart : (j : ℕ) → agree ours theirs (suc (suc j)) ≡ false
unfolding agree both_same hash_at
apart zero = refl
apart (suc zero) = refl
apart (suc (suc j)) = refl

linked : IsLinked ours theirs
unfolding IsLinked agree both_same hash_at
linked zero j h e = refl
linked (suc zero) j h e = refl
linked (suc (suc i)) zero h e = absurd (omega (arith, h))
linked (suc (suc i)) (suc zero) h e = absurd (omega (arith, h))
linked (suc (suc i)) (suc (suc j)) h e = cc (e, apart j)

page :
    (height : ℕ) (net : ℕ)
    → height < 4
    → (resp : Json) × ((talking.request height net).0 ≡ some resp)
      × (verdict resp (hash_at ours height)
          ≡ expected (hash_at theirs height) (hash_at ours height))
unfolding verdict read_page compare_block matched expected hash_at
page zero net h = (_, refl, refl)
page (suc zero) net h = (_, refl, refl)
page (suc (suc zero)) net h = (_, refl, refl)
page (suc (suc (suc zero))) net h = (_, refl, refl)
page (suc (suc (suc (suc height)))) net h = absurd (omega (arith, h))

answering : IsAnswering talking ours theirs
answering = record { in_time = λ net. refl; page = page }

find_fork_point-common_example : (find_fork_point talking ours 0).0 ≡ ok (some (common ours theirs))
find_fork_point-common_example =
    find_fork_point-common talking ours theirs answering 0 (omega arith) linked

-- ===== src/Sync/Common.antt =====
-- The blocks that two chains begin with alike, for the search of src/syncer.py.
use lapsecoin.Prelude.{
  ℕ, zero, suc, ◌≤◌, ◌<◌, ◌≡◌, refl, inl, inr, String, Bool, true, false, Option, some, List, [],
  ◌∷◌, length, str_eq, arith, if◌then◌else◌, Bool-cases,
}
use lapsecoin.Sync.{hash_at}

unfoldable pub both_same : Option String → Option String → Bool
both_same (some a) (some b) = str_eq b a
both_same _ _ = false

-- Do the two chains have the same block at this height?
unfoldable pub agree : List String → List String → ℕ → Bool
agree ours theirs height = both_same (hash_at ours height) (hash_at theirs height)

-- The number of blocks that the chains begin with alike.
unfoldable pub common : List String → List String → ℕ
common [] theirs = 0
common (a ∷ ours) [] = 0
common (a ∷ ours) (b ∷ theirs) = let rest = common ours theirs in if str_eq b a then suc rest else 0

-- A block commits to all before it: chains that agree at a height agree below it.
unfoldable pub IsLinked : List String → List String → Type 0
IsLinked ours theirs = (i j : ℕ) → i ≤ j → agree ours theirs j ≡ true → agree ours theirs i ≡ true

pub common_le : (ours theirs : List String) → common ours theirs ≤ length ours
unfolding common
common_le [] theirs = omega arith
common_le (a ∷ ours) [] = omega arith
common_le (a ∷ ours) (b ∷ theirs) = ground (arith, common_le ours theirs)

pub agree-below :
    (ours theirs : List String) (i : ℕ) → i < common ours theirs → agree ours theirs i ≡ true
unfolding common agree hash_at both_same
agree-below [] theirs i h = absurd (omega (arith, h))
agree-below (a ∷ ours) [] i h = absurd (omega (arith, h))
agree-below (a ∷ ours) (b ∷ theirs) zero h = ground (arith, h)
agree-below (a ∷ ours) (b ∷ theirs) (suc i) h =
    let rest : i < common ours theirs → agree ours theirs i ≡ true = agree-below ours theirs i in
    rest (ground (arith, h))

pub agree-common : (ours theirs : List String) → agree ours theirs (common ours theirs) ≡ false
unfolding common agree hash_at both_same
agree-common [] theirs = refl
agree-common (a ∷ ours) [] = refl
agree-common (a ∷ ours) (b ∷ theirs) = elim (Bool-cases (str_eq b a)) [
  | inl y ↦ rw y (agree-common ours theirs)
  | inr k ↦ rw k k
]

pub agree-from :
    (ours theirs : List String) (j : ℕ)
    → IsLinked ours theirs
    → common ours theirs ≤ j
    → agree ours theirs j ≡ false
unfolding IsLinked
agree-from ours theirs j l h = elim (Bool-cases (agree ours theirs j)) [
  | inr k ↦ k
  | inl y ↦ cc (l (common ours theirs) j h y, agree-common ours theirs)
]

-- ===== src/Peers/Count.antt =====
-- The count of the held peers by subnet, against a scan of the peers.
use lapsecoin.Prelude.{
  ℕ, ◌+◌, ◌-◌, ◌≡◌, refl, String, true, Option, none, some, [], ◌∷◌, length, arith, str_eq, eq_iff,
  if◌then◌else◌,
}
use lapsecoin.Dict.{Dict, IsKeyed, lookup, contains, insert, erase, lookup-insert, lookup-erase}
use lapsecoin.Peers.{count_at, claim_slot, release_slot}

-- 1 where the address has this subnet.
unfoldable pub in_subnet : String → Option String → ℕ
in_subnet k none = 0
in_subnet k (some j) = if str_eq j k then 1 else 0

-- The number of the held peers in a subnet, where `key` gives each its own.
unfoldable pub scan : (String → Option String) → String → Dict ℕ → ℕ
scan key k [] = 0
scan key k ((a, _) ∷ d) = in_subnet k (key a) + scan key k d

module _ {V : Type 0} where
  pub length-insert_new :
      (a : String) (v : V) (d : Dict V) → lookup a d ≡ none → length (insert a v d) ≡ length d + 1
  length-insert_new a v [] e = refl
  length-insert_new a v ((j, w) ∷ d) e = ground (arith, length-insert_new a v d)

  pub length-insert_old :
      (a : String) (v : V) (d : Dict V) → contains a d ≡ true → length (insert a v d) ≡ length d
  length-insert_old a v [] e = cc
  length-insert_old a v ((j, w) ∷ d) e = ground (arith, length-insert_old a v d)

  pub length-erase :
      (a : String) (d : Dict V) → contains a d ≡ true → length (erase a d) + 1 ≡ length d
  length-erase a [] e = cc
  length-erase a ((j, w) ∷ d) e = ground (arith, length-erase a d)

module _ (key : String → Option String) (k : String) where
  pub scan-insert_new :
      (a : String) (t : ℕ) (d : Dict ℕ)
      → lookup a d ≡ none
      → scan key k (insert a t d) ≡ scan key k d + in_subnet k (key a)
  unfolding scan
  scan-insert_new a t [] e = omega arith
  scan-insert_new a t ((j, w) ∷ d) e = ground (arith, scan-insert_new a t d)

  pub scan-insert_old :
      (a : String) (t : ℕ) (d : Dict ℕ)
      → contains a d ≡ true
      → scan key k (insert a t d) ≡ scan key k d
  unfolding scan
  scan-insert_old a t [] e = cc
  scan-insert_old a t ((j, w) ∷ d) e = ground (arith, scan-insert_old a t d)

  pub scan-erase :
      (a : String) (d : Dict ℕ)
      → contains a d ≡ true
      → scan key k (erase a d) + in_subnet k (key a) ≡ scan key k d
  unfolding scan
  scan-erase a [] e = cc
  scan-erase a ((j, w) ∷ d) e = ground (arith, scan-erase a d, eq_iff j a)

pub count_at-claim_slot :
    (k : String) (o : Option String) (d : Dict ℕ)
    → count_at k (claim_slot o d) ≡ count_at k d + in_subnet k o
unfolding count_at claim_slot in_subnet
count_at-claim_slot k none d = omega arith
count_at-claim_slot k (some j) d =
    ground (arith, eq_iff j k, lookup-insert j k (count_at j d + 1) d)

pub count_at-release_slot :
    (k : String) (o : Option String) (d : Dict ℕ)
    → IsKeyed d
    → count_at k (release_slot o d) ≡ count_at k d - in_subnet k o
unfolding count_at release_slot in_subnet
count_at-release_slot k none d h = omega arith
count_at-release_slot k (some j) d h =
    ground (arith, eq_iff j k, lookup-insert j k (count_at j d - 1) d, lookup-erase j k d h)

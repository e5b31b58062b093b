-- ===== src/Peers/Held.antt =====
-- What each operation of src/peerpool.py keeps of the pool.
use lapsecoin.Prelude.{
  ℕ, ◌+◌, ◌-◌, ◌≤◌, ◌<◌, ◌≡◌, refl, inl, inr, String, Bool, true, false, not, Option, none, some,
  List, [], ◌∷◌, length, arith, eq_iff, ltb, if-cases, Option-cases,
}
use lapsecoin.Dict.{
  Dict, IsKeyed, lookup, contains, insert, erase, lookup-insert, lookup-erase, insert-IsKeyed,
  erase-IsKeyed,
}
use lapsecoin.Peers.{
  Ipaddress, Pool, subnet_key, count_at, claim_slot, release_slot, has_slot, forget, forget_all,
  cooldown_of, introduce, admit, evict_stale, stale, max_peers_per_subnet,
}
use lapsecoin.Peers.Count.{
  in_subnet, scan, length-insert_new, length-erase, scan-insert_new, scan-erase,
  count_at-claim_slot, count_at-release_slot,
}

-- A note is kept of held peers only.
pub record IsNote {V : Type 0} (peers : Dict ℕ) (d : Dict V) : Type 0 where
  pub keyed : IsKeyed d
  pub held : (a : String) → contains a peers ≡ false → contains a d ≡ false

pub record IsPool (ip : Ipaddress) (p : Pool) : Type 0 where
  pub keyed : IsKeyed p.peers
  pub bounded : length p.peers ≤ p.max_peers
  pub keyed_fails : IsKeyed p.fails
  pub keyed_subnets : IsKeyed p.subnets
  pub counted : (k : String) → count_at k p.subnets ≡ scan (subnet_key ip) k p.peers
  pub capped : (k : String) → count_at k p.subnets ≤ max_peers_per_subnet
  pub info : IsNote p.peers p.info
  pub learned_from : IsNote p.peers p.learned_from
  pub claimed : IsNote p.peers p.claimed

module _ {V : Type 0} where
  erase-IsNote :
      (a : String) (peers : Dict ℕ) (d : Dict V)
      → IsKeyed peers
      → IsNote peers d
      → IsNote (erase a peers) (erase a d)
  erase-IsNote a peers d h n = record {
    keyed = erase-IsKeyed a d n.keyed;
    held = λ b e. ground (arith, lookup-erase a b peers h, lookup-erase a b d n.keyed, n.held b, e);
  }

  pub insert-IsNote :
      (a : String) (v : V) (peers : Dict ℕ) (d : Dict V)
      → contains a peers ≡ true
      → IsNote peers d
      → IsNote peers (insert a v d)
  insert-IsNote a v peers d e n = record {
    keyed = insert-IsKeyed a v d n.keyed;
    held = λ b k. ground (arith, eq_iff a b, lookup-insert a b v d, n.held b, k, e);
  }

  pub grow-IsNote :
      (a : String) (t : ℕ) (peers : Dict ℕ) (d : Dict V)
      → IsNote peers d
      → IsNote (insert a t peers) d
  grow-IsNote a t peers d n = record {
    keyed = n.keyed;
    held = λ b k. ground (arith, lookup-insert a b t peers, n.held b, k);
  }

module _ (ip : Ipaddress) where
  unfoldable pub dropped : String → Pool → Pool
  dropped a p = record p {
    peers = erase a p.peers;
    info = erase a p.info;
    learned_from = erase a p.learned_from;
    claimed = erase a p.claimed;
    subnets = release_slot (subnet_key ip a) p.subnets;
  }

  release_slot-IsKeyed : (o : Option String) (d : Dict ℕ) → IsKeyed d → IsKeyed (release_slot o d)
  unfolding release_slot
  release_slot-IsKeyed none d h = h
  release_slot-IsKeyed (some j) d h =
      if-cases IsKeyed _ _ (ltb 0 (count_at j d - 1)) (λ _. insert-IsKeyed j _ d h)
        (λ _. erase-IsKeyed j d h)

  claim_slot-IsKeyed : (o : Option String) (d : Dict ℕ) → IsKeyed d → IsKeyed (claim_slot o d)
  unfolding claim_slot
  claim_slot-IsKeyed none d h = h
  claim_slot-IsKeyed (some j) d h = insert-IsKeyed j _ d h

  pub dropped-IsPool :
      (a : String) (p : Pool) → IsPool ip p → contains a p.peers ≡ true → IsPool ip (dropped a p)
  unfolding dropped
  dropped-IsPool a p h e =
      let freed =
        λ (k : String). count_at-release_slot k (subnet_key ip a) p.subnets h.keyed_subnets in
      record {
        keyed = erase-IsKeyed a p.peers h.keyed;
        bounded = omega (arith, h.bounded, length-erase a p.peers e);
        keyed_fails = h.keyed_fails;
        keyed_subnets = release_slot-IsKeyed (subnet_key ip a) p.subnets h.keyed_subnets;
        counted =
            λ k. omega (arith, freed k, h.counted k, scan-erase (subnet_key ip) k a p.peers e);
        capped = λ k. omega (arith, freed k, h.capped k);
        info = erase-IsNote a p.peers p.info h.keyed h.info;
        learned_from = erase-IsNote a p.peers p.learned_from h.keyed h.learned_from;
        claimed = erase-IsNote a p.peers p.claimed h.keyed h.claimed;
      }

  pub forget-IsPool : (a : String) (p : Pool) → IsPool ip p → IsPool ip (forget ip a p)
  unfolding forget dropped
  forget-IsPool a p h =
      if-cases (IsPool ip) (dropped a p) p (contains a p.peers) (dropped-IsPool a p h) (λ _. h)

  forget_all-IsPool : (l : List String) (p : Pool) → IsPool ip p → IsPool ip (forget_all ip l p)
  unfolding forget_all
  forget_all-IsPool [] p h = h
  forget_all-IsPool (a ∷ l) p h = forget_all-IsPool l (forget ip a p) (forget-IsPool a p h)

  pub evict_stale-IsPool : (time : ℕ) (p : Pool) → IsPool ip p → IsPool ip (evict_stale ip time p)
  unfolding evict_stale
  evict_stale-IsPool time p h = forget_all-IsPool (stale ip time p.peers) p h

  admitted : ℕ → String → Option String → Pool → Pool
  admitted time a from p = record p {
    subnets = claim_slot (subnet_key ip a) p.subnets;
    peers = insert a time p.peers;
    learned_from = introduce a from p.learned_from;
  }

  pub introduce-IsNote :
      (a : String) (from : Option String) (peers : Dict ℕ) (d : Dict String)
      → contains a peers ≡ true
      → IsNote peers d
      → IsNote peers (introduce a from d)
  introduce-IsNote a none peers d e h = h
  introduce-IsNote a (some b) peers d e h = insert-IsNote a b peers d e h

  has_slot-room :
      (k : String) (o : Option String) (d : Dict ℕ)
      → has_slot o d ≡ true
      → count_at k d ≤ max_peers_per_subnet
      → count_at k d + in_subnet k o ≤ max_peers_per_subnet
  unfolding has_slot in_subnet
  has_slot-room k none d e h = omega (arith, h)
  has_slot-room k (some j) d e h = ground (arith, eq_iff j k, e, h)

  absent : (a : String) (d : Dict ℕ) → contains a d ≡ false → lookup a d ≡ none
  absent a d e = elim (Option-cases (lookup a d)) [ inl n ↦ n | inr (t, s) ↦ ground (arith, e, s) ]

  admitted-IsPool :
      (time : ℕ) (a : String) (from : Option String) (p : Pool)
      → IsPool ip p
      → length p.peers < p.max_peers
      → contains a p.peers ≡ false
      → has_slot (subnet_key ip a) p.subnets ≡ true
      → IsPool ip (admitted time a from p)
  unfolding admitted
  admitted-IsPool time a from p h l e s =
      let new = absent a p.peers e in
      let there : contains a (insert a time p.peers) ≡ true =
        ground (arith, eq_iff a a, lookup-insert a a time p.peers) in
      let slots = λ (k : String). count_at-claim_slot k (subnet_key ip a) p.subnets in
      record {
        keyed = insert-IsKeyed a time p.peers h.keyed;
        bounded = omega (arith, l, length-insert_new a time p.peers new);
        keyed_fails = h.keyed_fails;
        keyed_subnets = claim_slot-IsKeyed (subnet_key ip a) p.subnets h.keyed_subnets;
        counted = λ k.
            omega
              (arith, slots k, h.counted k, scan-insert_new (subnet_key ip) k a time p.peers new);
        capped =
            λ k. omega (arith, slots k, has_slot-room k (subnet_key ip a) p.subnets s (h.capped k));
        info = grow-IsNote a time p.peers p.info h.info;
        learned_from =
            introduce-IsNote a from _ _ there
              (grow-IsNote a time p.peers p.learned_from h.learned_from);
        claimed = grow-IsNote a time p.peers p.claimed h.claimed;
      }

  pub admit-IsPool :
      (now time : ℕ) (a : String) (from : Option String) (p : Pool)
      → IsPool ip p
      → length p.peers < p.max_peers
      → contains a p.peers ≡ false
      → IsPool ip (admit ip now time a from p).1
  unfolding admit admitted
  admit-IsPool now time a from p h l e =
      let Good : Bool × Pool → Type 0 = λ (b, q). IsPool ip q in
      if-cases Good _ _ (ltb now (cooldown_of a p.fails)) (λ _. h)
        (λ _.
          if-cases Good _ _ (not (has_slot (subnet_key ip a) p.subnets)) (λ _. h)
            (λ s. admitted-IsPool time a from p h l e (not_false s)))
    where
      not_false : {b : Bool} → not b ≡ false → b ≡ true
      not_false {b = true} s = refl
      not_false {b = false} s = cc

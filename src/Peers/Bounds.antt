-- ===== src/Peers/Bounds.antt =====
-- `PeerPool` of src/peerpool.py under any sequence of its operations.
use lapsecoin.Prelude.{
  ℕ, ◌+◌, ◌≡◌, refl, sym, ◌∙◌, String, Bool, true, false, not, ◌&&◌, Option, none, some, List, [],
  ◌∷◌, length, arith, leb, if-cases,
}
use lapsecoin.Json.{Json}
use lapsecoin.Dict.{
  Dict, IsKeyed, contains, insert, erase, lookup-erase, insert-IsKeyed, erase-IsKeyed,
}
use lapsecoin.Peers.{
  Ipaddress, Pool, Info, Failure, subnet_key, count_at, forget, evict, evict_worst_cooldown,
  worst_cooldown, admit_if, add, strike, max_strikes, strikes_of, remove, evict_stale, create,
  is_routable_peer_addr,
}
use lapsecoin.Peers.Notes.{
  touch, update_info, set_http_reachable, record_claim, mark_attempting, unmark_attempting,
}
use lapsecoin.Peers.Count.{length-insert_old, length-erase, scan, scan-insert_old}
use lapsecoin.Peers.Idle.{IsIdle, worst-IsIdle}
use lapsecoin.Peers.Held.{
  IsPool, insert-IsNote, grow-IsNote, dropped, dropped-IsPool, forget-IsPool, admit-IsPool,
  evict_stale-IsPool,
}

touched-IsPool :
    (ip : Ipaddress) (a : String) (t : ℕ) (p : Pool)
    → IsPool ip p
    → contains a p.peers ≡ true
    → IsPool ip (record p { peers = insert a t p.peers })
touched-IsPool ip a t p h e = record {
  keyed = insert-IsKeyed a t p.peers h.keyed;
  bounded = omega (arith, h.bounded, length-insert_old a t p.peers e);
  keyed_fails = h.keyed_fails;
  keyed_subnets = h.keyed_subnets;
  counted = λ k. h.counted k ∙ sym (scan-insert_old (subnet_key ip) k a t p.peers e);
  capped = h.capped;
  info = grow-IsNote a t p.peers p.info h.info;
  learned_from = grow-IsNote a t p.peers p.learned_from h.learned_from;
  claimed = grow-IsNote a t p.peers p.claimed h.claimed;
}

failing-IsPool :
    (ip : Ipaddress) (fails : Dict Failure) (p : Pool)
    → IsPool ip p
    → IsKeyed fails
    → IsPool ip (record p { fails = fails })
failing-IsPool ip fails p h k = record {
  keyed = h.keyed;
  bounded = h.bounded;
  keyed_fails = k;
  keyed_subnets = h.keyed_subnets;
  counted = h.counted;
  capped = h.capped;
  info = h.info;
  learned_from = h.learned_from;
  claimed = h.claimed;
}

abbrev Good : Ipaddress → Bool × Pool → Type 0
Good ip (b, q) = IsPool ip q

module _ (ip : Ipaddress) (now time : ℕ) (a : String) (from : Option String) where
  -- The slot of an idle peer is enough room.
  admit_evicted-IsPool :
      (p : Pool) (o : Option (String × ℕ))
      → IsPool ip p
      → contains a p.peers ≡ false
      → ((b : String) (n : ℕ) → o ≡ some (b, n) → IsIdle p.peers now p.fails b)
      → Good ip (admit_if ip now time a from (evict ip o p))
  unfolding admit_if evict forget dropped
  admit_evicted-IsPool p none h e idle = h
  admit_evicted-IsPool p (some (b, n)) h e idle =
      let i = idle b n refl in
      rw i.held (
        admit-IsPool ip now time a from (dropped ip b p) (dropped-IsPool ip b p h i.held)
          (omega (arith, h.bounded, length-erase b p.peers i.held))
          (ground (arith, lookup-erase b a p.peers h.keyed, e)))

  add-IsPool :
      (allow_private : Bool) (p : Pool)
      → IsPool ip p
      → IsPool ip (add ip now time a allow_private from p).1
  unfolding add evict_worst_cooldown
  add-IsPool allow_private p h =
      if-cases (Good ip) _ _ (not allow_private && not (is_routable_peer_addr ip a)) (λ _. h)
        (λ _.
          if-cases (Good ip) _ _ (contains a p.peers) (λ y. touched-IsPool ip a time p h y)
            (λ k.
              if-cases (Good ip) _ _ (leb p.max_peers (length p.peers))
                (λ _.
                  admit_evicted-IsPool p (worst_cooldown p.peers now p.fails none) h k
                    (worst-IsIdle ip now p h))
                (λ f. admit-IsPool ip now time a from p h (ground (arith, f)) k)))

strike-IsPool :
    (ip : Ipaddress) (now : ℕ) (a : String) (p : Pool) → IsPool ip p → IsPool ip (strike ip now a p)
unfolding strike
strike-IsPool ip now a p h =
    let failed = failing-IsPool ip _ p h (insert-IsKeyed a _ p.fails h.keyed_fails) in
    if-cases (IsPool ip) _ _ (leb max_strikes (strikes_of a p.fails + 1))
      (λ _. forget-IsPool ip a _ failed) (λ _. failed)

touch-IsPool :
    (ip : Ipaddress) (time : ℕ) (a : String) (p : Pool) → IsPool ip p → IsPool ip (touch time a p)
unfolding touch
touch-IsPool ip time a p h =
    let cleared = failing-IsPool ip (erase a p.fails) p h (erase-IsKeyed a p.fails h.keyed_fails) in
    if-cases (λ peers. IsPool ip (record p { peers = peers; fails = erase a p.fails })) _ _
      (contains a p.peers)
      (λ y. touched-IsPool ip a time (record p { fails = erase a p.fails }) cleared y)
      (λ _. cleared)

-- A note on a peer that is held.
noted-IsPool :
    (ip : Ipaddress) (a : String) (i : Info) (seen : ℕ) (p : Pool)
    → IsPool ip p
    → contains a p.peers ≡ true
    → IsPool ip (record p { info = insert a i p.info; max_height_observed = seen })
noted-IsPool ip a i seen p h e = record {
  keyed = h.keyed;
  bounded = h.bounded;
  keyed_fails = h.keyed_fails;
  keyed_subnets = h.keyed_subnets;
  counted = h.counted;
  capped = h.capped;
  info = insert-IsNote a i p.peers p.info e h.info;
  learned_from = h.learned_from;
  claimed = h.claimed;
}

claiming-IsPool :
    (ip : Ipaddress) (a : String) (l : List String) (p : Pool)
    → IsPool ip p
    → contains a p.peers ≡ true
    → IsPool ip (record p { claimed = insert a l p.claimed })
claiming-IsPool ip a l p h e = record {
  keyed = h.keyed;
  bounded = h.bounded;
  keyed_fails = h.keyed_fails;
  keyed_subnets = h.keyed_subnets;
  counted = h.counted;
  capped = h.capped;
  info = h.info;
  learned_from = h.learned_from;
  claimed = insert-IsNote a l p.peers p.claimed e h.claimed;
}

attempting-IsPool :
    (ip : Ipaddress) (d : Dict ℕ) (p : Pool) → IsPool ip p → IsPool ip (record p { attempting = d })
attempting-IsPool ip d p h = record {
  keyed = h.keyed;
  bounded = h.bounded;
  keyed_fails = h.keyed_fails;
  keyed_subnets = h.keyed_subnets;
  counted = h.counted;
  capped = h.capped;
  info = h.info;
  learned_from = h.learned_from;
  claimed = h.claimed;
}

-- The methods that write, with what they read of the clocks.
pub data Call : Type 0 where
  adding : ℕ → ℕ → String → Bool → Option String → Call
  striking : ℕ → String → Call
  touching : ℕ → String → Call
  removing : String → Call
  evicting : ℕ → Call
  informing : String → Option ℕ → String → String → Call
  probing : ℕ → String → Bool → Call
  claiming : String → List Json → Call
  marking : ℕ → String → Call
  unmarking : String → Call

module _ (ip : Ipaddress) where
  unfoldable pub call : Call → Pool → Pool
  call (adding now time a allow from) p = (add ip now time a allow from p).1
  call (striking now a) p = strike ip now a p
  call (touching time a) p = touch time a p
  call (removing a) p = remove ip a p
  call (evicting time) p = evict_stale ip time p
  call (informing a height version tip) p = update_info a height version tip p
  call (probing at a ok) p = set_http_reachable at a ok p
  call (claiming a addrs) p = record_claim a addrs p
  call (marking now a) p = mark_attempting now a p
  call (unmarking a) p = unmark_attempting a p

  unfoldable pub calls : List Call → Pool → Pool
  calls [] p = p
  calls (c ∷ cs) p = calls cs (call c p)

  pub call-IsPool : (c : Call) (p : Pool) → IsPool ip p → IsPool ip (call c p)
  unfolding call remove update_info set_http_reachable record_claim mark_attempting
      unmark_attempting
  call-IsPool (adding now time a allow from) p h = add-IsPool ip now time a from allow p h
  call-IsPool (striking now a) p h = strike-IsPool ip now a p h
  call-IsPool (touching time a) p h = touch-IsPool ip time a p h
  call-IsPool (removing a) p h = forget-IsPool ip a p h
  call-IsPool (evicting time) p h = evict_stale-IsPool ip time p h
  call-IsPool (informing a height version tip) p h =
      if-cases (IsPool ip) _ _ (contains a p.peers) (λ y. noted-IsPool ip a _ _ p h y) (λ _. h)
  call-IsPool (probing at a ok) p h =
      if-cases (IsPool ip) _ _ (contains a p.peers) (λ y. noted-IsPool ip a _ _ p h y) (λ _. h)
  call-IsPool (claiming a addrs) p h =
      if-cases (IsPool ip) _ _ (contains a p.peers) (λ y. claiming-IsPool ip a _ p h y) (λ _. h)
  call-IsPool (marking now a) p h = attempting-IsPool ip _ p h
  call-IsPool (unmarking a) p h = attempting-IsPool ip _ p h

  create-IsPool : (max_peers : ℕ) → IsPool ip (create max_peers)
  unfolding create count_at scan
  create-IsPool m = record {
    keyed = tt;
    bounded = omega arith;
    keyed_fails = tt;
    keyed_subnets = tt;
    counted = λ k. refl;
    capped = λ k. omega arith;
    info = record { keyed = tt; held = λ a e. refl };
    learned_from = record { keyed = tt; held = λ a e. refl };
    claimed = record { keyed = tt; held = λ a e. refl };
  }

  calls_from-IsPool : (cs : List Call) (p : Pool) → IsPool ip p → IsPool ip (calls cs p)
  unfolding calls
  calls_from-IsPool [] p h = h
  calls_from-IsPool (c ∷ cs) p h = calls_from-IsPool cs (call c p) (call-IsPool c p h)

  -- After any sequence of the methods that write, on a new peer pool, there are at most as many
  -- peers as its maximum, the count kept for each subnet is the number that a scan of the peers
  -- finds and at most 3, the notes and claims are of held peers only, and no key stands twice.
  pub calls-IsPool : (max_peers : ℕ) (cs : List Call) → IsPool ip (calls cs (create max_peers))
  calls-IsPool max_peers cs = calls_from-IsPool cs (create max_peers) (create-IsPool max_peers)

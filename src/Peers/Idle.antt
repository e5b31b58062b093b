-- ===== src/Peers/Idle.antt =====
-- The peer whose slot src/peerpool.py takes back: `_evict_worst_cooldown_locked`.
use lapsecoin.Prelude.{
  ℕ, ◌≤◌, ◌<◌, ◌≡◌, refl, ap, inl, inr, ◌⊎◌, String, Bool, true, false, not, ◌&&◌, ◌||◌, Option,
  none, some, [], ◌∷◌, length, arith, str_eq, eq_iff, leb, Bool-cases, if-cases,
}
use lapsecoin.Dict.{Dict, IsKeyed, lookup, contains, lookup-insert, lookup-erase}
use lapsecoin.Peers.{
  Ipaddress, Pool, Failure, forget, evict, evict_worst_cooldown, worse, worst_cooldown, cooldown_of,
  admit, admit_if, add, is_routable_peer_addr,
}
use lapsecoin.Peers.Held.{IsPool, dropped}

-- A peer that is held and in cooldown.
pub record IsIdle (peers : Dict ℕ) (now : ℕ) (fails : Dict Failure) (a : String) : Type 0 where
  pub held : contains a peers ≡ true
  pub waits : now < cooldown_of a fails

worse-cases :
    (b : String) (s : ℕ) (worst : Option (String × ℕ)) {a : String} {n : ℕ}
    → worse b s worst ≡ some (a, n)
    → (b ≡ a) ⊎ (worst ≡ some (a, n))
unfolding worse
worse-cases b s none e = inl (cc e)
worse-cases b s (some (c, most)) e = ground (arith, e)

worst_cooldown-IsIdle :
    (peers : Dict ℕ) (now : ℕ) (all fails : Dict Failure) (worst : Option (String × ℕ))
    → IsKeyed fails
    → ((a : String) (rec : Failure) → lookup a fails ≡ some rec → lookup a all ≡ some rec)
    → ((a : String) (n : ℕ) → worst ≡ some (a, n) → IsIdle peers now all a)
    → (a : String) (n : ℕ) → worst_cooldown peers now fails worst ≡ some (a, n)
    → IsIdle peers now all a
unfolding worst_cooldown cooldown_of
worst_cooldown-IsIdle peers now all [] worst k sub h a n e = h a n e
worst_cooldown-IsIdle peers now all ((b, rec) ∷ fails) worst k sub h a n e =
    worst_cooldown-IsIdle peers now all fails _ k.1
      (λ c r l. sub c r (ground (arith, eq_iff b c, l, k.0)))
      (if-cases
        (λ (o : Option (String × ℕ)).
          (a : String) (n : ℕ) → o ≡ some (a, n) → IsIdle peers now all a)
        worst (worse b rec.strikes worst) (not (contains b peers) || leb rec.cooldown_until now)
        (λ _. h)
        (λ s a n w. elim (worse-cases b rec.strikes worst w) [
          | inl q ↦ rw⁻¹ q (idle s)
          | inr q ↦ h a n q
        ]))
      a n e
  where
    idle : (not (contains b peers) || leb rec.cooldown_until now) ≡ false → IsIdle peers now all b
    idle s =
        let found : lookup b all ≡ some rec = sub b rec (ground (arith, eq_iff b b)) in
        record { held = ground (arith, s); waits = rw (cooldown_of, found) (ground (arith, s)) }

pub worst-IsIdle :
    (ip : Ipaddress) (now : ℕ) (p : Pool)
    → IsPool ip p
    → (b : String) (n : ℕ) → worst_cooldown p.peers now p.fails none ≡ some (b, n)
    → IsIdle p.peers now p.fails b
worst-IsIdle ip now p h =
    worst_cooldown-IsIdle p.peers now p.fails p.fails none h.keyed_fails (λ c r l. l) (λ c m z. cc)

module _ (ip : Ipaddress) (now time : ℕ) (a : String) (from : Option String) (b : String) where
  -- A peer stays that is not the one whose slot is taken.
  admit-held :
      (p : Pool)
      → contains b p.peers ≡ true
      → contains b (admit ip now time a from p).1.peers ≡ true
  unfolding admit
  admit-held p h = ground (arith, h, eq_iff a b, lookup-insert a b time p.peers)

  differ :
      (p : Pool) (c : String)
      → cooldown_of b p.fails ≤ now
      → now < cooldown_of c p.fails
      → str_eq c b ≡ false
  differ p c f waits = elim (Bool-cases (str_eq c b)) [
    | inr k ↦ k
    | inl y ↦
        let same = ap (λ x. cooldown_of x p.fails) ((eq_iff c b).0 y) in
        absurd (omega (arith, same, f, waits))
  ]

  admit_if-held :
      (p : Pool) (o : Option (String × ℕ))
      → IsPool ip p
      → contains b p.peers ≡ true
      → cooldown_of b p.fails ≤ now
      → ((c : String) (n : ℕ) → o ≡ some (c, n) → IsIdle p.peers now p.fails c)
      → contains b (admit_if ip now time a from (evict ip o p)).1.peers ≡ true
  unfolding admit_if evict forget dropped
  admit_if-held p none h e f idle = e
  admit_if-held p (some (c, n)) h e f idle =
      let i = idle c n refl in
      rw i.held (
        admit-held (dropped ip c p)
          (ground (arith, differ p c f i.waits, e, lookup-erase c b p.peers h.keyed)))

  -- On a pool in which the invariant holds, adding a peer never drops a peer that is held and not
  -- in cooldown.
  pub add-held :
      (allow_private : Bool) (p : Pool)
      → IsPool ip p
      → contains b p.peers ≡ true
      → cooldown_of b p.fails ≤ now
      → contains b (add ip now time a allow_private from p).1.peers ≡ true
  unfolding add evict_worst_cooldown
  add-held allow_private p h e f =
      let Held : Bool × Pool → Type 0 = λ (ok, q). contains b q.peers ≡ true in
      if-cases Held _ _ (not allow_private && not (is_routable_peer_addr ip a)) (λ _. e)
        (λ _.
          if-cases Held _ _ (contains a p.peers)
            (λ _. ground (arith, e, eq_iff a b, lookup-insert a b time p.peers))
            (λ _.
              if-cases Held _ _ (leb p.max_peers (length p.peers))
                (λ _.
                  admit_if-held p (worst_cooldown p.peers now p.fails none) h e f
                    (worst-IsIdle ip now p h))
                (λ _. admit-held p e)))

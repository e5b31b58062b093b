-- ===== src/Peers.antt =====
-- src/peerpool.py: the addresses of the peers, with their failures and the count by subnet. The times
-- are whole seconds of the two clocks; the lock makes every method one step. Python's `ipaddress` is a
-- parameter.
pub mod Count
pub mod Notes
pub mod Held
pub mod Idle
pub mod Bounds
use lapsecoin.Prelude.{
  ℕ, zero, suc, ◌+◌, ◌-◌, ◌*◌, ◌^◌, String, Bool, true, false, not, ◌&&◌, ◌||◌, Option, none, some,
  List, [], ◌∷◌, length, take, str_eq, ltb, leb, ◌==◌, if◌then◌else◌,
}
use lapsecoin.Prelude.Text.{codes, has_code}
use lapsecoin.Dict.{Dict, lookup, contains, insert, erase}
use lapsecoin.Json.{Json, str}

abbrev pub cooldown_seconds : ℕ
cooldown_seconds = 60

abbrev pub cooldown_max_seconds : ℕ
cooldown_max_seconds = 300

abbrev pub max_strikes : ℕ
max_strikes = 3

abbrev pub stale_seconds : ℕ
stale_seconds = 300

abbrev pub max_peers_per_subnet : ℕ
max_peers_per_subnet = 3

abbrev pub peers_per_message_limit : ℕ
peers_per_message_limit = 50

-- `ip_address`, where `none` is its ValueError, and `str(ip_network(f"{ip}/{prefix}", strict=False))`.
pub record Ipaddress : Type 1 where
  pub Address : Type 0
  pub ip_address : List ℕ → Option Address
  pub version : Address → ℕ
  pub network : Address → ℕ → String
  pub is_private : Address → Bool
  pub is_loopback : Address → Bool
  pub is_link_local : Address → Bool
  pub is_multicast : Address → Bool
  pub is_reserved : Address → Bool
  pub is_unspecified : Address → Bool

-- `host, _port = addr.rsplit(":", 1)`; without a colon it is a ValueError.
unfoldable pub host_of : List ℕ → Option (List ℕ)
host_of [] = none
host_of (c ∷ s) = grow (host_of s)
  where
    grow : Option (List ℕ) → Option (List ℕ)
    grow (some host) = some (c ∷ host)
    grow none = if c == b':' then some [] else none

abbrev and_then : {A B : Type 0} → Option A → (A → Option B) → Option B
and_then none f = none
and_then (some a) f = f a

pub record Failure : Type 0 where
  pub strikes : ℕ
  pub cooldown_until : ℕ

pub record Info : Type 0 where
  pub height : Option ℕ
  pub version : String
  pub tip_hash : String
  pub http_reachable : Option Bool
  pub http_checked_at : Option ℕ

-- The fields of `PeerPool`, without the lock.
pub record Pool : Type 0 where
  pub max_peers : ℕ
  pub peers : Dict ℕ
  pub fails : Dict Failure
  pub info : Dict Info
  pub learned_from : Dict String
  pub claimed : Dict (List String)
  pub max_height_observed : ℕ
  pub subnets : Dict ℕ
  pub attempting : Dict ℕ

unfoldable pub create : ℕ → Pool
create max_peers = record {
  max_peers = max_peers;
  peers = [];
  fails = [];
  info = [];
  learned_from = [];
  claimed = [];
  max_height_observed = 0;
  subnets = [];
  attempting = [];
}

-- `d.get(k, 0)`
unfoldable pub count_at : String → Dict ℕ → ℕ
count_at k d = elim (lookup k d) [ none ↦ 0 | some n ↦ n ]

-- `self._fails.get(addr, {}).get("cooldown_until", 0.0)`
unfoldable pub cooldown_of : String → Dict Failure → ℕ
cooldown_of addr fails = elim (lookup addr fails) [ none ↦ 0 | some rec ↦ rec.cooldown_until ]

unfoldable pub strikes_of : String → Dict Failure → ℕ
strikes_of addr fails = elim (lookup addr fails) [ none ↦ 0 | some rec ↦ rec.strikes ]

unfoldable pub claim_slot : Option String → Dict ℕ → Dict ℕ
claim_slot none subnets = subnets
claim_slot (some k) subnets = insert k (count_at k subnets + 1) subnets

-- One peer of the subnet less; the count of none is not kept.
unfoldable pub release_slot : Option String → Dict ℕ → Dict ℕ
release_slot none subnets = subnets
release_slot (some k) subnets =
    let remaining = count_at k subnets - 1 in
    if ltb 0 remaining then insert k remaining subnets else erase k subnets

unfoldable pub has_slot : Option String → Dict ℕ → Bool
has_slot none subnets = true
has_slot (some k) subnets = ltb (count_at k subnets) max_peers_per_subnet

-- The peer that has the most strikes of those whose cooldown is running, the first of them in a tie.
unfoldable pub worse : String → ℕ → Option (String × ℕ) → Option (String × ℕ)
worse a strikes none = some (a, strikes)
worse a strikes (some (b, most)) = if ltb most strikes then some (a, strikes) else some (b, most)

unfoldable pub worst_cooldown :
    Dict ℕ → ℕ → Dict Failure → Option (String × ℕ) → Option (String × ℕ)
worst_cooldown peers now [] worst = worst
worst_cooldown peers now ((a, rec) ∷ fails) worst =
    let skip = not (contains a peers) || leb rec.cooldown_until now in
    worst_cooldown peers now fails (if skip then worst else worse a rec.strikes worst)

abbrev pub introduce : String → Option String → Dict String → Dict String
introduce addr none learned = learned
introduce addr (some peer) learned = insert addr peer learned

module _ (ip : Ipaddress) where
  unfoldable pub prefix : ip.Address → ℕ
  prefix a = if ip.version a == 4 then 24 else 64

  unfoldable pub parse_host : String → Option ip.Address
  parse_host addr = and_then (host_of (codes addr)) ip.ip_address

  unfoldable pub subnet_key : String → Option String
  subnet_key addr = and_then (parse_host addr) (λ a. some (ip.network a (prefix a)))

  unfoldable pub is_routable : ip.Address → Bool
  is_routable a = not (
      ip.is_private a
      || ip.is_loopback a
      || ip.is_link_local a
      || ip.is_multicast a
      || ip.is_reserved a
      || ip.is_unspecified a)

  unfoldable pub is_routable_peer_addr : String → Bool
  is_routable_peer_addr addr = elim (parse_host addr) [ none ↦ false | some a ↦ is_routable a ]

  -- `_forget`
  unfoldable pub forget : String → Pool → Pool
  forget addr p =
      if contains addr p.peers
      then record p {
        peers = erase addr p.peers;
        info = erase addr p.info;
        learned_from = erase addr p.learned_from;
        claimed = erase addr p.claimed;
        subnets = release_slot (subnet_key addr) p.subnets;
      }
      else p

  unfoldable pub forget_all : List String → Pool → Pool
  forget_all [] p = p
  forget_all (a ∷ addrs) p = forget_all addrs (forget a p)

  -- Whether there was one to evict, and what is left.
  unfoldable pub evict : Option (String × ℕ) → Pool → Bool × Pool
  evict none p = (false, p)
  evict (some (a, strikes)) p = (true, forget a p)

  unfoldable pub evict_worst_cooldown : ℕ → Pool → Bool × Pool
  evict_worst_cooldown now p = evict (worst_cooldown p.peers now p.fails none) p

  -- The end of `add`, where the pool has room.
  unfoldable pub admit : ℕ → ℕ → String → Option String → Pool → Bool × Pool
  admit now time addr learned_from p =
      if ltb now (cooldown_of addr p.fails)
      then (false, p)
      else if not (has_slot (subnet_key addr) p.subnets)
      then (false, p)
      else (
        true,
        record p {
          subnets = claim_slot (subnet_key addr) p.subnets;
          peers = insert addr time p.peers;
          learned_from = introduce addr learned_from p.learned_from;
        },
      )

  unfoldable pub admit_if : ℕ → ℕ → String → Option String → Bool × Pool → Bool × Pool
  admit_if now time addr learned_from (true, p) = admit now time addr learned_from p
  admit_if now time addr learned_from (false, p) = (false, p)

  -- `now` is the monotonic clock and `time` the wall clock.
  unfoldable pub add : ℕ → ℕ → String → Bool → Option String → Pool → Bool × Pool
  add now time addr allow_private learned_from p =
      if not allow_private && not (is_routable_peer_addr addr)
      then (false, p)
      else if contains addr p.peers
      then (false, record p { peers = insert addr time p.peers })
      else if leb p.max_peers (length p.peers)
      then admit_if now time addr learned_from (evict_worst_cooldown now p)
      else admit now time addr learned_from p

  -- 60 seconds for the first failure, twice that for the second, and a ban for the third.
  unfoldable pub cooldown_for : ℕ → ℕ
  cooldown_for strikes =
      if leb max_strikes strikes
      then cooldown_max_seconds
      else at_most (cooldown_seconds * 2 ^ (strikes - 1))
    where
      at_most : ℕ → ℕ
      at_most n = if leb n cooldown_max_seconds then n else cooldown_max_seconds

  unfoldable pub strike : ℕ → String → Pool → Pool
  strike now addr p =
      let strikes = strikes_of addr p.fails + 1 in
      let struck = record p {
        fails =
            insert addr (record { strikes = strikes; cooldown_until = now + cooldown_for strikes })
              p.fails;
      } in
      if leb max_strikes strikes then forget addr struck else struck

  unfoldable pub remove : String → Pool → Pool
  remove addr p = forget addr p

  unfoldable pub stale : ℕ → Dict ℕ → List String
  stale time [] = []
  stale time ((a, seen) ∷ peers) =
      let rest = stale time peers in if ltb (seen + stale_seconds) time then a ∷ rest else rest

  unfoldable pub evict_stale : ℕ → Pool → Pool
  evict_stale time p = forget_all (stale time p.peers) p

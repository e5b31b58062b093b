-- ===== src/Tests/Pools.antt =====
-- Runs of src/peerpool.py at concrete inputs. An address is its host's text, with one subnet for all.
use lapsecoin.Prelude.{ℕ, ◌≡◌, refl, true, false, none, some, List, [], ◌∷◌, arith, ◌≤◌}
use lapsecoin.Dict.{contains}
use lapsecoin.Json.{str}
use lapsecoin.Peers.{
  Ipaddress, Pool, create, add, cooldown_of, admit, is_routable_peer_addr, is_routable, parse_host,
  host_of, has_slot, subnet_key, prefix, count_at, claim_slot, strike, strikes_of, cooldown_for,
  evict_worst_cooldown, worst_cooldown, worse, evict, forget, release_slot, admit_if,
}
use lapsecoin.Peers.Notes.{keys, record_claim, claimed_addrs}
use lapsecoin.Peers.Held.{IsPool}
use lapsecoin.Peers.Idle.{add-held}
use lapsecoin.Peers.Bounds.{Call, call, adding, claiming, calls, calls-IsPool}

abbrev one_net : Ipaddress
one_net = record {
  Address = List ℕ;
  ip_address = λ host. some host;
  version = λ a. 4;
  network = λ a prefix. "net";
  is_private = λ a. false;
  is_loopback = λ a. false;
  is_link_local = λ a. false;
  is_multicast = λ a. false;
  is_reserved = λ a. false;
  is_unspecified = λ a. false;
}

-- The fourth of a subnet is turned away.
abbrev history : List Call
history =
    adding 10 1000 "a:1" false none
    ∷ adding 11 1001 "b:1" false (some "a:1")
    ∷ claiming "a:1" (str "z:1" ∷ [])
    ∷ adding 13 1002 "c:1" false none
    ∷ adding 14 1003 "d:1" false none
    ∷ []

history_runs : keys (calls one_net history (create 9)).peers ≡ "a:1" ∷ "b:1" ∷ "c:1" ∷ []
unfolding calls call create add admit is_routable_peer_addr is_routable parse_host host_of
    cooldown_of has_slot subnet_key prefix count_at claim_slot strike strikes_of cooldown_for
    record_claim keys claimed_addrs evict_worst_cooldown worst_cooldown worse evict forget
    release_slot admit_if
history_runs = refl

calls-IsPool_example : IsPool one_net (calls one_net history (create 9))
calls-IsPool_example = calls-IsPool one_net 9 history

abbrev held : Pool
held = calls one_net (adding 10 1000 "a:1" false none ∷ []) (create 1)

held_there : contains "a:1" held.peers ≡ true
unfolding calls call create add admit is_routable_peer_addr is_routable parse_host host_of
    cooldown_of has_slot subnet_key prefix count_at claim_slot
held_there = refl

held_ready : cooldown_of "a:1" held.fails ≤ 20
unfolding calls call create add admit is_routable_peer_addr is_routable parse_host host_of
    cooldown_of has_slot subnet_key prefix count_at claim_slot
held_ready = omega arith

add-held_example : contains "a:1" (add one_net 20 2000 "b:1" false none held).1.peers ≡ true
add-held_example =
    add-held one_net 20 2000 "b:1" none "a:1" false held
      (calls-IsPool one_net 1 (adding 10 1000 "a:1" false none ∷ [])) held_there held_ready

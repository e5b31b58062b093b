-- ===== src/Peers/Notes.antt =====
-- The methods of src/peerpool.py that no subnet matters to: sightings, notes and claims, and the queries.
use lapsecoin.Prelude.{
  ℕ, String, Bool, Option, none, some, List, [], ◌∷◌, take, ltb, leb, if◌then◌else◌,
}
use lapsecoin.Prelude.Text.{codes, has_code}
use lapsecoin.Dict.{Dict, lookup, contains, insert, erase}
use lapsecoin.Json.{Json, str}
use lapsecoin.Peers.{Pool, Info, cooldown_of, peers_per_message_limit}

unfoldable pub touch : ℕ → String → Pool → Pool
touch time addr p = record p {
  peers = if contains addr p.peers then insert addr time p.peers else p.peers;
  fails = erase addr p.fails;
}

abbrev pub no_info : Info
no_info = record {
  height = none;
  version = "";
  tip_hash = "";
  http_reachable = none;
  http_checked_at = none;
}

-- `self._info.setdefault(addr, {})`
unfoldable pub info_of : String → Dict Info → Info
info_of addr info = elim (lookup addr info) [ none ↦ no_info | some rec ↦ rec ]

unfoldable pub higher : Option ℕ → ℕ → ℕ
higher none seen = seen
higher (some height) seen = if ltb seen height then height else seen

unfoldable pub update_info : String → Option ℕ → String → String → Pool → Pool
update_info addr height version tip_hash p =
    if contains addr p.peers
    then record p {
      info =
          insert addr
            (record (info_of addr p.info) {
              height = height;
              version = version;
              tip_hash = tip_hash;
            })
            p.info;
      max_height_observed = higher height p.max_height_observed;
    }
    else p

unfoldable pub set_http_reachable : ℕ → String → Bool → Pool → Pool
set_http_reachable checked_at addr ok p =
    if contains addr p.peers
    then record p {
      info =
          insert addr
            (record (info_of addr p.info) {
              http_reachable = some ok;
              http_checked_at = some checked_at;
            })
            p.info;
    }
    else p

-- `isinstance(a, str) and ":" in a`
unfoldable pub claimed_addrs : List Json → List String
claimed_addrs [] = []
claimed_addrs (str a ∷ addrs) =
    let rest = claimed_addrs addrs in if has_code b':' (codes a) then a ∷ rest else rest
claimed_addrs (_ ∷ addrs) = claimed_addrs addrs

unfoldable pub record_claim : String → List Json → Pool → Pool
record_claim introducer addrs p =
    if contains introducer p.peers
    then record p {
      claimed = insert introducer (take peers_per_message_limit (claimed_addrs addrs)) p.claimed;
    }
    else p

unfoldable pub mark_attempting : ℕ → String → Pool → Pool
mark_attempting now addr p = record p { attempting = insert addr now p.attempting }

unfoldable pub unmark_attempting : String → Pool → Pool
unmark_attempting addr p = record p { attempting = erase addr p.attempting }

-- `all_addrs`, `get_all`, `attempting`
unfoldable pub keys : {V : Type 0} → Dict V → List String
keys [] = []
keys ((a, _) ∷ d) = a ∷ keys d

unfoldable pub get_all : ℕ → Pool → List String
get_all now p = active p.peers
  where
    active : Dict ℕ → List String
    active [] = []
    active ((a, _) ∷ peers) =
        let rest = active peers in if leb (cooldown_of a p.fails) now then a ∷ rest else rest

unfoldable pub is_known : String → Pool → Bool
is_known addr p = contains addr p.peers

-- ===== src/Member/Peers.antt =====
-- The leader's view of its peers: getPeerRef_, getWritablePeers_ and changePeerState_ of
-- src/infra/PBMember.cpp.
pub mod Transition
pub mod Quorum
pub mod Frame
use datom.Common.{
  ℕ, ◌+◌, ◌-◌, ◌%◌, ◌^◌, ℤ, String, str_eq, Bool, true, false, ◌&&◌, ◌||◌, Option, none, some, List,
  [], ◌∷◌, ltb, leb, ◌==◌, leb_ℤ, ltb_ℤ, eqb_ℤ, find_if, count_if, length, if◌then◌else◌,
}
use datom.Exec.{returned, aborted}
use datom.Member.{
  PbMember, PbMemberState, PeerInfo, LeaderCtx, Action, same_state, follower_wait_to_join_group,
  follower_syncing, follower_functional, leader_functional, leader_waiting_for_quorum,
}

-- A copy of the record that the pointer of getPeerRef_ points to.
unfoldable pub get_peer_ref : String → List PeerInfo → Option PeerInfo
get_peer_ref id = find_if (λ peer. str_eq peer.id id)

-- A write through that pointer.
unfoldable pub update_peer : String → (PeerInfo → PeerInfo) → List PeerInfo → List PeerInfo
update_peer id f [] = []
update_peer id f (p ∷ ps) = if str_eq p.id id then f p ∷ ps else p ∷ update_peer id f ps

abbrev pub is_writable : PeerInfo → Bool
is_writable peer =
    same_state peer.state follower_functional || same_state peer.state follower_syncing

unfoldable pub get_writable_peers : List PeerInfo → List PeerInfo
get_writable_peers [] = []
get_writable_peers (p ∷ ps) =
    let rest = get_writable_peers ps in if is_writable p then p ∷ rest else rest

-- Whether the request moves a peer: the three branches on the target state.
unfoldable pub accepts_change : PeerInfo → ℤ → PbMemberState → Bool
accepts_change member incoming target =
    if same_state target follower_wait_to_join_group
    then (same_state member.state follower_syncing || same_state member.state follower_functional)
      && leb_ℤ member.version incoming
    else if same_state target follower_syncing
    then (eqb_ℤ member.version incoming && same_state member.state follower_wait_to_join_group)
      || ltb_ℤ member.version incoming
    else if same_state target follower_functional
    then (eqb_ℤ member.version incoming
        && (same_state member.state follower_wait_to_join_group
            || same_state member.state follower_syncing))
      || ltb_ℤ member.version incoming
    else false

unfoldable pub change_peer : ℤ → PbMemberState → PeerInfo → PeerInfo
change_peer incoming target member =
    if accepts_change member incoming target
    then record member { state = target; version = incoming }
    else member

abbrev pub is_functional : PeerInfo → Bool
is_functional p = same_state p.state follower_functional

abbrev pub is_syncing : PeerInfo → Bool
is_syncing p = same_state p.state follower_syncing

-- The three counters of the for_each.
record PeerCounts : Type 0 where
  n_functional : ℕ
  n_syncing : ℕ
  n_non_functional : ℕ

count_peer : PeerCounts → PeerInfo → PeerCounts
count_peer c p =
    if is_functional p
    then record c { n_functional = c.n_functional + 1 }
    else if is_syncing p
    then record c { n_syncing = c.n_syncing + 1 }
    else record c { n_non_functional = c.n_non_functional + 1 }

count_peers : PeerCounts → List PeerInfo → PeerCounts
unfolding count_peer
count_peers c [] = c
count_peers c (p ∷ ps) = count_peers (count_peer c p) ps

abbrev no_peers : PeerCounts
no_peers = record { n_functional = 0; n_syncing = 0; n_non_functional = 0 }

-- quorum_-1 on uint32_t
abbrev pub backup_quorum : ℕ → ℕ
backup_quorum quorum = (quorum + 4294967296 - 1) % 4294967296

-- The group's state after a count of functional peers.
unfoldable pub adjust_group_state : ℕ → ℕ → PbMemberState → PbMemberState
adjust_group_state n_functional quorum state =
    if same_state state leader_functional && ltb n_functional (backup_quorum quorum)
    then leader_waiting_for_quorum
    else if same_state state leader_waiting_for_quorum && leb (backup_quorum quorum) n_functional
    then leader_functional
    else state

-- The two DCHECK lines at the end.
counts_ok : PeerCounts → List PeerInfo → ℕ → PbMemberState → Bool
counts_ok c peers quorum state =
    c.n_functional + c.n_non_functional + c.n_syncing == length peers
    && (ltb c.n_functional (backup_quorum quorum) || same_state state leader_functional)

-- The rest of changePeerState_ once the peers are updated.
adjust_group : LeaderCtx → List PeerInfo → Action (Unit {0})
unfolding count_peers adjust_group_state counts_ok
adjust_group ctx peers m =
    let c = count_peers no_peers peers in
    let state = adjust_group_state c.n_functional m.quorum m.state in
    let n = record m { leader_ctx = some (record ctx { peers = peers }); state = state } in
    if counts_ok c peers m.quorum state then (returned tt, n) else (aborted, n)

abbrev change_found : Option PeerInfo → LeaderCtx → String → ℤ → PbMemberState → Action (Unit {0})
unfolding adjust_group
change_found none ctx id incoming target m = (returned tt, m)
change_found (some member) ctx id incoming target m =
    adjust_group ctx (update_peer id (change_peer incoming target) ctx.peers) m

abbrev change_in : Option LeaderCtx → String → ℤ → PbMemberState → Action (Unit {0})
unfolding adjust_group
change_in none id incoming target m = (aborted, m)
change_in (some ctx) id incoming target m =
    change_found (get_peer_ref id ctx.peers) ctx id incoming target m

-- Without a leader context the code reads a null pointer.
unfoldable pub change_peer_state : String → ℤ → PbMemberState → Action (Unit {0})
unfolding adjust_group update_peer change_peer accepts_change get_peer_ref
change_peer_state id incoming_version target_state m =
    change_in m.leader_ctx id incoming_version target_state m

-- ===== src/Member/Peers/Frame.antt =====
-- What changePeerState_ leaves alone, whatever the member's state.
use datom.Common.{ℤ, String, ◌≡◌, true, Option, none, some, arith, List}
use datom.Member.{PbMember, PbMemberState, PeerInfo, LeaderCtx, is_leader_state, has_ctx}
use datom.Member.Peers.{
  change_peer_state, change_in, change_found, adjust_group, get_peer_ref, update_peer, change_peer,
}

-- All but the state and the leader context.
pub record SameBut (m n : PbMember) : Type 0 where
  pub term_id : n.term_id ≡ m.term_id
  pub commit_id : n.commit_id ≡ m.commit_id
  pub quorum : n.quorum ≡ m.quorum
  pub my_id : n.my_id ≡ m.my_id
  pub leader_id : n.leader_id ≡ m.leader_id
  pub sent : n.sent ≡ m.sent

adjust_group-SameBut :
    (ctx : LeaderCtx) (ps : List PeerInfo) (m : PbMember) → SameBut m (adjust_group ctx ps m).1
unfolding adjust_group
adjust_group-SameBut ctx ps m = ground arith

change_found-SameBut :
    (o : Option PeerInfo) (ctx : LeaderCtx) (id : String) (w : ℤ) (t : PbMemberState) (m : PbMember)
    → SameBut m (change_found o ctx id w t m).1
unfolding adjust_group
change_found-SameBut none ctx id w t m = ground arith
change_found-SameBut (some p) ctx id w t m =
    adjust_group-SameBut ctx (update_peer id (change_peer w t) ctx.peers) m

change_in-SameBut :
    (o : Option LeaderCtx) (id : String) (w : ℤ) (t : PbMemberState) (m : PbMember)
    → SameBut m (change_in o id w t m).1
unfolding adjust_group
change_in-SameBut none id w t m = ground arith
change_in-SameBut (some ctx) id w t m =
    change_found-SameBut (get_peer_ref id ctx.peers) ctx id w t m

pub change_peer_state-SameBut :
    (id : String) (w : ℤ) (t : PbMemberState) (m : PbMember)
    → SameBut m (change_peer_state id w t m).1
unfolding change_peer_state
change_peer_state-SameBut id w t m = change_in-SameBut m.leader_ctx id w t m

-- A member in a leader state has a leader context.
abbrev pub IsSound : PbMember → Type 0
IsSound m = is_leader_state m.state ≡ true → has_ctx m.leader_ctx ≡ true

adjust_group-IsSound :
    (ctx : LeaderCtx) (ps : List PeerInfo) (m : PbMember) → IsSound (adjust_group ctx ps m).1
unfolding adjust_group
adjust_group-IsSound ctx ps m = ground arith

change_found-IsSound :
    (o : Option PeerInfo) (ctx : LeaderCtx) (id : String) (w : ℤ) (t : PbMemberState) (m : PbMember)
    → IsSound m
    → IsSound (change_found o ctx id w t m).1
unfolding adjust_group
change_found-IsSound none ctx id w t m h = h
change_found-IsSound (some p) ctx id w t m h =
    adjust_group-IsSound ctx (update_peer id (change_peer w t) ctx.peers) m

change_in-IsSound :
    (o : Option LeaderCtx) (id : String) (w : ℤ) (t : PbMemberState) (m : PbMember)
    → IsSound m
    → IsSound (change_in o id w t m).1
unfolding adjust_group
change_in-IsSound none id w t m h = h
change_in-IsSound (some ctx) id w t m h =
    change_found-IsSound (get_peer_ref id ctx.peers) ctx id w t m h

pub change_peer_state-IsSound :
    (id : String) (w : ℤ) (t : PbMemberState) (m : PbMember)
    → IsSound m
    → IsSound (change_peer_state id w t m).1
unfolding change_peer_state
change_peer_state-IsSound id w t m h = change_in-IsSound m.leader_ctx id w t m h

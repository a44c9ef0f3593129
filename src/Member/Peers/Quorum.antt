-- ===== src/Member/Peers/Quorum.antt =====
-- The leader's state and the number of its functional peers.
use datom.Common.{
  ℕ, ◌+◌, ℤ, String, ◌≡◌, refl, Bool, true, ◌&&◌, ◌||◌, not, Option, none, some, List, [], ◌∷◌,
  arith, ltb, ==_iff, length, count_if, if◌then◌else◌, Bool-cases, ◌⊎◌, inl, inr, str_eq, ◌∙◌, ap,
}
use native.Mathlib.Nat.{zero-add}
use mathlib.Core.Option
use datom.Exec.{returned}
use datom.Member.{
  PbMember, PbMemberState, PeerInfo, LeaderCtx, is_leader_state, leader_functional,
  leader_waiting_for_quorum, same_state,
}
use datom.Member.Peers.{
  PeerCounts, count_peers, count_peer, no_peers, counts_ok, adjust_group, adjust_group_state,
  backup_quorum, is_functional, is_syncing, change_peer_state, update_peer, change_peer,
  get_peer_ref, change_in,
}
use datom.Member.Peers.Transition.{PeerStep, change_peer-PeerStep, Advances, update_peer-Advances}

-- The state that a leader with `n` functional peers must be in.
unfoldable pub group_state : ℕ → ℕ → PbMemberState
group_state n quorum =
    if ltb n (backup_quorum quorum) then leader_waiting_for_quorum else leader_functional

is_other : PeerInfo → Bool
is_other p = not (is_functional p) && not (is_syncing p)

count_peers_lem :
    (c : PeerCounts) (ps : List PeerInfo)
    → ((count_peers c ps).n_functional ≡ c.n_functional + count_if is_functional ps)
      × ((count_peers c ps).n_functional
            + (count_peers c ps).n_non_functional
            + (count_peers c ps).n_syncing
          ≡ c.n_functional + c.n_non_functional + c.n_syncing + length ps)
unfolding count_peers
count_peers_lem c [] = (omega arith, omega arith)
count_peers_lem c (p ∷ ps) = ground (arith, count_peers_lem (count_peer c p) ps)

adjust_group_state_lem :
    (n quorum : ℕ) (s : PbMemberState)
    → is_leader_state s ≡ true
    → adjust_group_state n quorum s ≡ group_state n quorum
unfolding adjust_group_state group_state is_leader_state
adjust_group_state_lem n quorum s h = ground arith

group_state_ok :
    (n quorum : ℕ)
    → (ltb n (backup_quorum quorum) || same_state (group_state n quorum) leader_functional) ≡ true
unfolding group_state
group_state_ok n quorum = ground arith

counts_ok_lem :
    (c : PeerCounts) (ps : List PeerInfo) (quorum : ℕ)
    → c.n_functional + c.n_non_functional + c.n_syncing ≡ length ps
    → counts_ok c ps quorum (group_state c.n_functional quorum) ≡ true
unfolding counts_ok
counts_ok_lem c ps quorum h = ground (
  arith,
  group_state_ok c.n_functional quorum,
  ==_iff (c.n_functional + c.n_non_functional + c.n_syncing) (length ps),
)

adjust_group_lem :
    (ctx : LeaderCtx) (ps : List PeerInfo) (m : PbMember)
    → is_leader_state m.state ≡ true
    → adjust_group ctx ps m ≡ (
      returned tt,
      record m {
        leader_ctx = some (record ctx { peers = ps });
        state = group_state (count_if is_functional ps) m.quorum;
      },
    )
unfolding adjust_group
adjust_group_lem ctx ps m h =
    rw
      (
        adjust_group_state_lem (count_peers no_peers ps).n_functional m.quorum m.state h,
        counts_ok_lem (count_peers no_peers ps) ps m.quorum
            (omega (arith, (count_peers_lem no_peers ps).1)),
        (count_peers_lem no_peers ps).0,
        zero-add,
      )
      refl

get_peer_ref-update_peer :
    (id : String) (f : PeerInfo → PeerInfo) (ps : List PeerInfo) (p : PeerInfo)
    → ((q : PeerInfo) → (f q).id ≡ q.id)
    → get_peer_ref id ps ≡ some p
    → get_peer_ref id (update_peer id f ps) ≡ some (f p)
unfolding get_peer_ref update_peer
get_peer_ref-update_peer id f [] p k h = cc
get_peer_ref-update_peer id f (q ∷ qs) p k h = elim (Bool-cases (str_eq q.id id)) [
  | inl e ↦ let at : some q ≡ some p = rw e at h in simp (e, k q) (ap (Option.map f) at)
  | inr e ↦ rw (e, e) (get_peer_ref-update_peer id f qs p k (rw e at h))
]

change_peer_id : (w : ℤ) (t : PbMemberState) (q : PeerInfo) → (change_peer w t q).id ≡ q.id
unfolding change_peer
change_peer_id w t q = ground arith

-- The first peer of an id after a report: it has the reported state and version if that is one of the
-- moves of PeerStep, and is as it was if it is not.
abbrev pub IsMoved : String → ℤ → PbMemberState → PeerInfo → List PeerInfo → Type 0
IsMoved id w t p ps =
    (PeerStep p.state p.version w t
      × (get_peer_ref id ps ≡ some (record p { state = t; version = w })))
    ⊎ ((¬ PeerStep p.state p.version w t) × (get_peer_ref id ps ≡ some p))

moved :
    (id : String) (w : ℤ) (t : PbMemberState) (p : PeerInfo) (ps : List PeerInfo)
    → get_peer_ref id ps ≡ some (change_peer w t p)
    → IsMoved id w t p ps
moved id w t p ps e = elim (change_peer-PeerStep p w t) [
  | inl (s, q) ↦ inl (s, e ∙ ap some q)
  | inr (n, q) ↦ inr (n, e ∙ ap some q)
]

change_in_known :
    (o : Option LeaderCtx) (ctx : LeaderCtx) (id : String) (w : ℤ) (t : PbMemberState)
    (m : PbMember) {p : PeerInfo}
    → o ≡ some ctx
    → get_peer_ref id ctx.peers ≡ some p
    → change_in o id w t m ≡ adjust_group ctx (update_peer id (change_peer w t) ctx.peers) m
unfolding adjust_group
change_in_known o ctx id w t m e f = rw (e, f)

change_peer_state-eq-in :
    (id : String) (w : ℤ) (t : PbMemberState) (m : PbMember)
    → change_peer_state id w t m ≡ change_in m.leader_ctx id w t m
unfolding change_peer_state
change_peer_state-eq-in id w t m = refl

-- A report about a known peer, at a leader: the call returns, so no assertion fails; the peers are the
-- same in the same order and no version goes back; the peer has the reported state and version if the
-- report is one of the moves of PeerStep, and is as it was if not; and the group is functional
-- exactly when the functional peers reach the quorum less one.
pub change_peer_state_lem :
    (m : PbMember) (ctx : LeaderCtx) (id : String) (w : ℤ) (t : PbMemberState) (p : PeerInfo)
    → m.leader_ctx ≡ some ctx
    → is_leader_state m.state ≡ true
    → get_peer_ref id ctx.peers ≡ some p
    → (ps : List PeerInfo) × (change_peer_state id w t m ≡ (
      returned tt,
      record m {
        leader_ctx = some (record ctx { peers = ps });
        state = group_state (count_if is_functional ps) m.quorum;
      },
    ))
      × Advances ctx.peers ps
      × IsMoved id w t p ps
change_peer_state_lem m ctx id w t p e l f =
    let ps = update_peer id (change_peer w t) ctx.peers in
    (
      ps,
      change_peer_state-eq-in id w t m
          ∙ change_in_known m.leader_ctx ctx id w t m e f
          ∙ adjust_group_lem ctx ps m l,
      update_peer-Advances id w t ctx.peers,
      moved id w t p ps
          (get_peer_ref-update_peer id (change_peer w t) ctx.peers p (change_peer_id w t) f),
    )

change_in_unknown :
    (o : Option LeaderCtx) (ctx : LeaderCtx) (id : String) (w : ℤ) (t : PbMemberState)
    (m : PbMember)
    → o ≡ some ctx
    → get_peer_ref id ctx.peers ≡ none
    → change_in o id w t m ≡ (returned tt, m)
unfolding adjust_group
change_in_unknown o ctx id w t m e f = rw (e, f)

-- A report about a service that is no peer changes nothing.
pub change_peer_state_unknown :
    (m : PbMember) (ctx : LeaderCtx) (id : String) (w : ℤ) (t : PbMemberState)
    → m.leader_ctx ≡ some ctx
    → get_peer_ref id ctx.peers ≡ none
    → change_peer_state id w t m ≡ (returned tt, m)
change_peer_state_unknown m ctx id w t e f =
    change_peer_state-eq-in id w t m ∙ change_in_unknown m.leader_ctx ctx id w t m e f

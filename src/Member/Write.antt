-- ===== src/Member/Write.antt =====
-- writeToPeers of src/infra/PBMember.cpp: one message to each writable peer, and a promise that the
-- answers settle. A payload is its bytes, as text.
pub mod Promise
pub mod Responses
pub mod Settles
use datom.Common.{
  ℕ, ◌+◌, String, Bool, true, false, ◌&&◌, Option, none, some, List, [], ◌∷◌, ◌==◌, length,
  if◌then◌else◌,
}
use datom.Exec.{Exec, Outcome, returned, thrown, aborted, ◌>>=◌, ◌>>◌, pure, check, gets}
use datom.Member.{
  PbMember, PbMemberState, PeerInfo, LeaderCtx, Action, same_state, follower_wait_to_join_group,
  leader_functional, send, send_kvb,
}
use datom.Member.Peers.{get_peer_ref, get_writable_peers, change_peer_state, backup_quorum}

-- promise.setValue and promise.setException
pub data Settled : Type 0 where
  fulfilled failed : Settled

-- isFulfilled() is `some`. The last callback to end destroys the context with its promise; the future of
-- one that is `none` then gets folly's BrokenPromise.
pub record WriteCtx : Type 0 where
  pub promise : Option Settled
  pub n_acked : ℕ
  pub n_success : ℕ
  pub n_peers : ℕ

abbrev pub new_write_ctx : ℕ → WriteCtx
new_write_ctx n = record { promise = none; n_acked = 0; n_success = 0; n_peers = n }

abbrev settle_if : Bool → Settled → Option Settled → Option Settled
settle_if true v none = some v
settle_if _ v p = p

-- What an answer, a value or an exception, does to the counters and the promise.
unfoldable pub on_ack : ℕ → Bool → WriteCtx → WriteCtx
on_ack quorum true c =
    let n = c.n_success + 1 in
    record c {
      promise = settle_if (n == backup_quorum quorum) fulfilled c.promise;
      n_acked = c.n_acked + 1;
      n_success = n;
    }
on_ack quorum false c =
    let n = c.n_acked + 1 in
    record c { promise = settle_if (n == c.n_peers) failed c.promise; n_acked = n }

-- A member, and the write context that its callbacks share.
pub record WriteState : Type 0 where
  pub member : PbMember
  pub ctx : WriteCtx

-- Runs an action of the member inside the callback.
abbrev pub on_member : Action (Unit {0}) → Exec WriteState (Unit {0})
on_member act s = let (r, m) = act s.member in (r, record s { member = m })

abbrev record_ack : Bool → Exec WriteState (Unit {0})
record_ack value s = (returned tt, record s { ctx = on_ack s.member.quorum value s.ctx })

-- The answer of a peer that is in the leader context; a null `peer` is read only on an exception.
abbrev answer : Option PeerInfo → PeerInfo → Bool → Exec WriteState (Unit {0})
answer peer peer_prior true s = record_ack true s
answer none peer_prior false s = (aborted, s)
answer (some peer) peer_prior false s =
    (on_member (change_peer_state peer.id peer_prior.version follower_wait_to_join_group)
        >> record_ack false)
      s

abbrev answer_in : Option LeaderCtx → PeerInfo → Bool → Exec WriteState (Unit {0})
answer_in none peer_prior value s = (aborted, s)
answer_in (some ctx) peer_prior value s =
    answer (get_peer_ref peer_prior.id ctx.peers) peer_prior value s

-- The last `then` of each send: `peer_prior` is the captured copy of the peer.
unfoldable pub on_write_response : PeerInfo → Bool → Exec WriteState (Unit {0})
unfolding on_ack get_peer_ref
on_write_response peer_prior value s = answer_in s.member.leader_ctx peer_prior value s

abbrev send_all : String → String → List PeerInfo → Action (Unit {0})
send_all type buffer [] = pure tt
send_all type buffer (p ∷ ps) = send (send_kvb p.id type buffer) >> send_all type buffer ps

abbrev peers_of : Option LeaderCtx → Option (List PeerInfo)
peers_of none = none
peers_of (some ctx) = some (get_writable_peers ctx.peers)

abbrev write_to : Option (List PeerInfo) → String → String → Action WriteCtx
write_to none type buffer m = (aborted, m)
write_to (some peers) type buffer m =
    (send_all type buffer peers >> pure (new_write_ctx (length peers))) m

unfoldable pub write_to_peers : String → String → Action WriteCtx
unfolding get_writable_peers
write_to_peers type buffer m =
    (check (same_state m.state leader_functional) >> write_to (peers_of m.leader_ctx) type buffer) m

-- The answers of the peers in the order in which they arrive.
unfoldable pub run_responses : List (PeerInfo × Bool) → Exec WriteState (Unit {0})
run_responses [] = pure tt
run_responses ((p, value) ∷ rest) = on_write_response p value >> run_responses rest

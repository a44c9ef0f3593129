-- ===== src/Member/Write/Settles.antt =====
-- The whole of a replicated write at a leader: what it sends, and how its promise ends.
use datom.Common.{
  ◌≡◌, refl, ap, ◌∙◌, String, Bool, true, Option, some, List, [], ◌∷◌, ◌++◌, map, length, suc, sym,
}
use mathlib.Core.List.{append-nil, append_assoc}
use datom.Exec.{check_then, returned}
use datom.Member.{
  PbMember, PbMemberState, same_state, PeerInfo, LeaderCtx, is_leader_state, leader_functional,
  Request, send_kvb,
}
use datom.Member.Peers.{get_writable_peers}
use datom.Member.Write.{
  WriteState, run_responses, write_to_peers, new_write_ctx, send_all, write_to, peers_of,
}
use datom.Member.Write.Promise.{run_acks, run_acks-eq-verdict, verdict}
use datom.Member.Write.Responses.{AllPeers, values, run_responses_lem}

-- The messages of one write.
abbrev pub writes : String → String → List PeerInfo → List Request
writes type buffer = map (λ p. send_kvb p.id type buffer)

send_all_lem :
    (type buffer : String) (ps : List PeerInfo) (m : PbMember)
    → send_all type buffer ps m ≡ (returned tt, record m { sent = m.sent ++ writes type buffer ps })
send_all_lem type buffer [] m = rw (append-nil m.sent)
send_all_lem type buffer (p ∷ ps) m =
    send_all_lem type buffer ps (record m { sent = m.sent ++ send_kvb p.id type buffer ∷ [] })
    ∙ ap (λ l. (returned tt, record m { sent = l }))
        (append_assoc m.sent (send_kvb p.id type buffer ∷ []) (writes type buffer ps))

write_to_lem :
    (o : Option LeaderCtx) (ctx : LeaderCtx) (type buffer : String) (m : PbMember)
    → o ≡ some ctx
    → write_to (peers_of o) type buffer m ≡ (
      returned (new_write_ctx (length (get_writable_peers ctx.peers))),
      record m { sent = m.sent ++ writes type buffer (get_writable_peers ctx.peers) },
    )
write_to_lem o ctx type buffer m e =
    rw (e, send_all_lem type buffer (get_writable_peers ctx.peers) m)

is_functional_state :
    (s : PbMemberState) → s ≡ leader_functional → same_state s leader_functional ≡ true
is_functional_state s f = rw f

pub write_to_peers_lem :
    (m : PbMember) (ctx : LeaderCtx) (type buffer : String)
    → m.state ≡ leader_functional
    → m.leader_ctx ≡ some ctx
    → write_to_peers type buffer m ≡ (
      returned (new_write_ctx (length (get_writable_peers ctx.peers))),
      record m { sent = m.sent ++ writes type buffer (get_writable_peers ctx.peers) },
    )
unfolding write_to_peers
write_to_peers_lem m ctx type buffer f e =
    check_then (same_state m.state leader_functional) (write_to (peers_of m.leader_ctx) type buffer)
      m (is_functional_state m.state f)
    ∙ write_to_lem m.leader_ctx ctx type buffer m e

length-values : (answers : List (PeerInfo × Bool)) → length (values answers) ≡ length answers
length-values [] = refl
length-values ((p, value) ∷ rest) = ap suc (length-values rest)

leads_functional : (m : PbMember) → m.state ≡ leader_functional → is_leader_state m.state ≡ true
unfolding is_leader_state
leads_functional m f = simp f

-- A write at a functional leader sends the buffer to each peer that is functional or syncing, in
-- order, and to no other; and when each of them has answered, in any order, no callback has failed
-- an assertion and the promise stands as `verdict` says.
pub write_to_peers_settles :
    (m : PbMember) (ctx : LeaderCtx) (type buffer : String) (answers : List (PeerInfo × Bool))
    → m.state ≡ leader_functional
    → m.leader_ctx ≡ some ctx
    → AllPeers ctx.peers answers
    → length answers ≡ length (get_writable_peers ctx.peers)
    → (s t : WriteState) × (write_to_peers type buffer m ≡ (returned s.ctx, s.member))
      × (s.member.sent ≡ m.sent ++ writes type buffer (get_writable_peers ctx.peers))
      × (run_responses answers s ≡ (returned tt, t))
      × (t.ctx.promise ≡ verdict m.quorum (values answers))
write_to_peers_settles m ctx type buffer answers f e k h =
    let n : PbMember = record m {
      sent = m.sent ++ writes type buffer (get_writable_peers ctx.peers);
    } in
    let s : WriteState = record {
      member = n;
      ctx = new_write_ctx (length (get_writable_peers ctx.peers));
    } in
    let (t, r, c, _) =
      run_responses_lem answers s ctx (record { has = e; leader = leads_functional m f }) k in
    (
      s,
      t,
      write_to_peers_lem m ctx type buffer f e,
      refl,
      r,
      ap (λ w. w.promise)
            (c
              ∙ ap (λ n. run_acks m.quorum (values answers) (new_write_ctx n))
                  (sym h ∙ sym (length-values answers)))
          ∙ run_acks-eq-verdict m.quorum (values answers),
    )

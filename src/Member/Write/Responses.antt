-- ===== src/Member/Write/Responses.antt =====
-- The callbacks of a replicated write at a leader.
use datom.Common.{
  ℕ, ◌≡◌, refl, ap, ◌∙◌, String, str_eq, Bool, true, false, Option, some, List, [], ◌∷◌, arith, All,
  Bool-cases, inl, inr, eq_iff, count_if,
}
use datom.Exec.{returned}
use datom.Member.{PbMember, PeerInfo, LeaderCtx, is_leader_state, follower_wait_to_join_group}
use datom.Member.Peers.{get_peer_ref, change_peer_state, is_functional}
use datom.Member.Peers.Transition.{Advances, Advances-refl}
use datom.Member.Peers.Quorum.{change_peer_state_lem, group_state}
use datom.Member.Write.{WriteState, on_ack, on_write_response, run_responses, answer_in, answer}
use datom.Member.Write.Promise.{run_acks}

-- A service is a peer of the leader.
abbrev pub IsPeer : List PeerInfo → String → Type 0
IsPeer ps id = (p : PeerInfo) × (get_peer_ref id ps ≡ some p)

IsPeer-Advances :
    (id : String) (ps qs : List PeerInfo) → Advances ps qs → IsPeer ps id → IsPeer qs id
unfolding get_peer_ref
IsPeer-Advances id [] [] a k = k
IsPeer-Advances id [] (q ∷ qs) a k = absurd a
IsPeer-Advances id (p ∷ ps) [] a k = absurd a
IsPeer-Advances id (p ∷ ps) (q ∷ qs) a (r, e) = elim (Bool-cases (str_eq p.id id)) [
  | inl h ↦ (q, simp (← a.0, h))
  | inr h ↦ let (t, f) = IsPeer-Advances id ps qs a.2 (r, rw h at e) in (t, simp (← a.0, h) f)
]

abbrev pub AllPeers : List PeerInfo → List (PeerInfo × Bool) → Type 0
AllPeers ps = All (λ a. IsPeer ps a.0.id)

AllPeers-Advances :
    (ps qs : List PeerInfo) (answers : List (PeerInfo × Bool))
    → Advances ps qs
    → AllPeers ps answers
    → AllPeers qs answers
AllPeers-Advances ps qs [] a k = tt
AllPeers-Advances ps qs (x ∷ xs) a k =
    (IsPeer-Advances x.0.id ps qs a k.0, AllPeers-Advances ps qs xs a k.1)

group_state-leader : (n q : ℕ) → is_leader_state (group_state n q) ≡ true
unfolding group_state is_leader_state
group_state-leader n q = ground arith

-- A leader whose context is `ctx`.
pub record Leads (m : PbMember) (ctx : LeaderCtx) : Type 0 where
  pub has : m.leader_ctx ≡ some ctx
  pub leader : is_leader_state m.state ≡ true

-- What one answer leaves behind.
record Answered (p : PeerInfo) (value : Bool) (s : WriteState) (ctx : LeaderCtx) : Type 0 where
  next : WriteState
  runs : on_write_response p value s ≡ (returned tt, next)
  acked : next.ctx ≡ on_ack s.member.quorum value s.ctx
  same_quorum : next.member.quorum ≡ s.member.quorum
  next_ctx : LeaderCtx
  leads : Leads next.member next_ctx
  advances : Advances ctx.peers next_ctx.peers

get_peer_ref-id :
    (id : String) (ps : List PeerInfo) (q : PeerInfo) → get_peer_ref id ps ≡ some q → q.id ≡ id
unfolding get_peer_ref
get_peer_ref-id id [] q e = cc
get_peer_ref-id id (p ∷ ps) q e = ground (arith, eq_iff p.id id, get_peer_ref-id id ps q)

answer_in_peer :
    (o : Option LeaderCtx) (ctx : LeaderCtx) (p q : PeerInfo) (value : Bool) (s : WriteState)
    → o ≡ some ctx
    → get_peer_ref p.id ctx.peers ≡ some q
    → answer_in o p value s ≡ answer (some q) p value s
answer_in_peer o ctx p q value s e f = rw (e, f)

on_write_response-eq-in :
    (p : PeerInfo) (value : Bool) (s : WriteState)
    → on_write_response p value s ≡ answer_in s.member.leader_ctx p value s
unfolding on_write_response
on_write_response-eq-in p value s = refl

answer_failed :
    (p q : PeerInfo) (s : WriteState) (m : PbMember)
    → change_peer_state q.id p.version follower_wait_to_join_group s.member ≡ (returned tt, m)
    → answer (some q) p false s
      ≡ (returned tt, record { member = m; ctx = on_ack m.quorum false s.ctx })
answer_failed p q s m e = rw e

on_write_response_lem :
    (p : PeerInfo) (value : Bool) (s : WriteState) (ctx : LeaderCtx)
    → Leads s.member ctx
    → IsPeer ctx.peers p.id
    → Answered p value s ctx
on_write_response_lem p true s ctx l (q, f) = record {
  next = record s { ctx = on_ack s.member.quorum true s.ctx };
  runs =
      on_write_response-eq-in p true s ∙ answer_in_peer s.member.leader_ctx ctx p q true s l.has f;
  acked = refl;
  same_quorum = refl;
  next_ctx = ctx;
  leads = l;
  advances = Advances-refl ctx.peers;
}
on_write_response_lem p false s ctx l (q, f) =
    let (ps, e, a, _) =
      change_peer_state_lem s.member ctx q.id p.version follower_wait_to_join_group q l.has l.leader
        (simp (get_peer_ref-id p.id ctx.peers q f) f) in
    let m : PbMember = record s.member {
      leader_ctx = some (record ctx { peers = ps });
      state = group_state (count_if is_functional ps) s.member.quorum;
    } in
    record {
      next = record { member = m; ctx = on_ack s.member.quorum false s.ctx };
      runs =
          on_write_response-eq-in p false s
          ∙ answer_in_peer s.member.leader_ctx ctx p q false s l.has f
          ∙ answer_failed p q s m e;
      acked = refl;
      same_quorum = refl;
      next_ctx = record ctx { peers = ps };
      leads = record { has = refl; leader = group_state-leader _ _ };
      advances = a;
    }

abbrev pub values : List (PeerInfo × Bool) → List Bool
values [] = []
values ((p, value) ∷ rest) = value ∷ values rest

run_responses_step :
    (p : PeerInfo) (value : Bool) (rest : List (PeerInfo × Bool)) (s t : WriteState)
    → on_write_response p value s ≡ (returned tt, t)
    → run_responses ((p, value) ∷ rest) s ≡ run_responses rest t
unfolding run_responses
run_responses_step p value rest s t e = rw e

-- At a leader, answers from its peers are all taken without a failed assertion or a null pointer;
-- the shared context goes through `run_acks`, and the member stays a leader with the same peers.
pub run_responses_lem :
    (answers : List (PeerInfo × Bool)) (s : WriteState) (ctx : LeaderCtx)
    → Leads s.member ctx
    → AllPeers ctx.peers answers
    → (t : WriteState) × (run_responses answers s ≡ (returned tt, t))
      × (t.ctx ≡ run_acks s.member.quorum (values answers) s.ctx)
      × (is_leader_state t.member.state ≡ true)
unfolding run_responses run_acks
run_responses_lem [] s ctx l k = (s, refl, refl, l.leader)
run_responses_lem ((p, value) ∷ rest) s ctx l k =
    let a = on_write_response_lem p value s ctx l k.0 in
    let (u, f, d, g) =
      run_responses_lem rest a.next a.next_ctx a.leads
        (AllPeers-Advances ctx.peers a.next_ctx.peers rest a.advances k.1) in
    (
      u,
      run_responses_step p value rest s a.next a.runs ∙ f,
      d
          ∙ ap (λ n. run_acks n (values rest) a.next.ctx) a.same_quorum
          ∙ ap (run_acks s.member.quorum (values rest)) a.acked,
      g,
    )

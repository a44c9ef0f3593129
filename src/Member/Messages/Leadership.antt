-- ===== src/Member/Messages/Leadership.antt =====
-- Taking the lead, and reports to a leader.
use datom.Common.{
  negsuc, Bool, String, str_eq, ◌≡◌, refl, ap, true, Option, none, some, List, [], ◌∷◌, leb,
  find_if, length, All, ◌≢◌, ◌⊎◌, ◌↔◌, ◌&&◌, eqb_ℤ, eq_iff, eqb_ℤ_iff, false, sym, ◌∙◌, Bool-cases,
  inl, inr, if◌then◌else◌,
}
use datom.Exec.{returned, aborted}
use datom.Member.{
  PbMember, PeerInfo, GetMemberStateRespMsg, leader_functional, leader_waiting_for_quorum,
  follower_wait_to_join_group,
}
use datom.Member.Messages.{make_peers, peer_from, on_leader_lock, leads_group}

-- The ids of the peers.
pub ids : List PeerInfo → List String
ids [] = []
ids (p ∷ ps) = p.id ∷ ids ps

-- The group's members but for one, in order.
pub others : String → List String → List String
others me [] = []
others me (id ∷ rest) = let r = others me rest in if str_eq id me then r else id ∷ r

peer_from-id : (id : String) (o : Option GetMemberStateRespMsg) → (peer_from id o).id ≡ id
peer_from-id id none = refl
peer_from-id id (some r) = refl

ids-make_peers :
    (me : String) (functional : List GetMemberStateRespMsg) (members : List String)
    → ids (make_peers me functional members) ≡ others me members
unfolding ids others make_peers
ids-make_peers me functional [] = refl
ids-make_peers me functional (id ∷ rest) = elim (Bool-cases (str_eq id me)) [
  | inl e ↦ rw e (ids-make_peers me functional rest)
  | inr e ↦
      rw (e, peer_from-id id (find_if (λ r. str_eq id r.id) functional))
        (ap (◌∷◌ id) (ids-make_peers me functional rest))
]

-- A peer has the state and version of the first functional member with its id; one that the list does
-- not have waits to join, with version -1.
abbrev pub FromMessage : List GetMemberStateRespMsg → PeerInfo → Type 0
FromMessage [] p = (p.state ≡ follower_wait_to_join_group) × (p.version ≡ negsuc 0)
FromMessage (r ∷ rs) p =
    ((p.id ≡ r.id) × (p.state ≡ r.state) × (p.version ≡ r.version))
    ⊎ ((p.id ≢ r.id) × FromMessage rs p)

ne : (b : Bool) → b ≡ false → b ≡ true → ⊥
ne b e f = cc

peer_from-FromMessage :
    (functional : List GetMemberStateRespMsg) (i : String)
    → FromMessage functional (peer_from i (find_if (λ r. str_eq i r.id) functional))
peer_from-FromMessage [] i = (refl, refl)
peer_from-FromMessage (r ∷ rs) i = elim (Bool-cases (str_eq i r.id)) [
  | inl e ↦ rw e (inl ((eq_iff i r.id).0 e, refl, refl))
  | inr e ↦ rw e (
      inr (
        λ q.
            ne (str_eq i r.id) e
              ((eq_iff i r.id).1 (sym (peer_from-id i (find_if (λ x. str_eq i x.id) rs)) ∙ q)),
        peer_from-FromMessage rs i,
      ))
]

make_peers-FromMessage :
    (me : String) (functional : List GetMemberStateRespMsg) (members : List String)
    → All (FromMessage functional) (make_peers me functional members)
unfolding make_peers
make_peers-FromMessage me functional [] = tt
make_peers-FromMessage me functional (id ∷ rest) = elim (Bool-cases (str_eq id me)) [
  | inl e ↦ rw e (make_peers-FromMessage me functional rest)
  | inr e ↦ rw e (peer_from-FromMessage functional id, make_peers-FromMessage me functional rest)
]

on_leader_lock_runs :
    (functional : List GetMemberStateRespMsg) (m : PbMember)
    → leads_group functional m ≡ true
    → on_leader_lock functional m ≡ (
      returned tt,
      record m {
        leader_ctx = some (record {
          op_id = negsuc 0;
          commit_id = negsuc 0;
          peers = make_peers m.my_id functional m.member_ids;
        });
        leader_id = m.my_id;
        state =
            if leb m.quorum (length functional)
            then leader_functional
            else leader_waiting_for_quorum;
      },
    )
unfolding on_leader_lock
on_leader_lock_runs functional m h = rw h

-- The first functional member is the member itself, at its commit id.
abbrev pub LeadsGroup : List GetMemberStateRespMsg → PbMember → Type 0
LeadsGroup [] m = ⊥
LeadsGroup (r ∷ rs) m = (r.id ≡ m.my_id) × (r.commit_id ≡ m.commit_id)

both :
    {P Q : Type 0} (a b : Bool)
    → ((a ≡ true) ↔ P)
    → ((b ≡ true) ↔ Q)
    → ((a && b ≡ true) × (P × Q)) ⊎ ((a && b ≡ false) × (¬ (P × Q)))
both true true p q = inl (refl, (p.0 refl, q.0 refl))
both true false p q = inr (refl, λ x. ne false refl (q.1 x.1))
both false b p q = inr (refl, λ x. ne false refl (p.1 x.0))

leads_group_iff :
    (functional : List GetMemberStateRespMsg) (m : PbMember)
    → ((leads_group functional m ≡ true) × LeadsGroup functional m)
      ⊎ ((leads_group functional m ≡ false) × (¬ LeadsGroup functional m))
leads_group_iff [] m = inr (refl, λ x. x)
leads_group_iff (r ∷ rs) m =
    both (str_eq r.id m.my_id) (eqb_ℤ r.commit_id m.commit_id) (eq_iff r.id m.my_id)
      (eqb_ℤ_iff r.commit_id m.commit_id)

on_leader_lock_aborts :
    (functional : List GetMemberStateRespMsg) (m : PbMember)
    → leads_group functional m ≡ false
    → on_leader_lock functional m ≡ (aborted, m)
unfolding on_leader_lock
on_leader_lock_aborts functional m h = rw h

-- When the leader lock is granted to the first of the functional members, at its commit id, it
-- leads: its peers are the other members of the group, in order, each with the state and version of
-- the first functional member with its id, or as one that waits to join with version -1 where there
-- is none; both counters start at -1; the group is functional exactly when the functional members
-- are a quorum; and nothing else changes, the term included. To any other member the grant is the end
-- of its process.
pub on_leader_lock_lem :
    (functional : List GetMemberStateRespMsg) (m : PbMember)
    → (LeadsGroup functional m
        × ((ps : List PeerInfo) × (on_leader_lock functional m ≡ (
          returned tt,
          record m {
            leader_ctx = some (record { op_id = negsuc 0; commit_id = negsuc 0; peers = ps });
            leader_id = m.my_id;
            state =
                if leb m.quorum (length functional)
                then leader_functional
                else leader_waiting_for_quorum;
          },
        ))
            × (ids ps ≡ others m.my_id m.member_ids)
            × All (FromMessage functional) ps))
      ⊎ ((¬ LeadsGroup functional m) × (on_leader_lock functional m ≡ (aborted, m)))
on_leader_lock_lem functional m = elim (leads_group_iff functional m) [
  | inl (h, l) ↦ inl (
    l,
    (
      make_peers m.my_id functional m.member_ids,
      on_leader_lock_runs functional m h,
      ids-make_peers m.my_id functional m.member_ids,
      make_peers-FromMessage m.my_id functional m.member_ids,
    ),
  )
  | inr (h, n) ↦ inr (n, on_leader_lock_aborts functional m h)
]

-- ===== src/Member/Peers/Transition.antt =====
-- How a single peer moves.
use datom.Common.{
  ℤ, ◌<ℤ◌, ◌≤ℤ◌, ◌≡◌, refl, ◌⊎◌, inl, inr, true, arith, eqb_ℤ_iff, Bool-cases, ltb_ℤ, List, [], ◌∷◌,
  String, str_eq,
}
use datom.Member.{
  PbMemberState, PeerInfo, follower_wait_to_join_group, follower_syncing, follower_functional,
}
use datom.Member.Peers.{accepts_change, change_peer, update_peer}

-- The moves of a peer, by its state and version before, the reported version and the target.
pub data PeerStep (s : PbMemberState) (v w : ℤ) : PbMemberState → Type 0 where
  fail :
      (s ≡ follower_syncing) ⊎ (s ≡ follower_functional)
      → v ≤ℤ w
      → PeerStep s v w follower_wait_to_join_group
  resync : s ≡ follower_wait_to_join_group → v ≡ w → PeerStep s v w follower_syncing
  resync_newer : v <ℤ w → PeerStep s v w follower_syncing
  promote :
      (s ≡ follower_wait_to_join_group) ⊎ (s ≡ follower_syncing)
      → v ≡ w
      → PeerStep s v w follower_functional
  promote_newer : v <ℤ w → PeerStep s v w follower_functional

to_test :
    (p : PeerInfo) (w : ℤ) (t : PbMemberState)
    → PeerStep p.state p.version w t
    → accepts_change p w t ≡ true
unfolding accepts_change
to_test p w t (fail h l) = ground arith
to_test p w t (resync h l) = ground (arith, eqb_ℤ_iff p.version w)
to_test p w t (resync_newer l) = ground arith
to_test p w t (promote h l) = ground (arith, eqb_ℤ_iff p.version w)
to_test p w t (promote_newer l) = ground arith

of_test :
    (p : PeerInfo) (w : ℤ) (t : PbMemberState)
    → accepts_change p w t ≡ true
    → PeerStep p.state p.version w t
unfolding accepts_change
of_test p w follower_wait_to_join_group h = fail (ground arith) (ground arith)
of_test p w follower_syncing h = elim (Bool-cases (ltb_ℤ p.version w)) [
  | inl e ↦ resync_newer (ground arith)
  | inr e ↦ resync (ground arith) (ground (arith, eqb_ℤ_iff p.version w))
]
of_test p w follower_functional h = elim (Bool-cases (ltb_ℤ p.version w)) [
  | inl e ↦ promote_newer (ground arith)
  | inr e ↦ promote (ground arith) (ground (arith, eqb_ℤ_iff p.version w))
]
of_test p w _ h = absurd (cc)

-- A report moves a peer exactly when it is one of the listed moves; then the peer takes the
-- reported state and version, and otherwise it stays as it was.
pub change_peer-PeerStep :
    (p : PeerInfo) (w : ℤ) (t : PbMemberState)
    → (PeerStep p.state p.version w t × (change_peer w t p ≡ record p { state = t; version = w }))
      ⊎ ((¬ PeerStep p.state p.version w t) × (change_peer w t p ≡ p))
unfolding change_peer
change_peer-PeerStep p w t = elim (Bool-cases (accepts_change p w t)) [
  | inl e ↦ inl (of_test p w t e, rw e)
  | inr e ↦ inr (λ s. cc (to_test p w t s), rw e)
]

PeerStep-le : {s t : PbMemberState} {v w : ℤ} → PeerStep s v w t → v ≤ℤ w
PeerStep-le (fail h l) = l
PeerStep-le (resync h l) = ground arith
PeerStep-le (resync_newer l) = omega arith
PeerStep-le (promote h l) = ground arith
PeerStep-le (promote_newer l) = omega arith

-- The same peers in the same order, none with a smaller version.
abbrev pub Advances : List PeerInfo → List PeerInfo → Type 0
Advances [] [] = Unit {0}
Advances (p ∷ ps) (q ∷ qs) = (p.id ≡ q.id) × (p.version ≤ℤ q.version) × Advances ps qs
Advances _ _ = ⊥

pub Advances-refl : (ps : List PeerInfo) → Advances ps ps
Advances-refl [] = tt
Advances-refl (p ∷ ps) = (refl, omega arith, Advances-refl ps)

change_peer_advances :
    (p : PeerInfo) (w : ℤ) (t : PbMemberState)
    → (p.id ≡ (change_peer w t p).id) × (p.version ≤ℤ (change_peer w t p).version)
change_peer_advances p w t = elim (change_peer-PeerStep p w t) [
  | inl (s, e) ↦ rw e (refl, PeerStep-le s)
  | inr (_, e) ↦ rw e (refl, omega arith)
]

pub update_peer-Advances :
    (id : String) (w : ℤ) (t : PbMemberState) (ps : List PeerInfo)
    → Advances ps (update_peer id (change_peer w t) ps)
unfolding update_peer
update_peer-Advances id w t [] = tt
update_peer-Advances id w t (p ∷ ps) = elim (Bool-cases (str_eq p.id id)) [
  | inl e ↦ rw e ((change_peer_advances p w t).0, (change_peer_advances p w t).1, Advances-refl ps)
  | inr e ↦ rw e (refl, omega arith, update_peer-Advances id w t ps)
]

-- ===== src/Volume/Replica/Wedge.antt =====
-- The counters of a leader and its journal: what a failed write leaves behind.
use datom.Common.{
  ℤ, ◌<ℤ◌, String, ◌≡◌, refl, ap, ◌∙◌, inl, inr, false, Option, some, List, [], ◌∷◌, arith, back?,
  suc_ℤ, parts-suc_ℤ, pos_part, neg_part, not,
}
use datom.Status.{invalid_commit, db_write_failure, status_exception, of_status, Exception}
use datom.Exec.{thrown}
use datom.Journal.{Record}
use datom.Journal.Sequence.{Follows}
use datom.Member.{PbMemberState, LeaderCtx, is_leader_state, leader_functional, same_state}
use datom.Volume.{Rocks, IsAtomic, VolumeReplica, UpdateBlobMetaMsg}
use datom.Volume.Replica.{
  handle_metadata_write, update_blob_meta, write_in, with_ctx, next_ctx, stamped,
}
use datom.Volume.Replica.Writes.{outcome_of, handle_metadata_write_lem}

-- A write is taken up only in the state LEADER_FUNCTIONAL.
guards :
    (s : PbMemberState)
    → s ≡ leader_functional
    → (not (is_leader_state s) ≡ false) × (not (same_state s leader_functional) ≡ false)
unfolding is_leader_state
guards s e = rw e (refl, refl)

module _ (rocks : Rocks) (serialize : UpdateBlobMetaMsg → String) where
  write_in-eq :
      (msg : UpdateBlobMetaMsg) (s : VolumeReplica rocks)
      → s.member.state ≡ leader_functional
      → update_blob_meta rocks serialize msg s
        ≡ write_in rocks serialize s.member.leader_ctx (handle_metadata_write rocks) msg s
  unfolding update_blob_meta
  write_in-eq msg s f = rw ((guards s.member.state f).0, (guards s.member.state f).1)

  -- A local write that throws is what the group's write answers.
  write_in_throws :
      (o : Option LeaderCtx) (ctx : LeaderCtx) (msg : UpdateBlobMetaMsg) (s t : VolumeReplica rocks)
      (e : Exception)
      → o ≡ some ctx
      → handle_metadata_write rocks
          (stamped rocks ctx msg)
          (serialize (stamped rocks ctx msg))
          (with_ctx rocks (next_ctx rocks ctx) s)
        ≡ (thrown e, t)
      → write_in rocks serialize o (handle_metadata_write rocks) msg s ≡ (thrown e, t)
  write_in_throws o ctx msg s t e p h = rw (p, h)

  -- The leader's counter is ahead of its journal.
  pub record IsAhead (ctx : LeaderCtx) (s : VolumeReplica rocks) : Type 0 where
    pub functional : s.member.state ≡ leader_functional
    pub leads : s.member.leader_ctx ≡ some ctx
    pub last : Record
    pub at_end : back? s.journal.entries ≡ some last
    pub ahead : last.id <ℤ ctx.commit_id

  not_next :
      (o : Option Record) (r : Record) (c : ℤ) → o ≡ some r → r.id <ℤ c → ¬ Follows o (suc_ℤ c)
  not_next o r c p l f = successor_ne r.id c l (rw p at f)
    where
      successor_ne : (a b : ℤ) → a <ℤ b → suc_ℤ a ≡ suc_ℤ b → ⊥
      successor_ne a b l e =
          omega (arith, parts-suc_ℤ a, parts-suc_ℤ b, ap pos_part e, ap neg_part e)

  module _ (atomic : IsAtomic rocks) where
    refused :
        (ctx : LeaderCtx) (msg : UpdateBlobMetaMsg) (s : VolumeReplica rocks)
        → IsAhead ctx s
        → handle_metadata_write rocks
            (stamped rocks ctx msg)
            (serialize (stamped rocks ctx msg))
            (with_ctx rocks (next_ctx rocks ctx) s)
          ≡ (
            thrown (of_status (status_exception invalid_commit)),
            with_ctx rocks (next_ctx rocks ctx) s,
          )
    refused ctx msg s a =
        elim (handle_metadata_write_lem rocks atomic (stamped rocks ctx msg)
          (serialize (stamped rocks ctx msg)) (with_ctx rocks (next_ctx rocks ctx) s)) [
            | inl (f, _, _) ↦
                absurd (not_next (back? s.journal.entries) a.last ctx.commit_id a.at_end a.ahead f)
            | inr (inl (f, _, _)) ↦
                absurd (not_next (back? s.journal.entries) a.last ctx.commit_id a.at_end a.ahead f)
            | inr (inr (_, e)) ↦ e
          ]

    update_refused :
        (ctx : LeaderCtx) (msg : UpdateBlobMetaMsg) (s : VolumeReplica rocks)
        → IsAhead ctx s
        → update_blob_meta rocks serialize msg s ≡ (
          thrown (of_status (status_exception invalid_commit)),
          with_ctx rocks (next_ctx rocks ctx) s,
        )
    update_refused ctx msg s a =
        write_in-eq msg s a.functional
        ∙ write_in_throws s.member.leader_ctx ctx msg s (with_ctx rocks (next_ctx rocks ctx) s)
            (of_status (status_exception invalid_commit)) a.leads (refused ctx msg s a)

    still-IsAhead :
        (ctx : LeaderCtx) (s : VolumeReplica rocks)
        → IsAhead ctx s
        → IsAhead (next_ctx rocks ctx) (with_ctx rocks (next_ctx rocks ctx) s)
    still-IsAhead ctx s a = record {
      functional = a.functional;
      leads = refl;
      last = a.last;
      at_end = a.at_end;
      ahead = omega (arith, a.ahead, parts-suc_ℤ ctx.commit_id);
    }

    -- Each of the writes, one after the other, is answered STATUS_INVALID_COMMIT.
    abbrev pub AllRefused : List UpdateBlobMetaMsg → VolumeReplica rocks → Type 0
    AllRefused [] s = Unit {0}
    AllRefused (msg ∷ msgs) s =
        ((update_blob_meta rocks serialize msg s).0
          ≡ thrown (of_status (status_exception invalid_commit)))
        × AllRefused msgs (update_blob_meta rocks serialize msg s).1

    all_refused :
        (msgs : List UpdateBlobMetaMsg) (ctx : LeaderCtx) (s : VolumeReplica rocks)
        → IsAhead ctx s
        → AllRefused msgs s
    all_refused [] ctx s a = tt
    all_refused (msg ∷ msgs) ctx s a = rw (update_refused ctx msg s a) (
      refl,
      all_refused msgs (next_ctx rocks ctx) (with_ctx rocks (next_ctx rocks ctx) s)
          (still-IsAhead ctx s a),
    )

    IsAhead-by_one :
        (ctx : LeaderCtx) (last : Record) (s : VolumeReplica rocks)
        → s.member.state ≡ leader_functional
        → back? s.journal.entries ≡ some last
        → last.id ≡ ctx.commit_id
        → IsAhead (next_ctx rocks ctx) (with_ctx rocks (next_ctx rocks ctx) s)
    IsAhead-by_one ctx last s f b i = record {
      functional = f;
      leads = refl;
      last = last;
      at_end = b;
      ahead = omega (arith, parts-suc_ℤ ctx.commit_id, ap pos_part i, ap neg_part i);
    }

    after_throw :
        (ctx : LeaderCtx) (msg : UpdateBlobMetaMsg) (s : VolumeReplica rocks)
        (later : List UpdateBlobMetaMsg) (x : Exception)
        → s.member.state ≡ leader_functional
        → s.member.leader_ctx ≡ some ctx
        → handle_metadata_write rocks
            (stamped rocks ctx msg)
            (serialize (stamped rocks ctx msg))
            (with_ctx rocks (next_ctx rocks ctx) s)
          ≡ (thrown x, with_ctx rocks (next_ctx rocks ctx) s)
        → IsAhead (next_ctx rocks ctx) (with_ctx rocks (next_ctx rocks ctx) s)
        → AllRefused later (update_blob_meta rocks serialize msg s).1
    after_throw ctx msg s later x f l e a =
        rw
          (write_in-eq msg s f
            ∙ write_in_throws s.member.leader_ctx ctx msg s (with_ctx rocks (next_ctx rocks ctx) s)
                x l e)
          (all_refused later (next_ctx rocks ctx) (with_ctx rocks (next_ctx rocks ctx) s) a)

    -- When the database of a functional leader fails on a write, and the journal holds an entry with
    -- the counter's commit id, every later write of the group is refused with
    -- STATUS_INVALID_COMMIT: the journal is restored and the counter is not.
    pub failed_write_wedges :
        (ctx : LeaderCtx) (last : Record) (msg : UpdateBlobMetaMsg) (s : VolumeReplica rocks)
        (later : List UpdateBlobMetaMsg)
        → s.member.state ≡ leader_functional
        → s.member.leader_ctx ≡ some ctx
        → back? s.journal.entries ≡ some last
        → last.id ≡ ctx.commit_id
        → (outcome_of rocks atomic (stamped rocks ctx msg) s.db).0 ≡ false
        → AllRefused later (update_blob_meta rocks serialize msg s).1
    failed_write_wedges ctx last msg s later f l b i w =
        elim (handle_metadata_write_lem rocks atomic (stamped rocks ctx msg)
          (serialize (stamped rocks ctx msg)) (with_ctx rocks (next_ctx rocks ctx) s)) [
            | inl (_, w', _) ↦ absurd (cc)
            | inr (inl (_, _, e)) ↦
                after_throw ctx msg s later (of_status (status_exception db_write_failure)) f l e
                  (IsAhead-by_one ctx last s f b i)
            | inr (inr (_, e)) ↦
                after_throw ctx msg s later (of_status (status_exception invalid_commit)) f l e
                  (IsAhead-by_one ctx last s f b i)
          ]

-- ===== src/Volume/Replica/GroupWrite.antt =====
-- A write of the group at its leader: the refusals, and the write that goes through.
use datom.Common.{
  String, ◌≡◌, refl, ◌∙◌, true, false, not, Option, some, ◌++◌, inl, inr, back?, suc_ℤ, length,
}
use datom.Status.{invalid_state, no_quorum, status_exception, of_status}
use datom.Exec.{returned, thrown}
use datom.Journal.Sequence.{Follows, appended}
use datom.Member.{
  PbMemberState, LeaderCtx, is_leader_state, leader_functional, leader_waiting_for_quorum,
  same_state,
}
use datom.Member.Peers.{get_writable_peers}
use datom.Member.Write.{new_write_ctx, write_to_peers}
use datom.Member.Write.Settles.{writes, write_to_peers_lem}
use datom.Volume.{Rocks, IsAtomic, VolumeReplica, UpdateBlobMetaMsg}
use datom.Volume.MetaDb.{make_batch}
use datom.Volume.Replica.{
  handle_metadata_write, update_blob_meta, write_in, with_ctx, next_ctx, stamped, type_str,
  on_member,
}
use datom.Volume.Replica.Writes.{handle_metadata_write_lem}

waiting_guards :
    (s : PbMemberState)
    → s ≡ leader_waiting_for_quorum
    → (not (is_leader_state s) ≡ false) × (not (same_state s leader_functional) ≡ true)
unfolding is_leader_state
waiting_guards s e = rw e (refl, refl)

functional_guards :
    (s : PbMemberState)
    → s ≡ leader_functional
    → (not (is_leader_state s) ≡ false) × (not (same_state s leader_functional) ≡ false)
unfolding is_leader_state
functional_guards s e = rw e (refl, refl)

module _ (rocks : Rocks) (serialize : UpdateBlobMetaMsg → String) where
  -- A member that does not lead refuses with STATUS_INVALID_STATE, a leader without a quorum with
  -- STATUS_NO_QUORUM; the replica, its counters included, is as it was.
  pub update_blob_meta_refused :
      (msg : UpdateBlobMetaMsg) (s : VolumeReplica rocks)
      → (is_leader_state s.member.state ≡ false
          → update_blob_meta rocks serialize msg s
            ≡ (thrown (of_status (status_exception invalid_state)), s))
        × (s.member.state ≡ leader_waiting_for_quorum
            → update_blob_meta rocks serialize msg s
              ≡ (thrown (of_status (status_exception no_quorum)), s))
  unfolding update_blob_meta
  update_blob_meta_refused msg s = (
    λ h. rw h refl,
    λ h. rw ((waiting_guards s.member.state h).0, (waiting_guards s.member.state h).1) refl,
  )

  -- The replica after a write that went through: journalled, stored, and sent to the peers.
  abbrev pub after_write : LeaderCtx → UpdateBlobMetaMsg → VolumeReplica rocks → VolumeReplica rocks
  after_write ctx msg s =
      let payload = serialize (stamped rocks ctx msg) in
      record {
        member = record s.member {
          leader_ctx = some (next_ctx rocks ctx);
          sent = s.member.sent ++ writes type_str payload (get_writable_peers ctx.peers);
        };
        journal =
            appended s.journal
              (record { id = suc_ℤ ctx.commit_id; type = type_str; buf = payload });
        db = (rocks.write (make_batch msg.blob_id msg.chunk_list) s.db).1;
      }

  abbrev stored : LeaderCtx → UpdateBlobMetaMsg → VolumeReplica rocks → VolumeReplica rocks
  stored ctx msg s = record {
    member = record s.member { leader_ctx = some (next_ctx rocks ctx) };
    journal = appended s.journal (record {
      id = suc_ℤ ctx.commit_id;
      type = type_str;
      buf = serialize (stamped rocks ctx msg);
    });
    db = (rocks.write (make_batch msg.blob_id msg.chunk_list) s.db).1;
  }

  sent_lem :
      (payload : String) (ctx : LeaderCtx) (t : VolumeReplica rocks)
      → t.member.state ≡ leader_functional
      → t.member.leader_ctx ≡ some ctx
      → on_member rocks (write_to_peers type_str payload) t ≡ (
        returned (new_write_ctx (length (get_writable_peers ctx.peers))),
        record t {
          member = record t.member {
            sent = t.member.sent ++ writes type_str payload (get_writable_peers ctx.peers);
          };
        },
      )
  sent_lem payload ctx t f e = rw (write_to_peers_lem t.member ctx type_str payload f e) refl

  group_runs :
      (o : Option LeaderCtx) (ctx : LeaderCtx) (msg : UpdateBlobMetaMsg) (s t : VolumeReplica rocks)
      → o ≡ some ctx
      → handle_metadata_write rocks
          (stamped rocks ctx msg)
          (serialize (stamped rocks ctx msg))
          (with_ctx rocks (next_ctx rocks ctx) s)
        ≡ (returned tt, t)
      → write_in rocks serialize o (handle_metadata_write rocks) msg s
        ≡ on_member rocks (write_to_peers type_str (serialize (stamped rocks ctx msg))) t
  group_runs o ctx msg s t p h = rw (p, h)

  -- At a functional leader whose counter is the id of the last journal entry, or whose journal is
  -- empty, and whose database takes the batch, the write gets the next commit id, is journalled and
  -- stored, and is sent to each writable peer; its promise is open.
  pub update_blob_meta_lem :
      IsAtomic rocks
      → (ctx : LeaderCtx) (msg : UpdateBlobMetaMsg) (s : VolumeReplica rocks)
      → s.member.state ≡ leader_functional
      → s.member.leader_ctx ≡ some ctx
      → Follows (back? s.journal.entries) (suc_ℤ ctx.commit_id)
      → (rocks.write (make_batch msg.blob_id msg.chunk_list) s.db).0 ≡ true
      → update_blob_meta rocks serialize msg s
        ≡ (returned (new_write_ctx (length (get_writable_peers ctx.peers))), after_write ctx msg s)
  unfolding update_blob_meta
  update_blob_meta_lem atomic ctx msg s f l j w =
      rw ((functional_guards s.member.state f).0, (functional_guards s.member.state f).1)
        (elim (handle_metadata_write_lem rocks atomic (stamped rocks ctx msg)
          (serialize (stamped rocks ctx msg)) (with_ctx rocks (next_ctx rocks ctx) s)) [
            | inl (_, _, e) ↦
                group_runs s.member.leader_ctx ctx msg s (stored ctx msg s) l e
                ∙ sent_lem (serialize (stamped rocks ctx msg)) (next_ctx rocks ctx)
                    (stored ctx msg s) f refl
            | inr (inl (_, w', _)) ↦ absurd (cc)
            | inr (inr (n, _)) ↦ absurd (n j)
          ])

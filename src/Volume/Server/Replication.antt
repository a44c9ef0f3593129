-- ===== src/Volume/Server/Replication.antt =====
-- A write of a group at its leader and, as writeToPeers sends it, at the server of a follower.
use datom.Common.{
  ℤ, eqb_ℤ, eqb_ℤ_iff, String, ◌≡◌, refl, sym, ap, subst, ◌∙◌, inl, inr, true, Bool-cases, some,
  List, [], ◌∷◌, ◌++◌, back?, suc_ℤ,
}
use datom.Exec.{returned}
use datom.Config.{put, find}
use datom.Config.Service.Dataspheres.{find-put}
use datom.Buffers.{
  KvBuffer, empty_kvb, set_type, get_type, get_prop, set_as_binary_payload, get_from_binary_payload,
}
use datom.Dispatch.{
  ServiceApiHandler, handler_for, future_handle_kvb_message, register_kvb_message_handler,
  kvb_handler,
}
use datom.Journal.Sequence.{Follows, appended}
use datom.Member.{LeaderCtx, leader_functional}
use datom.Member.Peers.{get_writable_peers}
use datom.Member.Write.Settles.{writes}
use datom.Volume.{Rocks, IsAtomic, VolumeReplica, UpdateBlobMetaMsg}
use datom.Volume.MetaDb.{make_batch}
use datom.Volume.Replica.{handle_metadata_write, update_blob_meta, stamped, type_str}
use datom.Volume.Replica.Writes.{handle_metadata_write_lem}
use datom.Volume.Replica.GroupWrite.{update_blob_meta_lem}
use datom.Volume.Server.{Codecs, VolumeServer, on_replica, on_update_blob_meta, register_handlers}

find-put_id :
    {V : Type 0} (k : ℤ) (v : V) (t : List (ℤ × V)) → find eqb_ℤ k (put eqb_ℤ k v t) ≡ some v
find-put_id k v [] = rw ((eqb_ℤ_iff k k).1 refl) refl
find-put_id k v ((j, w) ∷ t) = elim (Bool-cases (eqb_ℤ j k)) [
  | inl e ↦ rw (e, e) refl
  | inr e ↦ rw (e, e) (find-put_id k v t)
]

module _ (rocks : Rocks) (atomic : IsAtomic rocks) (codecs : Codecs) where
  -- The message that writeToPeers makes of a type and a buffer.
  abbrev pub write_msg : String → String → KvBuffer
  write_msg type buffer = record (set_type type empty_kvb) { payload = some buffer }

  -- A replica that takes a write: what it has then.
  abbrev pub taken : UpdateBlobMetaMsg → String → VolumeReplica rocks → VolumeReplica rocks
  taken msg buffer f = record f {
    journal = appended f.journal (record { id = msg.commit_id; type = type_str; buf = buffer });
    db = (rocks.write (make_batch msg.blob_id msg.chunk_list) f.db).1;
  }

  takes :
      (msg : UpdateBlobMetaMsg) (buffer : String) (f : VolumeReplica rocks)
      → Follows (back? f.journal.entries) msg.commit_id
      → (rocks.write (make_batch msg.blob_id msg.chunk_list) f.db).0 ≡ true
      → handle_metadata_write rocks msg buffer f ≡ (returned tt, taken msg buffer f)
  takes msg buffer f j w = elim (handle_metadata_write_lem rocks atomic msg buffer f) [
    | inl (_, _, e) ↦ e
    | inr (inl (_, w', _)) ↦ absurd (cc)
    | inr (inr (n, _)) ↦ absurd (n j)
  ]

  -- The server after a write to a replica.
  abbrev pub with_taken :
      UpdateBlobMetaMsg → String → VolumeReplica rocks → VolumeServer rocks → VolumeServer rocks
  with_taken msg buffer f t = record t {
    replicas = put eqb_ℤ msg.resource_id (taken msg buffer f) t.replicas;
  }

  abbrev pub reply : KvBuffer
  reply =
      set_type codecs.update_blob_meta_resp_msg.type_str
        (set_as_binary_payload codecs.update_blob_meta_resp_msg tt empty_kvb)

  handler_takes :
      (msg : UpdateBlobMetaMsg) (buffer : String) (t : VolumeServer rocks) (f : VolumeReplica rocks)
      → codecs.update_blob_meta_msg.deserialize buffer ≡ some msg
      → find eqb_ℤ msg.resource_id t.replicas ≡ some f
      → handle_metadata_write rocks msg buffer f ≡ (returned tt, taken msg buffer f)
      → on_update_blob_meta rocks codecs (write_msg codecs.update_blob_meta_msg.type_str buffer) t
        ≡ (returned reply, with_taken msg buffer f t)
  unfolding set_type kvb_handler get_from_binary_payload on_replica
  handler_takes msg buffer t f d e w = rw (d, e, w) refl

  -- The server dispatches a write to its replica.
  server_takes :
      (msg : UpdateBlobMetaMsg) (buffer : String) (h : ServiceApiHandler (VolumeServer rocks))
      (t : VolumeServer rocks) (f : VolumeReplica rocks)
      → codecs.update_blob_meta_msg.deserialize buffer ≡ some msg
      → find eqb_ℤ msg.resource_id t.replicas ≡ some f
      → handle_metadata_write rocks msg buffer f ≡ (returned tt, taken msg buffer f)
      → future_handle_kvb_message
          (VolumeServer rocks)
          (register_handlers rocks codecs h)
          (write_msg codecs.update_blob_meta_msg.type_str buffer)
          t
        ≡ (returned reply, with_taken msg buffer f t)
  unfolding future_handle_kvb_message register_handlers register_kvb_message_handler get_type
      get_prop set_type
  server_takes msg buffer h t f d e w =
      let kvb = write_msg codecs.update_blob_meta_msg.type_str buffer in
      ap (λ o. handler_for (VolumeServer rocks) o kvb t)
        (find-put codecs.update_blob_meta_msg.type_str (on_update_blob_meta rocks codecs) _)
      ∙ handler_takes msg buffer t f d e w

  -- A write at a functional leader that journals and stores it is sent with the bytes that the
  -- leader journals; the server of a follower whose replica has the same journal, and whose database
  -- takes the batch, answers the message with a value, and the replica's journal is then again the
  -- leader's, which is one record longer. The serializer reads the write that it wrote, and the type's
  -- name is the one that the journal uses.
  pub replicated_write :
      (ctx : LeaderCtx) (msg : UpdateBlobMetaMsg) (s : VolumeReplica rocks)
      (h : ServiceApiHandler (VolumeServer rocks)) (t : VolumeServer rocks)
      (f : VolumeReplica rocks)
      → codecs.update_blob_meta_msg.type_str ≡ type_str
      → codecs.update_blob_meta_msg.deserialize
          (codecs.update_blob_meta_msg.serialize (stamped rocks ctx msg))
        ≡ some (stamped rocks ctx msg)
      → s.member.state ≡ leader_functional
      → s.member.leader_ctx ≡ some ctx
      → Follows (back? s.journal.entries) (suc_ℤ ctx.commit_id)
      → (rocks.write (make_batch msg.blob_id msg.chunk_list) s.db).0 ≡ true
      → find eqb_ℤ msg.resource_id t.replicas ≡ some f
      → f.journal ≡ s.journal
      → (rocks.write (make_batch msg.blob_id msg.chunk_list) f.db).0 ≡ true
      → let serialize = codecs.update_blob_meta_msg.serialize in
        let payload = serialize (stamped rocks ctx msg) in
        let leader = (update_blob_meta rocks serialize msg s).1 in
        let answer =
          future_handle_kvb_message
            (VolumeServer rocks)
            (register_handlers rocks codecs h)
            (write_msg type_str payload)
            t in
        (leader.member.sent
          ≡ s.member.sent ++ writes type_str payload (get_writable_peers ctx.peers))
        × (leader.journal.entries
            ≡ s.journal.entries
              ++ record { id = suc_ℤ ctx.commit_id; type = type_str; buf = payload } ∷ [])
        × (answer.0 ≡ returned reply)
        × ((f' : VolumeReplica rocks) × (find eqb_ℤ msg.resource_id answer.1.replicas ≡ some f')
            × (f'.journal ≡ leader.journal))
  replicated_write ctx msg s h t f n d l c j w e same v =
      let serialize = codecs.update_blob_meta_msg.serialize in
      let write = stamped rocks ctx msg in
      let payload = serialize write in
      let led = ap (λ x. x.1) (update_blob_meta_lem rocks serialize atomic ctx msg s l c j w) in
      let follows = subst (λ x. Follows (back? x.entries) (suc_ℤ ctx.commit_id)) (sym same) j in
      let served =
        subst
          (λ name.
            future_handle_kvb_message (VolumeServer rocks) (register_handlers rocks codecs h)
              (write_msg name payload) t
            ≡ (returned reply, with_taken write payload f t))
          n (server_takes write payload h t f d e (takes write payload f follows v)) in
      (
        ap (λ x. x.member.sent) led,
        ap (λ x. x.journal.entries) led,
        ap (λ x. x.0) served,
        (
          taken write payload f,
          ap (λ x. find eqb_ℤ msg.resource_id x.1.replicas) served
              ∙ find-put_id msg.resource_id (taken write payload f) t.replicas,
          ap (λ x. appended x (record { id = suc_ℤ ctx.commit_id; type = type_str; buf = payload }))
                same
              ∙ sym (ap (λ x. x.journal) led),
        ),
      )

-- ===== src/Volume/Server/Stream.antt =====
-- Writes of a group one after the other, each sent to the server of a follower.
use datom.Common.{
  ◌+◌, ℤ, eqb_ℤ, String, ◌≡◌, refl, sym, ap, subst, ◌∙◌, true, Option, some, List, [], ◌∷◌, ◌++◌,
  back?, back?-append, suc_ℤ, length, length-append, arith,
}
use datom.Config.{find}
use datom.Dispatch.{ServiceApiHandler, future_handle_kvb_message}
use datom.Journal.{Record}
use datom.Journal.Sequence.{Follows}
use datom.Member.{LeaderCtx, leader_functional}
use datom.Volume.{Rocks, IsAtomic, VolumeReplica, UpdateBlobMetaMsg, Slice}
use datom.Volume.Replica.{update_blob_meta, stamped, next_ctx, type_str}
use datom.Volume.Replica.GroupWrite.{update_blob_meta_lem}
use datom.Volume.Server.{Codecs, VolumeServer, register_handlers}
use datom.Volume.Server.Replication.{write_msg, replicated_write}

module _ (rocks : Rocks) (atomic : IsAtomic rocks) (codecs : Codecs)
    (h : ServiceApiHandler (VolumeServer rocks)) where
  -- The buffer that the leader journals last, which it has just sent.
  abbrev last_buffer : Option Record → String
  last_buffer (some r) = r.buf
  last_buffer _ = ""

  -- A write at the leader, and its message at the follower's server.
  abbrev pub write_through :
      UpdateBlobMetaMsg
      → VolumeReplica rocks × VolumeServer rocks
      → VolumeReplica rocks × VolumeServer rocks
  write_through msg (s, t) =
      let led = (update_blob_meta rocks codecs.update_blob_meta_msg.serialize msg s).1 in
      (
        led,
        (future_handle_kvb_message (VolumeServer rocks) (register_handlers rocks codecs h)
            (write_msg rocks atomic codecs type_str (last_buffer (back? led.journal.entries))) t).1,
      )

  unfoldable pub stream :
      List UpdateBlobMetaMsg
      → VolumeReplica rocks × VolumeServer rocks
      → VolumeReplica rocks × VolumeServer rocks
  stream [] s = s
  stream (msg ∷ msgs) s = stream msgs (write_through msg s)

  -- The leader can write, and the follower's replica of the volume has its journal.
  pub record InStep (id : ℤ) (ctx : LeaderCtx) (s : VolumeReplica rocks) (t : VolumeServer rocks)
      : Type 0 where
    pub replica : VolumeReplica rocks
    pub functional : s.member.state ≡ leader_functional
    pub leads : s.member.leader_ctx ≡ some ctx
    pub next : Follows (back? s.journal.entries) (suc_ℤ ctx.commit_id)
    pub found : find eqb_ℤ id t.replicas ≡ some replica
    pub same : replica.journal ≡ s.journal

  abbrev pub Takes : Type 0
  Takes = (batch : List (Slice × String)) (db : rocks.Store) → (rocks.write batch db).0 ≡ true

  -- The serializer reads the write that the leader makes of a message.
  abbrev pub Reads : LeaderCtx → UpdateBlobMetaMsg → Type 0
  Reads ctx msg =
      codecs.update_blob_meta_msg.deserialize
        (codecs.update_blob_meta_msg.serialize (stamped rocks ctx msg))
      ≡ some (stamped rocks ctx msg)

  -- Messages that go to the volume `id` and are read, from the counters of `ctx` on.
  abbrev pub AllRead : ℤ → LeaderCtx → List UpdateBlobMetaMsg → Type 0
  AllRead id ctx [] = Unit {0}
  AllRead id ctx (msg ∷ msgs) =
      (msg.resource_id ≡ id) × Reads ctx msg × AllRead id (next_ctx rocks ctx) msgs

  abbrev pub ctx_after : LeaderCtx → List UpdateBlobMetaMsg → LeaderCtx
  ctx_after ctx [] = ctx
  ctx_after ctx (msg ∷ msgs) = ctx_after (next_ctx rocks ctx) msgs

  last-Follows : (xs : List Record) (r : Record) → Follows (back? (xs ++ r ∷ [])) (suc_ℤ r.id)
  last-Follows xs r = subst (λ o. Follows o (suc_ℤ r.id)) (sym (back?-append xs r)) refl

  write_through-InStep :
      (ctx : LeaderCtx) (msg : UpdateBlobMetaMsg) (s : VolumeReplica rocks) (t : VolumeServer rocks)
      → codecs.update_blob_meta_msg.type_str ≡ type_str
      → Takes
      → Reads ctx msg
      → InStep msg.resource_id ctx s t
      → InStep msg.resource_id
          (next_ctx rocks ctx)
          (write_through msg (s, t)).0
          (write_through msg (s, t)).1
        × (length (write_through msg (s, t)).0.journal.entries ≡ length s.journal.entries + 1)
  write_through-InStep ctx msg s t n w d i =
      let serialize = codecs.update_blob_meta_msg.serialize in
      let payload = serialize (stamped rocks ctx msg) in
      let entry : Record = record { id = suc_ℤ ctx.commit_id; type = type_str; buf = payload } in
      let led = (update_blob_meta rocks serialize msg s).1 in
      let written =
        ap (λ x. x.1)
          (update_blob_meta_lem rocks serialize atomic ctx msg s i.functional i.leads i.next
            (w _ _)) in
      let (_, entries, _, (f, found, same)) =
        replicated_write rocks atomic codecs ctx msg s h t i.replica n d i.functional i.leads i.next
          (w _ _) i.found i.same (w _ _) in
      let buffer : last_buffer (back? led.journal.entries) ≡ payload =
        ap (λ x. last_buffer (back? x)) entries
        ∙ ap last_buffer (back?-append s.journal.entries entry) in
      (
        subst
            (λ b.
              InStep msg.resource_id (next_ctx rocks ctx) led
                (future_handle_kvb_message (VolumeServer rocks) (register_handlers rocks codecs h)
                  (write_msg rocks atomic codecs type_str b) t).1)
            (sym buffer)
            (record {
              replica = f;
              functional = ap (λ x. x.member.state) written ∙ i.functional;
              leads = ap (λ x. x.member.leader_ctx) written;
              next =
                  subst (λ xs. Follows (back? xs) (suc_ℤ (suc_ℤ ctx.commit_id))) (sym entries)
                    (last-Follows s.journal.entries entry);
              found = found;
              same = same;
            }),
        ap length entries ∙ length-append s.journal.entries (entry ∷ []),
      )

  -- If the leader is functional, its commit counter is the id of its last journal entry, and the
  -- follower's replica has its journal, then after any number of writes to the volume, each of which
  -- reaches the follower's server before the next one is made, that is so again, each write has
  -- moved the counters by one and has added one record. Both databases take every batch, and the
  -- serializer reads the writes that it wrote.
  pub stream-InStep :
      (id : ℤ) (ctx : LeaderCtx) (msgs : List UpdateBlobMetaMsg) (s : VolumeReplica rocks)
      (t : VolumeServer rocks)
      → codecs.update_blob_meta_msg.type_str ≡ type_str
      → Takes
      → AllRead id ctx msgs
      → InStep id ctx s t
      → InStep id (ctx_after ctx msgs) (stream msgs (s, t)).0 (stream msgs (s, t)).1
        × (length (stream msgs (s, t)).0.journal.entries ≡ length s.journal.entries + length msgs)
  unfolding stream
  stream-InStep id ctx [] s t n w a i = (i, omega arith)
  stream-InStep id ctx (msg ∷ msgs) s t n w (e, d, a) i =
      let (j, l) =
        write_through-InStep ctx msg s t n w d (subst (λ x. InStep x ctx s t) (sym e) i) in
      let after = write_through msg (s, t) in
      let (k, m) =
        stream-InStep id (next_ctx rocks ctx) msgs after.0 after.1 n w a
          (subst (λ x. InStep x (next_ctx rocks ctx) after.0 after.1) e j) in
      (k, omega (arith, l, m))

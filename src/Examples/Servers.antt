-- ===== src/Examples/Servers.antt =====
-- The theorem on replicated writes at a concrete leader and server.
use datom.Common.{
  pos, eqb_ℤ, String, ◌≡◌, refl, none, some, List, [], ◌∷◌, ◌++◌, suc_ℤ, if◌then◌else◌, length, ◌+◌,
}
use datom.Exec.{returned}
use datom.Config.{find}
use datom.Buffers.{Codec}
use datom.Dispatch.{ServiceApiHandler, future_handle_kvb_message}
use datom.Member.Peers.{get_writable_peers}
use datom.Member.Write.Settles.{writes}
use datom.Volume.{VolumeReplica, UpdateBlobMetaMsg}
use datom.Volume.Replica.{update_blob_meta, type_str}
use datom.Volume.Server.{Codecs, VolumeServer, register_handlers}
use datom.Volume.Server.Replication.{write_msg, reply, replicated_write}
use datom.Volume.Server.Stream.{stream, InStep, ctx_after, stream-InStep}
use datom.Examples.{log_store, log_IsAtomic, leader_ctx, replica, update_of, decode}

-- A codec for messages that the example does not send.
abbrev pub unused_codec : {T : Type 0} → String → Codec T
unused_codec name = record { type_str = name; serialize = λ x. ""; deserialize = λ s. none }

abbrev new_write : UpdateBlobMetaMsg
new_write = update_of (pos 0)

-- The texts that `decode` reads.
abbrev pub to_text : UpdateBlobMetaMsg → String
to_text msg = if eqb_ℤ msg.commit_id (pos 8) then "8" else "9"

abbrev pub codecs : Codecs
codecs = record {
  get_member_state_msg = unused_codec "GetMemberStateMsg";
  get_member_state_resp_msg = unused_codec "GetMemberStateRespMsg";
  become_leader_msg = unused_codec "BecomeLeaderMsg";
  add_to_group_msg = unused_codec "AddToGroupMsg";
  add_to_group_resp_msg = unused_codec "AddToGroupRespMsg";
  group_info_update_msg = unused_codec "GroupInfoUpdateMsg";
  pull_journal_entries_msg = unused_codec "PullJournalEntriesMsg";
  pull_journal_entries_resp_msg = unused_codec "PullJournalEntriesRespMsg";
  update_blob_meta_msg = record {
    type_str = "UpdateBlobMetaMsg";
    serialize = to_text;
    deserialize = λ s. some (decode s);
  };
  update_blob_meta_resp_msg = unused_codec "UpdateBlobMetaRespMsg";
}

abbrev pub no_handlers : ServiceApiHandler (VolumeServer log_store)
no_handlers = record { kvb_message_handlers = [] }

abbrev server : VolumeServer log_store
server = record { replicas = (new_write.resource_id, replica) ∷ [] }

replicated_write_example :
    let led = (update_blob_meta log_store to_text new_write replica).1 in
    let answer =
      future_handle_kvb_message
        (VolumeServer log_store)
        (register_handlers log_store codecs no_handlers)
        (write_msg log_store log_IsAtomic codecs type_str "8")
        server in
    (led.member.sent
      ≡ replica.member.sent ++ writes type_str "8" (get_writable_peers leader_ctx.peers))
    × (led.journal.entries
        ≡ replica.journal.entries
          ++ record { id = suc_ℤ leader_ctx.commit_id; type = type_str; buf = "8" } ∷ [])
    × (answer.0 ≡ returned (reply log_store log_IsAtomic codecs))
    × ((f' : VolumeReplica log_store) × (find eqb_ℤ new_write.resource_id answer.1.replicas
          ≡ some f')
        × (f'.journal ≡ led.journal))
replicated_write_example =
    replicated_write log_store log_IsAtomic codecs leader_ctx new_write replica no_handlers server
      replica refl refl refl refl refl refl refl refl refl

in_step : InStep log_store log_IsAtomic codecs no_handlers (pos 1) leader_ctx replica server
in_step = record {
  replica = replica;
  functional = refl;
  leads = refl;
  next = refl;
  found = refl;
  same = refl;
}

abbrev two_writes : List UpdateBlobMetaMsg
two_writes = new_write ∷ new_write ∷ []

stream-InStep_example :
    let after = stream log_store log_IsAtomic codecs no_handlers two_writes (replica, server) in
    InStep log_store log_IsAtomic codecs no_handlers
      (pos 1)
      (ctx_after log_store log_IsAtomic codecs no_handlers leader_ctx two_writes)
      after.0
      after.1
    × (length after.0.journal.entries ≡ 1 + 2)
stream-InStep_example =
    stream-InStep log_store log_IsAtomic codecs no_handlers (pos 1) leader_ctx two_writes replica
      server refl (λ batch db. refl) (refl, refl, (refl, refl, tt)) in_step

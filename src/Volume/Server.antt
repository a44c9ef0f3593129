-- ===== src/Volume/Server.antt =====
-- VolumeServer of src/volumeserver/VolumeServer.cpp: the handlers that it registers and the replicas
-- that they find. A handler runs its replica's step on the replica's event base: one step here. The
-- serializers of the messages are a parameter.
pub mod Startup
pub mod Serving
pub mod Replication
pub mod Stream
use datom.Common.{ℤ, eqb_ℤ, String, Option, none, some, List, [], ◌∷◌}
use datom.Status.{invalid_resource}
use datom.Exec.{Exec, Outcome, returned, thrown, aborted, throw_status, ◌>>=◌, pure}
use datom.Config.{put, find}
use datom.Buffers.{Codec}
use datom.Journal.{JournalEntry}
use datom.Dispatch.{
  ServiceApiHandler, register_kvb_message_handler, kvb_handler, kvb_oneway_handler,
  KvbMessageHandler,
}
use datom.Member.{
  GetMemberStateMsg, GetMemberStateRespMsg, BecomeLeaderMsg, AddToGroupMsg, AddToGroupRespMsg,
  GroupInfoUpdateMsg, PullJournalEntriesMsg,
}
use datom.Member.Messages.{
  handle_get_member_state_msg, handle_become_leader_msg, handle_add_to_group_msg,
  handle_group_info_update_msg,
}
use datom.Volume.{Rocks, VolumeReplica, UpdateBlobMetaMsg}
use datom.Volume.Replica.{Task, on_member, handle_pull_journal_entries_msg, handle_metadata_write}

-- getFromBinaryPayload and setAsBinaryPayload at the types of the messages.
pub record Codecs : Type 0 where
  pub get_member_state_msg : Codec GetMemberStateMsg
  pub get_member_state_resp_msg : Codec GetMemberStateRespMsg
  pub become_leader_msg : Codec BecomeLeaderMsg
  pub add_to_group_msg : Codec AddToGroupMsg
  pub add_to_group_resp_msg : Codec AddToGroupRespMsg
  pub group_info_update_msg : Codec GroupInfoUpdateMsg
  pub pull_journal_entries_msg : Codec PullJournalEntriesMsg
  pub pull_journal_entries_resp_msg : Codec (List JournalEntry)
  pub update_blob_meta_msg : Codec UpdateBlobMetaMsg
  pub update_blob_meta_resp_msg : Codec (Unit {0})

module _ (rocks : Rocks) where
  -- The resource table of the replica manager.
  pub record VolumeServer : Type 0 where
    pub replicas : List (ℤ × VolumeReplica rocks)

  abbrev pub run_on :
      {A : Type 0} → Option (VolumeReplica rocks) → ℤ → Task rocks A → Exec VolumeServer A
  run_on none id act s = throw_status invalid_resource s
  run_on (some replica) id act s =
      let (r, replica') = act replica in
      (r, record s { replicas = put eqb_ℤ id replica' s.replicas })

  -- replicaMgr_->getResourceOrThrow(id), and a step of the replica.
  unfoldable pub on_replica : {A : Type 0} → ℤ → Task rocks A → Exec VolumeServer A
  on_replica id act s = run_on (find eqb_ℤ id s.replicas) id act s

  -- The future of a step is dropped, and its exception with it.
  abbrev pub unseen : Outcome (Unit {0}) → Outcome (Unit {0})
  unseen (returned a) = returned tt
  unseen (thrown e) = returned tt
  unseen aborted = aborted

  abbrev pub dropping : Task rocks (Unit {0}) → Task rocks (Unit {0})
  dropping act s = let (r, t) = act s in (unseen r, t)

  -- The bytes in threadLocalBuffer.
  abbrev pub raw : Option String → String
  raw none = ""
  raw (some buffer) = buffer

  module _ (codecs : Codecs) where
    abbrev pub Handler : Type 0
    Handler = KvbMessageHandler VolumeServer

    abbrev pub on_get_member_state : Handler
    on_get_member_state =
        kvb_handler VolumeServer codecs.get_member_state_msg codecs.get_member_state_resp_msg
          (λ req buffer.
            on_replica req.resource_id (on_member rocks (handle_get_member_state_msg req)))

    abbrev pub on_become_leader : Handler
    on_become_leader = kvb_oneway_handler VolumeServer codecs.become_leader_msg (λ req.
        on_replica req.resource_id (dropping (on_member rocks (handle_become_leader_msg req))))

    abbrev pub on_add_to_group : Handler
    on_add_to_group =
        kvb_handler VolumeServer codecs.add_to_group_msg codecs.add_to_group_resp_msg
          (λ req buffer. on_replica req.resource_id (on_member rocks (handle_add_to_group_msg req)))

    abbrev pub on_group_info_update : Handler
    on_group_info_update = kvb_oneway_handler VolumeServer codecs.group_info_update_msg (λ req.
        on_replica req.resource_id (dropping (on_member rocks (handle_group_info_update_msg req))))

    abbrev pub on_pull_journal_entries : Handler
    on_pull_journal_entries =
        kvb_handler VolumeServer codecs.pull_journal_entries_msg
          codecs.pull_journal_entries_resp_msg
          (λ req buffer. on_replica req.resource_id (handle_pull_journal_entries_msg rocks req))

    abbrev pub on_update_blob_meta : Handler
    on_update_blob_meta =
        kvb_handler VolumeServer codecs.update_blob_meta_msg codecs.update_blob_meta_resp_msg
          (λ req buffer. on_replica req.resource_id (handle_metadata_write rocks req (raw buffer)))

    unfoldable pub register_handlers :
        ServiceApiHandler VolumeServer → ServiceApiHandler VolumeServer
    register_handlers h =
        register_kvb_message_handler VolumeServer codecs.update_blob_meta_msg.type_str
          on_update_blob_meta
          (register_kvb_message_handler VolumeServer codecs.pull_journal_entries_msg.type_str
            on_pull_journal_entries
            (register_kvb_message_handler VolumeServer codecs.group_info_update_msg.type_str
              on_group_info_update
              (register_kvb_message_handler VolumeServer codecs.add_to_group_msg.type_str
                on_add_to_group
                (register_kvb_message_handler VolumeServer codecs.become_leader_msg.type_str
                  on_become_leader
                  (register_kvb_message_handler VolumeServer codecs.get_member_state_msg.type_str
                    on_get_member_state h)))))

-- ===== src/Volume/Replica.antt =====
-- VolumeReplica: the write path (src/volumeserver/VolumeServer.tcc, updateBlobMeta of
-- src/volumeserver/VolumeServer.cpp, groupWriteInEb_ of src/infra/PBMember.tcc) and the sync
-- protocol of src/volumeserver/VolumeServer.cpp.
pub mod Writes
pub mod GroupWrite
pub mod Wedge
pub mod Replay
pub mod Catchup
pub mod Pulling
use datom.Common.{
  ℕ, ℤ, pos, String, Bool, true, false, not, Option, none, some, List, [], ◌∷◌, ◌++◌, suc_ℤ, ltb_ℤ,
  leb_ℤ, eqb_ℤ, str_eq, if◌then◌else◌,
}
use datom.Status.{Status, status_ok, invalid_state, no_quorum, other}
use datom.Exec.{
  Exec, Outcome, returned, thrown, aborted, pure, throw_status, abort, check, modify, ◌>>=◌, ◌>>◌,
}
use datom.Journal.{Journal, JournalEntry, add_entry, remove_last_entry, retrieve_entries}
use datom.Member.{
  PbMember, LeaderCtx, AddToGroupMsg, PullJournalEntriesMsg, send_pull, Action, is_leader_state,
  leader_functional, follower_functional, same_state, send, send_add_to_group, switch_state,
  throw_ifnot_leader,
}
use datom.Member.Write.{WriteCtx, write_to_peers}
use datom.Volume.{Rocks, VolumeReplica, UpdateBlobMetaMsg}
use datom.Volume.MetaDb.{apply_update}

-- MAX_PAYLOAD_BYTES of src/idls/commontypes.thrift
abbrev max_payload_bytes : ℤ
max_payload_bytes = pos 2097152

abbrev pub type_str : String
type_str = "UpdateBlobMetaMsg"

-- folly::collect: the first exception.
abbrev pub collected : Outcome (Unit {0}) → Outcome (Unit {0}) → Outcome (Unit {0})
collected (returned a) r = r
collected (thrown e) r = thrown e
collected aborted r = aborted

abbrev add_msg : PbMember → AddToGroupMsg
add_msg m = record {
  resource_id = m.resource_id;
  term_id = m.term_id;
  member_id = m.my_id;
  member_version = m.version;
  member_state = m.state;
}

abbrev notify_leader : Action (Unit {0})
notify_leader m = send (send_add_to_group m.leader_id (add_msg m)) m

abbrev pub pull_msg : ℤ → PbMember → PullJournalEntriesMsg
pull_msg end m = record {
  resource_id = m.resource_id;
  term_id = m.term_id;
  from_id = m.commit_id;
  to_id = end;
  max_bytes_in_resp = max_payload_bytes;
}

abbrev pub pull_or_finish : Bool → ℤ → Action Bool
pull_or_finish true end m = pure true m
pull_or_finish false end m = (do send (send_pull m.leader_id (pull_msg end m)); pure false) m

module _ (rocks : Rocks) where
  abbrev pub Task : Type 0 → Type 0
  Task A = Exec (VolumeReplica rocks) A

  -- Runs an action of the base class.
  abbrev pub on_member : {A : Type 0} → Action A → Task A
  on_member act s = let (r, m) = act s.member in (r, record s { member = m })

  abbrev throw_unless_ok : Status → Task (Unit {0})
  throw_unless_ok status_ok = pure tt
  throw_unless_ok s = throw_status s

  -- journal_.addEntry
  abbrev journal_add : ℤ → String → Task Status
  journal_add commit_id buffer s =
      let (status, j) = add_entry commit_id type_str buffer s.journal in
      (returned status, record s { journal = j })

  -- db_.applyUpdate
  abbrev db_apply : UpdateBlobMetaMsg → Task Status
  db_apply msg s =
      let (status, db) = apply_update rocks msg s.db in (returned status, record s { db = db })

  abbrev take_back : Status → Task (Unit {0})
  take_back status_ok = pure tt
  take_back status = do
    modify (λ s. record s { journal = remove_last_entry s.journal })
    throw_status status

  unfoldable pub handle_metadata_write : UpdateBlobMetaMsg → String → Task (Unit {0})
  handle_metadata_write msg buffer = do
    added ← journal_add msg.commit_id buffer
    throw_unless_ok added
    applied ← db_apply msg
    take_back applied

  -- ++(leaderCtx_->opId), ++(leaderCtx_->commitId)
  abbrev pub next_ctx : LeaderCtx → LeaderCtx
  next_ctx ctx = record ctx { op_id = suc_ℤ ctx.op_id; commit_id = suc_ℤ ctx.commit_id }

  abbrev pub stamped : LeaderCtx → UpdateBlobMetaMsg → UpdateBlobMetaMsg
  stamped ctx msg = record msg { op_id = suc_ℤ ctx.op_id; commit_id = suc_ℤ ctx.commit_id }

  abbrev pub with_ctx : LeaderCtx → VolumeReplica rocks → VolumeReplica rocks
  with_ctx ctx s = record s { member = record s.member { leader_ctx = some ctx } }

  module _ (serialize : UpdateBlobMetaMsg → String) where
    -- The write at a functional leader; its result is the context that the answers settle.
    abbrev pub write_in :
        Option LeaderCtx
        → (UpdateBlobMetaMsg → String → Task (Unit {0}))
        → UpdateBlobMetaMsg
        → Task WriteCtx
    write_in none local_write msg s = (aborted, s)
    write_in (some ctx) local_write msg s =
        let payload = serialize (stamped ctx msg) in
        (local_write (stamped ctx msg) payload >> on_member (write_to_peers type_str payload))
          (with_ctx (next_ctx ctx) s)

    unfoldable pub group_write_in_eb :
        (UpdateBlobMetaMsg → String → Task (Unit {0})) → UpdateBlobMetaMsg → Task WriteCtx
    group_write_in_eb local_write msg s =
        if not (is_leader_state s.member.state)
        then throw_status invalid_state s
        else if not (same_state s.member.state leader_functional)
        then throw_status no_quorum s
        else write_in s.member.leader_ctx local_write msg s

    unfoldable pub update_blob_meta : UpdateBlobMetaMsg → Task WriteCtx
    unfolding group_write_in_eb
    update_blob_meta = group_write_in_eb handle_metadata_write

  unfoldable pub run_sync_protocol : Task (Unit {0})
  run_sync_protocol = on_member notify_leader

  -- Whether the promise is set.
  unfoldable pub pull_journal_entries : ℤ → Task Bool
  pull_journal_entries end =
      on_member λ m. (check (leb_ℤ m.commit_id end) >> pull_or_finish (eqb_ℤ m.commit_id end) end) m

  -- The last `then` of runSyncProtocol; applyBufferedJournalEntries_ does nothing.
  unfoldable pub on_sync_done : Task (Unit {0})
  unfolding switch_state
  on_sync_done = on_member (switch_state follower_functional >> notify_leader)

  unfoldable pub handle_pull_journal_entries_msg : PullJournalEntriesMsg → Task (List JournalEntry)
  handle_pull_journal_entries_msg msg s =
      (do
        on_member throw_ifnot_leader
        pure (retrieve_entries msg.from_id msg.to_id msg.max_bytes_in_resp s.journal []).1)
        s

  -- `decode` is getFromBinaryPayload. A type with no handler throws a TApplicationException.
  module _ (decode : String → UpdateBlobMetaMsg) where
    unfoldable pub apply_op_batch : List JournalEntry → Task (Unit {0})
    apply_op_batch [] s = (returned tt, s)
    apply_op_batch (e ∷ entries) s =
        let (r, t) = handle_metadata_write (decode e.buffer) e.buffer s in
        let rest = apply_op_batch entries t in
        if str_eq e.msg_id type_str then (collected r rest.0, rest.1) else (thrown other, s)

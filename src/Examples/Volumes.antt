-- ===== src/Examples/Volumes.antt =====
-- The theorems on volumes, journals and keys at concrete replicas.
use datom.Common.{none, length, All, ◌<◌, List, pos, negsuc, ◌≡◌, refl, true, [], ◌∷◌, ◌++◌, arith}
use mathlib.Core.List.{reverse}
use datom.Status.{status_ok}
use datom.Exec.{returned}
use datom.Journal.{JournalEntry, retrieve_entries, add_entry, remove_last_entry}
use datom.Journal.Sequence.{IsConsecutive, add_remove-IsConsecutive}
use datom.Journal.Retrieval.{select, retrieve_entries-eq-reverse}
use datom.Member.{
  PbMember, GetMemberStateRespMsg, AddToGroupMsg, PullJournalEntriesMsg, follower_syncing,
  throw_ifnot_leader, is_leader_state,
}
use datom.Member.Peers.{get_writable_peers}
use datom.Member.Write.{new_write_ctx}
use datom.Volume.{GetBlobMetaMsg, BlobKvPair, IsAtomic, VolumeReplica}
use datom.Volume.MetaDb.{get_blob_meta, make_batch, BlobMetaOffsetKey, of_slice, to_slice}
use datom.Volume.MetaDb.Keys.{slice_roundtrip, to_slice_order, precedes}
use datom.Volume.MetaDb.Scans.{get_blob_meta-within, within}
use datom.Volume.Replica.{
  update_blob_meta, handle_pull_journal_entries_msg, type_str, apply_op_batch,
}
use datom.Volume.Replica.Writes.{Written, handle_metadata_write_lem}
use datom.Volume.Replica.GroupWrite.{update_blob_meta_lem, after_write}
use datom.Volume.Replica.Wedge.{failed_write_wedges, AllRefused}
use datom.Volume.Replica.Replay.{replay_in_order, Succeeded, records_of}
use datom.Volume.Replica.Catchup.{pulled_batch_fails}
use datom.Member.Group.{Conv}
use datom.Member.Loop.{leader_lock_created, run, init}
use datom.Member.Messages.{on_leader_lock}
use datom.Examples.{
  log_store, log_IsAtomic, full_store, serialize, decode, replica, full_replica, update_of,
  leader_ctx, one_record, joining, answer_of,
}

full_IsAtomic : IsAtomic full_store
full_IsAtomic batch s e = refl

failed_write_wedges_example :
    AllRefused full_store serialize full_IsAtomic
      (update_of (pos 0) ∷ update_of (pos 0) ∷ [])
      (update_blob_meta full_store serialize (update_of (pos 0)) full_replica).1
failed_write_wedges_example =
    failed_write_wedges full_store serialize full_IsAtomic leader_ctx
      (record { id = pos 7; type = "UpdateBlobMetaMsg"; buf = "x" }) (update_of (pos 0))
      full_replica (update_of (pos 0) ∷ update_of (pos 0) ∷ []) refl refl refl refl refl

update_blob_meta_lem_example : update_blob_meta log_store serialize (update_of (pos 0)) replica ≡ (
  returned (new_write_ctx 1),
  after_write log_store serialize leader_ctx (update_of (pos 0)) replica,
)
unfolding get_writable_peers
update_blob_meta_lem_example =
    update_blob_meta_lem log_store serialize log_IsAtomic leader_ctx (update_of (pos 0)) replica
      refl refl refl refl

handle_metadata_write_lem_example : Written log_store log_IsAtomic (update_of (pos 8)) "8" replica
handle_metadata_write_lem_example =
    handle_metadata_write_lem log_store log_IsAtomic (update_of (pos 8)) "8" replica

abbrev entry_8 : JournalEntry
entry_8 = record { msg_id = "UpdateBlobMetaMsg"; entry_id = pos 8; buffer = "8" }

abbrev entry_9 : JournalEntry
entry_9 = record { msg_id = "UpdateBlobMetaMsg"; entry_id = pos 9; buffer = "9" }

replay_in_order_example :
    ((apply_op_batch log_store decode (entry_8 ∷ entry_9 ∷ []) replica).0 ≡ returned tt)
    × ((apply_op_batch log_store decode (entry_8 ∷ entry_9 ∷ []) replica).1.journal.entries
        ≡ one_record.entries ++ records_of log_store log_IsAtomic decode (entry_8 ∷ entry_9 ∷ []))
replay_in_order_example =
    replay_in_order log_store log_IsAtomic decode (entry_8 ∷ entry_9 ∷ []) replica
      (λ batch db. refl) (refl, (refl, tt)) (refl, (refl, tt))

-- A leader whose journal holds the writes 8 and 9.
abbrev ahead : VolumeReplica log_store
ahead = record replica {
  journal = record {
    entries =
        record { id = pos 8; type = type_str; buf = "8" }
        ∷ record { id = pos 9; type = type_str; buf = "9" }
        ∷ [];
  };
}

abbrev pull_both : PullJournalEntriesMsg
pull_both = record {
  resource_id = pos 1;
  term_id = pos 1;
  from_id = pos 8;
  to_id = pos 9;
  max_bytes_in_resp = pos 0;
}

both_answered :
    (handle_pull_journal_entries_msg log_store pull_both ahead).0
    ≡ returned (entry_9 ∷ entry_8 ∷ [])
unfolding handle_pull_journal_entries_msg throw_ifnot_leader is_leader_state retrieve_entries
both_answered = refl

pulled_batch_fails_example :
    ¬ Succeeded (apply_op_batch log_store decode (entry_9 ∷ entry_8 ∷ []) replica).0
pulled_batch_fails_example =
    pulled_batch_fails log_store log_IsAtomic decode pull_both ahead replica entry_9 entry_8 []
      (refl, tt) ((refl, refl), ((refl, refl), tt)) both_answered

abbrev no_conv : Conv
no_conv = record { split = λ d text. []; to_uint64 = λ text. none }

abbrev granted : List GetMemberStateRespMsg
granted = answer_of "2" (negsuc 0) ∷ answer_of "3" (negsuc 0) ∷ []

abbrev new_leader : PbMember
unfolding run init datom.Member.Loop.step on_leader_lock
new_leader = run no_conv (leader_lock_created granted ∷ []) (init joining).1

abbrev join : AddToGroupMsg
join = record {
  resource_id = pos 1;
  term_id = pos 5;
  member_id = "3";
  member_version = pos 0;
  member_state = follower_syncing;
}

-- The third member joins the second, which leads.
abbrev third : VolumeReplica log_store
unfolding init
third = record replica { member = (init (record joining { my_id = "3" })).1 }

add_remove-IsConsecutive_example :
    IsConsecutive (add_entry (pos 8) "t" "b" one_record).1.entries
    × IsConsecutive (remove_last_entry one_record).entries
add_remove-IsConsecutive_example = add_remove-IsConsecutive (pos 8) "t" "b" one_record tt

retrieve_entries-eq-reverse_example :
    retrieve_entries (pos 0) (pos 9) (pos 1) one_record []
    ≡ (status_ok, [] ++ reverse (select (pos 0) (pos 9) one_record.entries))
retrieve_entries-eq-reverse_example =
    retrieve_entries-eq-reverse (pos 0) (pos 9) (pos 1) one_record []

abbrev key : BlobMetaOffsetKey
key = record { blob_id = pos 9; offset = negsuc 3 }

slice_roundtrip_example :
    (length (to_slice key) ≡ 16)
    × All (λ b. b < 256) (to_slice key)
    × (of_slice (to_slice key) ≡ key)
slice_roundtrip_example = slice_roundtrip key (omega arith) (omega arith)

to_slice_order_example :
    precedes
      (to_slice (record { blob_id = pos 9; offset = pos 256 }))
      (to_slice (record { blob_id = pos 9; offset = pos 1 }))
    ≡ true
to_slice_order_example = to_slice_order (pos 9) 256 1 (omega arith)

abbrev chunks : List BlobKvPair
chunks =
    record { offset = pos 1; chunk_id = "a" }
    ∷ record { offset = pos 2; chunk_id = "b" }
    ∷ record { offset = pos 9; chunk_id = "c" }
    ∷ []

abbrev query : GetBlobMetaMsg
query = record { resource_id = pos 1; blob_id = pos 9; start_offset = pos 1; end_offset = pos 5 }

get_blob_meta-within_example :
    get_blob_meta log_store query (make_batch (pos 9) chunks ++ [])
    ≡ record { resource_id = pos 1; blob_id = pos 9; chunk_list = within (pos 5) chunks }
get_blob_meta-within_example =
    get_blob_meta-within log_store query chunks [] (make_batch (pos 9) chunks ++ []) (omega arith)
      (
        omega arith,
        (omega arith, (omega arith, tt)),
        (omega arith, (omega arith, tt), (omega arith, tt, tt)),
      )
      tt refl

-- ===== src/Volume/MetaDb.antt =====
-- src/volumeserver/VolumeMetaDb.cpp: the key of an offset, the batch of an update and the scan of a
-- query. int64_t values are written in the byte order of x86-64, least significant byte first.
pub mod Keys
pub mod Scans
use datom.Common.{
  ℕ, zero, suc, ◌+◌, ◌-◌, ◌*◌, ◌/◌, ◌%◌, ◌^◌, ℤ, pos, negsuc, String, Bool, true, false, ◌&&◌, ◌||◌,
  not, Option, none, some, List, [], ◌∷◌, ◌++◌, map, ltb, ltb_ℤ, eqb_ℤ, if◌then◌else◌,
}
use datom.Status.{Status, status_ok, db_write_failure}
use datom.Volume.{Slice, Rocks, BlobKvPair, UpdateBlobMetaMsg, GetBlobMetaMsg, GetBlobMetaRespMsg}

-- 2 ^ 64
abbrev pub word : ℕ
word = 18446744073709551616

-- The bit pattern of an int64_t.
abbrev pub to_word : ℤ → ℕ
to_word (pos n) = n
to_word (negsuc n) = word - 1 - n

abbrev pub of_word : ℕ → ℤ
of_word w = if ltb w 9223372036854775808 then pos w else negsuc (word - 1 - w)

unfoldable pub to_bytes : ℕ → ℕ → List ℕ
to_bytes zero w = []
to_bytes (suc k) w = w % 256 ∷ to_bytes k (w / 256)

unfoldable pub of_bytes : List ℕ → ℕ
of_bytes [] = 0
of_bytes (b ∷ bs) = b + 256 * of_bytes bs

-- struct BlobMetaOffsetKey: data[0] and data[1]
pub record BlobMetaOffsetKey : Type 0 where
  pub blob_id : ℤ
  pub offset : ℤ

unfoldable pub to_slice : BlobMetaOffsetKey → Slice
unfolding to_bytes
to_slice key = to_bytes 8 (to_word key.blob_id) ++ to_bytes 8 (to_word key.offset)

-- buf[0] and buf[1] of the sixteen bytes.
unfoldable pub of_slice : Slice → BlobMetaOffsetKey
unfolding of_bytes
of_slice (a ∷ b ∷ c ∷ d ∷ e ∷ f ∷ g ∷ h ∷ rest) = record {
  blob_id = of_word (of_bytes (a ∷ b ∷ c ∷ d ∷ e ∷ f ∷ g ∷ h ∷ []));
  offset = of_word (of_bytes rest);
}
of_slice _ = record { blob_id = pos 0; offset = pos 0 }

-- batch.Put for each chunk, with the key's offset set anew
unfoldable pub make_batch : ℤ → List BlobKvPair → List (Slice × String)
unfolding to_slice
make_batch blob_id [] = []
make_batch blob_id (kv ∷ kvs) =
    (to_slice (record { blob_id = blob_id; offset = kv.offset }), kv.chunk_id)
    ∷ make_batch blob_id kvs

-- msg->endOffset != -1 && offsetKey.getOffset() > msg->endOffset
abbrev pub past_end : ℤ → ℤ → Bool
past_end end_offset offset = not (eqb_ℤ end_offset (negsuc 0)) && ltb_ℤ end_offset offset

-- The loop over the iterator, up to its break.
unfoldable pub collect_chunks : GetBlobMetaMsg → List (Slice × String) → List BlobKvPair
unfolding of_slice
collect_chunks msg [] = []
collect_chunks msg ((slice, value) ∷ rest) =
    let key = of_slice slice in
    let more = collect_chunks msg rest in
    if not (eqb_ℤ key.blob_id msg.blob_id) || past_end msg.end_offset key.offset
    then []
    else record { offset = key.offset; chunk_id = value } ∷ more

module _ (rocks : Rocks) where
  abbrev write_status : Bool × rocks.Store → Status × rocks.Store
  write_status (true, s) = (status_ok, s)
  write_status (false, s) = (db_write_failure, s)

  unfoldable pub apply_update : UpdateBlobMetaMsg → rocks.Store → Status × rocks.Store
  unfolding make_batch
  apply_update msg db = write_status (rocks.write (make_batch msg.blob_id msg.chunk_list) db)

  unfoldable pub get_blob_meta : GetBlobMetaMsg → rocks.Store → GetBlobMetaRespMsg
  unfolding collect_chunks to_slice
  get_blob_meta msg db = record {
    resource_id = msg.resource_id;
    blob_id = msg.blob_id;
    chunk_list =
        collect_chunks msg
          (rocks.scan (to_slice (record { blob_id = msg.blob_id; offset = msg.start_offset })) db);
  }

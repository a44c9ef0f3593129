-- ===== src/Volume/MetaDb/Scans.antt =====
-- What a scan answers when the store visits the chunks of a blob in ascending order of offsets.
use datom.Common.{
  ℤ, ◌<ℤ◌, String, ◌≡◌, refl, ap, ◌∙◌, true, false, not, ◌||◌, Bool-cases, eqb_ℤ, eqb_ℤ_iff, List,
  [], ◌∷◌, ◌++◌, arith, inl, inr, if◌then◌else◌, All,
}
use datom.Volume.{Slice, Rocks, BlobKvPair, GetBlobMetaMsg}
use datom.Volume.MetaDb.{
  BlobMetaOffsetKey, to_slice, of_slice, make_batch, past_end, collect_chunks, get_blob_meta,
}
use datom.Volume.MetaDb.Keys.{InRange, of_slice-to_slice}

-- The chunks up to the end offset, or all of them if it is -1.
unfoldable pub within : ℤ → List BlobKvPair → List BlobKvPair
within end_offset [] = []
within end_offset (kv ∷ kvs) =
    let rest = within end_offset kvs in if past_end end_offset kv.offset then rest else kv ∷ rest

-- The offsets ascend, and each is an int64_t.
abbrev pub IsAscending : List BlobKvPair → Type 0
IsAscending [] = Unit {0}
IsAscending (kv ∷ kvs) =
    InRange kv.offset × All (λ later. kv.offset <ℤ later.offset) kvs × IsAscending kvs

-- The store ends, or goes on with another blob.
abbrev pub LeavesBlob : ℤ → List (Slice × String) → Type 0
LeavesBlob blob_id [] = Unit {0}
LeavesBlob blob_id ((slice, value) ∷ rest) = eqb_ℤ (of_slice slice).blob_id blob_id ≡ false

past_end_mono : (e a b : ℤ) → a <ℤ b → past_end e a ≡ true → past_end e b ≡ true
past_end_mono e a b l h = ground (arith, l, h)

within_past :
    (e a : ℤ) (kvs : List BlobKvPair)
    → past_end e a ≡ true
    → All (λ later. a <ℤ later.offset) kvs
    → within e kvs ≡ []
unfolding within
within_past e a [] h k = refl
within_past e a (kv ∷ kvs) h k = rw (past_end_mono e a kv.offset k.0 h) (within_past e a kvs h k.1)

collect_leaves :
    (msg : GetBlobMetaMsg) (rest : List (Slice × String))
    → LeavesBlob msg.blob_id rest
    → collect_chunks msg rest ≡ []
unfolding collect_chunks
collect_leaves msg [] l = refl
collect_leaves msg ((slice, value) ∷ rest) l = rw l refl

same_blob : (a : ℤ) → eqb_ℤ a a ≡ true
same_blob a = ground (arith, eqb_ℤ_iff a a)

collect_step :
    (msg : GetBlobMetaMsg) (slice : Slice) (value : String) (rest : List (Slice × String))
    (key : BlobMetaOffsetKey)
    → of_slice slice ≡ key
    → collect_chunks msg ((slice, value) ∷ rest) ≡ (
        if not (eqb_ℤ key.blob_id msg.blob_id) || past_end msg.end_offset key.offset
        then []
        else record { offset = key.offset; chunk_id = value } ∷ collect_chunks msg rest)
unfolding collect_chunks
collect_step msg slice value rest key e =
    ap
      (λ (k : BlobMetaOffsetKey).
        if not (eqb_ℤ k.blob_id msg.blob_id) || past_end msg.end_offset k.offset
        then []
        else record { offset = k.offset; chunk_id = value } ∷ collect_chunks msg rest)
      e

collect_within :
    (msg : GetBlobMetaMsg) (kvs : List BlobKvPair) (rest : List (Slice × String))
    → InRange msg.blob_id
    → IsAscending kvs
    → LeavesBlob msg.blob_id rest
    → collect_chunks msg (make_batch msg.blob_id kvs ++ rest) ≡ within msg.end_offset kvs
unfolding make_batch within
collect_within msg [] rest r a l = collect_leaves msg rest l
collect_within msg (kv ∷ kvs) rest r a l =
    let key : BlobMetaOffsetKey = record { blob_id = msg.blob_id; offset = kv.offset } in
    let first =
      collect_step msg (to_slice key) kv.chunk_id (make_batch msg.blob_id kvs ++ rest) key
        (of_slice-to_slice key r a.0) in
    elim (Bool-cases (past_end msg.end_offset kv.offset)) [
      | inl h ↦
          first ∙ rw (same_blob msg.blob_id, h, within_past msg.end_offset kv.offset kvs h a.1) refl
      | inr h ↦
          first ∙ rw (same_blob msg.blob_id, h) (ap (◌∷◌ kv) (collect_within msg kvs rest r a.2 l))
    ]

module _ (rocks : Rocks) where
  -- A query on a store that visits, from the start offset on, the stored chunks of the blob in
  -- ascending order of offsets, and then ends or goes on with another blob, answers those chunks
  -- up to the end offset, or all of them if it is -1.
  pub get_blob_meta-within :
      (msg : GetBlobMetaMsg) (kvs : List BlobKvPair) (rest : List (Slice × String))
      (db : rocks.Store)
      → InRange msg.blob_id
      → IsAscending kvs
      → LeavesBlob msg.blob_id rest
      → rocks.scan (to_slice (record { blob_id = msg.blob_id; offset = msg.start_offset })) db
        ≡ make_batch msg.blob_id kvs ++ rest
      → get_blob_meta rocks msg db ≡ record {
        resource_id = msg.resource_id;
        blob_id = msg.blob_id;
        chunk_list = within msg.end_offset kvs;
      }
  unfolding get_blob_meta
  get_blob_meta-within msg kvs rest db r a l s = rw (s, collect_within msg kvs rest r a l) refl

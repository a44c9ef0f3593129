-- ===== src/Volume.antt =====
-- The volume server: src/volumeserver/ and the messages of src/idls/volumeapi.thrift. Data here;
-- the parts are in the modules below.
pub mod MetaDb
pub mod Replica
pub mod Server
use datom.Common.{ℕ, ℤ, String, Bool, false, List, ◌≡◌}
use datom.Member.{PbMember}
use datom.Journal.{Journal}

pub record BlobKvPair : Type 0 where
  pub offset : ℤ
  pub chunk_id : String

pub record UpdateBlobMetaMsg : Type 0 where
  pub resource_id : ℤ
  pub blob_id : ℤ
  pub op_id : ℤ
  pub commit_id : ℤ
  pub chunk_list : List BlobKvPair

pub record GetBlobMetaMsg : Type 0 where
  pub resource_id : ℤ
  pub blob_id : ℤ
  pub start_offset : ℤ
  pub end_offset : ℤ

pub record GetBlobMetaRespMsg : Type 0 where
  pub resource_id : ℤ
  pub blob_id : ℤ
  pub chunk_list : List BlobKvPair

-- A key of the database: its bytes.
abbrev pub Slice : Type 0
Slice = List ℕ

-- RocksDB, which is third-party code. `write` applies a batch of Put operations and says whether
-- its status is ok; `scan` lists the entries that an iterator visits from Seek of a key on.
pub record Rocks : Type 1 where
  pub Store : Type 0
  pub write : List (Slice × String) → Store → Bool × Store
  pub scan : Slice → Store → List (Slice × String)

-- A batch is atomic: one that fails leaves the database as it was.
abbrev pub IsAtomic : Rocks → Type 0
IsAtomic rocks =
    (batch : List (Slice × String)) (s : rocks.Store)
    → (rocks.write batch s).0 ≡ false
    → (rocks.write batch s).1 ≡ s

pub record VolumeReplica (rocks : Rocks) : Type 0 where
  pub member : PbMember
  pub journal : Journal
  pub db : rocks.Store

-- ===== src/Journal.antt =====
-- The commit journal: src/infra/Journal.h and src/infra/Journal.cpp. A buffer is its bytes, as text.
-- The proofs are in the modules below.
pub mod Sequence
pub mod Retrieval
pub mod Descent
use mathlib.Core.List.{reverse}
use datom.Common.{
  ℤ, String, ◌≡◌, Bool, true, false, not, ◌&&◌, Option, none, some, List, [], ◌∷◌, ◌++◌, arith,
  leb_ℤ, eqb_ℤ, suc_ℤ, back?, pop_back, if◌then◌else◌,
}
use datom.Status.{Status, status_ok, invalid_commit}

pub record Record : Type 0 where
  pub id : ℤ
  pub type : String
  pub buf : String

pub record Journal : Type 0 where
  pub entries : List Record

-- src/idls/commontypes.thrift
pub record JournalEntry : Type 0 where
  pub msg_id : String
  pub entry_id : ℤ
  pub buffer : String

-- entries.size() > 0 && entries.back().id+1 != id
abbrev pub breaks_sequence : Option Record → ℤ → Bool
breaks_sequence none id = false
breaks_sequence (some last) id = not (eqb_ℤ (suc_ℤ last.id) id)

pub add_entry : ℤ → String → String → Journal → Status × Journal
add_entry id type buffer j = if breaks_sequence (back? j.entries) id then (invalid_commit, j) else (
  status_ok,
  record { entries = j.entries ++ record { id = id; type = type; buf = buffer } ∷ [] },
)

pub remove_last_entry : Journal → Journal
remove_last_entry j = record { entries = pop_back j.entries }

abbrev pub in_range : ℤ → ℤ → Record → Bool
in_range from_id to_id r = leb_ℤ from_id r.id && leb_ℤ r.id to_id

abbrev pub to_entry : Record → JournalEntry
to_entry r = record { msg_id = r.type; entry_id = r.id; buffer = r.buf }

-- The loop of retrieveEntries, from the reverse iterator on; `ret` is the output vector.
abbrev pub collect : ℤ → ℤ → List Record → List JournalEntry → List JournalEntry
collect from_id to_id [] ret = ret
collect from_id to_id (r ∷ rs) ret =
    collect from_id to_id rs (if in_range from_id to_id r then ret ++ to_entry r ∷ [] else ret)

unfoldable pub retrieve_entries :
    ℤ → ℤ → ℤ → Journal → List JournalEntry → Status × List JournalEntry
retrieve_entries from_id to_id max_bytes_in_resp j ret =
    (status_ok, collect from_id to_id (reverse j.entries) ret)

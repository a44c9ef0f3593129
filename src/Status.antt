-- ===== src/Status.antt =====
-- src/idls/status.thrift, src/infra/StatusException.h and src/infra/MessageException.h: the status
-- codes and the exceptions that carry them.
use datom.Common.{ℕ, ℤ, pos, String, Bool, true, false}

-- STATUS_OK is `status_ok`; the other names drop the prefix STATUS_.
pub data Status : Type 0 where
  status_ok duplicate duplicate_key duplicate_datasphere duplicate_node duplicate_service : Status
  duplicate_volume invalid invalid_key invalid_value invalid_name invalid_volume : Status
  invalid_datasphere invalid_node invalid_service invalid_credentials invalid_term : Status
  invalid_resource invalid_state invalid_commit in_progress not_ready offline try_again : Status
  publish_failed subscribe_failed resource_load_failed db_write_failure db_read_failure : Status
  no_quorum not_leader : Status

-- The value of the enumerator, as static_cast<int> returns it.
abbrev pub status_code : Status → ℕ
status_code status_ok = 0
status_code duplicate = 1
status_code duplicate_key = 2
status_code duplicate_datasphere = 3
status_code duplicate_node = 4
status_code duplicate_service = 5
status_code duplicate_volume = 6
status_code invalid = 7
status_code invalid_key = 8
status_code invalid_value = 9
status_code invalid_name = 10
status_code invalid_volume = 11
status_code invalid_datasphere = 12
status_code invalid_node = 13
status_code invalid_service = 14
status_code invalid_credentials = 15
status_code invalid_term = 16
status_code invalid_resource = 17
status_code invalid_state = 18
status_code invalid_commit = 19
status_code in_progress = 20
status_code not_ready = 21
status_code offline = 22
status_code try_again = 23
status_code publish_failed = 24
status_code subscribe_failed = 25
status_code resource_load_failed = 26
status_code db_write_failure = 27
status_code db_read_failure = 28
status_code no_quorum = 29
status_code not_leader = 30

-- `operator!=` on the enum.
abbrev pub is_status_ok : Status → Bool
is_status_ok status_ok = true
is_status_ok _ = false

abbrev pub is_invalid_key : Status → Bool
is_invalid_key invalid_key = true
is_invalid_key _ = false

abbrev pub is_duplicate_key : Status → Bool
is_duplicate_key duplicate_key = true
is_duplicate_key _ = false

pub record StatusException : Type 0 where
  pub status : Status
  pub original_status : ℤ

-- explicit StatusException(Status status)
abbrev pub status_exception : Status → StatusException
status_exception s = record { status = s; original_status = pos (status_code s) }

-- What a handler can throw: a StatusException, a MessageException (a StatusException with a
-- message), or any other std::exception (out_of_range of `at`, a conversion error of folly::to, a
-- TApplicationException), of which the code reads nothing.
pub data Exception : Type 0 where
  of_status : StatusException → Exception
  of_message : StatusException → String → Exception
  other : Exception

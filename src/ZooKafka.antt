-- ===== src/ZooKafka.antt =====
-- src/infra/ZooKafkaClient.cpp: the coordination client. The C client of ZooKeeper is third-party
-- code: what it answers to a call, and the node tree behind it, are a parameter. A call that the C
-- client accepts is answered by its completion callback, so an operation is one step from the tree
-- to the result of its future; operations that overlap are sequences of these steps.
pub mod Ancestors
pub mod Connect
use Prim.Native.String.{[], ◌∷◌, ◌++◌}
use Prim.Native.Char.{Char, code}
use datom.Common.{
  ℕ, ℤ, eqb_ℤ, String, ◌==◌, Bool, true, false, if◌then◌else◌, Option, none, some, List, [], ◌∷◌,
}
use datom.Status.{
  Status, invalid, invalid_key, duplicate_key, is_duplicate_key, StatusException, Exception,
  of_status, of_message, other,
}
use datom.Exec.{Exec, Outcome, returned, thrown, aborted, ◌>>=◌}
use datom.Buffers.{KvBuffer, Numerals, empty_kvb, set_version, set_id}

-- The constants of zookeeper.h that the client names.
pub record ZkCodes : Type 0 where
  pub zok : ℤ
  pub znonode : ℤ
  pub znodeexists : ℤ
  pub zinvalidstate : ℤ
  pub zoo_connecting_state : ℤ
  pub zoo_associating_state : ℤ
  pub zoo_connected_state : ℤ
  pub zoo_expired_session_state : ℤ
  pub zoo_auth_failed_state : ℤ
  pub zoo_created_event : ℤ
  pub zoo_deleted_event : ℤ
  pub zoo_changed_event : ℤ
  pub zoo_child_event : ℤ
  pub zoo_session_event : ℤ
  pub zoo_notwatching_event : ℤ

-- The flags 0, ZOO_EPHEMERAL and ZOO_EPHEMERAL|ZOO_SEQUENCE.
pub data Flags : Type 0 where
  no_flags ephemeral ephemeral_sequence : Flags

-- What the C client answers to a call: the code that the call returns and, where it is ZOK, what
-- the completion callback is called with: a code, and a value that is valid where that is ZOK.
pub record Reply (A : Type 0) : Type 0 where
  pub sent : ℤ
  pub rc : ℤ
  pub value : A

pub record ZooKeeper : Type 1 where
  pub Tree : Type 0
  pub codes : ZkCodes
  pub zoo_acreate : String → String → Flags → Tree → Reply String × Tree
  -- the version in the Stat
  pub zoo_aset : String → String → ℤ → Tree → Reply ℤ × Tree
  pub zoo_adelete : String → ℤ → Tree → Reply (Unit {0}) × Tree
  -- the version and the bytes
  pub zoo_awget : String → Tree → Reply (ℤ × String) × Tree
  -- the key and whether a watch is set; a null String_vector is `none`
  pub zoo_awget_children : String → Bool → Tree → Reply (Option (List String)) × Tree

module _ (codes : ZkCodes) where
  unfoldable pub to_status_exception : ℤ → StatusException
  to_status_exception zk_error = record {
    status =
        if eqb_ℤ zk_error codes.znonode
        then invalid_key
        else if eqb_ℤ zk_error codes.znodeexists
        then duplicate_key
        else invalid;
    original_status = zk_error;
  }

  unfoldable pub type_to_str : ℤ → String
  type_to_str type =
      if eqb_ℤ type codes.zoo_created_event
      then "CREATED_EVENT"
      else if eqb_ℤ type codes.zoo_deleted_event
      then "DELETED_EVENT"
      else if eqb_ℤ type codes.zoo_changed_event
      then "CHANGED_EVENT"
      else if eqb_ℤ type codes.zoo_child_event
      then "CHILD_EVENT"
      else if eqb_ℤ type codes.zoo_session_event
      then "SESSION_EVENT"
      else if eqb_ℤ type codes.zoo_notwatching_event
      then "NOTWATCHING_EVENT"
      else "UNKNOWN_EVENT_TYPE"

  unfoldable pub state_to_str : ℤ → String
  state_to_str state =
      if eqb_ℤ state (ℤ.pos 0)
      then "CLOSED_STATE"
      else if eqb_ℤ state codes.zoo_connecting_state
      then "CONNECTING_STATE"
      else if eqb_ℤ state codes.zoo_associating_state
      then "ASSOCIATING_STATE"
      else if eqb_ℤ state codes.zoo_connected_state
      then "CONNECTED_STATE"
      else if eqb_ℤ state codes.zoo_expired_session_state
      then "EXPIRED_SESSION_STATE"
      else if eqb_ℤ state codes.zoo_auth_failed_state
      then "AUTH_FAILED_STATE"
      else "INVALID_STATE"

  abbrev pub is_ok : ℤ → Bool
  is_ok rc = eqb_ℤ rc codes.zok

  -- The completion callbacks share this shape: an exception, or the value.
  unfoldable pub complete : {A : Type 0} → ℤ → A → Outcome A
  complete rc value =
      if is_ok rc then returned value else thrown (of_status (to_status_exception rc))

  abbrev pub string_completion_cb : ℤ → String → Outcome String
  string_completion_cb rc value = complete rc value

  abbrev pub stat_completion_cb : ℤ → ℤ → Outcome ℤ
  stat_completion_cb rc version = complete rc version

  abbrev pub void_completion_cb : ℤ → Outcome (Unit {0})
  void_completion_cb rc = complete rc tt

  abbrev names_of : Option (List String) → List String
  names_of none = []
  names_of (some names) = names

  abbrev pub string_vector_completion_cb : ℤ → Option (List String) → Outcome (List String)
  string_vector_completion_cb rc strings = complete rc (names_of strings)

  abbrev pub data_completion_cb : Numerals → ℤ → ℤ → String → Outcome KvBuffer
  data_completion_cb numerals rc version value =
      complete rc (record (set_version numerals version empty_kvb) { payload = some value })

  -- The future of an operation: failed at once if the call is not sent.
  abbrev pub future_of : {A : Type 0} → ℤ → Outcome A → Outcome A
  future_of sent completed =
      if is_ok sent then completed else thrown (of_status (to_status_exception sent))

-- Where `key.find("/", pos)` stops, the characters before it are a path; at the end it is the key.
scan : String → String → List String
scan seen [] = seen ∷ []
scan seen (c ∷ key) =
    let rest = scan (seen ++ (c ∷ [])) key in if code c == b'/' then seen ∷ rest else rest

-- The paths of createIncludingAncestors: the search starts at position 1.
unfoldable pub paths_of : String → List String
unfolding scan
paths_of [] = [] ∷ []
paths_of (c ∷ key) = scan (c ∷ []) key

module _ (zoo : ZooKeeper) where
  abbrev pub Call : Type 0 → Type 0
  Call A = Exec zoo.Tree A

  unfoldable pub create_common : String → String → Flags → Call String
  create_common key value flags t =
      let (reply, t') = zoo.zoo_acreate key value flags t in
      (future_of zoo.codes reply.sent (string_completion_cb zoo.codes reply.rc reply.value), t')

  unfoldable pub create : String → String → Call String
  create key value = create_common key value no_flags

  -- The continuation that is chained for one path: it waits for the previous one's result. A
  -- StatusException is thrown again as a copy of that type.
  unfoldable pub link : String → Outcome String → String → Call String
  link value (returned _) path t = create path value t
  link value (thrown (of_status e)) path t =
      if is_duplicate_key e.status then create path value t else (thrown (of_status e), t)
  link value (thrown (of_message e text)) path t =
      if is_duplicate_key e.status then create path value t else (thrown (of_status e), t)
  link value (thrown other) path t = (thrown other, t)
  link value aborted path t = (aborted, t)

  unfoldable pub chain : String → List String → Outcome String → Call String
  chain value [] f t = (f, t)
  chain value (path ∷ paths) f t = let (f', t') = link value f path t in chain value paths f' t'

  unfoldable pub create_including_ancestors : String → String → Call String
  create_including_ancestors key value = chain value (paths_of key) (returned "")

  unfoldable pub create_ephemeral : String → String → Bool → Call String
  create_ephemeral key value sequential =
      if sequential
      then create_common key value ephemeral_sequence
      else create_common key value ephemeral

  unfoldable pub set : String → String → ℤ → Call ℤ
  set key value version t =
      let (reply, t') = zoo.zoo_aset key value version t in
      (future_of zoo.codes reply.sent (stat_completion_cb zoo.codes reply.rc reply.value), t')

  unfoldable pub del : String → ℤ → Call (Unit {0})
  del key version t =
      let (reply, t') = zoo.zoo_adelete key version t in
      (future_of zoo.codes reply.sent (void_completion_cb zoo.codes reply.rc), t')

  unfoldable pub get : Numerals → String → Call KvBuffer
  get numerals key t =
      let (reply, t') = zoo.zoo_awget key t in
      (
        future_of zoo.codes reply.sent
            (data_completion_cb zoo.codes numerals reply.rc reply.value.0 reply.value.1),
        t',
      )

  -- `watch` is whether a callback is given.
  unfoldable pub get_children_simple : String → Bool → Call (List String)
  get_children_simple key watch t =
      let (reply, t') = zoo.zoo_awget_children key watch t in
      (
        future_of zoo.codes reply.sent (string_vector_completion_cb zoo.codes reply.rc reply.value),
        t',
      )

  -- One child after the other; `sformat` is folly::sformat("{}/{}", key, c).
  module _ (numerals : Numerals) where
    unfoldable pub get_each : String → List String → Call (List KvBuffer)
    get_each key [] = λ t. (returned [], t)
    get_each key (c ∷ children) = do
      buffer ← get numerals (key ++ ("/" ++ c))
      rest ← get_each key children
      λ t. (returned (set_id c buffer ∷ rest), t)

    unfoldable pub get_children_sync : String → Call (List KvBuffer)
    get_children_sync key = do children ← get_children_simple key false; get_each key children

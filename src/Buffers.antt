-- ===== src/Buffers.antt =====
-- KVBuffer of src/idls/commontypes.thrift and src/infra/gen-ext/KVBuffer_ext.tcc: the message that
-- services exchange, string properties beside a serialized payload. folly::to, the Thrift
-- serializers and typeStr are parameters.
pub mod Properties
use datom.Common.{ℤ, String, str_eq, Option, none, some, List, []}
use datom.Status.{other}
use datom.Exec.{Outcome, returned, thrown, aborted}
use datom.Config.{put, find}

pub record KvBuffer : Type 0 where
  pub props : List (String × String)
  -- a unique_ptr to the bytes
  pub payload : Option String

abbrev pub empty_kvb : KvBuffer
empty_kvb = record { props = []; payload = none }

abbrev pub key_version : String
key_version = "version"

abbrev pub key_type : String
key_type = "type"

abbrev pub key_id : String
key_id = "id"

-- folly::to between int64_t and text; `none` is its exception.
pub record Numerals : Type 0 where
  pub show : ℤ → String
  pub read : String → Option ℤ

-- apache::thrift::BinarySerializer at one type, where `none` is its exception, and the type's name.
pub record Codec (T : Type 0) : Type 0 where
  pub type_str : String
  pub serialize : T → String
  pub deserialize : String → Option T

-- folly::to from a string to a string is the identity.
abbrev pub set_prop : String → String → KvBuffer → KvBuffer
set_prop key val kvb = record kvb { props = put str_eq key val kvb.props }

abbrev pub or_throw : {A : Type 0} → Option A → Outcome A
or_throw none = thrown other
or_throw (some a) = returned a

-- kvb.props.at(key)
unfoldable pub get_prop : KvBuffer → String → Outcome String
get_prop kvb key = or_throw (find str_eq key kvb.props)

unfoldable pub set_type : String → KvBuffer → KvBuffer
set_type type kvb = set_prop key_type type kvb

unfoldable pub get_type : KvBuffer → Outcome String
get_type kvb = get_prop kvb key_type

unfoldable pub set_id : String → KvBuffer → KvBuffer
set_id id kvb = set_prop key_id id kvb

unfoldable pub get_id : KvBuffer → Outcome String
get_id kvb = get_prop kvb key_id

module _ (numerals : Numerals) where
  abbrev pub to_int64 : Outcome String → Outcome ℤ
  to_int64 (returned text) = or_throw (numerals.read text)
  to_int64 (thrown e) = thrown e
  to_int64 aborted = aborted

  unfoldable pub set_version : ℤ → KvBuffer → KvBuffer
  set_version version kvb = set_prop key_version (numerals.show version) kvb

  unfoldable pub get_version : KvBuffer → Outcome ℤ
  get_version kvb = to_int64 (get_prop kvb key_version)

module _ {T : Type 0} (codec : Codec T) where
  abbrev pub set_as_binary_payload : T → KvBuffer → KvBuffer
  set_as_binary_payload payload kvb = record kvb { payload = some (codec.serialize payload) }

  -- The pointer is followed without a test.
  abbrev payload_of : Option String → Outcome T
  payload_of none = aborted
  payload_of (some bytes) = or_throw (codec.deserialize bytes)

  unfoldable pub get_from_binary_payload : KvBuffer → Outcome T
  get_from_binary_payload kvb = payload_of kvb.payload

-- ===== src/Buffers/Properties.antt =====
-- What is set on a buffer is what is read from it.
use datom.Common.{ℤ, String, str_eq, ◌≡◌, refl, ap, ◌∙◌, false, some}
use datom.Exec.{returned}
use datom.Config.Service.Dataspheres.{find-put, find-put-other}
use datom.Buffers.{
  KvBuffer, Numerals, Codec, set_prop, get_prop, set_type, get_type, set_id, get_id, set_version,
  get_version, or_throw, to_int64, key_version, key_type, key_id, set_as_binary_payload,
  get_from_binary_payload,
}

pub get_prop-set_prop :
    (key val : String) (kvb : KvBuffer) → get_prop (set_prop key val kvb) key ≡ returned val
unfolding get_prop
get_prop-set_prop key val kvb = ap or_throw (find-put key val kvb.props)

pub get_prop-set_other :
    (key k val : String) (kvb : KvBuffer)
    → str_eq k key ≡ false
    → get_prop (set_prop k val kvb) key ≡ get_prop kvb key
unfolding get_prop
get_prop-set_other key k val kvb e = ap or_throw (find-put-other key k val kvb.props e)

-- A buffer whose version, type and id are set gives each of them back, whatever it held and in
-- whatever order of two of the sets, and a payload put into it is read back, if folly::to reads the
-- text that it wrote for the version and the serializer reads the bytes that it wrote for the
-- payload.
pub buffer_roundtrip :
    {T : Type 0} (numerals : Numerals) (codec : Codec T) (version : ℤ) (type id : String)
    (payload : T) (kvb : KvBuffer)
    → numerals.read (numerals.show version) ≡ some version
    → codec.deserialize (codec.serialize payload) ≡ some payload
    → let full =
        set_id id (
          set_type type (set_version numerals version (set_as_binary_payload codec payload kvb))) in
      (get_version numerals full ≡ returned version)
      × (get_type full ≡ returned type)
      × (get_id full ≡ returned id)
      × (get_from_binary_payload codec full ≡ returned payload)
      × (get_type (set_version numerals version (set_type type kvb)) ≡ returned type)
      × (get_version numerals (set_type type (set_version numerals version kvb)) ≡ returned version)
unfolding get_version get_type get_id get_from_binary_payload set_id set_type set_version
buffer_roundtrip numerals codec version type id payload kvb r d = (
  ap (to_int64 numerals) (
        get_prop-set_other key_version key_id id with_type refl
        ∙ (get_prop-set_other key_version key_type type with_version refl
            ∙ get_prop-set_prop key_version (numerals.show version) base))
      ∙ ap or_throw r,
  get_prop-set_other key_type key_id id with_type refl
      ∙ get_prop-set_prop key_type type with_version,
  get_prop-set_prop key_id id with_type,
  ap or_throw d,
  get_prop-set_other key_type key_version (numerals.show version) (set_type type kvb) refl
      ∙ get_prop-set_prop key_type type kvb,
  ap (to_int64 numerals) (
        get_prop-set_other key_version key_type type (set_version numerals version kvb) refl
        ∙ get_prop-set_prop key_version (numerals.show version) kvb)
      ∙ ap or_throw r,
)
  where
    base : KvBuffer
    base = set_as_binary_payload codec payload kvb

    with_version : KvBuffer
    with_version = set_version numerals version base

    with_type : KvBuffer
    with_type = set_type type with_version

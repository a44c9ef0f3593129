-- ===== src/Connections.antt =====
-- The connection cache: src/infra/ConnectionCache.h and src/infra/ConnectionCache.cpp. A channel is
-- the address it was opened to, with a serial number; sockets are not modelled. The event base of an
-- item runs its updates one after the other, so an update is one step.
pub mod Arrivals
pub mod Directory
pub mod Updates
pub mod Topic
use datom.Common.{
  ℕ, suc, ℤ, pos, negsuc, leb_ℤ, String, str_eq, Bool, true, false, Option, none, some, List, [],
  ◌∷◌, ◌++◌, if◌then◌else◌,
}
use datom.Status.{Status}
use datom.Exec.{Exec, Outcome, returned, thrown, throw_status, pure}
use datom.Config.{ServiceInfo, put, find}

pub record Channel : Type 0 where
  pub serial : ℕ
  pub ip : String
  pub port : ℤ

pub record ConnectionItem : Type 0 where
  pub version : ℤ
  pub channel : Option Channel

pub record ConnectionCache : Type 0 where
  pub connections : List (String × ConnectionItem)
  pub next_serial : ℕ
  pub closed : List Channel

-- The constructor.
abbrev pub new_item : ConnectionItem
new_item = record { version = negsuc 0; channel = none }

abbrev pub close_now : Option Channel → List Channel → List Channel
close_now none closed = closed
close_now (some c) closed = closed ++ c ∷ []

abbrev pub open_to : ServiceInfo → ℕ → Channel
open_to info serial = record { serial = serial; ip = info.ip; port = info.port }

-- ConnectionItem::update, for the item under the service's id.
unfoldable pub update :
    ℤ → ServiceInfo → ConnectionItem → ConnectionCache → Option Channel × ConnectionCache
update version info item s = if leb_ℤ version item.version then (item.channel, s) else (
  some (open_to info s.next_serial),
  record {
    connections =
        put str_eq info.id (record item { channel = some (open_to info s.next_serial) })
          s.connections;
    next_serial = suc s.next_serial;
    closed = close_now item.channel s.closed;
  },
)

abbrev pub update_found :
    Option ConnectionItem
    → ℤ
    → ServiceInfo
    → Bool
    → ConnectionCache
    → Option Channel × ConnectionCache
update_found none version info false s = (none, s)
update_found none version info true s =
    update version info new_item
      (record s { connections = put str_eq info.id new_item s.connections })
update_found (some item) version info create_if_missing s = update version info item s

-- The version and the payload of a KVBuffer.
unfoldable pub update_connection :
    ℤ → ServiceInfo → Bool → ConnectionCache → Option Channel × ConnectionCache
unfolding update
update_connection version info create_if_missing s =
    update_found (find str_eq info.id s.connections) version info create_if_missing s

-- The subscriber that `init` registers.
unfoldable pub on_service_update : ℤ → ServiceInfo → ConnectionCache → ConnectionCache
unfolding update_connection
on_service_update version info s = (update_connection version info false s).1

-- What the coordination client answers for the key of the service: its entry, or an error.
pub data Fetched : Type 0 where
  entry : ℤ → ServiceInfo → Fetched
  failed : Status → Fetched

abbrev pub channel_of : Option ConnectionItem → Fetched → Exec ConnectionCache (Option Channel)
channel_of (some item) fetched s = (returned item.channel, s)
channel_of none (entry version info) s =
    let (c, t) = update_connection version info true s in (returned c, t)
channel_of none (failed e) s = throw_status e s

unfoldable pub get_header_client_channel : String → Fetched → Exec ConnectionCache (Option Channel)
unfolding update_connection
get_header_client_channel service_id fetched s =
    channel_of (find str_eq service_id s.connections) fetched s

abbrev pub cached_channel : Option ConnectionItem → Option Channel
cached_channel none = none
cached_channel (some item) = item.channel

unfoldable pub get_header_client_channel_from_cache : String → ConnectionCache → Option Channel
get_header_client_channel_from_cache service_id s =
    cached_channel (find str_eq service_id s.connections)

abbrev pub is_some : {A : Type 0} → Option A → Bool
is_some none = false
is_some (some a) = true

unfoldable pub exists_in_cache : String → ConnectionCache → Bool
exists_in_cache service_id s = is_some (find str_eq service_id s.connections)

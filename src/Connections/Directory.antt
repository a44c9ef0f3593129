-- ===== src/Connections/Directory.antt =====
-- The connection cache of a service, fed by the topic of services and by its own fetches, against a
-- directory of addresses. Announcements are the texts that publishServiceInfomation_ of
-- src/infra/Service.cpp publishes; a fetched entry is a buffer as ZooKafkaClient::get makes it.
use datom.Common.{
  ℕ, suc, ℤ, pos, negsuc, leb_ℤ, String, str_eq, eq_iff, true, false, Bool, if◌then◌else◌,
  Bool-cases, Option-cases, ◌≡◌, refl, sym, ap, subst, ◌∙◌, inl, inr, Option, none, some, List, [],
  ◌∷◌, arith,
}
use datom.Config.{ServiceInfo, put, find}
use datom.Config.Service.Dataspheres.{find-put, find-put-other}
use datom.Connections.{
  Channel, ConnectionItem, ConnectionCache, new_item, open_to, close_now, update, update_connection,
}

pub record Address : Type 0 where
  pub ip : String
  pub port : ℤ

abbrev pub address_of : Option Channel → Option Address
address_of none = none
address_of (some c) = some (record { ip = c.ip; port = c.port })

abbrev pub listed : Option ConnectionItem → Option (Option Address)
listed none = none
listed (some item) = some (address_of item.channel)

-- For each service that was fetched once, the address that it is connected to, if any.
abbrev pub Directory : Type 0
Directory = String → Option (Option Address)

abbrev pub directory : ConnectionCache → Directory
directory s id = listed (find str_eq id s.connections)

-- What reaches the cache, with the version of the service's entry: an announcement under its
-- sequence number, or the answer to a fetch.
pub data Arrival : Type 0 where
  announced : ℤ → ServiceInfo → ℕ → Arrival
  fetched : ServiceInfo → ℕ → Arrival

abbrev pub moved : ServiceInfo → Option (Option Address) → Option (Option Address)
moved info none = none
moved info (some old) = some (some (record { ip = info.ip; port = info.port }))

-- An announcement moves a service that is listed, a fetch lists it.
abbrev pub arrive : Arrival → Directory → Directory
arrive (announced n info version) d id = if str_eq info.id id then moved info (d id) else d id
arrive (fetched info version) d id = if str_eq info.id id then moved info (some none) else d id

abbrev pub arrive_all : List Arrival → Directory → Directory
arrive_all [] d = d
arrive_all (e ∷ es) d = arrive_all es (arrive e d)

find-put_if :
    {V : Type 0} (k j : String) (v : V) (t : List (String × V))
    → find str_eq k (put str_eq j v t) ≡ (if str_eq j k then some v else find str_eq k t)
find-put_if k j v t = elim (Bool-cases (str_eq j k)) [
  | inl e ↦
      rw e
        (subst (λ i. find str_eq i (put str_eq j v t) ≡ some v) ((eq_iff j k).0 e) (find-put j v t))
  | inr e ↦ rw e (find-put-other k j v t e)
]

-- Every item has its first version.
abbrev pub IsFirst : Option ConnectionItem → Type 0
IsFirst none = Unit {0}
IsFirst (some item) = item.version ≡ negsuc 0

abbrev pub AllFirst : ConnectionCache → Type 0
AllFirst s = (id : String) → IsFirst (find str_eq id s.connections)

-- What an update of the service does to the directory and to the versions.
abbrev pub Moves :
    ServiceInfo → Option (Option Address) → ConnectionCache → ConnectionCache → Type 0
Moves info to s t =
    AllFirst t
    × ((id : String) → directory t id ≡ (if str_eq info.id id then to else directory s id))

later : (n : ℕ) → leb_ℤ (pos n) (negsuc 0) ≡ false
later n = ground arith

put-Moves :
    (info : ServiceInfo) (item : ConnectionItem) (s t : ConnectionCache)
    → item.version ≡ negsuc 0
    → t.connections ≡ put str_eq info.id item s.connections
    → AllFirst s
    → Moves info (some (address_of item.channel)) s t
put-Moves info item s t v e a = (
  λ id.
      subst IsFirst (sym (ap (find str_eq id) e ∙ find-put_if id info.id item s.connections))
        (first id),
  λ id.
      ap listed (ap (find str_eq id) e ∙ find-put_if id info.id item s.connections)
      ∙ chosen id (str_eq info.id id),
)
  where
    chosen :
        (id : String) (b : Bool)
        → listed (if b then some item else find str_eq id s.connections)
          ≡ (if b then some (address_of item.channel) else directory s id)
    chosen id true = refl
    chosen id false = refl

    first_if :
        (id : String) (b : Bool) → IsFirst (if b then some item else find str_eq id s.connections)
    first_if id true = v
    first_if id false = a id

    first :
        (id : String)
        → IsFirst (if str_eq info.id id then some item else find str_eq id s.connections)
    first id = first_if id (str_eq info.id id)

abbrev first_to : ServiceInfo → ℕ → ConnectionItem
first_to info serial = record { version = negsuc 0; channel = some (open_to info serial) }

-- The cache after an update of an item of the first version.
abbrev reconnected : ServiceInfo → ConnectionItem → ConnectionCache → ConnectionCache
reconnected info item s = record {
  connections = put str_eq info.id (first_to info s.next_serial) s.connections;
  next_serial = suc s.next_serial;
  closed = close_now item.channel s.closed;
}

module _ (info : ServiceInfo) (n : ℕ) (s : ConnectionCache) (a : AllFirst s) where
  found-Moves :
      (item : ConnectionItem) (create : Bool)
      → find str_eq info.id s.connections ≡ some item
      → Moves info (moved info (some none)) s (update_connection (pos n) info create s).1
  unfolding update_connection update
  found-Moves item create e =
      let v : item.version ≡ negsuc 0 = subst IsFirst e (a info.id) in
      rw (e, v, later n)
        (put-Moves info (first_to info s.next_serial) s (reconnected info item s) refl refl a)

  unlisted_stays :
      find str_eq info.id s.connections ≡ none
      → Moves info none s (update_connection (pos n) info false s).1
  unfolding update_connection
  unlisted_stays e = rw e (a, same)
    where
      same : (id : String) → directory s id ≡ (if str_eq info.id id then none else directory s id)
      same id = elim (Bool-cases (str_eq info.id id)) [
        | inl h ↦
            rw h (
              ap listed (sym (ap (λ i. find str_eq i s.connections) ((eq_iff info.id id).0 h)) ∙ e))
        | inr h ↦ rw h refl
      ]

  unlisted-Moves :
      find str_eq info.id s.connections ≡ none
      → Moves info (moved info (some none)) s (update_connection (pos n) info true s).1
  unfolding update_connection update
  unlisted-Moves e =
      let t : ConnectionCache = record s {
        connections = put str_eq info.id new_item s.connections;
      } in
      let (first, made) = put-Moves info new_item s t refl refl a in
      let (first', moves) =
        put-Moves info (first_to info s.next_serial) t (reconnected info new_item t) refl refl
          first in
      rw (e, later n)
        (
          first',
          λ id.
              moves id
              ∙ collapse id (str_eq info.id id) (directory t id) (some none)
                  (moved info (some none)) (made id),
        )
    where
      collapse :
          (id : String) (b : Bool) (x y z : Option (Option Address))
          → x ≡ (if b then y else directory s id)
          → (if b then z else x) ≡ (if b then z else directory s id)
      collapse id true x y z e = refl
      collapse id false x y z e = e

  -- The update of an announcement, and of a fetch.
  pub announced-Moves :
      Moves info (moved info (directory s info.id)) s (update_connection (pos n) info false s).1
  announced-Moves = elim (Option-cases (find str_eq info.id s.connections)) [
    | inl e ↦ rw e (unlisted_stays e)
    | inr (item, e) ↦ rw e (found-Moves item false e)
  ]

  pub fetched-Moves :
      Moves info (moved info (some none)) s (update_connection (pos n) info true s).1
  fetched-Moves = elim (Option-cases (find str_eq info.id s.connections)) [
    | inl e ↦ unlisted-Moves e
    | inr (item, e) ↦ found-Moves item true e
  ]

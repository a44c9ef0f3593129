-- ===== src/Connections/Updates.antt =====
-- Updates of a cached connection, and of a service that is not cached.
use datom.Common.{
  ℕ, ℤ, pos, negsuc, leb_ℤ, String, str_eq, ◌≡◌, refl, ap, sym, subst, false, Option, none, some,
  List, [], ◌∷◌, arith, All,
}
use datom.Config.{ServiceInfo, find}
use datom.Config.Service.Dataspheres.{find-put}
use datom.Connections.{
  ConnectionItem, ConnectionCache, open_to, update, update_found, update_connection,
  on_service_update, get_header_client_channel_from_cache, exists_in_cache, is_some, cached_channel,
}

-- An update of a service that is not in the cache changes nothing.
pub update_missing :
    (version : ℤ) (info : ServiceInfo) (s : ConnectionCache)
    → exists_in_cache info.id s ≡ false
    → on_service_update version info s ≡ s
unfolding on_service_update update_connection exists_in_cache
update_missing version info s e = go (find str_eq info.id s.connections) e
  where
    go :
        (o : Option ConnectionItem)
        → is_some o ≡ false
        → (update_found o version info false s).1 ≡ s
    go none e = refl
    go (some item) e = absurd (cc)

later : (n : ℕ) → leb_ℤ (pos n) (negsuc 0) ≡ false
later n = ground arith

abbrev Unversioned : String → ConnectionCache → Type 0
Unversioned id s =
    (item : ConnectionItem) × (find str_eq id s.connections ≡ some item) × (item.version ≡ negsuc 0)

update_found_applies :
    (o : Option ConnectionItem) (n : ℕ) (info : ServiceInfo) (item : ConnectionItem)
    (s : ConnectionCache)
    → o ≡ some item
    → item.version ≡ negsuc 0
    → find str_eq info.id (update_found o (pos n) info false s).1.connections
      ≡ some (record { version = negsuc 0; channel = some (open_to info s.next_serial) })
unfolding update
update_found_applies o n info item s e v = rw e (rw (v, later n) (find-put info.id _ s.connections))

update_applies :
    (n : ℕ) (info : ServiceInfo) (s : ConnectionCache)
    → Unversioned info.id s
    → find str_eq info.id (on_service_update (pos n) info s).connections
      ≡ some (record { version = negsuc 0; channel = some (open_to info s.next_serial) })
unfolding on_service_update update_connection
update_applies n info s (item, e, v) =
    update_found_applies (find str_eq info.id s.connections) n info item s e v

-- The updates that arrive on the topic, in their order.
abbrev pub on_updates : List (ℕ × ServiceInfo) → ConnectionCache → ConnectionCache
on_updates [] s = s
on_updates ((n, info) ∷ rest) s = on_updates rest (on_service_update (pos n) info s)

on_updates-Unversioned :
    (updates : List (ℕ × ServiceInfo)) (id : String) (s : ConnectionCache)
    → Unversioned id s
    → All (λ (u : ℕ × ServiceInfo). u.1.id ≡ id) updates
    → Unversioned id (on_updates updates s)
on_updates-Unversioned [] id s u k = u
on_updates-Unversioned ((n, info) ∷ rest) id s u (e, k) =
    on_updates-Unversioned rest id (on_service_update (pos n) info s)
      (
        record { version = negsuc 0; channel = some (open_to info s.next_serial) },
        subst
            (λ i.
              find str_eq i (on_service_update (pos n) info s).connections
              ≡ some (record { version = negsuc 0; channel = some (open_to info s.next_serial) }))
            e (update_applies n info s (subst (λ i. Unversioned i s) (sym e) u)),
        refl,
      )
      k

-- A cached connection that has its first version, -1, follows the update that arrives last,
-- whatever the versions (from 0 on) of that one and of the updates before it.
pub last_arrival_wins :
    (updates : List (ℕ × ServiceInfo)) (n : ℕ) (info : ServiceInfo) (item : ConnectionItem)
    (s : ConnectionCache)
    → find str_eq info.id s.connections ≡ some item
    → item.version ≡ negsuc 0
    → All (λ (u : ℕ × ServiceInfo). u.1.id ≡ info.id) updates
    → get_header_client_channel_from_cache info.id
        (on_service_update (pos n) info (on_updates updates s))
      ≡ some (open_to info (on_updates updates s).next_serial)
unfolding get_header_client_channel_from_cache
last_arrival_wins updates n info item s e v k = ap cached_channel (
    update_applies n info (on_updates updates s)
      (on_updates-Unversioned updates info.id s (item, e, v) k))

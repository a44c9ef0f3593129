-- ===== src/Config.antt =====
-- The configuration service: src/configservice/ConfigService.cpp and the data of
-- src/idls/commontypes.thrift. Ids count up from 0, so they are natural numbers. Data and tables
-- here; the parts are in the modules below.
pub mod Sphere
pub mod Service
use datom.Common.{ℕ, ℤ, String, Bool, true, false, Option, none, some, List, [], ◌∷◌, if◌then◌else◌}

pub data ServiceType : Type 0 where
  volume_server cli test : ServiceType

pub record ServiceInfo : Type 0 where
  pub id : String
  pub data_sphere_id : String
  pub node_id : String
  pub type : ServiceType
  pub ip : String
  pub port : ℤ
  pub root_path : String

pub record VolumeInfo : Type 0 where
  pub id : ℕ
  pub name : String
  pub datasphere_id : String
  pub ring_id : ℕ

pub record RingInfo : Type 0 where
  pub id : ℕ
  pub member_ids : List String

pub record DataSphereInfo : Type 0 where
  pub id : String

-- A std::unordered_map whose keys `same` compares: its entries, in some order.
module _ {K V : Type 0} (same : K → K → Bool) where
  -- table[key] = value
  abbrev pub put : K → V → List (K × V) → List (K × V)
  put key value [] = (key, value) ∷ []
  put key value ((k, v) ∷ rest) =
      if same k key then (k, value) ∷ rest else (k, v) ∷ put key value rest

  -- table.find(key)
  abbrev pub find : K → List (K × V) → Option V
  find key [] = none
  find key ((k, v) ∷ rest) = if same k key then some v else find key rest

abbrev pub values_of : {K V : Type 0} → List (K × V) → List V
values_of [] = []
values_of ((k, v) ∷ rest) = v ∷ values_of rest

-- ===== src/Domain/Profiles.antt =====
-- src/domain/profiles.rs
use community_stack.Common.{ℕ, String, Bool, List, Option}
use community_stack.Domain.Json.{Value}

abbrev pub planning_profile_id : String
planning_profile_id = "community.planning"

abbrev pub planning_profile_version : ℕ
planning_profile_version = 1

abbrev pub planning_profile_digest : String
planning_profile_digest = "771d32c6a851318c84139c924c573eac69d9ab8c7edca4f179afe344c48879ee"

abbrev pub planning_namespace : String
planning_namespace = "community.planning"

pub record GetProfile : Type 0 where
  pub profile_id : String
  pub profile_version : Option ℕ
  pub community_id : Option String

pub record GrantProfile : Type 0 where
  pub app_id : String
  pub profile_id : String
  pub community_id : String
  pub can_read : Bool
  pub can_write : Bool

pub record ProfileAccess : Type 0 where
  pub can_read : Bool
  pub can_write : Bool

pub record ProfileManifest : Type 0 where
  pub profile_id : String
  pub profile_version : ℕ
  pub profile_digest : String
  pub data_namespace : String
  pub title : String
  pub record_types : List String
  pub extension_policy : String
  pub temporal_policy : Value
  pub contract : Value
  pub native : Bool

pub record ProfileDescription : Type 0 where
  pub manifest : ProfileManifest
  pub access : ProfileAccess

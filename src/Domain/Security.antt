-- ===== src/Domain/Security.antt =====
-- src/domain/security.rs
use community_stack.Common.{String}

pub data PrincipalRole : Type 0 where
  app admin transport : PrincipalRole

pub record Principal : Type 0 where
  pub id : String
  pub role : PrincipalRole

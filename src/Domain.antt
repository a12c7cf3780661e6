-- ===== src/Domain.antt =====
-- src/domain: the vocabulary of the program, data only, one child for each file of that folder and
-- one for the JSON values and floating-point numbers that its records hold.
pub mod Error
pub mod Json
pub mod Equality
pub mod Security
pub mod Documents
pub mod Replication
pub mod Facts
pub mod Profiles
pub mod Planning
pub mod Toolkit

-- ===== src/Application.antt =====
-- src/application.rs and src/application/*.rs: the use cases. A use case takes the database and
-- returns its answer with the database after it, or an error, after which the database is as it was.
-- The locks of documents make the steps of one document follow one another, so a use case is one
-- step.
pub mod Validate
pub mod Mutate
pub mod Planning
pub mod Dispatch
pub mod Facts
pub mod Toolkit

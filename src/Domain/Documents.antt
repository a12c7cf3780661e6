-- ===== src/Domain/Documents.antt =====
-- src/domain/documents.rs. `u64`, `u32` and `u16` are numbers; `usize` too.
use community_stack.Common.{ℕ, String, Bool, List, Option}
use community_stack.Common.Int.{ℤ}
use community_stack.Domain.Json.{F64}

pub record DocumentKey : Type 0 where
  pub app_id : String
  pub community_id : String
  pub document_id : String

pub data PrimitiveValue : Type 0 where
  null : PrimitiveValue
  bool : Bool → PrimitiveValue
  integer : ℤ → PrimitiveValue
  float : F64 → PrimitiveValue
  string : String → PrimitiveValue

-- The fields are in the order of the source: container, then key or index, then value or length.
pub data Mutation : Type 0 where
  map_set : String → String → PrimitiveValue → Mutation
  map_delete : String → String → Mutation
  text_insert : String → ℕ → String → Mutation
  text_delete : String → ℕ → ℕ → Mutation
  list_insert : String → ℕ → PrimitiveValue → Mutation
  list_delete : String → ℕ → ℕ → Mutation

pub record MutateDocument : Type 0 where
  pub community_id : String
  pub document_id : String
  pub idempotency_key : String
  pub schema_version : ℕ
  pub expected_revision : Option ℕ
  pub mutations : List Mutation

pub record GetDocument : Type 0 where
  pub community_id : String
  pub document_id : String

pub record ListDocuments : Type 0 where
  pub community_id : String
  pub prefix : String
  pub after : Option String
  pub limit : ℕ

pub record DocumentSummary : Type 0 where
  pub document_id : String
  pub revision : ℕ

pub record DocumentPage : Type 0 where
  pub documents : List DocumentSummary
  pub next_cursor : Option String

pub record DocumentChanges : Type 0 where
  pub community_id : String
  pub profile_id : Option String
  pub after : ℕ
  pub limit : ℕ

pub record DocumentChangeEntry : Type 0 where
  pub cursor : ℕ
  pub document_id : String
  pub operation_hash : ℕ

pub record DocumentChangesPage : Type 0 where
  pub changes : List DocumentChangeEntry
  pub next_cursor : ℕ
  pub has_more : Bool

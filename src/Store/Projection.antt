-- ===== src/Store/Projection.antt =====
-- `apply_projection` of src/adapters/sqlite.rs: the queryable views that a commit updates, one child
-- for each kind of view.
pub mod Facts
pub mod Planning
pub mod Toolkit
use community_stack.Common.{ℕ, String}
use community_stack.Domain.Replication.{Hash}
use community_stack.Failure.{Result}
use community_stack.Ports.{ProjectionWrite, fact_revision, planning, toolkit}
use community_stack.Store.Tables.{Database}
use Facts.{apply_fact}
use Planning.{apply_planning}
use Toolkit.{apply_toolkit}

unfoldable pub apply_projection :
    String → String → Hash → ProjectionWrite → ℕ → Database → Result Database
apply_projection app community hash (fact_revision p) now db = apply_fact app hash p now db
apply_projection app community hash (planning w) now db = apply_planning app community hash w db
apply_projection app community hash (toolkit p) now db = apply_toolkit app community hash p db

-- ===== src/Examples.antt =====
-- Concrete runs of the model.
mod Data
mod Log
mod Mutations
mod Deliveries
mod Views
mod Reviews
mod Feed
mod Requests
mod Plans
mod Catalog
mod Verdicts
mod Schedules
mod Schemas

-- ===== src/Store/Database.antt =====
-- The tables of the store.
use team5_ewaste_platform.Common.{List}
use team5_ewaste_platform.Store.Rows.{Batch, Command, AuditEvent, OutboxEvent}
use team5_ewaste_platform.Store.Allocation.{
  BatchClaim, CapacityReservation, CapacityPool, BatchAssignment, AssignmentAction, BatchHandoff,
}
use team5_ewaste_platform.Store.Directory.{Directory}

pub record Db : Type 0 where
  pub batches : List Batch
  pub commands : List Command
  pub audits : List AuditEvent
  pub outbox : List OutboxEvent
  pub claims : List BatchClaim
  pub reservations : List CapacityReservation
  pub pools : List CapacityPool
  pub assignments : List BatchAssignment
  pub actions : List AssignmentAction
  pub handoffs : List BatchHandoff
  pub directory : Directory

-- ===== src/Handler/Results.antt =====
-- The results of the phases in scripts/actions_request_handler.py.
use zach.Common.{ℕ, Bool, Option, String}
use zach.Python.Value.{Value}
use zach.Coordinator.Results.{ClaimDisposition}
use zach.Handler.Bundle.{ExecutionBundle}

-- The terminal values stand in the record as they are there.
pub record ExecutionReceipt : Type 0 where
  pub request_id : String
  pub durable_revision : String
  pub terminal_state : Value
  pub terminal_code : Value
  pub terminal_reference : Value
  pub envelope : Value
  pub replayed : Bool
  pub reconciled : Bool

pub record PrepareResult : Type 0 where
  pub disposition : ClaimDisposition
  pub request_id : String
  pub bundle : Option ExecutionBundle
  pub receipt : Option ExecutionReceipt

pub record ControlExecutionResult : Type 0 where
  pub request_id : String
  pub execution_id : String
  pub terminal_state : Option Value
  pub terminal_code : Option Value
  pub terminal_reference : Option String
  pub envelope : Option Value
  pub ambiguous : Bool
  pub ambiguous_code : Option String
  pub replayed : Bool

pub record DurablePrepareCheckpoint : Type 0 where
  pub disposition : ClaimDisposition
  pub bundle : ExecutionBundle
  pub comment_id : ℕ

pub record DurablePublicationCheckpoint : Type 0 where
  pub bundle : ExecutionBundle
  pub publication : Value
  pub comment_id : ℕ

pub record DurablePublishedReceipt : Type 0 where
  pub bundle : ExecutionBundle
  pub publication : Value
  pub comment_id : ℕ
  pub terminal_journal_sha : String

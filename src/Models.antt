-- ===== src/Models.antt =====
-- The tables of sky-agent/app/models/entities.py that the tools read and write, and the session as
-- their contents. A column that no tool reads is left out.
use cang_qiong_project.Common.{ℕ, String, Bool, true, false, ◌&&◌, Option, List, ◌=ₛ◌, ◌==◌}

pub data OrderStatus : Type 0 where
  pending processing shipped delivered cancelled : OrderStatus

pub data TicketStatus : Type 0 where
  open_ticket in_progress resolved closed : TicketStatus

pub data RefundStatus : Type 0 where
  requested approved rejected refund_processing completed : RefundStatus

pub data EscalationPriority : Type 0 where
  low medium high urgent : EscalationPriority

pub data EscalationStatus : Type 0 where
  queued assigned handled : EscalationStatus

pub record Customer : Type 0 where
  pub id : ℕ
  pub tenant_id : String

pub record Order : Type 0 where
  pub id : ℕ
  pub tenant_id : String
  pub customer_id : ℕ
  pub status : OrderStatus
  pub created_at : ℕ

pub record SupportTicket : Type 0 where
  pub id : ℕ
  pub tenant_id : String
  pub customer_id : ℕ
  pub order_id : Option ℕ
  pub category : String
  pub status : TicketStatus
  pub description : String

pub record RefundRequest : Type 0 where
  pub id : ℕ
  pub tenant_id : String
  pub customer_id : ℕ
  pub order_id : ℕ
  pub reason : String
  pub status : RefundStatus

pub record Escalation : Type 0 where
  pub id : ℕ
  pub tenant_id : String
  pub customer_id : ℕ
  pub ticket_id : Option ℕ
  pub order_id : Option ℕ
  pub reason : String
  pub priority : EscalationPriority
  pub summary : String
  pub status : EscalationStatus

pub record BusinessActionReceipt : Type 0 where
  pub tenant_id : String
  pub actor_id : String
  pub operation : String
  pub idempotency_key : String
  pub customer_id : ℕ
  pub request_fingerprint : String
  pub result_id : ℕ

-- The rows of each table, and the next primary key that the database gives out.
pub record Session : Type 0 where
  pub customers : List Customer
  pub orders : List Order
  pub tickets : List SupportTicket
  pub refunds : List RefundRequest
  pub escalations : List Escalation
  pub receipts : List BusinessActionReceipt
  pub next_id : ℕ

-- The predicate of the partial index `uq_refund_requests_active_order`.
unfoldable pub is_active : RefundStatus → Bool
is_active requested = true
is_active approved = true
is_active refund_processing = true
is_active _ = false

unfoldable pub is_active_for : String → ℕ → RefundRequest → Bool
unfolding is_active
is_active_for tenant order r = r.order_id == order && r.tenant_id =ₛ tenant && is_active r.status

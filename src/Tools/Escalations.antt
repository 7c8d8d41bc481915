-- ===== src/Tools/Escalations.antt =====
-- sky-agent/app/tools/escalation.py.
pub mod Queue
use cang_qiong_project.Common.{
  ℕ, ◌+◌, String, ◌&&◌, Option, none, some, ◌∷◌, ◌=ₛ◌, ◌==◌, if◌then◌else◌, find, Result, ok, err,
  ◌>>=◌,
}
use cang_qiong_project.Models.{Session, SupportTicket, Escalation, EscalationPriority, queued}
use cang_qiong_project.Services.Lookup
use cang_qiong_project.Services.Idempotency.{
  IdempotencyScope, ToolFailure, resource_not_found, ownership_error, execute_idempotent,
}
use cang_qiong_project.Tools.Tickets.{check_customer, check_order}

pub record EscalateToHumanInput : Type 0 where
  pub customer_id : ℕ
  pub ticket_id : Option ℕ
  pub order_id : Option ℕ
  pub reason : String
  pub priority : EscalationPriority
  pub summary : String

loaded : ℕ → Option Escalation → Result ToolFailure Escalation
loaded escalation_id none = err (resource_not_found "Escalation" escalation_id)
loaded escalation_id (some e) = ok e

unfoldable pub load_escalation : String → ℕ → Session → Result ToolFailure Escalation
unfolding loaded
load_escalation tenant_id escalation_id s =
    loaded escalation_id
      (find (λ e. e.id == escalation_id && e.tenant_id =ₛ tenant_id) s.escalations)

owned : ℕ → ℕ → Option SupportTicket → Result ToolFailure (Unit {0})
owned customer_id ticket_id none = err (resource_not_found "Support ticket" ticket_id)
owned customer_id ticket_id (some t) =
    if t.customer_id == customer_id
    then ok tt
    else err (ownership_error "Support ticket" ticket_id customer_id)

unfoldable pub check_ticket : Session → String → ℕ → Option ℕ → Result ToolFailure (Unit {0})
unfolding owned
check_ticket s tenant_id customer_id none = ok tt
check_ticket s tenant_id customer_id (some ticket_id) =
    owned customer_id ticket_id (Lookup.get_ticket s ticket_id tenant_id)

abbrev pub new_escalation : String → EscalateToHumanInput → ℕ → Escalation
new_escalation tenant_id request id = record {
  id = id;
  tenant_id = tenant_id;
  customer_id = request.customer_id;
  ticket_id = request.ticket_id;
  order_id = request.order_id;
  reason = request.reason;
  priority = request.priority;
  summary = request.summary;
  status = queued;
}

unfoldable pub perform_escalation :
    String
    → EscalateToHumanInput
    → (Session → Session)
    → Session
    → Result ToolFailure (Escalation × ℕ × Session)
unfolding check_customer check_ticket check_order
perform_escalation tenant_id request late s = do
  _ ← check_customer s tenant_id request.customer_id
  _ ← check_ticket s tenant_id request.customer_id request.ticket_id
  _ ← check_order s tenant_id request.customer_id request.order_id
  let t = late s
  ok (
    new_escalation tenant_id request t.next_id,
    t.next_id,
    record t {
      escalations = new_escalation tenant_id request t.next_id ∷ t.escalations;
      next_id = t.next_id + 1;
    },
  )

unfoldable pub escalate_to_human :
    (EscalateToHumanInput → String)
    → (early late : Session → Session) → IdempotencyScope
    → String
    → EscalateToHumanInput
    → Session
    → Result ToolFailure Escalation × Session
unfolding perform_escalation execute_idempotent load_escalation
escalate_to_human fingerprint early late scope tenant_id request s =
    execute_idempotent scope "escalate_to_human" request.customer_id (fingerprint request)
      (load_escalation tenant_id) early late (perform_escalation tenant_id request) s

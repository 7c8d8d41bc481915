-- ===== src/Tests/Admissions.antt =====
-- The idempotency of the services, the policy and the contexts at concrete requests.
use cang_qiong_project.Common.{
  ℕ, ◌+◌, ◌<◌, String, ◌≡◌, refl, ◌≢◌, ◌⊎◌, inl, false, some, [], ◌∷◌, arith, Result, ok, err, get,
}
use cang_qiong_project.Models.{Session, BusinessActionReceipt}
use cang_qiong_project.Core.{
  customer, static, Principal, ExecutionContext, validate_customer_actor_scope,
}
use cang_qiong_project.Tools.{risk_number, ToolMetadata, get_tool, read}
use cang_qiong_project.Policies.{allow, int, Arguments}
use cang_qiong_project.Policies.Rules.{evaluate_default_policy, is_foreign}
use cang_qiong_project.Policies.Rules.Gate.{allowed_is_harmless}
use cang_qiong_project.Services.Idempotency.{
  get_receipt, execute_idempotent, ToolFailure, duplicate_action, resource_not_found, receipt,
}
use cang_qiong_project.Services.Idempotency.Replay.{repeated_request_loads, reused_key_is_refused}
use cang_qiong_project.Tests.Business.{shop, scope, stay}

abbrev print : String
print = "print"

abbrev busy : Session → Session
busy s = record s { next_id = s.next_id + 1 }

abbrev load : ℕ → Session → Result ToolFailure ℕ
load id s = ok id

abbrev work : (Session → Session) → Session → Result ToolFailure (ℕ × ℕ × Session)
work late s = ok (5, 5, late s)

abbrev broken_work : (Session → Session) → Session → Result ToolFailure (ℕ × ℕ × Session)
broken_work late s = err (resource_not_found "Order" 9)

abbrev once : Result ToolFailure ℕ × Session
once = execute_idempotent scope "work" 7 print load stay stay work shop

once_runs : once ≡ (ok 5, once.1)
unfolding execute_idempotent get_receipt
once_runs = refl

repeated_request_loads_example :
    (r : BusinessActionReceipt) × (get_receipt once.1 scope "work" ≡ some r)
    × (execute_idempotent scope "work" 7 print load stay stay broken_work once.1
        ≡ (load r.result_id once.1, once.1))
repeated_request_loads_example =
    repeated_request_loads scope "work" 7 print load stay stay stay stay work broken_work shop
      once.1 5 once_runs

work_stores :
    (x : ℕ) (id : ℕ) (t : Session)
    → work stay (stay shop) ≡ ok (x, id, t)
    → load id (record t { receipts = receipt scope "work" 7 print load id ∷ t.receipts }) ≡ ok x
work_stores x id t h = ground arith

customers_differ : ◌≢◌ {A = ℕ} 7 8
customers_differ e = absurd omega (arith, e)

reused_key_is_refused_example :
    execute_idempotent scope "work" 8 print load stay stay work once.1
    ≡ (err duplicate_action, once.1)
reused_key_is_refused_example =
    reused_key_is_refused scope "work" 7 8 print print load load stay stay stay stay work work shop
      once.1 5 once_runs (inl customers_differ)

-- The work fails, and what others commit meanwhile stays.
failure_runs :
    execute_idempotent scope "work" 7 print load stay busy broken_work shop
    ≡ (err (resource_not_found "Order" 9), busy shop)
unfolding execute_idempotent get_receipt
failure_runs = refl

abbrev principal : Principal
principal = record {
  actor_id = "actor";
  actor_type = customer;
  principal_type = static;
  roles = [];
  groups = [];
  tenant_id = some "sky";
  customer_id = some 7;
  customer_ids = 7 ∷ [];
}

abbrev request_context : ExecutionContext
request_context = record {
  request_id = "r1";
  conversation_id = "c1";
  principal = principal;
  tenant_id = "default";
  effective_customer_id = 7;
}

abbrev pub accepted_context : ExecutionContext
accepted_context = record request_context { tenant_id = "sky" }

context_runs : validate_customer_actor_scope request_context ≡ ok accepted_context
unfolding validate_customer_actor_scope
context_runs = refl

abbrev own_arguments : Arguments
own_arguments = ("customer_id", int 7) ∷ ("order_id", int 1) ∷ []

abbrev foreign_arguments : Arguments
foreign_arguments = ("customer_id", int 8) ∷ []

abbrev lookup_tool : String
lookup_tool = "get_order"

lookup_is_allowed :
    (evaluate_default_policy lookup_tool accepted_context own_arguments).outcome ≡ allow
unfolding evaluate_default_policy get_tool risk_number
lookup_is_allowed = refl

allowed_is_harmless_example :
    ((m : ToolMetadata) × (get_tool lookup_tool ≡ some m)
      × ((m.operation_type ≡ read) ⊎ (lookup_tool ≡ "create_support_ticket")))
    × (0 < accepted_context.effective_customer_id)
    × (is_foreign (get "customer_id" own_arguments) 7 ≡ false)
allowed_is_harmless_example =
    allowed_is_harmless lookup_tool accepted_context own_arguments lookup_is_allowed

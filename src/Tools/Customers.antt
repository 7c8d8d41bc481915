-- ===== src/Tools/Customers.antt =====
-- sky-agent/app/tools/customers.py.
use cang_qiong_project.Common.{ℕ, String, Option, none, some, List, Result, ok, err, ◌>>=◌}
use cang_qiong_project.Models.{Session, Customer, Order, SupportTicket}
use cang_qiong_project.Services.Lookup
use cang_qiong_project.Services.Idempotency.{ToolFailure, resource_not_found}

pub record GetCustomerInput : Type 0 where
  pub customer_id : ℕ

unfoldable pub found : ℕ → Option Customer → Result ToolFailure Customer
found customer_id none = err (resource_not_found "Customer" customer_id)
found customer_id (some c) = ok c

unfoldable pub get_customer : Session → GetCustomerInput → String → Result ToolFailure Customer
unfolding found
get_customer s request tenant_id =
    found request.customer_id
      (Lookup.get_customer_for_scope s request.customer_id request.customer_id tenant_id)

unfoldable pub get_customer_orders :
    Session → GetCustomerInput → String → Result ToolFailure (List Order)
unfolding found
get_customer_orders s request tenant_id = do
  _ ← found request.customer_id (Lookup.get_customer s request.customer_id tenant_id)
  ok (Lookup.get_customer_orders s request.customer_id tenant_id)

unfoldable pub get_customer_tickets :
    Session → GetCustomerInput → String → Result ToolFailure (List SupportTicket)
unfolding found
get_customer_tickets s request tenant_id = do
  _ ← found request.customer_id (Lookup.get_customer s request.customer_id tenant_id)
  ok (Lookup.get_customer_tickets s request.customer_id tenant_id)

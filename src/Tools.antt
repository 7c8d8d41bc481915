-- ===== src/Tools.antt =====
-- sky-agent/app/tools/base.py and registry.py: the metadata of the tools. The descriptions are
-- left out.
pub mod Customers
pub mod Orders
pub mod Refunds
pub mod Tickets
pub mod Escalations
use cang_qiong_project.Common.{ℕ, String, Option, List, [], ◌∷◌, get}

pub data OperationType : Type 0 where
  read write : OperationType

-- `RiskLevel` is an `IntEnum`: its members are the numbers from 0 to 3.
pub data RiskLevel : Type 0 where
  read_only low confirmation_required human_handling : RiskLevel

unfoldable pub risk_number : RiskLevel → ℕ
risk_number read_only = 0
risk_number low = 1
risk_number confirmation_required = 2
risk_number human_handling = 3

pub record ToolMetadata : Type 0 where
  pub name : String
  pub operation_type : OperationType
  pub risk_level : RiskLevel

abbrev tool : String → OperationType → RiskLevel → String × ToolMetadata
tool n o r = (n, record { name = n; operation_type = o; risk_level = r })

-- `TOOL_REGISTRY`.
abbrev pub tool_registry : List (String × ToolMetadata)
tool_registry =
    tool "get_customer" read read_only
    ∷ tool "get_customer_orders" read read_only
    ∷ tool "get_order" read read_only
    ∷ tool "get_customer_tickets" read read_only
    ∷ tool "get_ticket" read read_only
    ∷ tool "create_support_ticket" write low
    ∷ tool "cancel_order" write confirmation_required
    ∷ tool "request_refund" write confirmation_required
    ∷ tool "escalate_to_human" write human_handling
    ∷ []

unfoldable pub get_tool : String → Option ToolMetadata
get_tool name = get name tool_registry

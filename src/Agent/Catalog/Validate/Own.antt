-- ===== src/Agent/Catalog/Validate/Own.antt =====
-- Whose arguments sky-agent/app/agent/nodes/validate_tool.py lets through.
use cang_qiong_project.Common.{
  ℕ, String, ◌≡◌, refl, sym, ap, ◌∙◌, subst, ◌≢◌, Bool, true, false, Option, none, some, arith,
  ◌=ₛ◌, if◌then◌else◌, Result, ok, err, get, put, get-put, bind-ok, ok-inj,
}
use cang_qiong_project.Core.{ExecutionContext}
use cang_qiong_project.Policies.{int, Arguments}
use cang_qiong_project.Agent.Schemas.{AgentErrorCategory, ownership_violation}
use cang_qiong_project.Agent.Catalog.Normal.{model_dump-normal}
use cang_qiong_project.Agent.State.{AgentState}
use cang_qiong_project.Agent.Catalog.{
  Pydantic, InputModel, customer_model, order_model, ticket_model, cancel_model, refund_model,
  create_model, escalate_model, ToolInput, ValidationError, get_agent_tool_definition, field_id,
  field_priority, model_validate, model_dump, customer_of, field_text, field_optional_id,
}
use cang_qiong_project.Agent.Catalog.Validate.{
  reject_tool, accept_input, validate_input, validate_named, validate_selected, validate_tool,
}

module _ (py : Pydantic) where
  field_id-own : (n m : ℕ) → field_id py (some (int n)) ≡ ok m → m ≡ n
  unfolding field_id
  field_id-own n m h = ground arith

  -- Whatever the model, the customer of the input is that of the arguments.
  pub model_validate-customer :
      (m : InputModel) (d : Arguments) (n : ℕ) (i : ToolInput)
      → get "customer_id" d ≡ some (int n)
      → model_validate py m d ≡ ok i
      → customer_of i ≡ n
  unfolding model_validate customer_of
  model_validate-customer customer_model d n i g h =
      let (c, ec, h1) = bind-ok (field_id py (get "customer_id" d)) _ i h in
      ap customer_of (sym (ok-inj h1)) ∙ field_id-own n c (ap (field_id py) (sym g) ∙ ec)
  model_validate-customer order_model d n i g h =
      let (o, eo, h1) = bind-ok (field_id py (get "order_id" d)) _ i h in
      let (c, ec, h2) = bind-ok (field_id py (get "customer_id" d)) _ i h1 in
      ap customer_of (sym (ok-inj h2)) ∙ field_id-own n c (ap (field_id py) (sym g) ∙ ec)
  model_validate-customer ticket_model d n i g h =
      let (t, et, h1) = bind-ok (field_id py (get "ticket_id" d)) _ i h in
      let (c, ec, h2) = bind-ok (field_id py (get "customer_id" d)) _ i h1 in
      ap customer_of (sym (ok-inj h2)) ∙ field_id-own n c (ap (field_id py) (sym g) ∙ ec)
  model_validate-customer cancel_model d n i g h =
      let (c, ec, h1) = bind-ok (field_id py (get "customer_id" d)) _ i h in
      let (o, eo, h2) = bind-ok (field_id py (get "order_id" d)) _ i h1 in
      ap customer_of (sym (ok-inj h2)) ∙ field_id-own n c (ap (field_id py) (sym g) ∙ ec)
  model_validate-customer refund_model d n i g h =
      let (c, ec, h1) = bind-ok (field_id py (get "customer_id" d)) _ i h in
      let (o, eo, h2) = bind-ok (field_id py (get "order_id" d)) _ i h1 in
      let (r, er, h3) = bind-ok (field_text py 2000 (get "reason" d)) _ i h2 in
      ap customer_of (sym (ok-inj h3)) ∙ field_id-own n c (ap (field_id py) (sym g) ∙ ec)
  model_validate-customer create_model d n i g h =
      let (c, ec, h1) = bind-ok (field_id py (get "customer_id" d)) _ i h in
      let (o, eo, h2) = bind-ok (field_optional_id py (get "order_id" d)) _ i h1 in
      let (k, ek, h3) = bind-ok (field_text py 100 (get "category" d)) _ i h2 in
      let (t, et, h4) = bind-ok (field_text py 5000 (get "description" d)) _ i h3 in
      ap customer_of (sym (ok-inj h4)) ∙ field_id-own n c (ap (field_id py) (sym g) ∙ ec)
  model_validate-customer escalate_model d n i g h =
      let (c, ec, h1) = bind-ok (field_id py (get "customer_id" d)) _ i h in
      let (t, et, h2) = bind-ok (field_optional_id py (get "ticket_id" d)) _ i h1 in
      let (o, eo, h3) = bind-ok (field_optional_id py (get "order_id" d)) _ i h2 in
      let (r, er, h4) = bind-ok (field_text py 2000 (get "reason" d)) _ i h3 in
      let (p, ep, h5) = bind-ok (field_priority (get "priority" d)) _ i h4 in
      let (u, eu, h6) = bind-ok (field_text py 5000 (get "summary" d)) _ i h5 in
      ap customer_of (sym (ok-inj h6)) ∙ field_id-own n c (ap (field_id py) (sym g) ∙ ec)

  module _ (s : AgentState) where
    -- The arguments of `r` are those of an input of the model, for the customer of the context.
    pub record IsValidated (model : InputModel) (context : ExecutionContext) (r : AgentState)
        : Type 0 where
      pub input : ToolInput
      pub arguments : r.tool_arguments ≡ model_dump input
      pub own : customer_of input ≡ context.effective_customer_id
      pub normal : model_validate py model (model_dump input) ≡ ok input

    rejected-error :
        (category : AgentErrorCategory) (m : String)
        → (reject_tool s category m).error_category ≢ none
    unfolding reject_tool
    rejected-error category m h = ground arith

    module _ (model : InputModel) (context : ExecutionContext) where
      abbrev scoped : Arguments
      scoped = put "customer_id" (int context.effective_customer_id) s.tool_arguments

      accepted-IsValidated :
          (x : Result ValidationError ToolInput)
          → model_validate py model scoped ≡ x
          → (accept_input s x).error_category ≡ none
          → IsValidated model context (accept_input s x)
      unfolding accept_input
      accepted-IsValidated (err e) g h = absurd (rejected-error _ _ h)
      accepted-IsValidated (ok i) g h = record {
        input = i;
        arguments = refl;
        own =
            model_validate-customer model scoped context.effective_customer_id i
              (get-put "customer_id" "customer_id" _ s.tool_arguments) g;
        normal = model_dump-normal py model scoped i g;
      }

      foreign-IsValidated :
          (b : Bool) (m : String)
          → (if b
              then reject_tool s ownership_violation m
              else accept_input s (model_validate py model scoped)).error_category
            ≡ none
          → IsValidated model context (
              if b
              then reject_tool s ownership_violation m
              else accept_input s (model_validate py model scoped))
      foreign-IsValidated true m h = absurd (rejected-error _ _ h)
      foreign-IsValidated false m h = accepted-IsValidated _ refl h

    input-IsValidated :
        (model : InputModel) (o : Option ExecutionContext)
        → (validate_input py s model o).error_category ≡ none
        → (context : ExecutionContext) × (o ≡ some context)
          × IsValidated model context (validate_input py s model o)
    unfolding validate_input
    input-IsValidated model none h = absurd (rejected-error _ _ h)
    input-IsValidated model (some context) h =
        (context, refl, foreign-IsValidated model context _ _ h)

    named-IsValidated :
        (name : String) (o : Option InputModel)
        → (validate_named py s name o).error_category ≡ none
        → (model : InputModel) × (o ≡ some model)
          × (context : ExecutionContext) × (s.execution_context ≡ some context)
          × IsValidated model context (validate_named py s name o)
    unfolding validate_named
    named-IsValidated name none h = absurd (rejected-error _ _ h)
    named-IsValidated name (some model) h =
        let found = input-IsValidated model s.execution_context h in
        (model, refl, found.0, found.1, found.2)

    validate-named :
        (name : String)
        → s.selected_tool ≡ some name
        → (name =ₛ "") ≡ false
        → s.error_category ≡ none
        → validate_tool py s ≡ validate_named py s name (get_agent_tool_definition name)
    unfolding validate_tool validate_selected
    validate-named name e n f = ap (validate_selected py s) e ∙ ground (arith, n, f)

    -- Where a tool is selected and no error is there, and the node reports none, the tool is
    -- registered, the context is authenticated, and the arguments that it leaves are the normal form
    -- of a valid input whose customer is the context's, whatever customer the model had proposed.
    pub validate_tool-IsValidated :
        (name : String)
        → s.selected_tool ≡ some name
        → (name =ₛ "") ≡ false
        → s.error_category ≡ none
        → (validate_tool py s).error_category ≡ none
        → (model : InputModel) × (get_agent_tool_definition name ≡ some model)
          × (context : ExecutionContext) × (s.execution_context ≡ some context)
          × IsValidated model context (validate_tool py s)
    validate_tool-IsValidated name e n f h =
        let same = validate-named name e n f in
        subst
          (λ r.
            (model : InputModel) × (get_agent_tool_definition name ≡ some model)
            × (context : ExecutionContext) × (s.execution_context ≡ some context)
            × IsValidated model context r)
          (sym same)
          (named-IsValidated name (get_agent_tool_definition name)
            (subst (λ r. r.error_category ≡ none) same h))

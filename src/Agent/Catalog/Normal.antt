-- ===== src/Agent/Catalog/Normal.antt =====
-- The arguments that sky-agent/app/agent/tool_catalog.py reads are in normal form once they are
-- dumped.
use cang_qiong_project.Common.{
  ℕ, String, ◌≡◌, refl, ap, subst, Option, none, some, arith, Result, ok, ◌>>=◌, get, bind-ok,
  ok-inj,
}
use cang_qiong_project.Models.{EscalationPriority, low, medium, high, urgent}
use cang_qiong_project.Policies.{Value, int, text, null, Arguments}
use cang_qiong_project.Agent.Catalog.{
  customer_input, order_input, ticket_input, cancel_input, refund_input, create_input,
  escalate_input, InputModel, customer_model, order_model, ticket_model, cancel_model, refund_model,
  create_model, escalate_model, ToolInput, Pydantic, ValidationError, field_id, field_optional_id,
  field_text, field_priority, model_validate, model_dump, or_null, priority_value,
}

module _ (py : Pydantic) where
  field_id-int :
      (v : Option Value) (n : ℕ) → field_id py v ≡ ok n → field_id py (some (int n)) ≡ ok n
  unfolding field_id
  field_id-int v n h = ground arith

  or_null-some :
      (v : Option Value) (o : Option ℕ)
      → (field_id py v >>= (λ n. ok (some n))) ≡ ok o
      → field_optional_id py (some (or_null o)) ≡ ok o
  unfolding field_optional_id
  or_null-some v o h =
      let (n, e, f) = bind-ok (field_id py v) (λ n. ok (some n)) o h in
      subst (λ r. field_optional_id py (some (or_null r)) ≡ ok r) (ok-inj f)
        (ap (λ r. r >>= (λ m. ok (some m))) (field_id-int v n e))

  none-null :
      (o : Option ℕ)
      → ◌≡◌ {A = Result ValidationError (Option ℕ)} (ok none) (ok o)
      → field_optional_id py (some (or_null o)) ≡ ok o
  unfolding field_optional_id
  none-null o h = subst (λ r. field_optional_id py (some (or_null r)) ≡ ok r) (ok-inj h) refl

  field_optional_id-null :
      (v : Option Value) (o : Option ℕ)
      → field_optional_id py v ≡ ok o
      → field_optional_id py (some (or_null o)) ≡ ok o
  unfolding field_optional_id
  field_optional_id-null none o h = none-null o h
  field_optional_id-null (some null) o h = none-null o h
  field_optional_id-null (some v) o h = or_null-some (some v) o h

  field_text-text :
      (bound : ℕ) (v : Option Value) (t : String)
      → field_text py bound v ≡ ok t
      → field_text py bound (some (text t)) ≡ ok t
  unfolding field_text
  field_text-text bound v t h = ground arith

field_priority-value :
    (p : EscalationPriority) → field_priority (some (text (priority_value p))) ≡ ok p
unfolding field_priority
field_priority-value low = refl
field_priority-value medium = refl
field_priority-value high = refl
field_priority-value urgent = refl

module _ (py : Pydantic) where
  abbrev IsNormal : InputModel → ToolInput → Type 0
  IsNormal m i = model_validate py m (model_dump i) ≡ ok i

  -- Arguments that are valid stay valid and mean the same when they are dumped and read again: what
  -- a model accepts as an input, it accepts as the same input in the form that the input is dumped
  -- in, whatever coercions the first reading took.
  pub model_dump-normal :
      (m : InputModel) (d : Arguments) (i : ToolInput)
      → model_validate py m d ≡ ok i
      → model_validate py m (model_dump i) ≡ ok i
  unfolding model_validate model_dump
  model_dump-normal customer_model d i h =
      let (c, ec, h1) = bind-ok _ _ i h in
      subst (IsNormal customer_model) {x = customer_input (record { customer_id = c })} (ok-inj h1)
        (rw (field_id-int py (get "customer_id" d) c ec))
  model_dump-normal order_model d i h =
      let (o, eo, h1) = bind-ok _ _ i h in
      let (c, ec, h2) = bind-ok _ _ i h1 in
      subst (IsNormal order_model) {x = order_input (record { order_id = o; customer_id = c })}
        (ok-inj h2)
        (rw (field_id-int py (get "order_id" d) o eo, field_id-int py (get "customer_id" d) c ec))
  model_dump-normal ticket_model d i h =
      let (t, et, h1) = bind-ok _ _ i h in
      let (c, ec, h2) = bind-ok _ _ i h1 in
      subst (IsNormal ticket_model) {x = ticket_input (record { ticket_id = t; customer_id = c })}
        (ok-inj h2)
        (rw (field_id-int py (get "ticket_id" d) t et, field_id-int py (get "customer_id" d) c ec))
  model_dump-normal cancel_model d i h =
      let (c, ec, h1) = bind-ok _ _ i h in
      let (o, eo, h2) = bind-ok _ _ i h1 in
      subst (IsNormal cancel_model) {x = cancel_input (record { customer_id = c; order_id = o })}
        (ok-inj h2)
        (rw (field_id-int py (get "customer_id" d) c ec, field_id-int py (get "order_id" d) o eo))
  model_dump-normal refund_model d i h =
      let (c, ec, h1) = bind-ok _ _ i h in
      let (o, eo, h2) = bind-ok _ _ i h1 in
      let (r, er, h3) = bind-ok _ _ i h2 in
      subst (IsNormal refund_model)
        {x = refund_input (record { customer_id = c; order_id = o; reason = r })} (ok-inj h3)
        (rw (
          field_id-int py (get "customer_id" d) c ec,
          field_id-int py (get "order_id" d) o eo,
          field_text-text py 2000 (get "reason" d) r er,
        ))
  model_dump-normal create_model d i h =
      let (c, ec, h1) = bind-ok _ _ i h in
      let (o, eo, h2) = bind-ok _ _ i h1 in
      let (k, ek, h3) = bind-ok _ _ i h2 in
      let (t, et, h4) = bind-ok _ _ i h3 in
      subst (IsNormal create_model)
        {x = create_input (record { customer_id = c; order_id = o; category = k; description = t })}
        (ok-inj h4)
        (rw (
          field_id-int py (get "customer_id" d) c ec,
          field_optional_id-null py (get "order_id" d) o eo,
          field_text-text py 100 (get "category" d) k ek,
          field_text-text py 5000 (get "description" d) t et,
        ))
  model_dump-normal escalate_model d i h =
      let (c, ec, h1) = bind-ok _ _ i h in
      let (t, et, h2) = bind-ok _ _ i h1 in
      let (o, eo, h3) = bind-ok _ _ i h2 in
      let (r, er, h4) = bind-ok _ _ i h3 in
      let (p, ep, h5) = bind-ok (field_priority (get "priority" d)) _ i h4 in
      let (u, eu, h6) = bind-ok _ _ i h5 in
      subst (IsNormal escalate_model)
        {x = escalate_input (record {
          customer_id = c;
          ticket_id = t;
          order_id = o;
          reason = r;
          priority = p;
          summary = u;
        })}
        (ok-inj h6)
        (rw (
          field_id-int py (get "customer_id" d) c ec,
          field_optional_id-null py (get "ticket_id" d) t et,
          field_optional_id-null py (get "order_id" d) o eo,
          field_text-text py 2000 (get "reason" d) r er,
          field_priority-value p,
          field_text-text py 5000 (get "summary" d) u eu,
        ))

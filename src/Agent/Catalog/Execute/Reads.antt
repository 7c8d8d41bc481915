-- ===== src/Agent/Catalog/Execute/Reads.antt =====
-- Whose data the read tools of sky-agent/app/agent/tool_catalog.py return.
use cang_qiong_project.Common.{
  ℕ, String, ◌≡◌, refl, ap, subst, inl, inr, Bool, true, false, ◌&&◌, Option, none, some, List, [],
  ◌∷◌, arith, ◌=ₛ◌, eq_iff, leb, ◌==◌, if◌then◌else◌, Bool-cases, find, All, Result, ok, err,
  if-elim, filter, bind-ok, ok-inj, passed-ok,
}
use mathlib.Core.Option.{some-injective}
use cang_qiong_project.Core.{ExecutionContext}
use cang_qiong_project.Models.{Session, Customer, Order, SupportTicket}
use cang_qiong_project.Services.Lookup
use cang_qiong_project.Services.Lookup.{insert_by_id, order_by_id}
use cang_qiong_project.Services.Idempotency.{IdempotencyScope, ToolFailure}
use cang_qiong_project.Tools.Customers
use cang_qiong_project.Tools.Customers.{GetCustomerInput}
use cang_qiong_project.Tools.Orders
use cang_qiong_project.Tools.Orders.{GetOrderInput}
use cang_qiong_project.Tools.Tickets
use cang_qiong_project.Tools.Tickets.{loaded}
use cang_qiong_project.Tools.Orders.{or_missing}
use cang_qiong_project.Tools.Customers.{found}
use cang_qiong_project.Agent.Catalog.{
  ToolInput, customer_input, order_input, ticket_input, customer_of,
}
use cang_qiong_project.Agent.Catalog.Execute.{
  Outside, ToolResult, customer_result, orders_result, tickets_result, order_result, ticket_result,
  CallFailure, returned, execute_customer, execute_scoped, execute,
}

module _ {ℓ} {R : Type ℓ} (id : R → ℕ) (test : R → Bool) where
  abbrev Passes : List R → Type 0
  Passes rows = All (λ r. test r ≡ true) rows

  filter-Passes : (rows : List R) → Passes (filter test rows)
  filter-Passes [] = tt
  filter-Passes (r ∷ rows) = elim (Bool-cases (test r)) [
    | inl e ↦ rw e (e, filter-Passes rows)
    | inr e ↦ rw e (filter-Passes rows)
  ]

  insert-Passes :
      (r : R) (rows : List R) → test r ≡ true → Passes rows → Passes (insert_by_id id r rows)
  unfolding insert_by_id
  insert-Passes r [] e p = (e, tt)
  insert-Passes r (q ∷ rows) e p =
      if-elim Passes (leb (id r) (id q)) (e, p) (p.0, insert-Passes r rows e p.1)

  order-Passes : (rows : List R) → Passes rows → Passes (order_by_id id rows)
  unfolding order_by_id
  order-Passes [] p = tt
  order-Passes (r ∷ rows) p = insert-Passes r (order_by_id id rows) p.0 (order-Passes rows p.1)

  find-passes : (rows : List R) (r : R) → find test rows ≡ some r → test r ≡ true
  find-passes [] r h = absurd cc
  find-passes (q ∷ rows) r h = elim (Bool-cases (test q)) [
    | inl e ↦ subst (λ x. test x ≡ true) (some-injective q r (rw e at h)) e
    | inr e ↦ find-passes rows r (rw e at h)
  ]

-- The tests of a customer's rows.
abbrev pub own_order : ℕ → String → Order → Bool
own_order customer_id tenant_id o = o.customer_id == customer_id && o.tenant_id =ₛ tenant_id

abbrev pub own_ticket : ℕ → String → SupportTicket → Bool
own_ticket customer_id tenant_id t = t.customer_id == customer_id && t.tenant_id =ₛ tenant_id

-- The rows of a result of a read tool are the customer's, in the tenant.
pub IsOwn : ℕ → String → ToolResult → Type 0
IsOwn customer_id tenant_id (customer_result c) = (c.id ≡ customer_id) × (c.tenant_id ≡ tenant_id)
IsOwn customer_id tenant_id (orders_result os) =
    All (λ o. own_order customer_id tenant_id o ≡ true) os
IsOwn customer_id tenant_id (tickets_result ts) =
    All (λ t. own_ticket customer_id tenant_id t ≡ true) ts
IsOwn customer_id tenant_id (order_result o) = own_order customer_id tenant_id o ≡ true
IsOwn customer_id tenant_id (ticket_result t) = own_ticket customer_id tenant_id t ≡ true
IsOwn customer_id tenant_id _ = ⊥

abbrev pub is_read : ToolInput → Bool
is_read (customer_input r) = true
is_read (order_input r) = true
is_read (ticket_input r) = true
is_read _ = false

returned-ok :
    {A : Type 0} (f : A → ToolResult) (x : Result ToolFailure A) (r : ToolResult)
    → returned f x ≡ ok r
    → (a : A) × (x ≡ ok a) × (f a ≡ r)
unfolding returned
returned-ok f (ok a) r h = (a, refl, ok-inj h)
returned-ok f (err e) r h = absurd cc

or_missing-ok :
    (resource : String) (id : ℕ) (x : Option Order) (o : Order)
    → or_missing resource id x ≡ ok o
    → x ≡ some o
unfolding or_missing
or_missing-ok resource id none o h = absurd cc
or_missing-ok resource id (some p) o h = ap some (ok-inj h)

loaded-ok :
    (id : ℕ) (x : Option SupportTicket) (t : SupportTicket) → loaded id x ≡ ok t → x ≡ some t
unfolding loaded
loaded-ok id none t h = absurd cc
loaded-ok id (some p) t h = ap some (ok-inj h)

found-ok : (id : ℕ) (x : Option Customer) (c : Customer) → found id x ≡ ok c → x ≡ some c
unfolding found
found-ok id none c h = absurd cc
found-ok id (some p) c h = ap some (ok-inj h)

module _ (s : Session) (tenant : String) where
  get_order-passes :
      (r : GetOrderInput) (o : Order)
      → Orders.get_order s r tenant ≡ ok o
      → (o.id == r.order_id && o.customer_id == r.customer_id && o.tenant_id =ₛ tenant) ≡ true
  unfolding Orders.get_order Lookup.get_order_for_customer
  get_order-passes r o h =
      find-passes (λ o. o.id)
        (λ o. o.id == r.order_id && o.customer_id == r.customer_id && o.tenant_id =ₛ tenant)
        s.orders o (or_missing-ok _ _ _ o (passed-ok _ _ _ o h))

  get_order-own :
      (r : GetOrderInput) (o : Order)
      → Orders.get_order s r tenant ≡ ok o
      → own_order r.customer_id tenant o ≡ true
  get_order-own r o h = ground (arith, get_order-passes r o h)

  get_ticket-own :
      (t c : ℕ) (x : SupportTicket)
      → Tickets.get_ticket s t c tenant ≡ ok x
      → own_ticket c tenant x ≡ true
  unfolding Tickets.get_ticket Lookup.get_ticket_for_customer
  get_ticket-own t c x h =
      let passed =
        find-passes (λ x. x.id) (λ x. x.id == t && x.customer_id == c && x.tenant_id =ₛ tenant)
          s.tickets x (loaded-ok t _ x h) in
      ground (arith, passed)

  get_customer-own :
      (r : GetCustomerInput) (c : Customer)
      → Customers.get_customer s r tenant ≡ ok c
      → (c.id ≡ r.customer_id) × (c.tenant_id ≡ tenant)
  unfolding Customers.get_customer Lookup.get_customer_for_scope
  get_customer-own r c h =
      let passed =
        find-passes (λ c. c.id)
          (λ c. c.id == r.customer_id && c.id == r.customer_id && c.tenant_id =ₛ tenant) s.customers
          c (found-ok r.customer_id _ c h) in
      ground (arith, passed, eq_iff c.tenant_id tenant)

  get_customer_orders-own :
      (r : GetCustomerInput) (os : List Order)
      → Customers.get_customer_orders s r tenant ≡ ok os
      → All (λ o. own_order r.customer_id tenant o ≡ true) os
  unfolding Customers.get_customer_orders Lookup.get_customer_orders
  get_customer_orders-own r os h =
      let (c, e, f) =
        bind-ok (found r.customer_id (Lookup.get_customer s r.customer_id tenant)) _ os h in
      subst (All (λ o. own_order r.customer_id tenant o ≡ true)) (ok-inj f) (
        order-Passes (λ o. o.id) (own_order r.customer_id tenant) _
          (filter-Passes (λ o. o.id) (own_order r.customer_id tenant) s.orders))

  get_customer_tickets-own :
      (r : GetCustomerInput) (ts : List SupportTicket)
      → Customers.get_customer_tickets s r tenant ≡ ok ts
      → All (λ t. own_ticket r.customer_id tenant t ≡ true) ts
  unfolding Customers.get_customer_tickets Lookup.get_customer_tickets
  get_customer_tickets-own r ts h =
      let (c, e, f) =
        bind-ok (found r.customer_id (Lookup.get_customer s r.customer_id tenant)) _ ts h in
      subst (All (λ t. own_ticket r.customer_id tenant t ≡ true)) (ok-inj f) (
        order-Passes (λ t. t.id) (own_ticket r.customer_id tenant) _
          (filter-Passes (λ t. t.id) (own_ticket r.customer_id tenant) s.tickets))

  -- `IsOwn` of what a tool returned.
  returned-IsOwn :
      {A : Type 0} (n : ℕ) (f : A → ToolResult) (x : Result ToolFailure A) (r : ToolResult)
      → ((a : A) → x ≡ ok a → IsOwn n tenant (f a))
      → returned f x ≡ ok r
      → IsOwn n tenant r
  returned-IsOwn n f x r own h =
      let (a, e, g) = returned-ok f x r h in subst (IsOwn n tenant) g (own a e)

  customer-IsOwn :
      (name : String) (q : GetCustomerInput) (r : ToolResult)
      → execute_customer name s q tenant ≡ ok r
      → IsOwn q.customer_id tenant r
  unfolding execute_customer IsOwn
  customer-IsOwn name q r =
      if-elim (λ x. x ≡ ok r → IsOwn q.customer_id tenant r) (name =ₛ "get_customer")
        (returned-IsOwn q.customer_id customer_result _ r (get_customer-own q))
        (if-elim (λ x. x ≡ ok r → IsOwn q.customer_id tenant r) (name =ₛ "get_customer_orders")
          (returned-IsOwn q.customer_id orders_result _ r (get_customer_orders-own q))
          (returned-IsOwn q.customer_id tickets_result _ r (get_customer_tickets-own q)))

  scoped-IsOwn :
      (out : Outside) (name : String) (i : ToolInput) (scope : Option IdempotencyScope)
      (r : ToolResult)
      → is_read i ≡ true
      → (execute_scoped out name s tenant i scope).0 ≡ ok r
      → IsOwn (customer_of i) tenant r × ((execute_scoped out name s tenant i scope).1 ≡ s)
  unfolding execute_scoped customer_of IsOwn
  scoped-IsOwn out name (customer_input q) scope r e h = (customer-IsOwn name q r h, refl)
  scoped-IsOwn out name (order_input q) scope r e h =
      (returned-IsOwn q.customer_id order_result _ r (get_order-own q) h, refl)
  scoped-IsOwn out name (ticket_input q) scope r e h = (
    returned-IsOwn q.customer_id ticket_result _ r (get_ticket-own q.ticket_id q.customer_id) h,
    refl,
  )
  scoped-IsOwn out name _ scope r e h = absurd (ground arith)

same-number : (n m : ℕ) → (n == m) ≡ true → n ≡ m
same-number n m h = ground arith

module _ (s : Session) (context : ExecutionContext) (r : ToolResult) where
  abbrev Own : Result CallFailure ToolResult × Session → Type 0
  Own x = IsOwn context.effective_customer_id context.tenant_id r × (x.1 ≡ s)

  guarded-Own :
      (b : Bool) (x : Result CallFailure ToolResult × Session) (f : CallFailure)
      → (b ≡ true → x.0 ≡ ok r → Own x)
      → (if b then x else (err f, s)).0 ≡ ok r
      → Own (if b then x else (err f, s))
  guarded-Own true x f own h = own refl h
  guarded-Own false x f own h = absurd cc

  -- A read tool returns only rows of the context's customer in the context's tenant, and leaves the
  -- session as it is.
  pub execute-IsOwn :
      (out : Outside) (name : String) (i : ToolInput) (scope : Option IdempotencyScope)
      → is_read i ≡ true
      → (execute out name s context i scope).0 ≡ ok r
      → IsOwn context.effective_customer_id context.tenant_id r
        × ((execute out name s context i scope).1 ≡ s)
  unfolding execute
  execute-IsOwn out name i scope e =
      guarded-Own _ (execute_scoped out name s context.tenant_id i scope) _ (λ same h.
        let own = scoped-IsOwn s context.tenant_id out name i scope r e h in
        (subst (λ n. IsOwn n context.tenant_id r) (same-number _ _ same) own.0, own.1))

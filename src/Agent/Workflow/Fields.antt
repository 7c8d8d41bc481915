-- ===== src/Agent/Workflow/Fields.antt =====
-- What a message fills in of a workflow that waits for fields, by
-- sky-agent/app/agent/nodes/resume_workflow.py.
use cang_qiong_project.Common.{
  ℕ, String, ◌≡◌, refl, sym, ap, ◌∙◌, subst, ◌≢◌, ◌⊎◌, inl, inr, Bool, true, false, ◌||◌, Option,
  none, some, List, [], ◌∷◌, arith, ◌=ₛ◌, eq_iff, if◌then◌else◌, Bool-cases, Option-cases, is_some,
  put,
}
use cang_qiong_project.Policies.{int, text, Arguments}
use cang_qiong_project.Agent.Schemas.{SemanticDecision, SemanticTarget, explicit_order}
use cang_qiong_project.Agent.Graph.{resumed}
use cang_qiong_project.Agent.Messages.{Patterns}
use cang_qiong_project.Agent.State.{AgentState, latest_user_message}
use cang_qiong_project.Agent.Workflow.Resume.{
  parse_order_id, has, remove, interruption_or_wait, partial_resume, finish, fill_reason,
  fill_order, reset_workflow, resume_fields, resume_decision, resume_workflow, fill_target,
}

abbrev Resumed : AgentState → Type 0
Resumed r = r.workflow_resume_status ≡ some resumed

-- A field that is removed leaves the others.
has-remove :
    (key other : String) (fields : List String)
    → key ≢ other
    → has key (remove other fields) ≡ has key fields
has-remove key other [] n = refl
has-remove key other (f ∷ fields) n =
    ground (arith, eq_iff f key, eq_iff f other, has-remove key other fields n)

reason-not_order : ◌≢◌ {A = String} "reason" "order_id"
reason-not_order e = ground (arith, eq_iff "reason" "order_id")

module _ (re : Patterns) (s : AgentState) (message : String) where
  -- The reason of the decision `to`, from that of `from`.
  abbrev ReasonOf : List String → SemanticDecision → SemanticDecision → Type 0
  ReasonOf missing from to =
      ((has "reason" missing ≡ false) × (to.reason ≡ from.reason))
      ⊎ ((has "reason" missing ≡ true)
          × (message ≢ "")
          × (parse_order_id re message ≡ none)
          × (to.reason ≡ message))

  abbrev TargetOf : List String → SemanticDecision → SemanticDecision → Type 0
  TargetOf missing from to =
      ((has "order_id" missing ≡ false) × (to.target ≡ from.target))
      ⊎ ((has "order_id" missing ≡ true)
          × ((n : ℕ) × (parse_order_id re message ≡ some n)
              × (to.target ≡ some (explicit_order n))))

  wait-not_Resumed : Resumed (interruption_or_wait re s message) → ⊥
  unfolding interruption_or_wait
  wait-not_Resumed h = ground arith

  partial-not_Resumed :
      (d : SemanticDecision) (e : Arguments) (fields : List String)
      → Resumed (partial_resume s d e fields)
      → ⊥
  unfolding partial_resume
  partial-not_Resumed d e fields h = ground arith

  -- What the state of a resumed workflow holds: the decision `to`, and no missing field.
  abbrev pub Holds : SemanticDecision → AgentState → Type 0
  Holds to r = (r.semantic_decision ≡ some to) × (r.missing_required_fields ≡ [])

  finish-Holds :
      (d : SemanticDecision) (e : Arguments) (fields : List String)
      → Resumed (finish s d e fields)
      → Holds d (finish s d e fields)
  unfolding finish
  finish-Holds d e [] h = (refl, refl)
  finish-Holds d e (f ∷ fields) h = absurd (partial-not_Resumed d e (f ∷ fields) h)

  -- The state `r` goes on from the decision `d`, with the reason filled in.
  abbrev ReasonFilled : List String → SemanticDecision → AgentState → Type 0
  ReasonFilled fields d r =
      (to : SemanticDecision) × Holds to r
      × ReasonOf fields d to
      × (to ≡ record d { reason = to.reason })

  -- The message cannot be taken for a reason.
  abbrev is_no_reason : Bool
  is_no_reason = message =ₛ "" || is_some (parse_order_id re message)

  is_no_reason-false : is_no_reason ≡ false → (message ≢ "") × (parse_order_id re message ≡ none)
  is_no_reason-false q = ground (arith, eq_iff message "")

  not_asked :
      (b : Bool) (d : SemanticDecision) (e : Arguments) (fields : List String)
      → Resumed (if b then interruption_or_wait re s message else partial_resume s d e fields)
      → ⊥
  not_asked true d e fields h = wait-not_Resumed h
  not_asked false d e fields h = partial-not_Resumed d e fields h

  fill_reason-given :
      (d : SemanticDecision) (e : Arguments) (fields : List String)
      → has "reason" fields ≡ true
      → is_no_reason ≡ false
      → fill_reason re s message d e fields
        ≡ finish s
            (record d { reason = message })
            (put "reason" (text message) e)
            (remove "reason" fields)
  unfolding fill_reason
  fill_reason-given d e fields p q = rw (p, q)

  fill_reason-absent :
      (d : SemanticDecision) (e : Arguments) (fields : List String)
      → has "reason" fields ≡ false
      → fill_reason re s message d e fields ≡ finish s d e fields
  unfolding fill_reason
  fill_reason-absent d e fields p = rw p

  reason-Filled :
      (d : SemanticDecision) (e : Arguments) (fields : List String)
      → Resumed (fill_reason re s message d e fields)
      → ReasonFilled fields d (fill_reason re s message d e fields)
  unfolding fill_reason
  reason-Filled d e fields h = elim (Bool-cases (has "reason" fields)) [
    | inr p ↦
        subst (ReasonFilled fields d) (sym (fill_reason-absent d e fields p))
          (d, finish-Holds d e fields (rw p at h), inl (p, refl), refl)
    | inl p ↦ elim (Bool-cases is_no_reason) [
      | inl q ↦ absurd (not_asked _ d e fields (rw (p, q) at h))
      | inr q ↦ subst (ReasonFilled fields d) (sym (fill_reason-given d e fields p q)) (
        record d { reason = message },
        finish-Holds _ _ _ (rw (p, q) at h),
        inr (p, (is_no_reason-false q).0, (is_no_reason-false q).1, refl),
        refl,
      )
    ]
  ]

  -- The state `r` goes on from the decision `d`, with the missing fields filled in.
  abbrev pub Filled : List String → SemanticDecision → AgentState → Type 0
  Filled fields d r =
      (to : SemanticDecision) × Holds to r
      × TargetOf fields d to
      × ReasonOf fields d to
      × (to ≡ record d { target = to.target; reason = to.reason })

  -- With the reason, the target may be named too.
  named :
      (t : Option SemanticTarget) (d to : SemanticDecision)
      → to ≡ record d { target = t; reason = to.reason }
      → to ≡ record d { target = to.target; reason = to.reason }
  named t d to e =
      e ∙ ap (λ x. record d { target = x; reason = to.reason }) (sym (ap (λ x. x.target) e))

  order-named :
      (d : SemanticDecision) (e : Arguments) (fields : List String) (n : ℕ)
      → has "order_id" fields ≡ true
      → parse_order_id re message ≡ some n
      → Resumed (
          fill_reason re s message
            (record d { target = some (explicit_order n) })
            e
            (remove "order_id" fields))
      → Filled fields d (
          fill_reason re s message
            (record d { target = some (explicit_order n) })
            e
            (remove "order_id" fields))
  order-named d e fields n m p h =
      let found =
        reason-Filled (record d { target = some (explicit_order n) }) e (remove "order_id" fields)
          h in
      (
        found.0,
        found.1,
        inr (m, (n, p, ap (λ x. x.target) found.3)),
        subst
            (λ b.
              ((b ≡ false) × (found.0.reason ≡ d.reason))
              ⊎ ((b ≡ true)
                  × (message ≢ "")
                  × (parse_order_id re message ≡ none)
                  × (found.0.reason ≡ message)))
            (has-remove "reason" "order_id" fields reason-not_order) found.2,
        named _ d found.0 found.3,
      )

  fill_order-named :
      (d : SemanticDecision) (e : Arguments) (fields : List String) (n : ℕ)
      → has "order_id" fields ≡ true
      → parse_order_id re message ≡ some n
      → fill_order re s message d e fields
        ≡ fill_reason re s message
            (record d { target = some (explicit_order n) })
            (put "order_id" (int n) e)
            (remove "order_id" fields)
  unfolding fill_order fill_target
  fill_order-named d e fields n p q = rw p (ap (fill_target re s message d e fields) q)

  fill_order-waits :
      (d : SemanticDecision) (e : Arguments) (fields : List String)
      → has "order_id" fields ≡ true
      → parse_order_id re message ≡ none
      → fill_order re s message d e fields ≡ interruption_or_wait re s message
  unfolding fill_order fill_target
  fill_order-waits d e fields p q = rw p (ap (fill_target re s message d e fields) q)

  fill_order-given :
      (d : SemanticDecision) (e : Arguments) (fields : List String)
      → has "order_id" fields ≡ false
      → fill_order re s message d e fields ≡ fill_reason re s message d e fields
  unfolding fill_order
  fill_order-given d e fields p = rw p

  order-Filled :
      (d : SemanticDecision) (e : Arguments) (fields : List String)
      → Resumed (fill_order re s message d e fields)
      → Filled fields d (fill_order re s message d e fields)
  unfolding fill_order
  order-Filled d e fields h = elim (Bool-cases (has "order_id" fields)) [
    | inr p ↦
        let found = reason-Filled d e fields (subst Resumed (fill_order-given d e fields p) h) in
        subst (Filled fields d) (sym (fill_order-given d e fields p)) (
          found.0,
          found.1,
          inl (p, ap (λ x. x.target) found.3),
          found.2,
          named _ d found.0 found.3,
        )
    | inl p ↦ elim (Option-cases (parse_order_id re message)) [
      | inl q ↦ absurd (wait-not_Resumed (subst Resumed (fill_order-waits d e fields p q) h))
      | inr (n, q) ↦
          subst (Filled fields d) (sym (fill_order-named d e fields n p q))
            (order-named d _ fields n p q (subst Resumed (fill_order-named d e fields n p q) h))
    ]
  ]

reset-not_Resumed : (s : AgentState) → Resumed (reset_workflow s) → ⊥
unfolding reset_workflow
reset-not_Resumed s h = ground arith

module _ (re : Patterns) (s : AgentState) where
  abbrev answer : String
  answer = re.strip (latest_user_message s)

  active-Filled :
      (b : Bool) (d : SemanticDecision) (fields : List String)
      → Resumed
          (if b then fill_order re s answer d s.collected_entities fields else reset_workflow s)
      → Filled re s answer fields d
          (if b then fill_order re s answer d s.collected_entities fields else reset_workflow s)
  active-Filled true d fields h = order-Filled re s answer d s.collected_entities fields h
  active-Filled false d fields h = absurd (reset-not_Resumed s h)

  fields-Filled :
      (d : SemanticDecision) (fields : List String)
      → Resumed (resume_fields re s d fields)
      → Filled re s answer fields d (resume_fields re s d fields)
  unfolding resume_fields
  fields-Filled d [] h = absurd (reset-not_Resumed s h)
  fields-Filled d (f ∷ fields) h = active-Filled s.workflow_active d (f ∷ fields) h

  decision-Filled :
      (o : Option SemanticDecision)
      → Resumed (resume_decision re s o)
      → (d : SemanticDecision) × (o ≡ some d)
        × Filled re s answer s.missing_required_fields d (resume_decision re s o)
  unfolding resume_decision
  decision-Filled none h = absurd (reset-not_Resumed s h)
  decision-Filled (some d) h = (d, refl, fields-Filled d s.missing_required_fields h)

  -- A workflow is resumed only with the decision that was waiting, where the message fills in what
  -- was missing and nothing else: the target is the order that the message names if the order was
  -- missing and stays otherwise; the reason is the message, which is not empty and names no order,
  -- if the reason was missing and stays otherwise; every other field of the decision stays, and no
  -- field is missing then.
  pub resume_workflow-Filled :
      Resumed (resume_workflow re s)
      → (d : SemanticDecision) × (s.pending_workflow_decision ≡ some d)
        × Filled re s answer s.missing_required_fields d (resume_workflow re s)
  unfolding resume_workflow
  resume_workflow-Filled h = decision-Filled s.pending_workflow_decision h

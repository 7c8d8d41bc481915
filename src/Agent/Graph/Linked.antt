-- ===== src/Agent/Graph/Linked.antt =====
-- The runs of sky-agent/app/agent/graph.py as lists whose neighbours the edges link.
use cang_qiong_project.Common.{
  ℕ, zero, suc, ◌≡◌, refl, sym, ap, ◌∙◌, subst, inl, inr, List, [], ◌∷◌, ◌++◌, append_assoc, arith,
  Bool-cases,
}
use cang_qiong_project.Agent.Graph.{AgentState, Node, load_context, end, next, run}
use cang_qiong_project.Agent.Graph.Ends.{is_end, run-step, run_end}

-- Each node of a list is the one that the edges give for the node before.
pub Linked : List (Node × AgentState) → Type 0
Linked [] = Unit
Linked (x ∷ []) = Unit
Linked ((a, t) ∷ (b, u) ∷ r) = (next a t ≡ b) × Linked ((b, u) ∷ r)

Linked-cons :
    (effect : Node → AgentState → AgentState) (fuel : ℕ) (a : Node) (t : AgentState) (b : Node)
    (s : AgentState)
    → next a t ≡ b
    → Linked (run effect fuel b s)
    → Linked ((a, t) ∷ run effect fuel b s)
unfolding Linked run
Linked-cons effect fuel a t end s e l = tt
Linked-cons effect zero a t _ s e l = tt
Linked-cons effect (suc fuel) a t _ s e l = (e, l)

pub run_zero :
    (effect : Node → AgentState → AgentState) (n : Node) (s : AgentState) → run effect 0 n s ≡ []
unfolding run
run_zero effect end s = refl
run_zero effect _ s = refl

pub Linked-run :
    (effect : Node → AgentState → AgentState) (fuel : ℕ) (n : Node) (s : AgentState)
    → Linked (run effect fuel n s)
unfolding Linked
Linked-run effect zero n s = subst Linked (sym (run_zero effect n s)) tt
Linked-run effect (suc fuel) n s = elim (Bool-cases (is_end n)) [
  | inl h ↦ subst Linked (sym (run_end effect (suc fuel) n s h)) tt
  | inr h ↦
      let s' = effect n s in
      subst Linked (sym (run-step effect fuel n s h))
        (Linked-cons effect fuel n s' (next n s') s' refl (Linked-run effect fuel (next n s') s'))
]

pub Linked-at :
    (xs : List (Node × AgentState)) (a : Node) (t : AgentState) (b : Node) (u : AgentState)
    (ys : List (Node × AgentState))
    → Linked (xs ++ (a, t) ∷ (b, u) ∷ ys)
    → next a t ≡ b
unfolding Linked
Linked-at [] a t b u ys l = l.0
Linked-at (x ∷ []) a t b u ys l = l.1.0
Linked-at (x ∷ y ∷ xs) a t b u ys l = Linked-at (y ∷ xs) a t b u ys l.1

-- The last of a list that is not empty.
pub last_of :
    (x : Node × AgentState) (xs : List (Node × AgentState))
    → (before : List (Node × AgentState)) × (a : Node) × (t : AgentState) × (x ∷ xs
        ≡ before ++ (a, t) ∷ [])
last_of (a, t) [] = ([], a, t, refl)
last_of x (y ∷ xs) = let rest = last_of y xs in (x ∷ rest.0, rest.1, rest.2, ap (λ r. x ∷ r) rest.3)

-- A run of the graph starts with `load_context`.
pub run-head :
    (effect : Node → AgentState → AgentState) (fuel : ℕ) (s : AgentState) (b : Node)
    (u : AgentState) (ys : List (Node × AgentState))
    → run effect fuel load_context s ≡ (b, u) ∷ ys
    → load_context ≡ b
unfolding run
run-head effect zero s b u ys h = absurd (ground (arith, h))
run-head effect (suc fuel) s b u ys h = ground (arith, h)

pub join :
    (xs before ys : List (Node × AgentState)) (x : Node × AgentState)
    (rest : List (Node × AgentState))
    → rest ≡ xs ++ ys
    → xs ≡ before ++ x ∷ []
    → rest ≡ before ++ x ∷ ys
join xs before ys x rest e e' = e ∙ ap (λ r. r ++ ys) e' ∙ append_assoc before (x ∷ []) ys

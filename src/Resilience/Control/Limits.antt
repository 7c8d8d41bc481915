-- ===== src/Resilience/Control/Limits.antt =====
-- The request limits of sky-agent/app/resilience/control.py, for one principal and one customer.
use cang_qiong_project.Common.{
  ℕ, ◌≤◌, ◌<◌, String, ◌≡◌, refl, ap, ◌⊎◌, List, [], ◌∷◌, ◌++◌, arith, eq_refl, length,
  length-append, ok, err,
}
use cang_qiong_project.Resilience.Config.{ResilienceConfig}
use cang_qiong_project.Resilience.Failure.{Failure}
use cang_qiong_project.Resilience.Window.{expire}
use cang_qiong_project.Resilience.Control.{Controller, Caller, drop_last, enforce_request_limits}

drop_last-append : (xs : List ℕ) (x : ℕ) → drop_last (xs ++ x ∷ []) ≡ xs
unfolding drop_last
drop_last-append [] x = refl
drop_last-append (y ∷ []) x = refl
drop_last-append (y ∷ z ∷ ys) x = ap (λ l. y ∷ l) (drop_last-append (z ∷ ys) x)

module _ (digest : String → String) (cfg : ResilienceConfig) (now later : ℕ) (caller : Caller)
    (s : Controller) where
  -- The deques of the caller, and what is left of them when the clock is read.
  abbrev pub principal_events : Controller → List ℕ
  principal_events t = t.rate_events "principal" (digest caller.actor_id)

  abbrev pub customer_events : Controller → List ℕ
  customer_events t = t.rate_events "customer" (digest caller.effective_customer_id)

  abbrev principal_left : List ℕ
  principal_left = expire cfg.rate_limit_window_seconds now (principal_events s)

  abbrev customer_left : List ℕ
  customer_left = expire cfg.rate_limit_window_seconds later (customer_events s)

  -- A request that is refused, by either limit, uses up no quota: the principal's deque is what
  -- expiry leaves of it, and the customer's is as before or what expiry leaves of it. The
  -- customer limit is positive.
  pub refused_request_is_free :
      (e : Failure) (s' : Controller)
      → 0 < cfg.customer_rate_limit
      → enforce_request_limits digest cfg now later caller s ≡ (err e, s')
      → (principal_events s' ≡ principal_left)
        × ((customer_events s' ≡ customer_events s) ⊎ (customer_events s' ≡ customer_left))
  unfolding enforce_request_limits
  refused_request_is_free e s' pos h = ground (
    arith,
    eq_refl (digest caller.actor_id),
    eq_refl (digest caller.effective_customer_id),
    drop_last-append principal_left now,
  )

  -- A request that is allowed joins both deques, which stay within their limits.
  allowed_request_is_counted :
      (s' : Controller)
      → enforce_request_limits digest cfg now later caller s ≡ (ok tt, s')
      → (principal_events s' ≡ principal_left ++ now ∷ [])
        × (customer_events s' ≡ customer_left ++ later ∷ [])
        × (length (principal_events s') ≤ cfg.principal_rate_limit)
        × (length (customer_events s') ≤ cfg.customer_rate_limit)
  unfolding enforce_request_limits
  allowed_request_is_counted s' h = ground (
    arith,
    eq_refl (digest caller.actor_id),
    eq_refl (digest caller.effective_customer_id),
    length-append principal_left (now ∷ []),
    length-append customer_left (later ∷ []),
  )

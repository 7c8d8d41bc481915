-- ===== src/Resilience/Control/RetryAfter.antt =====
-- The `retry_after_seconds` of a refusal by sky-agent/app/resilience/control.py.
use cang_qiong_project.Common.{
  ℕ, ◌+◌, ◌-◌, ◌≤◌, ◌<◌, String, ◌≡◌, refl, List, [], ◌∷◌, arith, eq_refl, ltb, leb, if◌then◌else◌,
  length, ok, err,
}
use cang_qiong_project.Resilience.Config.{ResilienceConfig}
use cang_qiong_project.Resilience.Failure.{rate_limit_exceeded}
use cang_qiong_project.Resilience.Window.{expire, admit}
use cang_qiong_project.Resilience.Control.{Controller, consume_rate_limit}

-- What is left of a deque begins with an event that is still in the window.
expire-head-live :
    (w now : ℕ) (xs : List ℕ) (e : ℕ) (es : List ℕ) → expire w now xs ≡ e ∷ es → now < e + w
unfolding expire
expire-head-live w now [] e es h = cc
expire-head-live w now (x ∷ xs) e es h = ground (arith, expire-head-live w now xs e es)

length-expire-le : (w now : ℕ) (xs : List ℕ) → length (expire w now xs) ≤ length xs
unfolding expire
length-expire-le w now [] = omega arith
length-expire-le w now (x ∷ xs) = ground (arith, length-expire-le w now xs)

-- A full deque admits again exactly when its first event expires.
full-admit :
    (limit w t e : ℕ) (es : List ℕ)
    → length (e ∷ es) ≡ limit
    → (admit limit t (expire w t (e ∷ es))).1 ≡ leb (e + w) t
unfolding expire admit
full-admit limit w t e es full = ground (arith, length-expire-le w t es)

module _ (digest : String → String) (cfg : ResilienceConfig) (scope key : String) (limit : ℕ) where
  abbrev pub deque : Controller → List ℕ
  deque s = s.rate_events scope (digest key)

  abbrev left : ℕ → Controller → List ℕ
  left now s = expire cfg.rate_limit_window_seconds now (deque s)

  abbrev window : ℕ
  window = cfg.rate_limit_window_seconds

  -- What a refusal shows of the deque, by the deque that is left.
  record IsRefusal (now after : ℕ) (s s' : Controller) : Type 0 where
    first : ℕ
    others : List ℕ
    deque_eq : deque s' ≡ first ∷ others
    after_eq : after ≡ window + first - now
    live : now < first + window
    full : limit ≤ length (deque s')
    shrunk : length (deque s') ≤ length (deque s)

  IsRefusal-shape :
      (now after : ℕ) (s s' : Controller) (d : List ℕ)
      → left now s ≡ d
      → consume_rate_limit digest cfg now scope key limit s
        ≡ (err (rate_limit_exceeded scope after), s')
      → IsRefusal now after s s'
  unfolding consume_rate_limit
  IsRefusal-shape now after s s' [] e refused = absurd (ground arith)
  IsRefusal-shape now after s s' (x ∷ xs) e refused = record {
    first = x;
    others = xs;
    deque_eq = ground (arith, eq_refl scope, eq_refl (digest key));
    after_eq = ground arith;
    live = expire-head-live window now (deque s) x xs e;
    full = ground (arith, eq_refl scope, eq_refl (digest key));
    shrunk =
        ground (arith, eq_refl scope, eq_refl (digest key), length-expire-le window now (deque s));
  }

  -- The wait that a refusal names is exact. Asked again at any time `t` of an unchanged deque, the
  -- limit refuses while `t` is before the end of the wait, naming what is left of it, and
  -- admits from then on. The deque held at most `limit` events, as every deque does.
  pub retry_after_exact :
      (now after t : ℕ) (s s' : Controller)
      → length (deque s) ≤ limit
      → consume_rate_limit digest cfg now scope key limit s
        ≡ (err (rate_limit_exceeded scope after), s')
      → (consume_rate_limit digest cfg t scope key limit s').0
        ≡ (if ltb t (now + after) then err (rate_limit_exceeded scope (now + after - t)) else ok tt)
  unfolding consume_rate_limit
  retry_after_exact now after t s s' fits refused =
      let r = IsRefusal-shape now after s s' (left now s) refl refused in
      rw r.deque_eq (
        ground (
          arith,
          r.deque_eq,
          r.after_eq,
          r.live,
          r.full,
          r.shrunk,
          full-admit limit window t r.first r.others,
        ))

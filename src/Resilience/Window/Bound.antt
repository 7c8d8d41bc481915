-- ===== src/Resilience/Window/Bound.antt =====
-- How many requests a sliding window admits.
use cang_qiong_project.Common.{
  ℕ, suc, ◌+◌, ◌≤◌, ◌<◌, ◌≡◌, refl, inl, inr, ◌&&◌, List, [], ◌∷◌, ◌++◌, append_assoc, append-nil,
  arith, ltb, leb, if◌then◌else◌, Bool-cases, length,
}
use cang_qiong_project.Resilience.Window.{expire, consume}

-- The requests of `times` that are admitted, from a deque.
pub admitted : ℕ → ℕ → List ℕ → List ℕ → List ℕ
admitted limit window events [] = []
admitted limit window events (t ∷ ts) =
    let (events', done) = consume limit window t events in
    let rest = admitted limit window events' ts in if done then t ∷ rest else rest

-- How many of the times lie in [a, a + window).
pub count_in : ℕ → ℕ → List ℕ → ℕ
count_in window a [] = 0
count_in window a (e ∷ es) =
    let rest = count_in window a es in if leb a e && ltb e (a + window) then suc rest else rest

-- The clock never runs backwards.
abbrev pub IsMonotone : ℕ → List ℕ → Type 0
IsMonotone now [] = Unit
IsMonotone now (t ∷ ts) = (now ≤ t) × IsMonotone t ts

count_in-append :
    (w a : ℕ) (xs ys : List ℕ) → count_in w a (xs ++ ys) ≡ count_in w a xs + count_in w a ys
unfolding count_in
count_in-append w a [] ys = omega arith
count_in-append w a (x ∷ xs) ys = ground (arith, count_in-append w a xs ys)

count_in-le-length : (w a : ℕ) (xs : List ℕ) → count_in w a xs ≤ length xs
unfolding count_in
count_in-le-length w a [] = omega arith
count_in-le-length w a (x ∷ xs) = ground (arith, count_in-le-length w a xs)

-- Expiry takes no event out of a window that reaches past the present.
count_in-expire :
    (w a now : ℕ) (xs : List ℕ) → now < a + w → count_in w a (expire w now xs) ≡ count_in w a xs
unfolding count_in expire
count_in-expire w a now [] h = refl
count_in-expire w a now (x ∷ xs) h = ground (arith, count_in-expire w a now xs h)

-- Windows over the log that reach past the present are seen whole in the deque.
record IsTracked (limit w now : ℕ) (log events : List ℕ) : Type 0 where
  kept : (a : ℕ) → now < a + w → count_in w a log ≤ count_in w a events
  bounded : (a : ℕ) → count_in w a log ≤ limit

module _ (limit w now : ℕ) {log events : List ℕ} (inv : IsTracked limit w now log events) where
  -- After a request at a later time that is refused, the log is still tracked.
  expire-IsTracked : (t : ℕ) → now ≤ t → IsTracked limit w t log (expire w t events)
  expire-IsTracked t later = record {
    kept = λ a h. omega (arith, count_in-expire w a t events h, inv.kept a (omega arith));
    bounded = inv.bounded;
  }

  count_in-log :
      (a t : ℕ)
      → now ≤ t
      → length (expire w t events) < limit
      → count_in w a (log ++ t ∷ []) ≤ limit
  unfolding count_in
  count_in-log a t later room = ground (
    arith,
    count_in-append w a log (t ∷ []),
    inv.bounded a,
    inv.kept a,
    count_in-expire w a t events,
    count_in-le-length w a (expire w t events),
  )

  -- After one that is admitted it is tracked with the new event at both ends.
  admit-IsTracked :
      (t : ℕ)
      → now ≤ t
      → length (expire w t events) < limit
      → IsTracked limit w t (log ++ t ∷ []) (expire w t events ++ t ∷ [])
  admit-IsTracked t later room = record {
    kept = λ a h. omega (
      arith,
      count_in-append w a log (t ∷ []),
      count_in-append w a (expire w t events) (t ∷ []),
      count_in-expire w a t events h,
      inv.kept a (omega arith),
    );
    bounded = λ a. count_in-log a t later room;
  }

admitted-bounded :
    (limit w now : ℕ) (log events ts : List ℕ)
    → IsTracked limit w now log events
    → IsMonotone now ts
    → (a : ℕ) → count_in w a (log ++ admitted limit w events ts) ≤ limit
unfolding admitted consume
admitted-bounded limit w now log events [] inv mono a = rw append-nil (inv.bounded a)
admitted-bounded limit w now log events (t ∷ ts) inv (later, mono) a =
    elim (Bool-cases (leb limit (length (expire w t events)))) [
      | inl full ↦ rw full (
          admitted-bounded limit w t log (expire w t events) ts
            (expire-IsTracked limit w now inv t later) mono a)
      | inr room ↦
          rw (room, ← append_assoc log (t ∷ []))
            (admitted-bounded limit w t (log ++ t ∷ []) (expire w t events ++ t ∷ []) ts
              (admit-IsTracked limit w now inv t later (ground arith)) mono a)
    ]

-- From an empty deque, with a clock that never runs backwards, no half-open interval as long as
-- the window holds more admitted requests than the limit, wherever the interval begins.
pub count_in-admitted-le-limit :
    (limit window now : ℕ) (times : List ℕ)
    → IsMonotone now times
    → (a : ℕ) → count_in window a (admitted limit window [] times) ≤ limit
unfolding count_in
count_in-admitted-le-limit limit window now times mono a =
    admitted-bounded limit window now [] [] times
      (record { kept = λ b h. omega arith; bounded = λ b. omega arith }) mono a

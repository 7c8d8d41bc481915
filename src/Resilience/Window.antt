-- ===== src/Resilience/Window.antt =====
-- The sliding windows of sky-agent/app/resilience/control.py: the deque of event times that
-- a rate limit or a retry budget keeps, its expiry and its admission test.
pub mod Bound
use cang_qiong_project.Common.{
  ℕ, ◌+◌, Bool, true, false, List, [], ◌∷◌, ◌++◌, leb, if◌then◌else◌, length,
}

-- `_expire`: events at or before `now - window` leave from the left. The comparison is written
-- with the window added, so that no difference falls below 0.
unfoldable pub expire : ℕ → ℕ → List ℕ → List ℕ
expire window now [] = []
expire window now (e ∷ es) = if leb (e + window) now then expire window now es else e ∷ es

-- The test on what is left of the deque: full, or the new event joins it.
unfoldable pub admit : ℕ → ℕ → List ℕ → List ℕ × Bool
admit limit now events =
    if leb limit (length events) then (events, false) else (events ++ now ∷ [], true)

-- One request against a window of at most `limit` events.
unfoldable pub consume : ℕ → ℕ → ℕ → List ℕ → List ℕ × Bool
unfolding expire admit
consume limit window now events = admit limit now (expire window now events)

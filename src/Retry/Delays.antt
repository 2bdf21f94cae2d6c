-- ===== src/Retry/Delays.antt =====
-- src/queuefy/retry.py: `growth_for` and `delay_for`.
-- The arithmetic of Python's numbers is a parameter, and so is the random draw.
use queuefy.Prelude.{◌≡◌, ap, arith, if◌then◌else◌}
use queuefy.Prelude.Int.{ℤ, pos, ltb_ℤ, ◌-ℤ◌, ◌≤ℤ◌}
use queuefy.Retry.{RetryPolicy, fixed, linear, exponential, exponential_jitter}

-- MAX_DOUBLINGS.
abbrev pub max_doublings : ℤ
max_doublings = pos 64

-- What Python does with the numbers of a wait: `+`, `*`, `/`, `min`, `2 **` of a whole number, and a
-- whole number as a number.
pub record Numbers (F : Type 0) : Type 0 where
  pub plus : F → F → F
  pub times : F → F → F
  pub over : F → F → F
  pub least : F → F → F
  pub two_to : ℤ → F
  pub whole : ℤ → F

abbrev pub min_ℤ : ℤ → ℤ → ℤ
min_ℤ a b = if ltb_ℤ b a then b else a

module _ {F : Type 0} (n : Numbers F) where
  unfoldable pub growth_for : RetryPolicy → F → ℤ → F
  unfolding ◌-ℤ◌
  growth_for fixed base attempt = base
  growth_for linear base attempt = n.times base (n.whole attempt)
  growth_for _ base attempt = n.times base (n.two_to (min_ℤ (attempt -ℤ pos 1) max_doublings))

  -- `drawn` is `random.uniform(0, jitter)`.
  unfoldable pub delay_for : RetryPolicy → F → ℤ → F → F → F → F
  unfolding growth_for
  delay_for exponential_jitter base attempt jitter ceiling drawn =
      let one = n.whole (pos 1) in
      n.times
        (n.least (growth_for exponential_jitter base attempt) (n.over ceiling (n.plus one jitter)))
        (n.plus one drawn)
  delay_for policy base attempt jitter ceiling drawn =
      n.least (growth_for policy base attempt) ceiling

  -- The doubling levels off: past the sixty-fifth attempt the growth is what it was.
  pub growth_for_level :
      (base : F) (attempt : ℤ)
      → pos 65 ≤ℤ attempt
      → growth_for exponential base attempt ≡ growth_for exponential base (pos 65)
  unfolding growth_for ◌-ℤ◌
  growth_for_level base attempt late = ap (λ k. n.times base (n.two_to k)) (ground arith)

-- ===== src/Worker/Listeners.antt =====
-- src/queuefy/worker.py: `on_start`, `on_finish`, `on_error` and `announce`.
use queuefy.Prelude.{◌≡◌, ◌++◌, refl, Bool, true, false, List, [], ◌∷◌, All}

-- How a listener ends: well, by an exception of its own, or by the shutdown.
pub data Heard : Type 0 where
  well badly asked_to_stop : Heard

-- The listeners of a worker, by what they are told of.
pub record Listeners (L : Type 0) : Type 0 where
  pub starting : List L
  pub finishing : List L
  pub failing : List L

unfoldable pub on_start : {L : Type 0} → Listeners L → L → Listeners L
on_start ls l = record ls { starting = ls.starting ++ l ∷ [] }

unfoldable pub on_finish : {L : Type 0} → Listeners L → L → Listeners L
on_finish ls l = record ls { finishing = ls.finishing ++ l ∷ [] }

unfoldable pub on_error : {L : Type 0} → Listeners L → L → Listeners L
on_error ls l = record ls { failing = ls.failing ++ l ∷ [] }

abbrev pub stops : Heard → Bool
stops asked_to_stop = true
stops _ = false

module _ {L : Type 0} (hear : L → Heard) where
  -- Those that were called, and whether the shutdown went through.
  abbrev pub heard_first : L → Bool → List L × Bool → List L × Bool
  heard_first l true rest = (l ∷ [], true)
  heard_first l false (called, stopped) = (l ∷ called, stopped)

  unfoldable pub announce : List L → List L × Bool
  announce [] = ([], false)
  announce (l ∷ ls) = heard_first l (stops (hear l)) (announce ls)

  -- A listener that breaks breaks alone: without a shutdown every one of them is called, in order.
  pub announce_all :
      (ls : List L) → All (λ l. stops (hear l) ≡ false) ls → announce ls ≡ (ls, false)
  unfolding announce
  announce_all [] calm = refl
  announce_all (l ∷ ls) calm = rw (calm.0, announce_all ls calm.1) refl

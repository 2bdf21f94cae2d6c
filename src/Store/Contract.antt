-- ===== src/Store/Contract.antt =====
-- src/queuefy/store/base.py: what a store promises, whatever it keeps its runs in.
pub mod History
pub mod Underway
use queuefy.Prelude.{ℕ, ◌≤◌}
use queuefy.Store.Memory.Rows.{MemoryStore, get}
use queuefy.Store.Memory.Life.{Call, Row}
use queuefy.Store.Memory.Invariant.Numbers.{Numbered}

-- A store read as runs under their numbers: a call that it takes makes at most one change of the
-- relation `Row` to each number, and numbers are given in order, of which a store may leave some out. What a call answers is not part of
-- it. A store may ask more of its own state than of its runs, which every such call keeps.
pub record Contract (W : Type 0) : Type 1 where
  pub view : W → MemoryStore
  pub next : W → Call → W
  pub IsSound : W → Type 0
  pub Takes : Call → Type 0
  pub numbered : (w : W) → IsSound w → Numbered (view w)
  pub stays : (w : W) (c : Call) → IsSound w → Takes c → IsSound (next w c)
  pub grows :
      (w : W) (c : Call) → IsSound w → Takes c → (view w).sequence ≤ (view (next w c)).sequence
  pub changes :
      (w : W) (c : Call)
      → IsSound w
      → Takes c
      → (n : ℕ) × ((view w).sequence ≤ n)
        × ((i : ℕ) → Row (record (view w) { sequence = n }) c i (get (view (next w c)) i))

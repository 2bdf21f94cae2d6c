-- ===== src/Value.antt =====
-- The Python values that reach the program from outside: arguments of a call, the payload of a
-- run, what a handler answers. A finite float is the exact fraction that it stands for.
use queuefy.Prelude.{ℕ, Bool}
use queuefy.Prelude.Int.{ℤ}
use queuefy.Prelude.Text.{Text}

-- `ratio n d` is n / (d + 1).
pub data Float : Type 0 where
  nan : Float
  infinity : (negative : Bool) → Float
  ratio : ℤ → ℕ → Float

mutual
  pub data Value : Type 0 where
    null : Value
    boolean : Bool → Value
    int : ℤ → Value
    float : Float → Value
    text : Text → Value
    list : Items → Value
    tuple : Items → Value
    dict : Entries → Value
    -- An object of any other class.
    object : ℕ → Value

  pub data Items : Type 0 where
    nil : Items
    cons : Value → Items → Items

  pub data Entries : Type 0 where
    end : Entries
    entry : Value → Value → Entries → Entries

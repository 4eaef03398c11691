-- ===== src/Json.antt =====
-- The values of a header: what `encoding/json` decodes to, and what a caller may set in Go.
use jose.Common.{Bool, List, Bytes}
use jose.Common.Int.{ℤ}

mutual
  pub data Value : Type 0 where
    null : Value
    bool : Bool → Value
    -- A float64: its integer part, and whether it has a fractional part.
    float : ℤ → Bool → Value
    str : Bytes → Value
    arr : Values → Value
    obj : Members → Value
    -- `[]string`, `int` and `int64`, set by a Go caller.
    strs : List Bytes → Value
    int : ℤ → Value

  pub data Values : Type 0 where
    nil : Values
    cons : Value → Values → Values

  pub data Members : Type 0 where
    end : Members
    member : Bytes → Value → Members → Members

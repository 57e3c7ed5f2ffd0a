-- ===== src/Value/Data.antt =====
-- The data types of values and of dict keys.
use aiotruenas.Base.{ℕ, String, Bool}
use aiotruenas.Base.Int.{ℤ}

-- A binary64 number. `finite m k` is m / 2 ^ k, so every finite float has such a form. A NaN carries
-- the identity of its object, by which Python's containers tell NaNs apart.
pub data Float : Type 0 where
  finite : ℤ → ℕ → Float
  infinite : Bool → Float
  nan : ℕ → Float

-- Hashable values up to equality: `num` an integral number, `frac m k` the number m / 2 ^ k in
-- lowest terms, `moment` a datetime.
pub data Key : Type 0 where
  no_value : Key
  text : String → Key
  num : ℤ → Key
  frac : ℤ → ℕ → Key
  unbounded : Bool → Key
  not_number : ℕ → Key
  moment : ℤ → Key

-- `datetime t` is t microseconds after the epoch, in UTC.
mutual
  pub data Value : Type 0 where
    null : Value
    bool : Bool → Value
    int : ℤ → Value
    float : Float → Value
    str : String → Value
    datetime : ℤ → Value
    arr : Items → Value
    obj : Fields → Value

  pub data Items : Type 0 where
    nil : Items
    cons : Value → Items → Items

  pub data Fields : Type 0 where
    end : Fields
    field : Key → Value → Fields → Fields

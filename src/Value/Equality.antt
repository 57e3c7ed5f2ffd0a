-- ===== src/Value/Equality.antt =====
-- Python's hash keys, truth test and `==` of values.
use native.Mathlib.Decide.{ℕ_discrete}
use aiotruenas.Base.{
  ℕ, zero, suc, ◌+◌, Bool, true, false, not, ◌&&◌, ◌||◌, Option, none, some, Eq, ◌==◌,
  string_discrete, string_eq, nat_eq, if◌then◌else◌,
}
use aiotruenas.Base.Int.{ℤ, pos, is_zero, is_even, half}
use aiotruenas.Value.Data.{
  Float, finite, infinite, nan, Key, no_value, text, num, frac, unbounded, not_number, moment,
  Value, null, bool, int, float, str, datetime, arr, obj, Items, nil, cons, Fields, end, field,
}

unfoldable pub Key-discrete : Discrete Key
unfolding string_discrete ℕ_discrete
Key-discrete = hlevel (string_discrete, ℕ_discrete)

instance unfoldable pub key_eq : Eq Key
unfolding Key-discrete
key_eq = record { dec = Key-discrete }

-- m / 2 ^ k in lowest terms.
unfoldable pub reduce : ℤ → ℕ → Key
reduce m zero = num m
reduce m (suc k) = if is_even m then reduce (half m) k else frac m (suc k)

unfoldable pub float_key : Float → Key
unfolding reduce
float_key (finite m k) = reduce m k
float_key (infinite positive) = unbounded positive
float_key (nan identity) = not_number identity

abbrev pub bool_key : Bool → Key
bool_key true = num (pos 1)
bool_key false = num (pos 0)

-- The key of a value, if it is hashable.
unfoldable pub hash_key : Value → Option Key
unfolding float_key
hash_key null = some no_value
hash_key (bool b) = some (bool_key b)
hash_key (int n) = some (num n)
hash_key (float x) = some (float_key x)
hash_key (str s) = some (text s)
hash_key (datetime t) = some (moment t)
hash_key (arr xs) = none
hash_key (obj fs) = none

-- `bool(value)`
unfoldable pub truthy : Value → Bool
unfolding string_eq
truthy null = false
truthy (bool b) = b
truthy (int n) = not (is_zero n)
truthy (float (finite m k)) = not (is_zero m)
truthy (float (infinite positive)) = true
truthy (float (nan identity)) = true
truthy (str s) = not (s == "")
truthy (datetime t) = true
truthy (arr nil) = false
truthy (arr (cons x xs)) = true
truthy (obj end) = false
truthy (obj (field k v fs)) = true

-- `d.get(k)`, with the missing key kept apart from a stored None.
unfoldable pub get : Key → Fields → Option Value
unfolding key_eq
get k end = none
get k (field j v fs) = if k == j then some v else get k fs

unfoldable pub size : Fields → ℕ
size end = 0
size (field k v fs) = size fs + 1

abbrev is_nan : Key → Bool
is_nan (not_number identity) = true
is_nan _ = false

-- `==` of two values that are no containers: a NaN equals nothing.
scalar_eq : Option Key → Option Key → Bool
unfolding key_eq
scalar_eq (some a) (some b) = not (is_nan a) && a == b
scalar_eq (some a) none = false
scalar_eq none b = false

-- The test of identity that containers make before `==`; it matters for NaNs only.
same_nan : Value → Value → Bool
unfolding nat_eq
same_nan (float (nan a)) (float (nan b)) = a == b
same_nan _ _ = false

-- `==`: a list item by item, a dict key by key in any order.
unfoldable mutual
  unfolding hash_key get size scalar_eq same_nan nat_eq

  pub py_eq : Value → Value → Bool
  py_eq (arr xs) (arr ys) = items_eq xs ys
  py_eq (obj fs) (obj gs) = size fs == size gs && fields_in fs gs
  py_eq v w = scalar_eq (hash_key v) (hash_key w)

  items_eq : Items → Items → Bool
  items_eq nil nil = true
  items_eq (cons x xs) (cons y ys) = (same_nan x y || py_eq x y) && items_eq xs ys
  items_eq _ _ = false

  fields_in : Fields → Fields → Bool
  fields_in end gs = true
  fields_in (field k v fs) gs = elim (get k gs) [
    | none ↦ false
    | some w ↦ (same_nan v w || py_eq v w) && fields_in fs gs
  ]

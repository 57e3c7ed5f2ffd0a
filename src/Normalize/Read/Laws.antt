-- ===== src/Normalize/Read/Laws.antt =====
-- What the readers return: nested paths, cut texts, reversed booleans, timestamps.
use aiotruenas.Base.{
  ℕ, zero, suc, ◌*◌, ◌≤◌, ◌<◌, String, Bool, true, false, ◌≡◌, refl, ap, Option, none, some, [],
  ◌∷◌, ◌⊎◌, arith, Bool-cases, inl, inr,
}
use aiotruenas.Base.Int.{pos}
use aiotruenas.Value.{Value, bool, int, str, Float}
use aiotruenas.Value.Text
use aiotruenas.Value.Text.{length-take-le, split_absent}
use aiotruenas.Normalize.Spec.{Runtime}
use aiotruenas.Normalize.Read.{
  member, bool_true_values, bool_false_values, child, descend, resolve_source, cut, from_entry,
  coerce_bool, or_null, millis_timestamp_threshold, utc_from_timestamp, convert_timestamp,
}

child-descend : (entry : Value) (param : String) → child entry param ≡ descend entry (param ∷ [])
unfolding descend
child-descend entry param = ground arith

-- The lookup of a source path is the walk along its pieces; a plain name is its only piece.
pub resolve_source-descend :
    (entry : Value) (param : String)
    → let (p, path) = Text.split b'/' param in resolve_source entry param ≡ descend entry (p ∷ path)
unfolding resolve_source
resolve_source-descend entry param = elim (Bool-cases (Text.has_char b'/' param)) [
  | inl nested ↦ rw nested
  | inr plain ↦ rw (plain, split_absent b'/' param plain) (child-descend entry param)
]

take_of_length-le : (n : ℕ) (s : String) → Text.length s ≤ n → Text.take n s ≡ s
unfolding Text.length Text.take
take_of_length-le zero String.[] h = refl
take_of_length-le (suc n) String.[] h = refl
take_of_length-le zero (String.◌∷◌ c s) h = absurd (omega arith)
take_of_length-le (suc n) (String.◌∷◌ c s) h =
    ap (String.◌∷◌ c) (take_of_length-le n s (omega arith))

module _ (R : Runtime) where
  -- A text that the path leads to is returned cut to the limit, whether a float would be rounded or
  -- not.
  pub from_entry-str :
      (entry : Value) (param : String) (default : Value) (n : ℕ) (digits : Option ℕ) (s : String)
      → resolve_source entry param ≡ some (str s)
      → (from_entry R entry param default (some n) digits ≡ str (Text.take n s))
        × (Text.length (Text.take n s) ≤ n)
  unfolding from_entry cut
  from_entry-str entry param default n (some digits) s h =
      (ground (arith, take_of_length-le n s), length-take-le n s)
  from_entry-str entry param default n none s h =
      (ground (arith, take_of_length-le n s), length-take-le n s)

-- The coercion gives any default back, and it gives b whatever the default is.
abbrev pub IsMalformed : Value → Type 0
IsMalformed v = (w : Value) → coerce_bool v w ≡ w

abbrev pub IsCoerced : Value → Bool → Type 0
IsCoerced v b = (w : Value) → coerce_bool v w ≡ bool b

pub coerce_bool-cases : (v : Value) → IsMalformed v ⊎ (b : Bool) × IsCoerced v b
unfolding coerce_bool
coerce_bool-cases (bool b) = inr (b, λ w. refl)
coerce_bool-cases (str s) = elim (Bool-cases (member (Text.strip_lower s) bool_true_values)) [
  | inl affirmed ↦ inr (true, λ w. rw affirmed refl)
  | inr not_affirmed ↦ elim (Bool-cases (member (Text.strip_lower s) bool_false_values)) [
    | inl denied ↦ inr (false, λ w. rw (not_affirmed, denied) refl)
    | inr unknown ↦ inl (λ w. rw (not_affirmed, unknown) refl)
  ]
]
coerce_bool-cases _ = inl (λ w. refl)

convert_timestamp-pos :
    (R : Runtime) (n : ℕ)
    → 0 < n
    → convert_timestamp R (some (int (pos n))) ≡ or_null (utc_from_timestamp R n)
unfolding convert_timestamp
convert_timestamp-pos R zero h = absurd (omega arith)
convert_timestamp-pos R (suc n) h = refl

module _ (R : Runtime)
    (seconds : (n : ℕ)
      → (x : Float) × (R.div_1000 (n * 1000) ≡ some x)
        × (R.from_float_seconds x ≡ R.from_seconds n)) where
  -- If n * 1000 / 1000 is the float of n seconds: an instant in seconds that is at most the threshold
  -- is stored as the same instant in milliseconds, if those are above it.
  pub convert_timestamp-millis :
      (n : ℕ)
      → n ≤ millis_timestamp_threshold
      → millis_timestamp_threshold < n * 1000
      → convert_timestamp R (some (int (pos (n * 1000)))) ≡ convert_timestamp R (some (int (pos n)))
  unfolding utc_from_timestamp
  convert_timestamp-millis n low high =
      rw (convert_timestamp-pos R (n * 1000) (omega arith), convert_timestamp-pos R n (omega arith))
        (ground (arith, (seconds n).1, (seconds n).2))

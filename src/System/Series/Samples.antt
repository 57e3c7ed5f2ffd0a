-- ===== src/System/Series/Samples.antt =====
-- Samples by series, as they are noted one by one.
use mathlib.Core.List.{append-nil, append_assoc}
use aiotruenas.Base.{
  String, Bool, true, false, ◌||◌, ◌≡◌, refl, ap, Option, none, some, List, [], ◌∷◌, ◌++◌, ◌==◌,
  arith, string_eq, nat_eq, if◌then◌else◌, Eq,
}
use aiotruenas.Base.Assoc.{Dict, lookup, insert, lookup-insert}
use aiotruenas.Value.{Value, str, Items, nil, cons}
use aiotruenas.System.Models.{Finite}
use aiotruenas.System.Series.{samples_or_none}

-- Whether an entry of a legend is this name.
abbrev pub is_name : String → Value → Bool
is_name name (str n) = name == n
is_name name v = false

unfoldable pub names_series : String → Items → Bool
names_series name nil = false
names_series name (cons w legend) = is_name name w || names_series name legend

abbrev pub as_list : Option Finite → List Finite
as_list none = []
as_list (some x) = x ∷ []

abbrev pub either : Option (List Finite) → List Finite → List Finite
either none rest = rest
either (some xs) rest = xs ++ rest

abbrev pub extend : Option (List Finite) → List Finite → Option (List Finite)
extend none [] = none
extend none (x ∷ xs) = some (x ∷ xs)
extend (some ys) xs = some (ys ++ xs)

pub extend-append :
    (o : Option (List Finite)) (xs ys : List Finite) → extend (extend o xs) ys ≡ extend o (xs ++ ys)
extend-append none [] ys = refl
extend-append none (x ∷ xs) ys = refl
extend-append (some zs) xs ys = ap some (append_assoc zs xs ys)

pub extend-none : (o : Option (List Finite)) → extend o [] ≡ o
extend-none none = refl
extend-none (some ys) = ap some (append-nil ys)

pub either-append : (o : Option (List Finite)) (ys : List Finite) → either o [] ++ ys ≡ either o ys
either-append none ys = refl
either-append (some xs) ys = append_assoc xs [] ys

-- No key occurs twice.
abbrev pub IsNodup : Dict String (List Finite) → Type 0
IsNodup [] = Unit
IsNodup ((k, v) ∷ d) = (lookup k d ≡ none) × IsNodup d

pub insert-IsNodup :
    (k : String) (v : List Finite) (d : Dict String (List Finite))
    → IsNodup d
    → IsNodup (insert k v d)
unfolding insert lookup
insert-IsNodup k v [] nodup = (refl, tt)
insert-IsNodup k v ((j, w) ∷ d) (fresh, nodup) =
    ground (arith, insert-IsNodup k v d nodup, lookup-insert j k v d)

-- The sample, if it is of the series and a finite number, before the others.
abbrev pub with_sample : Bool → Option Finite → List Finite → List Finite
with_sample true (some x) xs = x ∷ xs
with_sample named o xs = xs

pub with_sample-none : (named : Bool) (xs : List Finite) → with_sample named none xs ≡ xs
with_sample-none true xs = refl
with_sample-none false xs = refl

pub extend-sample :
    (o : Option (List Finite)) (x : Finite)
    → some (samples_or_none o ++ (x ∷ [])) ≡ extend o (x ∷ [])
extend-sample none x = refl
extend-sample (some xs) x = refl

pub with_sample-append :
    (named : Bool) (o : Option Finite) (xs : List Finite)
    → with_sample named o [] ++ xs ≡ with_sample named o xs
with_sample-append true (some x) xs = refl
with_sample-append true none xs = refl
with_sample-append false o xs = refl

-- One sample noted under its name, unless that is another fixed one.
module _ {ℓ} {K : Type ℓ} ⦃e : Eq K⦄ where
  pub lookup-noted :
      (time name n : K) (x : Finite) (samples : Dict K (List Finite))
      → (name == time) ≡ false
      → lookup name (
          if n == time
          then samples
          else insert n (samples_or_none (lookup n samples) ++ (x ∷ [])) samples)
        ≡ extend (lookup name samples) (with_sample (name == n) (some x) [])
  lookup-noted time name n x samples other = ground (
    arith,
    lookup-insert name n (samples_or_none (lookup n samples) ++ (x ∷ [])) samples,
    extend-sample (lookup n samples) x,
    extend-none (lookup name samples),
  )

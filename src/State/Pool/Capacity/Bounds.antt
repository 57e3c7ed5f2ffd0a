-- ===== src/State/Pool/Capacity/Bounds.antt =====
-- What `apply_pool_capacity` publishes.
use mathlib.Core.Path.{subst}
use aiotruenas.Base.{
  ℕ, ◌-◌, ◌≤◌, ◌<◌, true, ◌≡◌, refl, sym, ◌⊎◌, inl, inr, Option, none, some, arith, Bool-cases,
  string_eq,
}
use aiotruenas.Base.Int.{ℤ, pos, negsuc, ◌+ℤ◌, ◌-ℤ◌}
use aiotruenas.Value.{text, null, int, Fields, get, key_eq}
use aiotruenas.Value.Dict.{get-put}
use aiotruenas.State.Cache.{Platform}
use aiotruenas.State.Pool.Capacity.{
  is_plausible_capacity, Figures, figures_of, put_unknown, allocated, put_capacity, put_figures,
  apply_pool_capacity,
}

-- Every figure of the pool is null.
abbrev pub IsUnknown : Fields → Type 0
IsUnknown vals =
    (get (text "available") vals ≡ some null)
    × (get (text "total") vals ≡ some null)
    × (get (text "usage") vals ≡ some null)
    × (get (text "size") vals ≡ some null)
    × (get (text "allocated") vals ≡ some null)
    × (get (text "free") vals ≡ some null)

-- The figures are those of a pool with `total` bytes, of which `available` are free.
abbrev pub HasFigures : ℕ → ℕ → Fields → Type 0
HasFigures available total vals =
    (get (text "available") vals ≡ some (int (pos available)))
    × (get (text "total") vals ≡ some (int (pos total)))
    × (get (text "size") vals ≡ some (int (pos total)))
    × (get (text "allocated") vals ≡ some (int (pos (total - available))))

plausible :
    (available total : ℤ) (used : Option ℤ)
    → is_plausible_capacity available total used ≡ true
    → (a : ℕ) × (t : ℕ) × (available ≡ pos a) × (total ≡ pos t) × (a ≤ t) × (0 < t)
unfolding is_plausible_capacity
plausible (negsuc a) total used h = ground arith
plausible (pos a) (negsuc t) used h = ground arith
plausible (pos a) (pos t) used h = (a, t, refl, refl, ground arith, ground arith)

allocated_lem :
    (a t : ℕ) (used : Option ℤ)
    → a ≤ t
    → is_plausible_capacity (pos a) (pos t) used ≡ true
    → allocated (pos a) (pos t) used ≡ pos (t - a)
unfolding allocated ◌-ℤ◌ ◌+ℤ◌ is_plausible_capacity
allocated_lem a t none le h = ground arith
allocated_lem a t (some (pos u)) le h = ground arith
allocated_lem a t (some (negsuc u)) le h = ground arith

put_unknown-IsUnknown : (vals : Fields) → IsUnknown (put_unknown vals)
unfolding put_unknown key_eq string_eq
put_unknown-IsUnknown vals =
    (simp (get-put), simp (get-put), simp (get-put), simp (get-put), simp (get-put), simp (get-put))

put_capacity-HasFigures :
    (P : Platform) (a t : ℕ) (used : Option ℤ) (vals : Fields)
    → a ≤ t
    → is_plausible_capacity (pos a) (pos t) used ≡ true
    → HasFigures a t (put_capacity P (pos a) (pos t) used vals)
unfolding put_capacity key_eq string_eq
put_capacity-HasFigures P a t used vals le h = (
  simp (get-put),
  simp (get-put),
  simp (get-put),
  rw (← allocated_lem a t used le h) (simp (get-put)),
)

-- Either unknown, or the figures of a size and of a part of it.
abbrev pub IsCapacity : Fields → Type 0
IsCapacity vals =
    IsUnknown vals
    ⊎ (available : ℕ) × (total : ℕ) × (available ≤ total)
      × (0 < total)
      × HasFigures available total vals

plausible-IsCapacity :
    (P : Platform) (available total : ℤ) (used : Option ℤ) (vals : Fields)
    → is_plausible_capacity available total used ≡ true
    → IsCapacity (put_capacity P available total used vals)
plausible-IsCapacity P available total used vals h =
    let (a, t, is_a, is_t, le, lt) = plausible available total used h in
    subst (λ x. IsCapacity (put_capacity P x total used vals)) (sym is_a)
      (subst (λ x. IsCapacity (put_capacity P (pos a) x used vals)) (sym is_t)
        (inr (a, t, le, lt, put_capacity-HasFigures P a t used vals le cc)))

put_figures-IsCapacity :
    (P : Platform) (figures : Figures) (vals : Fields) → IsCapacity (put_figures P figures vals)
unfolding put_figures
put_figures-IsCapacity P (none, total, used) vals = inl (put_unknown-IsUnknown vals)
put_figures-IsCapacity P (some available, none, used) vals = inl (put_unknown-IsUnknown vals)
put_figures-IsCapacity P (some available, some total, used) vals =
    elim (Bool-cases (is_plausible_capacity available total used)) [
      | inl h ↦ rw h (plausible-IsCapacity P available total used vals h)
      | inr h ↦ rw h (inl (put_unknown-IsUnknown vals))
    ]

-- Whatever the responses say, a pool gets no figures, or a size and an available part of it, of which
-- the rest counts as allocated.
pub apply_pool_capacity-IsCapacity :
    (P : Platform) (root : Option Fields) (vals : Fields)
    → IsCapacity (apply_pool_capacity P root vals)
unfolding apply_pool_capacity
apply_pool_capacity-IsCapacity P root vals = put_figures-IsCapacity P (figures_of P root vals) vals

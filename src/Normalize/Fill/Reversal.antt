-- ===== src/Normalize/Fill/Reversal.antt =====
-- A boolean field with `reverse`, beside the same field without it.
use aiotruenas.Base.{
  Bool, true, false, not, ◌≡◌, refl, ap, String, ◌∙◌, ◌⊎◌, none, some, if◌then◌else◌, Option-cases,
  inl, inr, string_eq,
}
use aiotruenas.Value.{Value, bool, truthy}
use aiotruenas.Normalize.Spec.{Runtime, ApiValueSpec, is_bool, source_of}
use aiotruenas.Normalize.Read.{resolve_source, coerce_bool, from_entry_bool, bool_default}
use aiotruenas.Normalize.Read.Laws.{IsMalformed, IsCoerced, coerce_bool-cases}
use aiotruenas.Normalize.Fill.{read_val}

found-some :
    (entry : Value) (param : String) (v w : Value) (r : Bool)
    → resolve_source entry param ≡ some v
    → from_entry_bool entry param w r
      ≡ (if r then bool (not (truthy (coerce_bool v w))) else coerce_bool v w)
unfolding from_entry_bool
found-some entry param v w r found = rw (found, from_entry_bool) refl

found-none :
    (entry : Value) (param : String) (w : Value) (r : Bool)
    → resolve_source entry param ≡ none
    → from_entry_bool entry param w r ≡ w
unfolding from_entry_bool
found-none entry param w r missing = rw (missing, from_entry_bool) refl

contrary :
    (v w : Value) (b : Bool)
    → coerce_bool v w ≡ bool b
    → bool (not (truthy (coerce_bool v w))) ≡ bool (not b)
unfolding truthy
contrary v w b h = ap (λ x. bool (not (truthy x))) h

not-not : (d : Bool) → bool (not (not d)) ≡ bool d
not-not true = refl
not-not false = refl

abbrev pub plain : ApiValueSpec → ApiValueSpec
plain val = record val { reverse = some false }

abbrev pub reversed : ApiValueSpec → ApiValueSpec
reversed val = record val { reverse = some true }

module _ (R : Runtime) (entry : Value) (val : ApiValueSpec) (d : Bool) where
  -- The two readings of a field.
  abbrev pub Reads : Bool → Bool → Type 0
  Reads a b = (read_val R entry (plain val) ≡ bool a) × (read_val R entry (reversed val) ≡ bool b)

  read_val-bool :
      is_bool val ≡ true
      → val.default ≡ some (bool d)
      → (read_val R entry (plain val) ≡ from_entry_bool entry (source_of val) (bool d) false)
        × (read_val R entry (reversed val)
            ≡ from_entry_bool entry (source_of val) (bool (not d)) true)
  unfolding read_val is_bool bool_default truthy
  read_val-bool typed default = (rw (typed, default) refl, rw (typed, default) refl)

  from_source :
      is_bool val ≡ true
      → val.default ≡ some (bool d)
      → (a b : Bool) → (from_entry_bool entry (source_of val) (bool d) false ≡ bool a)
      → (from_entry_bool entry (source_of val) (bool (not d)) true ≡ bool b)
      → Reads a b
  from_source typed default a b h k =
      let (first, second) = read_val-bool typed default in (first ∙ h, second ∙ k)

  -- A boolean field with the default d: if it is missing, it reads as d, and as the contrary with
  -- `reverse`; if its value is coerced to b, as b and as the contrary; but if its value is
  -- malformed, it reads as d with `reverse` too.
  pub read_val-reversed :
      is_bool val ≡ true
      → val.default ≡ some (bool d)
      → ((resolve_source entry (source_of val) ≡ none) × Reads d (not d))
        ⊎ (v : Value) × (resolve_source entry (source_of val) ≡ some v)
          × (((b : Bool) × IsCoerced v b × Reads b (not b)) ⊎ (IsMalformed v × Reads d d))
  read_val-reversed typed default = elim (Option-cases (resolve_source entry (source_of val))) [
    | inl missing ↦ inl (
      missing,
      from_source typed default d (not d) (found-none entry (source_of val) _ false missing)
          (found-none entry (source_of val) _ true missing),
    )
    | inr (v, found) ↦ inr (
      v,
      found,
      elim (coerce_bool-cases v) [
        | inl malformed ↦ inr (
          malformed,
          from_source typed default d d
              (found-some entry (source_of val) v _ false found ∙ malformed (bool d))
              (found-some entry (source_of val) v _ true found
                ∙ contrary v _ (not d) (malformed (bool (not d)))
                ∙ not-not d),
        )
        | inr (b, known) ↦ inl (
          b,
          known,
          from_source typed default b (not b)
              (found-some entry (source_of val) v _ false found ∙ known (bool d))
              (found-some entry (source_of val) v _ true found
                ∙ contrary v _ b (known (bool (not d)))),
        )
      ],
    )
  ]

-- ===== src/Helpers/Names.antt =====
-- `_stat_name_similar`: near-misses among the names of stat graphs.
use aiotruenas.Base.{
  ℕ, zero, suc, ◌+◌, ◌-◌, String, Bool, true, false, not, ◌||◌, ◌&&◌, ◌≡◌, refl, List, [], ◌∷◌,
  arith, leb, nat_eq,
}
use mathlib.Core.List.{reverse}
use aiotruenas.Value.Text.{codes, same_codes, begins}
use aiotruenas.Helpers.System.{remove_from, size}

-- `s[:n]`
abbrev take : ℕ → List ℕ → List ℕ
take zero s = []
take (suc n) [] = []
take (suc n) (c ∷ s) = c ∷ take n s

-- `s.endswith(suffix)`
ends : List ℕ → List ℕ → Bool
unfolding begins
ends suffix s = begins (reverse suffix) (reverse s)

or_swap : (p q r s : Bool) → (p || q || r || s) ≡ (r || s || p || q)
or_swap p q r s = ground arith

-- The test, from its parts.
abbrev near : Bool → Bool → Bool → ℕ → Bool → Bool
near same bare part distance start = not same && (bare || part || (leb distance 2 && start))

-- `lower` is Python's.
module _ (lower : List ℕ → List ℕ) where
  similar_codes : List ℕ → List ℕ → Bool
  unfolding same_codes remove_from begins ends
  similar_codes a b =
      near (same_codes a b) (same_codes (remove_from (codes "_") 0 a) (remove_from (codes "_") 0 b))
        (begins b a || ends b a || begins a b || ends a b) ((size a - size b) + (size b - size a))
        (same_codes (take 3 a) (take 3 b))

  unfoldable pub stat_name_similar : String → String → Bool
  unfolding similar_codes
  stat_name_similar a b = similar_codes (lower (codes a)) (lower (codes b))

  add_comm : (m n : ℕ) → m + n ≡ n + m
  add_comm m n = omega arith

  same_codes-sym : (s t : List ℕ) → same_codes s t ≡ same_codes t s
  unfolding same_codes
  same_codes-sym [] [] = refl
  same_codes-sym [] (b ∷ t) = refl
  same_codes-sym (a ∷ s) [] = refl
  same_codes-sym (a ∷ s) (b ∷ t) = ground (arith, same_codes-sym s t)

  same_codes_refl : (s : List ℕ) → same_codes s s ≡ true
  unfolding same_codes
  same_codes_refl [] = refl
  same_codes_refl (a ∷ s) = ground (arith, same_codes_refl s)

  similar_codes-sym : (a b : List ℕ) → similar_codes a b ≡ similar_codes b a
  unfolding similar_codes
  similar_codes-sym a b = λ i.
      near (same_codes-sym a b i)
        (same_codes-sym (remove_from (codes "_") 0 a) (remove_from (codes "_") 0 b) i)
        (or_swap (begins b a) (ends b a) (begins a b) (ends a b) i)
        (add_comm (size a - size b) (size b - size a) i) (same_codes-sym (take 3 a) (take 3 b) i)

  -- Similarity is symmetric, and no name is similar to itself.
  pub stat_name_similar-sym :
      (a b : String)
      → (stat_name_similar a b ≡ stat_name_similar b a) × (stat_name_similar a a ≡ false)
  unfolding stat_name_similar similar_codes
  stat_name_similar-sym a b = (
    similar_codes-sym (lower (codes a)) (lower (codes b)),
    rw (same_codes_refl (lower (codes a))),
  )

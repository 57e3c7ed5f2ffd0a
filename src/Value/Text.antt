-- ===== src/Value/Text.antt =====
-- What the library uses of Python's `str`: length and slices in code points, `split`, and
-- `strip().lower()` on code points. `lower` maps the ASCII letters and the Kelvin sign, the only
-- characters with a lower-case form of one ASCII letter; the library compares with ASCII texts.
use Prim.Native.Char.{Char, code}
use aiotruenas.Base.{
  ℕ, zero, suc, ◌+◌, ◌≤◌, String, Bool, true, false, ◌||◌, ◌&&◌, ◌≡◌, refl, List, [], ◌∷◌, arith,
  leb, ◌==◌, nat_eq, if◌then◌else◌,
}

-- `len(s)`
unfoldable pub length : String → ℕ
length String.[] = 0
length (String.◌∷◌ c s) = suc (length s)

-- `s[:n]`
unfoldable pub take : ℕ → String → String
take zero s = String.[]
take (suc n) String.[] = String.[]
take (suc n) (String.◌∷◌ c s) = String.◌∷◌ c (take n s)

abbrev pub codes : String → List ℕ
codes String.[] = []
codes (String.◌∷◌ c s) = code c ∷ codes s

-- `chr(sep) in s`
unfoldable pub has_char : ℕ → String → Bool
unfolding nat_eq
has_char sep String.[] = false
has_char sep (String.◌∷◌ c s) = code c == sep || has_char sep s

-- `s.split(chr(sep))`: the first piece, and those behind each separator.
unfoldable pub split : ℕ → String → String × List String
unfolding nat_eq
split sep String.[] = (String.[], [])
split sep (String.◌∷◌ c s) =
    let (piece, pieces) = split sep s in
    if code c == sep then (String.[], piece ∷ pieces) else (String.◌∷◌ c piece, pieces)

-- `chr(c).isspace()`
unfoldable pub is_space : ℕ → Bool
unfolding nat_eq
is_space c =
    (leb 9 c && leb c 13)
    || (leb 28 c && leb c 32)
    || c == 133
    || c == 160
    || c == 5760
    || (leb 8192 c && leb c 8202)
    || c == 8232
    || c == 8233
    || c == 8239
    || c == 8287
    || c == 12288

-- A character before a text without spaces at its end.
unfoldable pub trim : Char → String → String
trim c String.[] = if is_space (code c) then String.[] else String.◌∷◌ c String.[]
trim c (String.◌∷◌ d t) = String.◌∷◌ c (String.◌∷◌ d t)

-- `s.rstrip()` and `s.strip()`
unfoldable pub rstrip : String → String
unfolding trim
rstrip String.[] = String.[]
rstrip (String.◌∷◌ c s) = trim c (rstrip s)

unfoldable pub strip : String → String
unfolding rstrip
strip String.[] = String.[]
strip (String.◌∷◌ c s) =
    let rest = strip s in if is_space (code c) then rest else rstrip (String.◌∷◌ c s)

-- `s.lstrip()`
unfoldable pub strip_left : List ℕ → List ℕ
unfolding is_space
strip_left [] = []
strip_left (c ∷ s) = let rest = strip_left s in if is_space c then rest else c ∷ s

-- `s.rstrip()`
unfoldable pub strip_right : List ℕ → List ℕ
unfolding is_space
strip_right [] = []
strip_right (c ∷ s) = keep c (strip_right s)
  where
    keep : ℕ → List ℕ → List ℕ
    keep c [] = if is_space c then [] else c ∷ []
    keep c (d ∷ rest) = c ∷ d ∷ rest

lower_code : ℕ → ℕ
unfolding nat_eq
lower_code c = if leb b'A' c && leb c b'Z' then c + 32 else if c == 8490 then b'k' else c

unfoldable pub lower : List ℕ → List ℕ
unfolding lower_code
lower [] = []
lower (c ∷ s) = lower_code c ∷ lower s

-- `s.strip().lower()`
unfoldable pub strip_lower : String → List ℕ
unfolding strip_left strip_right lower
strip_lower s = lower (strip_right (strip_left (codes s)))

-- Equality of code points.
unfoldable pub same_codes : List ℕ → List ℕ → Bool
unfolding nat_eq
same_codes [] [] = true
same_codes (a ∷ s) (b ∷ t) = a == b && same_codes s t
same_codes _ _ = false

unfoldable pub begins : List ℕ → List ℕ → Bool
unfolding nat_eq
begins [] s = true
begins (a ∷ fragment) [] = false
begins (a ∷ fragment) (b ∷ s) = a == b && begins fragment s

-- `fragment in s`
unfoldable pub has_fragment : List ℕ → List ℕ → Bool
unfolding begins
has_fragment fragment [] = begins fragment []
has_fragment fragment (c ∷ s) = begins fragment (c ∷ s) || has_fragment fragment s

pub length-take-le : (n : ℕ) (s : String) → length (take n s) ≤ n
unfolding length take
length-take-le zero s = omega arith
length-take-le (suc n) String.[] = omega arith
length-take-le (suc n) (String.◌∷◌ c s) = omega (arith, length-take-le n s)

-- A text without the separator is its own only piece.
pub split_absent : (sep : ℕ) (s : String) → has_char sep s ≡ false → split sep s ≡ (s, [])
unfolding has_char split
split_absent sep String.[] h = refl
split_absent sep (String.◌∷◌ c s) h = ground (arith, split_absent sep s)

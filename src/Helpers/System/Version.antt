-- ===== src/Helpers/System/Version.antt =====
-- Versions are read back from their texts.
use native.Mathlib.Numerals.{unary_clauses}
use aiotruenas.Base.{
  ℕ, zero, suc, ◌+◌, ◌/◌, ◌%◌, ◌^◌, ◌≤◌, ◌<◌, String, false, ◌≡◌, refl, ap, ◌∙◌, Option, none, some,
  List, [], ◌∷◌, ◌++◌, ◌==◌, nat_eq, arith, ltb, if◌then◌else◌, Bool-cases, inl, inr,
}
use aiotruenas.Value.{str}
use aiotruenas.Value.Text
use aiotruenas.Helpers.System.{
  size, take_digit, remove_from, number_of, digits, minor_of, major_of, version_at, search_version,
  or_else, or_unknown, parse_version_tuple,
}

-- The decimal digits of a number below 10 ^ k, before those of the list.
unfoldable pub decimal : ℕ → ℕ → List ℕ → List ℕ
decimal zero n ds = ds
decimal (suc k) n ds =
    let more = decimal k (n / 10) (n % 10 ∷ ds) in if ltb n 10 then n ∷ ds else more

unfoldable pub chars : List ℕ → List ℕ
chars [] = []
chars (d ∷ ds) = (48 + d) ∷ chars ds

-- The text of a version, such as TrueNAS-25.10.0, for numbers of at most nine digits.
unfoldable pub version_text : ℕ → ℕ → List ℕ → List ℕ
unfolding decimal chars
version_text major minor tail =
    Text.codes "TrueNAS-"
    ++ (chars (decimal 9 major []) ++ (b'.' ∷ (chars (decimal 9 minor []) ++ tail)))

number_of-decimal :
    (k n : ℕ) (ds : List ℕ) → n < 10 ^ k → number_of 0 (decimal k n ds) ≡ number_of n ds
unfolding number_of decimal
number_of-decimal zero n ds h = ap (λ m. number_of m ds) (omega arith)
number_of-decimal (suc k) n ds h = elim (Bool-cases (ltb n 10)) [
  | inl small ↦ rw small (ap (λ m. number_of m ds) (omega arith))
  | inr large ↦ rw large (
      number_of-decimal k (n / 10) (n % 10 ∷ ds) (omega (arith, simp unary_clauses at h))
      ∙ ap (λ m. number_of m ds) (omega arith))
]

abbrev AllDigits : List ℕ → Type 0
AllDigits [] = Unit
AllDigits (d ∷ ds) = (d < 10) × AllDigits ds

decimal-AllDigits : (k n : ℕ) (ds : List ℕ) → AllDigits ds → AllDigits (decimal k n ds)
unfolding decimal
decimal-AllDigits zero n ds h = h
decimal-AllDigits (suc k) n ds h = elim (Bool-cases (ltb n 10)) [
  | inl small ↦ rw small (ground arith, h)
  | inr large ↦ rw large (decimal-AllDigits k (n / 10) (n % 10 ∷ ds) (omega arith, h))
]

size-decimal : (k n : ℕ) (ds : List ℕ) → size (decimal k n ds) ≤ k + size ds
unfolding decimal
size-decimal zero n ds = omega arith
size-decimal (suc k) n ds = elim (Bool-cases (ltb n 10)) [
  | inl small ↦ rw small (omega arith)
  | inr large ↦ rw large (omega (arith, size-decimal k (n / 10) (n % 10 ∷ ds)))
]

abbrev first_digit : (ℕ → Option ℕ) → List ℕ → Option ℕ
first_digit digit [] = none
first_digit digit (c ∷ s) = digit c

-- What is known of the digits of Unicode: those of ASCII have their values, and a dot is none.
abbrev pub ReadsDecimals : (ℕ → Option ℕ) → Type 0
ReadsDecimals digit = ((d : ℕ) → d < 10 → digit (48 + d) ≡ some d) × (digit b'.' ≡ none)

module _ (digit : ℕ → Option ℕ) (reads : ReadsDecimals digit) where
  digits-none :
      (n : ℕ) (rest : List ℕ) → first_digit digit rest ≡ none → digits digit n rest ≡ ([], rest)
  unfolding digits
  digits-none zero rest h = refl
  digits-none (suc n) [] h = refl
  digits-none (suc n) (c ∷ rest) h = ap (λ o. take_digit o c rest (digits digit n rest)) h

  digits-chars :
      (n : ℕ) (ds rest : List ℕ)
      → size ds ≤ n
      → AllDigits ds
      → first_digit digit rest ≡ none
      → digits digit n (chars ds ++ rest) ≡ (ds, rest)
  unfolding digits chars
  digits-chars n [] rest le all h = digits-none n rest h
  digits-chars zero (d ∷ ds) rest le all h = ground arith
  digits-chars (suc n) (d ∷ ds) rest le (small, all) h =
      ap (λ o. take_digit o (48 + d) (chars ds ++ rest) (digits digit n (chars ds ++ rest)))
        (reads.0 d small)
      ∙ ap (λ r. take_digit (some d) (48 + d) (chars ds ++ rest) r)
          (digits-chars n ds rest (omega arith) all h)

  -- A version at the start of a text.
  version_at-chars :
      (d : ℕ) (ds : List ℕ) (e : ℕ) (es tail : List ℕ)
      → size (d ∷ ds) ≤ 9
      → size (e ∷ es) ≤ 9
      → AllDigits (d ∷ ds)
      → AllDigits (e ∷ es)
      → first_digit digit tail ≡ none
      → version_at digit (chars (d ∷ ds) ++ (b'.' ∷ (chars (e ∷ es) ++ tail)))
        ≡ some (number_of 0 (d ∷ ds), number_of 0 (e ∷ es))
  unfolding version_at major_of minor_of nat_eq
  version_at-chars d ds e es tail majors minors all_majors all_minors ends =
      ap (λ r. major_of digit r)
        (digits-chars 9 (d ∷ ds) (b'.' ∷ (chars (e ∷ es) ++ tail)) majors all_majors reads.1)
      ∙ ap (λ r. minor_of digit (number_of 0 (d ∷ ds)) r)
          (digits-chars 9 (e ∷ es) tail minors all_minors ends)

abbrev AllLow : List ℕ → Type 0
AllLow [] = Unit
AllLow (c ∷ s) = (c < 60) × AllLow s

differs : (c b : ℕ) → b < c → (c == b) ≡ false
unfolding nat_eq
differs c b h = ground arith

-- Nothing to remove where the first code point of the pattern does not occur.
remove_from-low :
    (c : ℕ) (pattern s : List ℕ) → 60 ≤ c → AllLow s → remove_from (c ∷ pattern) 0 s ≡ s
unfolding remove_from Text.begins nat_eq
remove_from-low c pattern [] high low = refl
remove_from-low c pattern (b ∷ s) high (small, low) =
    rw (differs c b (omega arith)) (ap (λ rest. b ∷ rest) (remove_from-low c pattern s high low))

size-decimal_cons : (k n d : ℕ) (ds : List ℕ) → 1 ≤ size (decimal k n (d ∷ ds))
unfolding decimal
size-decimal_cons zero n d ds = omega arith
size-decimal_cons (suc k) n d ds = elim (Bool-cases (ltb n 10)) [
  | inl small ↦ rw small (omega arith)
  | inr large ↦ rw large (size-decimal_cons k (n / 10) (n % 10) (d ∷ ds))
]

size-decimal_positive : (k n : ℕ) → 1 ≤ size (decimal (suc k) n [])
unfolding decimal
size-decimal_positive k n = elim (Bool-cases (ltb n 10)) [
  | inl small ↦ rw small (omega arith)
  | inr large ↦ rw large (size-decimal_cons k (n / 10) (n % 10) [])
]

chars-AllLow : (ds rest : List ℕ) → AllDigits ds → AllLow rest → AllLow (chars ds ++ rest)
unfolding chars
chars-AllLow [] rest all low = low
chars-AllLow (d ∷ ds) rest (small, all) low = (omega arith, chars-AllLow ds rest all low)

module _ (digit : ℕ → Option ℕ) (reads : ReadsDecimals digit) where
  search_version-chars :
      (ms ns tail : List ℕ)
      → 1 ≤ size ms
      → size ms ≤ 9
      → 1 ≤ size ns
      → size ns ≤ 9
      → AllDigits ms
      → AllDigits ns
      → first_digit digit tail ≡ none
      → search_version digit (chars ms ++ (b'.' ∷ (chars ns ++ tail)))
        ≡ some (number_of 0 ms, number_of 0 ns)
  unfolding search_version chars
  search_version-chars [] ns tail m m9 n n9 all_m all_n ends = ground arith
  search_version-chars (d ∷ ds) [] tail m m9 n n9 all_m all_n ends = ground arith
  search_version-chars (d ∷ ds) (e ∷ es) tail m m9 n n9 all_m all_n ends =
      ap (λ o. or_else o (search_version digit (chars ds ++ (b'.' ∷ (chars (e ∷ es) ++ tail)))))
        (version_at-chars digit reads d ds e es tail m9 n9 all_m all_n ends)

  removed : List ℕ → List ℕ
  unfolding remove_from
  removed s = remove_from (Text.codes "SCALE-") 0 (remove_from (Text.codes "TrueNAS-") 0 s)

  removed-low : (s : List ℕ) → AllLow s → removed (Text.codes "TrueNAS-" ++ s) ≡ s
  unfolding removed remove_from Text.begins nat_eq
  removed-low s low =
      ap (λ c. remove_from (Text.codes "SCALE-") 0 c)
        (remove_from-low b'T' (Text.codes "rueNAS-") s (omega arith) low)
      ∙ remove_from-low b'S' (Text.codes "CALE-") s (omega arith) low

  number_of-printed : (n : ℕ) → n < 10 ^ 9 → number_of 0 (decimal 9 n []) ≡ n
  unfolding number_of
  number_of-printed n h = number_of-decimal 9 n [] h

  -- The two numbers of a version of at most nine digits each are read back from its text, with
  -- whatever follows them in digits and dots, if no digit follows the second at once.
  pub parse_version_tuple-version_text :
      (s : String) (major minor : ℕ) (tail : List ℕ)
      → major < 10 ^ 9
      → minor < 10 ^ 9
      → AllLow tail
      → first_digit digit tail ≡ none
      → Text.codes s ≡ version_text major minor tail
      → parse_version_tuple digit (str s) ≡ (major, minor)
  unfolding parse_version_tuple version_text removed
  parse_version_tuple-version_text s major minor tail majors minors low ends printed =
      let m = decimal 9 major [] in
      let n = decimal 9 minor [] in
      let m_digits = decimal-AllDigits 9 major [] tt in
      let n_digits = decimal-AllDigits 9 minor [] tt in
      let body = chars m ++ (b'.' ∷ (chars n ++ tail)) in
      ap (λ c. or_unknown (search_version digit (removed c))) printed
      ∙ ap (λ c. or_unknown (search_version digit c))
          (removed-low body (
            chars-AllLow m (b'.' ∷ (chars n ++ tail)) m_digits
              (omega arith, chars-AllLow n tail n_digits low)))
      ∙ ap or_unknown (
          search_version-chars m n tail (size-decimal_positive 8 major)
            (omega (arith, size-decimal 9 major [])) (size-decimal_positive 8 minor)
            (omega (arith, size-decimal 9 minor [])) m_digits n_digits ends)
      ∙ ap (λ x. (x, number_of 0 n)) (number_of-printed major majors)
      ∙ ap (λ x. (major, x)) (number_of-printed minor minors)

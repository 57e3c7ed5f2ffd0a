-- ===== src/State/Fallback/Log.antt =====
-- The log of the failing paths, key by key: each key is a flag that reports its changes.
use aiotruenas.Base.{
  String, Bool, true, false, ◌≡◌, refl, ◌∙◌, List, [], ◌∷◌, ◌==◌, string_eq, arith, if◌then◌else◌,
  Bool-cases, inl, inr,
}
use aiotruenas.Base.Assoc.{lookup-insert, lookup-erase}
use aiotruenas.State.Cache.{Note, warned, recovered, Cache}
use aiotruenas.State.Fallback.{
  is_failing, clear, flag_failing, note_failed, note_recovered, note_fallback_outcome,
}

pub is_failing-flag_failing :
    (key other : String) (s : Cache)
    → is_failing key (flag_failing other s) ≡ (if key == other then true else is_failing key s)
unfolding is_failing flag_failing string_eq
is_failing-flag_failing key other s =
    ground (arith, lookup-insert key other true s.fallback_failing)

pub is_failing-clear :
    (key other : String) (s : Cache)
    → is_failing key (clear other s) ≡ (if key == other then false else is_failing key s)
unfolding is_failing clear string_eq
is_failing-clear key other s = ground (arith, lookup-erase key other s.fallback_failing)

pub is_failing-note_fallback_outcome :
    (key other : String) (failed : Bool) (s : Cache)
    → is_failing key (note_fallback_outcome other failed s)
      ≡ (if key == other then failed else is_failing key s)
unfolding note_fallback_outcome note_failed note_recovered string_eq
is_failing-note_fallback_outcome key other true s = elim (Bool-cases (is_failing other s)) [
  | inl failing ↦ rw failing (ground arith)
  | inr working ↦ rw working (is_failing-flag_failing key other s)
]
is_failing-note_fallback_outcome key other false s = elim (Bool-cases (is_failing other s)) [
  | inl failing ↦ rw failing (is_failing-clear key other s)
  | inr working ↦ rw working (is_failing-clear key other s)
]

-- After an outcome, the key fails if that was a failure.
pub is_failing-noted :
    (key : String) (failed : Bool) (s : Cache)
    → is_failing key (note_fallback_outcome key failed s) ≡ failed
is_failing-noted key failed s = is_failing-note_fallback_outcome key key failed s ∙ ground arith

-- An outcome changes no endpoint.
pub ds-note :
    (key : String) (failed : Bool) (s : Cache) → (note_fallback_outcome key failed s).ds ≡ s.ds
unfolding note_fallback_outcome note_failed note_recovered flag_failing clear
ds-note key true s = elim (Bool-cases (is_failing key s)) [
  | inl failing ↦ rw failing
  | inr working ↦ rw working
]
ds-note key false s = elim (Bool-cases (is_failing key s)) [
  | inl failing ↦ rw failing
  | inr working ↦ rw working
]

pub ds-note_failed : (key : String) (s : Cache) → (note_failed key s).ds ≡ s.ds
unfolding note_fallback_outcome
ds-note_failed key s = ds-note key true s

pub ds-note_recovered : (key : String) (s : Cache) → (note_recovered key s).ds ≡ s.ds
unfolding note_fallback_outcome
ds-note_recovered key s = ds-note key false s

abbrev pub key_of : Note → String
key_of (warned key) = key
key_of (recovered key) = key

-- The lines about a key.
unfoldable pub lines_of : String → List Note → List Note
unfolding string_eq
lines_of key [] = []
lines_of key (note ∷ notes) =
    let rest = lines_of key notes in if key == key_of note then note ∷ rest else rest

-- The outcomes of a key among those of all.
unfoldable pub own : String → List (String × Bool) → List Bool
unfolding string_eq
own key [] = []
own key ((other, failed) ∷ rest) =
    let later = own key rest in if key == other then failed ∷ later else later

-- What the change of a flag reports.
abbrev pub report : String → Bool → Bool → List Note → List Note
report key false true notes = warned key ∷ notes
report key true false notes = recovered key ∷ notes
report key _ _ notes = notes

abbrev pub transitions : String → Bool → List Bool → List Note → List Note
transitions key failing [] notes = notes
transitions key failing (failed ∷ rest) notes =
    transitions key failed rest (report key failing failed notes)

unfoldable pub note_outcomes : List (String × Bool) → Cache → Cache
note_outcomes [] s = s
note_outcomes ((key, failed) ∷ rest) s = note_outcomes rest (note_fallback_outcome key failed s)

lines_of-note :
    (key other : String) (failed : Bool) (s : Cache)
    → lines_of key (note_fallback_outcome other failed s).log ≡ (
        if key == other
        then report key (is_failing key s) failed (lines_of key s.log)
        else lines_of key s.log)
unfolding note_fallback_outcome note_failed note_recovered lines_of string_eq
lines_of-note key other true s = elim (Bool-cases (is_failing other s)) [
  | inl failing ↦ rw failing (ground arith)
  | inr working ↦ rw working (ground arith)
]
lines_of-note key other false s = elim (Bool-cases (is_failing other s)) [
  | inl failing ↦ rw failing (ground arith)
  | inr working ↦ rw working (ground arith)
]

-- The lines about a key are the changes of its own flag, whatever the other keys do meanwhile.
pub lines_of-note_outcomes :
    (key : String) (outcomes : List (String × Bool)) (s : Cache)
    → lines_of key (note_outcomes outcomes s).log
      ≡ transitions key (is_failing key s) (own key outcomes) (lines_of key s.log)
unfolding note_outcomes own string_eq
lines_of-note_outcomes key [] s = refl
lines_of-note_outcomes key ((other, failed) ∷ rest) s =
    rw (lines_of-note_outcomes key rest (note_fallback_outcome other failed s)) (
      rw (is_failing-note_fallback_outcome key other failed s)
        (rw (lines_of-note key other failed s) (by_key (key == other))))
  where
    by_key :
        (same : Bool)
        → transitions key (if same then failed else is_failing key s) (own key rest) (
            if same
            then report key (is_failing key s) failed (lines_of key s.log)
            else lines_of key s.log)
          ≡ transitions key
              (is_failing key s)
              (if same then failed ∷ own key rest else own key rest)
              (lines_of key s.log)
    by_key true = refl
    by_key false = refl

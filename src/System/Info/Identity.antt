-- ===== src/System/Info/Identity.antt =====
-- One installation has one identifier.
use Prim.Native.Char.{Char, code}
use aiotruenas.Base.{
  String, Bool, true, false, ◌&&◌, ◌≡◌, refl, ap, ◌∙◌, arith, ◌==◌, string_eq, if◌then◌else◌, ok,
  Bool-cases, inl, inr,
}
use aiotruenas.Value.{Value, str}
use aiotruenas.Value.Text.{is_space, trim, rstrip, strip}
use aiotruenas.Rpc.{returned}
use aiotruenas.System.Info.{get_system_id, id_of}

unfoldable pub all_space : String → Bool
all_space String.[] = true
all_space (String.◌∷◌ c s) = is_space (code c) && all_space s

-- `s + t`
abbrev pub join : String → String → String
join String.[] t = t
join (String.◌∷◌ c s) t = String.◌∷◌ c (join s t)

rstrip-space : (s : String) → all_space s ≡ true → rstrip s ≡ String.[]
unfolding rstrip all_space
rstrip-space String.[] h = refl
rstrip-space (String.◌∷◌ c s) h = ap (trim c) (rstrip-space s (ground arith)) ∙ ground arith

rstrip-join : (s after : String) → all_space after ≡ true → rstrip (join s after) ≡ rstrip s
unfolding rstrip
rstrip-join String.[] after h = rstrip-space after h
rstrip-join (String.◌∷◌ c s) after h = ap (trim c) (rstrip-join s after h)

strip-space : (s : String) → all_space s ≡ true → strip s ≡ String.[]
unfolding strip all_space
strip-space String.[] h = refl
strip-space (String.◌∷◌ c s) h = ground (arith, strip-space s)

strip-join : (s after : String) → all_space after ≡ true → strip (join s after) ≡ strip s
unfolding strip
strip-join String.[] after h = strip-space after h
strip-join (String.◌∷◌ c s) after h =
    ap (λ rest. if is_space (code c) then rest else rstrip (join (String.◌∷◌ c s) after))
      (strip-join s after h)
    ∙ ap (λ rest. if is_space (code c) then strip s else rest)
        (rstrip-join (String.◌∷◌ c s) after h)

join-strip : (before s : String) → all_space before ≡ true → strip (join before s) ≡ strip s
unfolding strip all_space
join-strip String.[] s h = refl
join-strip (String.◌∷◌ c before) s h = ground (arith, join-strip before s)

rstrip-trim : (c : Char) (t : String) → rstrip t ≡ t → rstrip (trim c t) ≡ trim c t
unfolding rstrip trim
rstrip-trim c String.[] h = elim (Bool-cases (is_space (code c))) [
  | inl space ↦ rw space
  | inr other ↦ rw (other, trim) (rw other)
]
rstrip-trim c (String.◌∷◌ d t) h = ap (trim c) h

rstrip_idem : (s : String) → rstrip (rstrip s) ≡ rstrip s
unfolding rstrip
rstrip_idem String.[] = refl
rstrip_idem (String.◌∷◌ c s) = rstrip-trim c (rstrip s) (rstrip_idem s)

strip-trim :
    (c : Char) (t : String) → is_space (code c) ≡ false → strip (trim c t) ≡ rstrip (trim c t)
unfolding strip trim
strip-trim c String.[] h = ground arith
strip-trim c (String.◌∷◌ d t) h = ground arith

strip_idem : (s : String) → strip (strip s) ≡ strip s
unfolding strip
strip_idem String.[] = refl
strip_idem (String.◌∷◌ c s) = elim (Bool-cases (is_space (code c))) [
  | inl space ↦ rw space (strip_idem s)
  | inr other ↦ rw other (strip-trim c (rstrip s) other ∙ rstrip-trim c (rstrip s) (rstrip_idem s))
]

-- Wherever a text with another character than whitespace has whitespace around it, it is returned
-- as the same identifier, which has none around it.
pub get_system_id-padded :
    (repr : Value → String) (before s after : String)
    → all_space before ≡ true
    → all_space after ≡ true
    → (strip s == "") ≡ false
    → (get_system_id repr (returned (str (join before (join s after)))) ≡ ok (strip s))
      × (strip (strip s) ≡ strip s)
unfolding get_system_id id_of
get_system_id-padded repr before s after left right solid =
    let same : strip (join before (join s after)) ≡ strip s =
      join-strip before (join s after) left ∙ strip-join s after right in
    (rw same (ground arith), strip_idem s)

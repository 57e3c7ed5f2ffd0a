-- ===== src/Normalize/Uid/Laws.antt =====
-- The keymap finds the cached entry that holds the search value.
use aiotruenas.Base.{String, false, ◌≡◌, Option, none, some, [], arith, Bool-cases, ◌⊎◌, inl, inr}
use aiotruenas.Base.Assoc.{lookup, lookup-insert}
use aiotruenas.Value.{Key, Value, Fields, end, field, key_eq, get}
use aiotruenas.Value.Dict.{has, NodupKeys}
use aiotruenas.Normalize.Uid.{Keymap, search_key, note_entry, keymap_from, generate_keymap, given}

-- The cached entry of a uid has the search key.
abbrev pub Holds : String → Fields → Key → Key → Type 0
Holds search d k uid = (v : Value) × (get uid d ≡ some v) × (search_key search v ≡ some k)

lookup-note_entry :
    (o : Option Key) (j : Key) (keymap : Keymap) (k uid : Key)
    → lookup k (note_entry o j keymap) ≡ some uid
    → (lookup k keymap ≡ some uid) ⊎ ((o ≡ some k) × (uid ≡ j))
unfolding note_entry
lookup-note_entry none j keymap k uid h = inl h
lookup-note_entry (some i) j keymap k uid h = ground (arith, lookup-insert k i j keymap)

Holds-field :
    (search : String) (j : Key) (v : Value) (d : Fields) (k uid : Key)
    → has j d ≡ false
    → Holds search d k uid
    → Holds search (field j v d) k uid
unfolding get has
Holds-field search j v d k uid fresh (w, found, key) = (w, ground arith, key)

keymap_from-Holds :
    (search : String) (d : Fields) (keymap : Keymap) (k uid : Key)
    → NodupKeys d
    → lookup k (keymap_from search d keymap) ≡ some uid
    → (lookup k keymap ≡ some uid) ⊎ Holds search d k uid
unfolding keymap_from get
keymap_from-Holds search end keymap k uid u h = inl h
keymap_from-Holds search (field j v d) keymap k uid (fresh, u) h =
    elim (keymap_from-Holds search d (note_entry (search_key search v) j keymap) k uid u h) [
      | inr later ↦ inr (Holds-field search j v d k uid fresh later)
      | inl noted ↦ elim (lookup-note_entry (search_key search v) j keymap k uid noted) [
        | inl before ↦ inl before
        | inr (key, own) ↦ inr (v, ground arith, key)
      ]
    ]

-- In data without repeated uids, a uid that the keymap gives for a search value is the uid of a
-- cached dict with that value.
pub generate_keymap-Holds :
    (search : String) (d : Fields) (k uid : Key)
    → NodupKeys d
    → lookup k (generate_keymap d (some search)) ≡ some uid
    → Holds search d k uid
unfolding generate_keymap lookup
generate_keymap-Holds search d k uid u h = elim (Bool-cases (given (some search))) [
  | inr empty ↦ cc (rw empty at h)
  | inl used ↦ elim (keymap_from-Holds search d [] k uid u (rw used at h)) [
    | inl absent ↦ cc
    | inr held ↦ held
  ]
]

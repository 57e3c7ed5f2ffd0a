-- ===== src/System/Interfaces/Keyed.antt =====
-- Interfaces are keyed by their ids.
use aiotruenas.Base.{
  String, ◌≡◌, refl, Option, none, some, List, [], ◌∷◌, ◌++◌, arith, ◌==◌, string_eq, if◌then◌else◌,
  ok, ap, ◌∙◌,
}
use mathlib.Core.List.{append-nil, append_assoc}
use aiotruenas.Base.Assoc.{Dict, lookup, insert, lookup-insert}
use aiotruenas.Value.{Value, arr, Items, nil, cons}
use aiotruenas.Rpc.{returned}
use aiotruenas.System.Models.{NetworkInterface}
use aiotruenas.System.Fields.{Floats}
use aiotruenas.System.Interfaces.{
  usable_interface, note_entry, note_entries, get_network_interfaces, interfaces_of,
}

abbrev later_or : Option NetworkInterface → Option NetworkInterface → Option NetworkInterface
later_or none before = before
later_or (some interface) before = some interface

-- The interface, if it has this id.
abbrev pub with_id : String → Option NetworkInterface → Option NetworkInterface
with_id id none = none
with_id id (some interface) = if id == interface.id then some interface else none

-- Each interface stands under its own id.
abbrev pub IsKeyed : Dict String NetworkInterface → Type 0
IsKeyed [] = Unit
IsKeyed ((id, interface) ∷ interfaces) = (interface.id ≡ id) × IsKeyed interfaces

insert-IsKeyed :
    (interface : NetworkInterface) (d : Dict String NetworkInterface)
    → IsKeyed d
    → IsKeyed (insert interface.id interface d)
unfolding insert
insert-IsKeyed interface [] keyed = (refl, tt)
insert-IsKeyed interface ((id, other) ∷ d) (same, keyed) =
    ground (arith, insert-IsKeyed interface d keyed)

module _ (F : Floats) where
  -- The last entry with an id, by a search from the end of the list.
  unfoldable pub last_usable : String → Items → Option NetworkInterface
  last_usable id nil = none
  last_usable id (cons entry entries) =
      later_or (last_usable id entries) (with_id id (usable_interface F entry))

  abbrev unusable : Value → Option NetworkInterface → List Value → List Value
  unusable entry none rest = entry ∷ rest
  unusable entry (some interface) rest = rest

  -- The entries without a usable id.
  unfoldable pub unusable_entries : Items → List Value
  unusable_entries nil = []
  unusable_entries (cons entry entries) =
      unusable entry (usable_interface F entry) (unusable_entries entries)

  lookup-note_entry :
      (id : String) (entry : Value) (o : Option NetworkInterface) (d : Dict String NetworkInterface)
      (skipped : List Value)
      → lookup id (note_entry F entry o (d, skipped)).0 ≡ later_or (with_id id o) (lookup id d)
  unfolding note_entry
  lookup-note_entry id entry none d skipped = refl
  lookup-note_entry id entry (some interface) d skipped =
      ground (arith, lookup-insert id interface.id interface d)

  later_or_assoc :
      (a b c : Option NetworkInterface) → later_or a (later_or b c) ≡ later_or (later_or a b) c
  later_or_assoc none b c = refl
  later_or_assoc (some a) b c = refl

  lookup-note_entries :
      (id : String) (entries : Items) (d : Dict String NetworkInterface) (skipped : List Value)
      → lookup id (note_entries F entries (d, skipped)).0
        ≡ later_or (last_usable id entries) (lookup id d)
  unfolding note_entries last_usable
  lookup-note_entries id nil d skipped = refl
  lookup-note_entries id (cons entry entries) d skipped =
      let o = usable_interface F entry in
      let (d', skipped') = note_entry F entry o (d, skipped) in
      lookup-note_entries id entries d' skipped'
      ∙ ap (λ found. later_or (last_usable id entries) found)
          (lookup-note_entry id entry o d skipped)
      ∙ later_or_assoc (last_usable id entries) (with_id id o) (lookup id d)

  note_entry-skipped :
      (entry : Value) (o : Option NetworkInterface) (d : Dict String NetworkInterface)
      (skipped rest : List Value)
      → (note_entry F entry o (d, skipped)).1 ++ rest ≡ skipped ++ unusable entry o rest
  unfolding note_entry
  note_entry-skipped entry none d skipped rest = append_assoc skipped (entry ∷ []) rest
  note_entry-skipped entry (some interface) d skipped rest = refl

  note_entries-skipped :
      (entries : Items) (d : Dict String NetworkInterface) (skipped : List Value)
      → (note_entries F entries (d, skipped)).1 ≡ skipped ++ unusable_entries entries
  unfolding note_entries unusable_entries
  note_entries-skipped nil d skipped = rw append-nil
  note_entries-skipped (cons entry entries) d skipped =
      let o = usable_interface F entry in
      let (d', skipped') = note_entry F entry o (d, skipped) in
      note_entries-skipped entries d' skipped'
      ∙ note_entry-skipped entry o d skipped (unusable_entries entries)

  note_entry-IsKeyed :
      (entry : Value) (o : Option NetworkInterface) (d : Dict String NetworkInterface)
      (skipped : List Value)
      → IsKeyed d
      → IsKeyed (note_entry F entry o (d, skipped)).0
  unfolding note_entry
  note_entry-IsKeyed entry none d skipped keyed = keyed
  note_entry-IsKeyed entry (some interface) d skipped keyed = insert-IsKeyed interface d keyed

  note_entries-IsKeyed :
      (entries : Items) (d : Dict String NetworkInterface) (skipped : List Value)
      → IsKeyed d
      → IsKeyed (note_entries F entries (d, skipped)).0
  unfolding note_entries
  note_entries-IsKeyed nil d skipped keyed = keyed
  note_entries-IsKeyed (cons entry entries) d skipped keyed =
      let o = usable_interface F entry in
      let (d', skipped') = note_entry F entry o (d, skipped) in
      note_entries-IsKeyed entries d' skipped' (note_entry-IsKeyed entry o d skipped keyed)

  -- A list of interfaces is always returned as a dict in which each interface stands under its own
  -- id; the one under an id is that of the last entry with it, ids without an entry are absent, and
  -- the warning lists the entries without a usable id, in order.
  pub get_network_interfaces-last :
      (repr : Value → String) (entries : Items) (id : String)
      → (interfaces : Dict String NetworkInterface) × (get_network_interfaces F repr
            (returned (arr entries))
          ≡ ok (interfaces, unusable_entries entries))
        × (lookup id interfaces ≡ last_usable id entries)
        × IsKeyed interfaces
  unfolding get_network_interfaces interfaces_of lookup
  get_network_interfaces-last repr entries id = (
    (note_entries F entries ([], [])).0,
    ap (λ skipped. ok ((note_entries F entries ([], [])).0, skipped))
        (note_entries-skipped entries [] []),
    lookup-note_entries id entries [] [] ∙ later_or_none (last_usable id entries),
    note_entries-IsKeyed entries [] [] tt,
  )
    where
      later_or_none : (o : Option NetworkInterface) → later_or o none ≡ o
      later_or_none none = refl
      later_or_none (some interface) = refl

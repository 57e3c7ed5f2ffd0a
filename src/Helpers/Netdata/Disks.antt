-- ===== src/Helpers/Netdata/Disks.antt =====
-- The disk temperatures of a graph.
pub mod Range
use aiotruenas.Base.{
  ℕ, zero, suc, ◌+◌, String, Bool, true, false, not, ◌&&◌, ◌||◌, Option, none, some, List, [], ◌∷◌,
  ◌==◌, nat_eq, if◌then◌else◌, ◌/◌, ◌%◌, ◌-◌,
}
use aiotruenas.Base.Int.{pos}
use aiotruenas.Value.{
  text, Value, null, float, obj, Items, nil, cons, Fields, end, field, truthy, finite,
}
use aiotruenas.Value.Dict.{put}
use aiotruenas.Errors.Classify.{member_of}
use aiotruenas.Helpers.Netdata.{Arithmetic, size_of, has_text, mean_of, is_finite_number, readings}

module _ (A : Arithmetic) where
  unfoldable pub insert_sorted : Value → List Value → List Value
  insert_sorted v [] = v ∷ []
  insert_sorted v (w ∷ ws) =
      let rest = insert_sorted v ws in if A.at_most v w then v ∷ w ∷ ws else w ∷ rest

  -- `sorted(values)`
  unfoldable pub sorted : List Value → List Value
  unfolding insert_sorted
  sorted [] = []
  sorted (v ∷ vs) = insert_sorted v (sorted vs)

  abbrev pub nth : List Value → ℕ → Value
  nth [] n = null
  nth (v ∷ vs) zero = v
  nth (v ∷ vs) (suc n) = nth vs n

  -- `_median`, of a list that is not empty
  unfoldable pub median : List Value → Value
  unfolding sorted nat_eq
  median vs =
      let mid = size_of vs / 2 in
      if size_of vs % 2 == 1
      then nth (sorted vs) mid
      else A.over (A.plus (nth (sorted vs) (mid - 1)) (nth (sorted vs) mid)) 2

  -- `0.0 <= v <= 100.0`
  unfoldable pub in_range : Value → Bool
  in_range v = A.at_most (float (finite (pos 0) 0)) v && A.at_most v (float (finite (pos 100) 0))

  unfoldable pub sane : List Value → List Value
  unfolding in_range
  sane [] = []
  sane (v ∷ vs) = let rest = sane vs in if in_range v then v ∷ rest else rest

  unfoldable pub note_median : Value → List Value → Fields → Fields
  unfolding median
  note_median identifier [] temps = temps
  note_median identifier (v ∷ vs) temps = put (text (A.format identifier)) (median (v ∷ vs)) temps

  -- `_disk_temps_from_graph_data`: its loop, on the temperatures so far.
  unfoldable pub disk_temps : Items → Fields → Fields
  unfolding note_median sane member_of truthy
  disk_temps nil temps = temps
  disk_temps (cons (obj entry) rest) temps =
      let identifier = member_of (obj entry) "identifier" in
      disk_temps rest (
        if truthy identifier then note_median identifier (sane (readings A entry)) temps else temps)
  disk_temps (cons entry rest) temps = disk_temps rest temps

  unfoldable pub disk_temps_from_graph_data : Items → Fields
  disk_temps_from_graph_data graph = disk_temps graph end

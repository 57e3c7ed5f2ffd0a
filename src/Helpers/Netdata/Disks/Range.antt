-- ===== src/Helpers/Netdata/Disks/Range.antt =====
-- Every disk temperature is in the range that the readings are filtered by.
use aiotruenas.Base.{
  ℕ, zero, suc, ◌<◌, ◌/◌, ◌%◌, ◌-◌, Bool, true, false, ◌&&◌, ◌≡◌, refl, some, List, [], ◌∷◌, ◌==◌,
  nat_eq, ◌∙◌, if◌then◌else◌, arith,
}
use aiotruenas.Value.{text, Key, Value, obj, Items, nil, cons, Fields, end, key_eq, get, truthy}
use aiotruenas.Value.Dict.{get-put}
use aiotruenas.Errors.Classify.{member_of}
use aiotruenas.Helpers.Netdata.{Arithmetic, size_of, readings}
use aiotruenas.Helpers.Netdata.Disks.{
  insert_sorted, sorted, nth, median, in_range, sane, note_median, disk_temps,
  disk_temps_from_graph_data,
}

module _ (A : Arithmetic) where
  unfoldable all_in : List Value → Bool
  all_in [] = true
  all_in (v ∷ vs) = in_range A v && all_in vs

  all_in-sane : (vs : List Value) → all_in (sane A vs) ≡ true
  unfolding all_in sane
  all_in-sane [] = refl
  all_in-sane (v ∷ vs) = ground (arith, all_in-sane vs)

  all_in-insert_sorted :
      (v : Value) (ws : List Value) → all_in (insert_sorted A v ws) ≡ (in_range A v && all_in ws)
  unfolding all_in insert_sorted
  all_in-insert_sorted v [] = refl
  all_in-insert_sorted v (w ∷ ws) = ground (arith, all_in-insert_sorted v ws)

  all_in-sorted : (vs : List Value) → all_in (sorted A vs) ≡ all_in vs
  unfolding all_in sorted
  all_in-sorted [] = refl
  all_in-sorted (v ∷ vs) = ground (arith, all_in-insert_sorted v (sorted A vs), all_in-sorted vs)

  size_of-insert_sorted :
      (v : Value) (ws : List Value) → size_of (insert_sorted A v ws) ≡ suc (size_of ws)
  unfolding insert_sorted
  size_of-insert_sorted v [] = refl
  size_of-insert_sorted v (w ∷ ws) = ground (arith, size_of-insert_sorted v ws)

  size_of-sorted : (vs : List Value) → size_of (sorted A vs) ≡ size_of vs
  unfolding sorted
  size_of-sorted [] = refl
  size_of-sorted (v ∷ vs) = ground (arith, size_of-insert_sorted v (sorted A vs), size_of-sorted vs)

  nth-in_range :
      (vs : List Value) (n : ℕ) → n < size_of vs → all_in vs ≡ true → in_range A (nth A vs n) ≡ true
  unfolding all_in
  nth-in_range [] n h i = absurd (omega arith)
  nth-in_range (v ∷ vs) zero h i = ground arith
  nth-in_range (v ∷ vs) (suc n) h i = nth-in_range vs n (omega arith) (ground arith)

  module _
      (mean_in : (v w : Value)
        → in_range A v ≡ true
        → in_range A w ≡ true
        → in_range A (A.over (A.plus v w) 2) ≡ true) where
    median-in_range :
        (vs : List Value) → 0 < size_of vs → all_in vs ≡ true → in_range A (median A vs) ≡ true
    unfolding median
    median-in_range vs some_value all =
        let at = λ (n : ℕ) (h : n < size_of vs).
          nth-in_range (sorted A vs) n (rw (size_of-sorted vs) h) (all_in-sorted vs ∙ all) in
        pick (size_of vs % 2 == 1) _ _ (at (size_of vs / 2) (omega arith)) (λ even.
          mean_in _ _ (at (size_of vs / 2 - 1) (omega arith)) (at (size_of vs / 2) (omega arith)))
      where
        pick :
            (b : Bool) (v w : Value)
            → in_range A v ≡ true
            → (b ≡ false → in_range A w ≡ true)
            → in_range A (if b then v else w) ≡ true
        pick true v w h i = h
        pick false v w h i = i refl

    abbrev InRange : Fields → Type 0
    InRange temps = (k : Key) (v : Value) → get k temps ≡ some v → in_range A v ≡ true

    note_median-InRange :
        (identifier : Value) (vs : List Value) (temps : Fields)
        → all_in vs ≡ true
        → InRange temps
        → InRange (note_median A identifier vs temps)
    unfolding note_median
    note_median-InRange identifier [] temps all old k v h = old k v h
    note_median-InRange identifier (w ∷ ws) temps all old k v h = ground (
      arith,
      old k v,
      median-in_range (w ∷ ws) (omega arith) all,
      get-put k (text (A.format identifier)) (median A (w ∷ ws)) temps,
    )

    disk_temps-InRange :
        (graph : Items) (temps : Fields) → InRange temps → InRange (disk_temps A graph temps)
    unfolding disk_temps
    disk_temps-InRange nil temps old = old
    disk_temps-InRange (cons (obj entry) rest) temps old = disk_temps-InRange rest _ (
        either_one (truthy (member_of (obj entry) "identifier")) _ temps
          (note_median-InRange _ (sane A (readings A entry)) temps (all_in-sane (readings A entry))
            old)
          old)
      where
        either_one :
            (b : Bool) (t u : Fields) → InRange t → InRange u → InRange (if b then t else u)
        either_one true t u h i = h
        either_one false t u h i = i
    disk_temps-InRange (cons entry rest) temps old = disk_temps-InRange rest temps old

    -- If the mean of two values in the range of 0 to 100 is in it, then so is every temperature.
    pub disk_temps_from_graph_data-in_range :
        (graph : Items) (k : Key) (v : Value)
        → get k (disk_temps_from_graph_data A graph) ≡ some v
        → in_range A v ≡ true
    unfolding disk_temps_from_graph_data get
    disk_temps_from_graph_data-in_range graph = disk_temps-InRange graph end (λ k v h. cc)

-- ===== src/State/Ups/Readings.antt =====
-- Which graphs have a reading.
use aiotruenas.Base.{
  String, Bool, true, false, ◌||◌, ◌≡◌, refl, ap, ◌∙◌, inl, inr, Option, none, some, List, [], ◌∷◌,
  string_eq, arith, if◌then◌else◌,
}
use aiotruenas.Value.{text, Value, Fields, key_eq}
use aiotruenas.Value.Dict.{put, has, has-put}
use aiotruenas.State.Fallback.Stale.{Among}
use aiotruenas.State.Ups.{cached_graphs, take_readings}

-- The graph's field, among those of the graphs, has a reading.
abbrev pub HasReading : List (String × String) → Fields → String → Type 0
HasReading graphs ups graph =
    (name : String) × Among (graph, name) graphs × (has (text name) ups ≡ true)

pub skip_graph :
    (graph : String) (first : String × String) (rest : List (String × String)) (ups : Fields)
    → HasReading rest ups graph
    → HasReading (first ∷ rest) ups graph
skip_graph graph first rest ups (name, among, present) = (name, inr among, present)

first_or_later :
    (b : Bool) (graph first name : String) (rest : List (String × String)) (others : List String)
    (ups : Fields)
    → (b ≡ true → has (text name) ups ≡ true)
    → (Among graph others → HasReading rest ups graph)
    → Among graph (if b then first ∷ others else others)
    → HasReading ((first, name) ∷ rest) ups graph
first_or_later true graph first name rest others ups present later (inl same) =
    (name, inl (ap (λ g. (g, name)) same), present refl)
first_or_later true graph first name rest others ups present later (inr among) =
    skip_graph graph (first, name) rest ups (later among)
first_or_later false graph first name rest others ups present later among =
    skip_graph graph (first, name) rest ups (later among)

pub cached_graphs-HasReading :
    (graphs : List (String × String)) (ups : Fields) (graph : String)
    → Among graph (cached_graphs graphs ups)
    → HasReading graphs ups graph
unfolding cached_graphs
cached_graphs-HasReading [] ups graph among = elim among [ ]
cached_graphs-HasReading ((first, name) ∷ rest) ups graph among =
    first_or_later (has (text name) ups) graph first name rest (cached_graphs rest ups) ups
      (λ present. present) (cached_graphs-HasReading rest ups graph) among

-- The graphs of the values.
abbrev pub graphs_of : {A : Type 0} → List ((String × String) × A) → List (String × String)
graphs_of [] = []
graphs_of ((graph, value) ∷ rest) = graph ∷ graphs_of rest

or_right : (a b : Bool) → b ≡ true → (a || b) ≡ true
or_right a b h = ground arith

-- A field that is there stays.
take_readings-has :
    (values : List ((String × String) × Option Value)) (ups : Fields) (name : String)
    → has (text name) ups ≡ true
    → has (text name) (take_readings values ups).0 ≡ true
unfolding take_readings
take_readings-has [] ups name h = h
take_readings-has (((graph, field_name), none) ∷ rest) ups name h =
    take_readings-has rest ups name h
take_readings-has (((graph, field_name), some v) ∷ rest) ups name h =
    take_readings-has rest (put (text field_name) v ups) name
      (has-put (text name) (text field_name) v ups ∙ or_right _ _ h)

pub take_readings-HasReading :
    (values : List ((String × String) × Option Value)) (ups : Fields) (graph : String)
    → Among graph (take_readings values ups).1
    → HasReading (graphs_of values) (take_readings values ups).0 graph
unfolding take_readings
take_readings-HasReading [] ups graph among = elim among [ ]
take_readings-HasReading (((first, name), none) ∷ rest) ups graph among =
    first_or_later (has (text name) ups) graph first name (graphs_of rest)
      (take_readings rest ups).1 (take_readings rest ups).0 (take_readings-has rest ups name)
      (take_readings-HasReading rest ups graph) among
take_readings-HasReading (((first, name), some v) ∷ rest) ups graph among =
    skip_graph graph (first, name) (graphs_of rest) (take_readings rest (put (text name) v ups)).0
      (take_readings-HasReading rest (put (text name) v ups) graph among)

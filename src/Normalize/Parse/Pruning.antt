-- ===== src/Normalize/Parse/Pruning.antt =====
-- `parse_api` on a whole response: which uids are kept, which are dropped as stale, and what a
-- failed, empty or unidentifiable response leaves behind.
use aiotruenas.Base.{
  Bool, true, false, not, ◌&&◌, ◌||◌, ◌≡◌, refl, Option, none, some, List, [], Result, ok,
  >>=-eq-ok, ◌∙◌, arith, if◌then◌else◌,
}
use aiotruenas.Value.{Key, Value, arr, Items, nil, cons, Fields, end, field, key_eq, get}
use aiotruenas.Normalize.Spec.{Runtime}
use aiotruenas.Normalize.Fill.{UnsupportedAction}
use aiotruenas.Normalize.Uid.{Keymap, nonempty, generate_keymap}
use aiotruenas.Normalize.Parse.{
  Mapping, is_keyed, uid_in, apply_source, parse_entries, note_seen, contains, drop_stale,
  prune_stale_uids, finish, parse_api,
}
use aiotruenas.Normalize.Parse.PerUid.{is_uid, fold_updates, updates, parse_entries-get}

abbrev pub has_uid : Option Key → Bool
has_uid none = false
has_uid (some k) = true

module _ (m : Mapping) (keymap : Keymap) where
  -- Some entry of the source has the uid, whether the filters pass it or not.
  unfoldable pub named : Key → Items → Bool
  named k nil = false
  named k (cons entry rest) = is_uid k (uid_in m keymap entry) || named k rest

  -- Some entry of the source has a uid at all.
  unfoldable pub identified : Items → Bool
  identified nil = false
  identified (cons entry rest) = has_uid (uid_in m keymap entry) || identified rest

  contains-note_seen :
      (k : Key) (o : Option Key) (seen : List Key)
      → contains k (note_seen m keymap o seen) ≡ (is_uid k o || contains k seen)
  unfolding contains
  contains-note_seen k none seen = refl
  contains-note_seen k (some j) seen = refl

  nonempty-note_seen :
      (o : Option Key) (seen : List Key)
      → nonempty (note_seen m keymap o seen) ≡ (has_uid o || nonempty seen)
  nonempty-note_seen none seen = refl
  nonempty-note_seen (some j) seen = refl

get-drop_stale :
    (k : Key) (seen : List Key) (d : Fields)
    → get k (drop_stale seen d) ≡ (if contains k seen then get k d else none)
unfolding get drop_stale
get-drop_stale k seen end = ground arith
get-drop_stale k seen (field j v d) = ground (arith, get-drop_stale k seen d)

module _ (R : Runtime) (m : Mapping) (keymap : Keymap) where
  contains-parse_entries :
      (k : Key) (es : Items) (d : Fields) (seen : List Key) {r : Fields × List Key}
      → parse_entries R m keymap es d seen ≡ ok r
      → contains k r.1 ≡ (named m keymap k es || contains k seen)
  unfolding parse_entries named
  contains-parse_entries k nil d seen h = cc
  contains-parse_entries k (cons entry rest) d seen h =
      let (d1, one, more) = >>=-eq-ok (apply_source R m keymap d entry) _ h in
      ground (
        arith,
        contains-parse_entries k rest d1 _ more,
        contains-note_seen m keymap k (uid_in m keymap entry) seen,
      )

  nonempty-parse_entries :
      (es : Items) (d : Fields) (seen : List Key) {r : Fields × List Key}
      → parse_entries R m keymap es d seen ≡ ok r
      → nonempty r.1 ≡ (identified m keymap es || nonempty seen)
  unfolding parse_entries identified
  nonempty-parse_entries nil d seen h = cc
  nonempty-parse_entries (cons entry rest) d seen h =
      let (d1, one, more) = >>=-eq-ok (apply_source R m keymap d entry) _ h in
      ground (
        arith,
        nonempty-parse_entries rest d1 _ more,
        nonempty-note_seen m keymap (uid_in m keymap entry) seen,
      )

get-finish :
    (m : Mapping) (k : Key) (r : Fields × List Key)
    → is_keyed m ≡ true
    → get k (finish m r)
      ≡ (if m.prune && nonempty r.1 && not (contains k r.1) then none else get k r.0)
unfolding finish prune_stale_uids
get-finish m k (d, seen) keyed = ground (arith, get-drop_stale k seen d)

-- What a response makes of the entry of a uid: nothing, if it is stale; else its updates.
unfoldable pub new_entry :
    Runtime → Mapping → Fields → Items → Key → Result UnsupportedAction (Option Value)
new_entry R m d es k =
    let keymap = generate_keymap d m.key_search in
    if m.prune && identified m keymap es && not (named m keymap k es)
    then ok none
    else fold_updates R m (get k d) (updates m keymap k es)

or_false : (b : Bool) → (b || false) ≡ b
or_false true = refl
or_false false = refl

module _ (R : Runtime) (m : Mapping) (keyed : is_keyed m ≡ true) (d : Fields) (k : Key) where
  get-finish-entries :
      (es : Items) (r : Fields × List Key)
      → parse_entries R m (generate_keymap d m.key_search) es d [] ≡ ok r
      → new_entry R m d es k ≡ ok (get k (finish m r))
  unfolding new_entry contains
  get-finish-entries es r h = ground (
    arith,
    get-finish m k r keyed,
    parse_entries-get R m (generate_keymap d m.key_search) keyed k es d [] h,
    contains-parse_entries R m (generate_keymap d m.key_search) k es d [] h,
    nonempty-parse_entries R m (generate_keymap d m.key_search) es d [] h,
    or_false (named m (generate_keymap d m.key_search) k es),
    or_false (identified m (generate_keymap d m.key_search) es),
  )

  -- With a key or a search key, when `parse_api` returns on a non-empty list: each uid's entry is
  -- dropped if pruning is on and the uid is not in the list, though another one is; else it is the
  -- fold of the list's unfiltered entries for that uid over the old entry.
  pub get-parse_api :
      (entry : Value) (rest : Items) {d' : Fields}
      → parse_api R m d (arr (cons entry rest)) ≡ ok d'
      → new_entry R m d (cons entry rest) k ≡ ok (get k d')
  unfolding parse_api
  get-parse_api entry rest h =
      let (r, entries, done) = >>=-eq-ok (parse_entries R m _ (cons entry rest) d []) _ h in
      get-finish-entries (cons entry rest) r entries ∙ cc

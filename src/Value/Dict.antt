-- ===== src/Value/Dict.antt =====
-- Python's dict operations, and their laws.
use aiotruenas.Base.{
  Bool, true, false, ◌||◌, ◌≡◌, refl, none, some, List, [], ◌∷◌, arith, ◌==◌, if◌then◌else◌,
}
use aiotruenas.Value.{Key, Value, Fields, end, field, key_eq, get}

-- `d[k] = v`: in place, or at the end.
unfoldable pub put : Key → Value → Fields → Fields
unfolding key_eq
put k v end = field k v end
put k v (field j w fs) = if k == j then field j v fs else field j w (put k v fs)

-- `del d[k]`, for a key that occurs once.
unfoldable pub remove : Key → Fields → Fields
unfolding key_eq
remove k end = end
remove k (field j w fs) = let rest = remove k fs in if k == j then rest else field j w rest

-- `k in d`
unfoldable pub has : Key → Fields → Bool
unfolding get
has k d = elim (get k d) [ none ↦ false | some v ↦ true ]

-- `list(d)`
unfoldable pub keys : Fields → List Key
keys end = []
keys (field k v fs) = k ∷ keys fs

pub get-put :
    (j k : Key) (v : Value) (d : Fields) → get j (put k v d) ≡ (if j == k then some v else get j d)
unfolding get put
get-put j k v end = refl
get-put j k v (field i w d) = ground (arith, get-put j k v d)

pub get-remove : (j k : Key) (d : Fields) → get j (remove k d) ≡ (if j == k then none else get j d)
unfolding get remove
get-remove j k end = ground arith
get-remove j k (field i w d) = ground (arith, get-remove j k d)

pub has-put : (j k : Key) (v : Value) (d : Fields) → has j (put k v d) ≡ (j == k || has j d)
unfolding has
has-put j k v d = ground (arith, get-put j k v d)

-- Only the last write to a key counts.
pub put-put : (k : Key) (v w : Value) (d : Fields) → put k w (put k v d) ≡ put k w d
unfolding put
put-put k v w end = ground arith
put-put k v w (field j x d) = ground (arith, put-put k v w d)

-- No key occurs twice, as in every Python dict.
abbrev pub NodupKeys : Fields → Type 0
NodupKeys end = Unit
NodupKeys (field k v d) = (has k d ≡ false) × NodupKeys d

pub put-NodupKeys : (k : Key) (v : Value) (d : Fields) → NodupKeys d → NodupKeys (put k v d)
unfolding put has
put-NodupKeys k v end u = ground arith
put-NodupKeys k v (field j w d) (fresh, u) = ground (arith, put-NodupKeys k v d u, get-put j k v d)

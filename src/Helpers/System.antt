-- ===== src/Helpers/System.antt =====
-- Helpers on versions, cpusets, addresses, virtual machines and uptimes.
pub mod Version
use Prim.Native.Char.{code}
use aiotruenas.Base.{
  ℕ, zero, suc, ◌+◌, ◌-◌, ◌*◌, String, Bool, false, ◌||◌, Option, none, some, List, [], ◌∷◌, ◌==◌,
  string_eq, nat_eq, if◌then◌else◌,
}
use aiotruenas.Base.Int.{ℤ, pos, negsuc, ◌+ℤ◌, ◌-ℤ◌}
use aiotruenas.Value.{Value, str, arr, obj, Items, nil, cons, py_eq}
use aiotruenas.Value.Text
use aiotruenas.Errors.Classify.{member_of}

abbrev pub size : List ℕ → ℕ
size [] = 0
size (c ∷ s) = suc (size s)

-- `s.replace(pattern, "")` on code points: `skip` of them belong to an occurrence found before.
unfoldable pub remove_from : List ℕ → ℕ → List ℕ → List ℕ
unfolding Text.begins
remove_from pattern skip [] = []
remove_from pattern (suc skip) (c ∷ s) = remove_from pattern skip s
remove_from pattern zero (c ∷ s) =
    let found = Text.begins pattern (c ∷ s) in
    let rest = remove_from pattern (if found then size pattern - 1 else 0) s in
    if found then rest else c ∷ rest

-- `int(digits)`
unfoldable pub number_of : ℕ → List ℕ → ℕ
number_of n [] = n
number_of n (d ∷ ds) = number_of (n * 10 + d) ds

abbrev or_else : Option (ℕ × ℕ) → Option (ℕ × ℕ) → Option (ℕ × ℕ)
or_else none o = o
or_else (some version) o = some version

abbrev or_unknown : Option (ℕ × ℕ) → ℕ × ℕ
or_unknown none = (0, 0)
or_unknown (some version) = version

-- A code point, with the digits and the rest that follow it.
abbrev pub take_digit : Option ℕ → ℕ → List ℕ → List ℕ × List ℕ → List ℕ × List ℕ
take_digit none c s later = ([], c ∷ s)
take_digit (some d) c s (ds, rest) = (d ∷ ds, rest)

-- `digit` gives the value of a code point that is a decimal digit.
module _ (digit : ℕ → Option ℕ) where
  -- At most so many digits, and what follows them.
  unfoldable pub digits : ℕ → List ℕ → List ℕ × List ℕ
  digits zero s = ([], s)
  digits (suc n) [] = ([], [])
  digits (suc n) (c ∷ s) = take_digit (digit c) c s (digits n s)

  minor_of : ℕ → List ℕ × List ℕ → Option (ℕ × ℕ)
  unfolding number_of
  minor_of major ([], rest) = none
  minor_of major (d ∷ ds, rest) = some (major, number_of 0 (d ∷ ds))

  major_of : List ℕ × List ℕ → Option (ℕ × ℕ)
  unfolding minor_of digits nat_eq
  major_of ([], rest) = none
  major_of (d ∷ ds, []) = none
  major_of (d ∷ ds, c ∷ rest) =
      if c == b'.' then minor_of (number_of 0 (d ∷ ds)) (digits 9 rest) else none

  -- The match of the pattern at the start of a text.
  unfoldable pub version_at : List ℕ → Option (ℕ × ℕ)
  unfolding major_of digits
  version_at s = major_of (digits 9 s)

  -- `re.search` of the pattern
  unfoldable pub search_version : List ℕ → Option (ℕ × ℕ)
  search_version [] = none
  search_version (c ∷ s) = let later = search_version s in or_else (version_at (c ∷ s)) later

  -- `_parse_version_tuple`
  unfoldable pub parse_version_tuple : Value → ℕ × ℕ
  unfolding remove_from
  parse_version_tuple (str s) = or_unknown (
      search_version (
        remove_from (Text.codes "SCALE-") 0 (remove_from (Text.codes "TrueNAS-") 0 (Text.codes s))))
  parse_version_tuple v = (0, 0)

-- `part.split("-", 1)` of a text with the separator
split_first : ℕ → String → String × String
unfolding nat_eq
split_first sep String.[] = (String.[], String.[])
split_first sep (String.◌∷◌ c s) =
    let (before, after) = split_first sep s in
    if code c == sep then (String.[], s) else (String.◌∷◌ c before, after)

-- The CPUs of a range, and of a part; `to_int` is `int` of a text.
range_size : Option ℤ → Option ℤ → ℕ
unfolding ◌+ℤ◌ ◌-ℤ◌
range_size (some start) (some last) = natural (last -ℤ start +ℤ pos 1)
  where
    natural : ℤ → ℕ
    natural (pos n) = n
    natural (negsuc n) = 0
range_size start last = 0

abbrev one_if : Option ℤ → ℕ
one_if none = 0
one_if (some n) = 1

module _ (to_int : String → Option ℤ) where
  unfoldable pub part_size : String → ℕ
  unfolding split_first range_size Text.has_char string_eq
  part_size part =
      if part == ""
      then 0
      else if Text.has_char b'-' part
      then range_size (to_int (split_first b'-' part).0) (to_int (split_first b'-' part).1)
      else one_if (to_int part)

  unfoldable pub sum_sizes : List String → ℕ
  unfolding part_size Text.strip
  sum_sizes [] = 0
  sum_sizes (part ∷ parts) = part_size (Text.strip part) + sum_sizes parts

  -- `_cpuset_size`
  unfoldable pub cpuset_size : Value → ℕ
  unfolding Text.split Text.strip string_eq
  cpuset_size (str s) =
      if Text.strip s == "" then 0 else sum_sizes ((Text.split b',' s).0 ∷ (Text.split b',' s).1)
  cpuset_size v = 0

abbrev address_or : Value → String → String
address_or (str address) otherwise = if address == "" then otherwise else address
address_or v otherwise = otherwise

-- `_first_ipv4`
unfoldable pub first_ipv4_of : Items → String
unfolding py_eq member_of string_eq
first_ipv4_of nil = "unknown"
first_ipv4_of (cons (obj alias) rest) =
    let later = first_ipv4_of rest in
    if py_eq (member_of (obj alias) "type") (str "INET")
    then address_or (member_of (obj alias) "address") later
    else later
first_ipv4_of (cons v rest) = first_ipv4_of rest

unfoldable pub first_ipv4 : Value → String
unfolding first_ipv4_of
first_ipv4 (arr aliases) = first_ipv4_of aliases
first_ipv4 v = "unknown"

-- `_is_virtual_machine`
unfoldable pub is_member_name : List String → Value → Bool
unfolding string_eq
is_member_name [] v = false
is_member_name (name ∷ names) (str s) = s == name || is_member_name names (str s)
is_member_name (name ∷ names) v = false

abbrev pub virtual_manufacturers : List String
virtual_manufacturers = "QEMU" ∷ "VMware, Inc." ∷ "Microsoft Corporation" ∷ "Xen" ∷ []

abbrev pub virtual_products : List String
virtual_products = "VirtualBox" ∷ "Virtual Machine" ∷ []

unfoldable pub is_virtual_machine : Value → Value → Bool
unfolding is_member_name
is_virtual_machine manufacturer product =
    is_member_name virtual_manufacturers manufacturer || is_member_name virtual_products product

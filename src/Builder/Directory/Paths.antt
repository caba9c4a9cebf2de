-- ===== src/Builder/Directory/Paths.antt =====
-- What the assembly uses of POSIX paths: their parts, their normal form and their suffix. The path
-- `.` names the directory itself, and counts as one without a suffix.
use Prim.Native.Nat.{◌/◌, ◌%◌}
use data_ontology_graph.Prelude.{
  ℕ, zero, suc, ◌+◌, Text, text, List, [], ◌∷◌, ◌++◌, Bool, false, not, ◌&&◌, ◌||◌, map, select,
  is_empty, leb, ltb, join, if◌then◌else◌, ◌==◌, nat_order, list_order,
}

-- `path.split("/")`
unfoldable pub split_slash : Text → Text × List Text
split_slash [] = ([], [])
split_slash (c ∷ rest) =
    let (first, others) = split_slash rest in
    if c == 47 then ([], first ∷ others) else (c ∷ first, others)

-- `Path(path).parts` of a relative path: empty and `.` parts are dropped
unfoldable pub parts : Text → List Text
unfolding split_slash
parts path =
    let (first, others) = split_slash path in
    select (λ part. not (is_empty part) && not (part == text ".")) (first ∷ others)

abbrev pub is_absolute : Text → Bool
is_absolute [] = false
is_absolute (c ∷ rest) = c == 47

-- `(source / path).relative_to(source).as_posix()`
unfoldable pub relative_path : Text → Text
unfolding parts join
relative_path path = if is_empty (parts path) then text "." else join (text "/") (parts path)

abbrev last_part : Text → Text → Text
last_part current [] = current
last_part current (c ∷ rest) =
    if c == 47 then last_part [] rest else last_part (current ++ c ∷ []) rest

-- from the last dot on, with the number of characters before it; nothing without a dot
abbrev from_last_dot : ℕ → Text → Text → Text
from_last_dot before found [] = found
from_last_dot before found (c ∷ rest) =
    if c == 46 && not (before == 0)
    then from_last_dot (suc before) (c ∷ rest) rest
    else from_last_dot (suc before) found rest

abbrev fold_case : ℕ → ℕ
fold_case c = if leb 65 c && leb c 90 then c + 32 else c

-- `path.suffix.casefold() in {".yaml", ".yml"}`; a dot that ends the name starts no suffix, and is
-- not one of these
unfoldable pub has_yaml_suffix : Text → Bool
has_yaml_suffix path =
    let suffix = map fold_case (from_last_dot 0 [] (last_part [] path)) in
    suffix == text ".yaml" || suffix == text ".yml"

abbrev digits : ℕ → ℕ → Text → Text
digits zero n acc = acc
digits (suc rounds) n acc =
    let rest = digits rounds (n / 10) ((48 + n % 10) ∷ acc) in
    if ltb n 10 then (48 + n) ∷ acc else rest

-- `str(n)`; there are fewer digits than `n + 1`
unfoldable pub decimal : ℕ → Text
decimal n = digits (suc n) n []

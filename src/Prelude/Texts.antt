-- ===== src/Prelude/Texts.antt =====
-- A Python `str` as its code points, and `str.strip` with the white space of Python's `str.isspace`.
use Prim.Native.Char.{code}
use Prim.Native.String.{String}
use Prim.Native.Nat.{ℕ}
use mathlib.Core.Bool.{Bool, true, false, ◌||◌, ◌&&◌}
use mathlib.Core.List.{List, [], ◌∷◌, ◌++◌, reverse}
use data_ontology_graph.Prelude.Tests.{leb, if◌then◌else◌}
use data_ontology_graph.Prelude.Orders.{◌==◌, nat_order}

abbrev pub Text : Type 0
Text = List ℕ

abbrev pub text : String → Text
text String.[] = []
text (String.◌∷◌ c s) = code c ∷ text s

abbrev pub is_empty {ℓ} : {A : Type ℓ} → List A → Bool
is_empty [] = true
is_empty (x ∷ xs) = false

abbrev pub is_space : ℕ → Bool
is_space c =
    (leb 9 c && leb c 13)
    || (leb 28 c && leb c 32)
    || c == 133
    || c == 160
    || c == 5760
    || (leb 8192 c && leb c 8202)
    || c == 8232
    || c == 8233
    || c == 8239
    || c == 8287
    || c == 12288

abbrev pub left_strip : Text → Text
left_strip [] = []
left_strip (c ∷ cs) = if is_space c then left_strip cs else c ∷ cs

unfoldable pub strip : Text → Text
strip cs = reverse (left_strip (reverse (left_strip cs)))

-- `sep.join(parts)`
unfoldable pub join : Text → List Text → Text
join sep [] = []
join sep (p ∷ []) = p
join sep (p ∷ q ∷ rest) = p ++ (sep ++ join sep (q ∷ rest))

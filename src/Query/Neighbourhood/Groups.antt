-- ===== src/Query/Neighbourhood/Groups.antt =====
-- `group_edges` against its description: one summary for each run of edges with one source key.
use mathlib.Core.List.{foldl}
use data_ontology_graph.Prelude.{
  ℕ, zero, suc, ◌+◌, List, [], ◌∷◌, ◌++◌, append_assoc, Bool, true, false, Bool-cases, arith, ◌≡◌,
  refl, sym, ap, ◌∙◌, subst, map, length, length-append, take, select, ltb, Option, none, some,
  if◌then◌else◌, ◌&&◌, ◌==◌, ==→≡, ≡→==, inl, inr, nat_order, list_order, triple_order,
}
use data_ontology_graph.Model.Definition.{DefinitionKey}
use data_ontology_graph.Model.Relationship.{identity_key}
use data_ontology_graph.Query.Neighbourhood.{
  DirectedEdge, EdgeGroup, has_room, new_group, admit, place, group_edges,
}

-- A run: its first edge and the others.
abbrev pub Run : Type 0
Run = DirectedEdge × List DirectedEdge

abbrev pub source_key : DirectedEdge → DefinitionKey
source_key e = identity_key e.source

abbrev pub join_run : DirectedEdge → List Run → List Run
join_run e [] = (e, []) ∷ []
join_run e ((f, rest) ∷ rs) =
    if source_key e == source_key f then (e, f ∷ rest) ∷ rs else (e, []) ∷ (f, rest) ∷ rs

-- The maximal runs of neighbouring edges that leave one definition.
abbrev pub runs : List DirectedEdge → List Run
runs [] = []
runs (e ∷ es) = join_run e (runs es)

abbrev pub within {ℓ} : {A : Type ℓ} → Option ℕ → List A → List A
within none xs = xs
within (some limit) xs = take limit xs

select_snoc {ℓ} :
    {A : Type ℓ} (p : A → Bool) (xs : List A) (x : A)
    → select p (xs ++ x ∷ []) ≡ (if p x then select p xs ++ x ∷ [] else select p xs)
select_snoc p [] x = ground arith
select_snoc p (y ∷ xs) x = elim (Bool-cases (p y)) [
  | inl kept ↦ rw (kept, select_snoc p xs x) (pulled (p x))
  | inr dropped ↦ rw dropped (select_snoc p xs x)
]
  where
    pulled :
        (b : Bool)
        → ◌≡◌ {A = List _}
            (y ∷ (if b then select p xs ++ x ∷ [] else select p xs))
            (if b then y ∷ (select p xs ++ x ∷ []) else y ∷ select p xs)
    pulled true = refl
    pulled false = refl

take-nil {ℓ} : {A : Type ℓ} (n : ℕ) → take {A = A} n [] ≡ []
take-nil zero = refl
take-nil (suc n) = refl

take_snoc {ℓ} :
    {A : Type ℓ} (n : ℕ) (xs : List A) (x : A)
    → take n (xs ++ x ∷ [])
      ≡ (if ltb (length (take n xs)) n then take n xs ++ x ∷ [] else take n xs)
take_snoc zero xs x = refl
take_snoc {A} (suc n) [] x = ground (arith, take-nil {A = A} n)
take_snoc (suc n) (y ∷ xs) x = ground (arith, take_snoc n xs x)

within_snoc :
    (limit : Option ℕ) (xs : List DirectedEdge) (e : DirectedEdge)
    → within limit (xs ++ e ∷ []) ≡ (
        if has_room limit (length (within limit xs))
        then within limit xs ++ e ∷ []
        else within limit xs)
within_snoc none xs e = refl
within_snoc (some limit) xs e = take_snoc limit xs e

admit_within :
    (limit : Option ℕ) (listed : DirectedEdge → Bool) (ys : List DirectedEdge) (e : DirectedEdge)
    → (if has_room limit (length (within limit (select listed ys))) && listed e
        then within limit (select listed ys) ++ e ∷ []
        else within limit (select listed ys))
      ≡ within limit (select listed (ys ++ e ∷ []))
admit_within limit listed ys e = elim (Bool-cases (listed e)) [
  | inl wanted ↦
      rw (select_snoc listed ys e, wanted) (ground (arith, within_snoc limit (select listed ys) e))
  | inr unwanted ↦ rw (select_snoc listed ys e, unwanted) (ground arith)
]

-- A run that is open on the right, before the runs of the edges to come.
abbrev prepend : DirectedEdge → List DirectedEdge → List Run → List Run
prepend x xs [] = (x, xs) ∷ []
prepend x xs ((f, rest) ∷ rs) =
    if source_key x == source_key f then (x, xs ++ f ∷ rest) ∷ rs else (x, xs) ∷ (f, rest) ∷ rs

prepend-nil : (e : DirectedEdge) (rs : List Run) → prepend e [] rs ≡ join_run e rs
prepend-nil e [] = refl
prepend-nil e ((f, rest) ∷ rs) = refl

prepend-same :
    (x e : DirectedEdge) (xs : List DirectedEdge) (rs : List Run)
    → source_key x ≡ source_key e
    → prepend x (xs ++ e ∷ []) rs ≡ prepend x xs (join_run e rs)
prepend-same x e xs [] same = rw (≡→== (source_key x) (source_key e) same)
prepend-same x e xs ((f, rest) ∷ rs) same = elim (Bool-cases (source_key e == source_key f)) [
  | inl joined ↦
      let x_f = subst (λ k. (k == source_key f) ≡ true) (sym same) joined in
      rw (joined, x_f, ≡→== (source_key x) (source_key e) same, append_assoc xs (e ∷ []) (f ∷ rest))
  | inr apart ↦
      let x_f = subst (λ k. (k == source_key f) ≡ false) (sym same) apart in
      rw (apart, x_f, ≡→== (source_key x) (source_key e) same)
]

prepend-other :
    (x e : DirectedEdge) (xs : List DirectedEdge) (rs : List Run)
    → (source_key x == source_key e) ≡ false
    → prepend x xs (join_run e rs) ≡ (x, xs) ∷ join_run e rs
prepend-other x e xs [] other = rw other
prepend-other x e xs ((f, rest) ∷ rs) other = elim (Bool-cases (source_key e == source_key f)) [
  | inl joined ↦ rw (joined, other)
  | inr apart ↦ rw (apart, other)
]

module _ (limit : Option ℕ) (listed : DirectedEdge → Bool) where
  -- The first edge's source, the length of the run, and the wanted edges up to the limit.
  abbrev pub summarize : Run → EdgeGroup
  summarize (e, rest) = record {
    source = e.source;
    edge_count = length (e ∷ rest);
    edges = within limit (select listed (e ∷ rest));
  }

  admit-summarize :
      (x e : DirectedEdge) (xs : List DirectedEdge)
      → admit limit listed (summarize (x, xs)) e ≡ summarize (x, xs ++ e ∷ [])
  admit-summarize x e xs =
      λ i. record { source = x.source; edge_count = counted i; edges = admitted i }
    where
      counted : length (x ∷ xs) + 1 ≡ length (x ∷ (xs ++ e ∷ []))
      counted = omega (arith, length-append xs (e ∷ []))

      admitted :
          (if has_room limit (length (within limit (select listed (x ∷ xs)))) && listed e
            then within limit (select listed (x ∷ xs)) ++ e ∷ []
            else within limit (select listed (x ∷ xs)))
          ≡ within limit (select listed ((x ∷ xs) ++ e ∷ []))
      admitted = admit_within limit listed (x ∷ xs) e

  place-append :
      (gs : List EdgeGroup) (g : EdgeGroup) (e : DirectedEdge)
      → place limit listed (gs ++ g ∷ []) e ≡ gs ++ place limit listed (g ∷ []) e
  unfolding place
  place-append [] g e = refl
  place-append (h ∷ []) g e = refl
  place-append (h ∷ k ∷ gs) g e = ap (◌∷◌ h) (place-append (k ∷ gs) g e)

  -- Only the last group changes.
  foldl-place-append :
      (es : List DirectedEdge) (gs : List EdgeGroup) (g : EdgeGroup)
      → foldl (place limit listed) (gs ++ g ∷ []) es ≡ gs ++ foldl (place limit listed) (g ∷ []) es
  unfolding place
  foldl-place-append [] gs g = refl
  foldl-place-append (e ∷ es) gs g =
      ap (λ x. foldl (place limit listed) x es) (place-append gs g e)
      ∙ elim (Bool-cases (identity_key g.source == identity_key e.source)) [
        | inl same ↦ rw same (foldl-place-append es gs (admit limit listed g e))
        | inr other ↦ rw other (
            ap (λ x. foldl (place limit listed) x es)
              (sym (append_assoc gs (g ∷ []) (fresh e ∷ [])))
            ∙ foldl-place-append es (gs ++ g ∷ []) (fresh e)
            ∙ append_assoc gs (g ∷ []) (foldl (place limit listed) (fresh e ∷ []) es)
            ∙ ap (λ x. gs ++ x) (sym (foldl-place-append es (g ∷ []) (fresh e))))
      ]
    where
      fresh : DirectedEdge → EdgeGroup
      fresh x = admit limit listed (new_group limit listed x) x

  fresh-summarize :
      (e : DirectedEdge) → admit limit listed (new_group limit listed e) e ≡ summarize (e, [])
  fresh-summarize e = λ i. record { source = e.source; edge_count = 1; edges = listed_alone i }
    where
      none_within : (l : Option ℕ) → ◌≡◌ {A = List DirectedEdge} (within l []) []
      none_within none = refl
      none_within (some n) = take-nil n

      listed_alone :
          (if has_room limit 0 && listed e then [] ++ e ∷ [] else [])
          ≡ within limit (select listed (e ∷ []))
      listed_alone =
          subst
            (λ xs.
              (if has_room limit (length xs) && listed e then xs ++ e ∷ [] else xs)
              ≡ within limit (select listed (e ∷ [])))
            (none_within limit) (admit_within limit listed [] e)

  open-run :
      (es : List DirectedEdge) (x : DirectedEdge) (xs : List DirectedEdge)
      → foldl (place limit listed) (summarize (x, xs) ∷ []) es
        ≡ map summarize (prepend x xs (runs es))
  unfolding place
  open-run [] x xs = refl
  open-run (e ∷ es) x xs = elim (Bool-cases (source_key x == source_key e)) [
    | inl same ↦
        rw (same, admit-summarize x e xs)
          (open-run es x (xs ++ e ∷ [])
            ∙ ap (map summarize)
                (prepend-same x e xs (runs es) (==→≡ (source_key x) (source_key e) same)))
    | inr other ↦
        rw (other, fresh-summarize e)
          (foldl-place-append es (summarize (x, xs) ∷ []) (summarize (e, []))
            ∙ ap (◌∷◌ (summarize (x, xs)))
                (open-run es e [] ∙ ap (map summarize) (prepend-nil e (runs es)))
            ∙ ap (map summarize) (sym (prepend-other x e xs (runs es) other)))
  ]

  -- The loop makes one group of each maximal run of neighbouring edges that leave one definition. A
  -- group counts the whole run, and lists the wanted edges of it in order, up to the limit.
  pub group_edges-eq :
      (es : List DirectedEdge) → group_edges limit listed es ≡ map summarize (runs es)
  unfolding group_edges place
  group_edges-eq [] = refl
  group_edges-eq (e ∷ es) =
      rw (fresh-summarize e) (open-run es e [] ∙ ap (map summarize) (prepend-nil e (runs es)))

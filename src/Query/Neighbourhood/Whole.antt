-- ===== src/Query/Neighbourhood/Whole.antt =====
-- When `group_edges` lists every edge: the groups that leave nothing out.
use mathlib.Core.List.Memᴰ
use data_ontology_graph.Prelude.{
  ℕ, zero, suc, ◌≤◌, List, [], ◌∷◌, Bool, true, false, Bool-cases, arith, ◌≡◌, refl, sym, ap, ◌∙◌,
  subst, map, length, take, select, flat_map, any, Option, none, some, ◌==◌, Memᴰ, inl, inr,
  nat_order, list_order, triple_order,
}
use data_ontology_graph.Query.Neighbourhood.{DirectedEdge, EdgeGroup, group_edges, truncated}
use data_ontology_graph.Query.Neighbourhood.Groups.{
  Run, runs, join_run, source_key, within, summarize, group_edges-eq,
}

-- A group that lists its whole run.
abbrev pub whole : Run → EdgeGroup
whole (e, rest) = record { source = e.source; edge_count = length (e ∷ rest); edges = e ∷ rest }

abbrev pub edges_of : List Run → List DirectedEdge
edges_of rs = flat_map (λ (r : Run). r.0 ∷ r.1) rs

join_run-edges : (e : DirectedEdge) (rs : List Run) → edges_of (join_run e rs) ≡ e ∷ edges_of rs
join_run-edges e [] = refl
join_run-edges e ((f, rest) ∷ rs) = elim (Bool-cases (source_key e == source_key f)) [
  | inl same ↦ rw same
  | inr other ↦ rw other
]

-- The runs are the edges, cut in pieces.
pub runs-edges : (es : List DirectedEdge) → edges_of (runs es) ≡ es
runs-edges [] = refl
runs-edges (e ∷ es) = join_run-edges e (runs es) ∙ ap (◌∷◌ e) (runs-edges es)

select-length {ℓ} : {A : Type ℓ} (p : A → Bool) (xs : List A) → length (select p xs) ≤ length xs
select-length p [] = omega arith
select-length p (x ∷ xs) = ground (arith, select-length p xs)

take-length {ℓ} : {A : Type ℓ} (n : ℕ) (xs : List A) → length (take n xs) ≤ length xs
take-length zero xs = omega arith
take-length (suc n) [] = omega arith
take-length (suc n) (x ∷ xs) = omega (arith, take-length n xs)

select-all {ℓ} :
    {A : Type ℓ} (p : A → Bool) (xs : List A) → length xs ≤ length (select p xs) → select p xs ≡ xs
select-all p [] h = refl
select-all p (x ∷ xs) h = elim (Bool-cases (p x)) [
  | inl kept ↦ rw kept (ap (◌∷◌ x) (select-all p xs (ground arith)))
  | inr dropped ↦ absurd (ground (arith, select-length p xs))
]

pub take-all {ℓ} :
    {A : Type ℓ} (n : ℕ) (xs : List A) → length xs ≤ length (take n xs) → take n xs ≡ xs
take-all zero [] h = refl
take-all zero (x ∷ xs) h = absurd (omega arith)
take-all (suc n) [] h = refl
take-all (suc n) (x ∷ xs) h = ap (◌∷◌ x) (take-all n xs (omega arith))

select-accepted {ℓ} :
    {A : Type ℓ} (p : A → Bool) (xs : List A)
    → ((x : A) → Memᴰ x xs → p x ≡ true)
    → select p xs ≡ xs
select-accepted p [] h = refl
select-accepted p (x ∷ xs) h =
    rw (h x (Memᴰ.head refl)) (ap (◌∷◌ x) (select-accepted p xs (λ y m. h y (Memᴰ.tail m))))

within-all :
    (limit : Option ℕ) (listed : DirectedEdge → Bool) (xs : List DirectedEdge)
    → length xs ≤ length (within limit (select listed xs))
    → within limit (select listed xs) ≡ xs
within-all none listed xs h = select-all listed xs h
within-all (some n) listed xs h =
    let kept = select-all listed xs (omega (arith, take-length n (select listed xs))) in
    ap (take n) kept ∙ take-all n xs (subst (λ ys. length xs ≤ length (take n ys)) kept h)

module _ (limit : Option ℕ) (listed : DirectedEdge → Bool) where
  summarize-whole :
      (r : Run) → truncated (summarize limit listed r) ≡ false → summarize limit listed r ≡ whole r
  summarize-whole (e, rest) h = λ i. record {
    source = e.source;
    edge_count = length (e ∷ rest);
    edges = within-all limit listed (e ∷ rest) (ground arith) i;
  }

  map-whole :
      (rs : List Run)
      → any truncated (map (summarize limit listed) rs) ≡ false
      → map (summarize limit listed) rs ≡ map whole rs
  map-whole [] h = refl
  map-whole (r ∷ rs) h = elim (Bool-cases (truncated (summarize limit listed r))) [
    | inl cut ↦ absurd (ground arith)
    | inr full ↦ rw (summarize-whole r full) (ap (◌∷◌ (whole r)) (map-whole rs (ground arith)))
  ]

  -- Groups of which none is truncated list every edge.
  pub group_edges-whole :
      (es : List DirectedEdge)
      → any truncated (group_edges limit listed es) ≡ false
      → group_edges limit listed es ≡ map whole (runs es)
  group_edges-whole es h =
      group_edges-eq limit listed es
      ∙ map-whole (runs es) (ap (any truncated) (sym (group_edges-eq limit listed es)) ∙ h)

-- Without a limit, and with every edge wanted, the groups list every edge.
pub group_edges-unlimited :
    (listed : DirectedEdge → Bool) (es : List DirectedEdge)
    → ((e : DirectedEdge) → Memᴰ e es → listed e ≡ true)
    → group_edges none listed es ≡ map whole (runs es)
group_edges-unlimited listed es wanted =
    group_edges-eq none listed es
    ∙ all_whole (runs es) (λ e m. wanted e (subst (Memᴰ e) (runs-edges es) m))
  where
    all_whole :
        (rs : List Run)
        → ((e : DirectedEdge) → Memᴰ e (edges_of rs) → listed e ≡ true)
        → map (summarize none listed) rs ≡ map whole rs
    all_whole [] h = refl
    all_whole (r ∷ rs) h =
        ap (◌∷◌ (summarize none listed r))
          (all_whole rs (λ e m. h e (Memᴰ.append_right (r.0 ∷ r.1) m)))
        ∙ ap (λ g. g ∷ map whole rs)
            (λ i. record {
              source = r.0.source;
              edge_count = length (r.0 ∷ r.1);
              edges =
                  select-accepted listed (r.0 ∷ r.1) (λ e m. h e (Memᴰ.append_left (edges_of rs) m))
                    i;
            })

-- Groups that list every edge are not truncated.
pub whole-untruncated : (rs : List Run) → any truncated (map whole rs) ≡ false
whole-untruncated [] = refl
whole-untruncated (r ∷ rs) = ground (arith, whole-untruncated rs)

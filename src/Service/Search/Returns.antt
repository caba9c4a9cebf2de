-- ===== src/Service/Search/Returns.antt =====
-- A search ends without an error, and each of its groups is cut off at the limit.
use mathlib.Core.List.Memᴰ
use data_ontology_graph.Prelude.{
  ◌≤◌, true, false, Bool-cases, inl, inr, arith, ℕ, Text, List, [], ◌∷◌, Memᴰ, some, ◌<=◌, ◌≡◌, ◌≢◌,
  ⊎_elim, refl, sym, ◌∙◌, subst, nat_order, list_order, pair_order,
}
use data_ontology_graph.Query.Paths.Traced.{some_injective}
use data_ontology_graph.Service.Search.Index.{SearchKind, SearchField, Subject}
use data_ontology_graph.Service.Search.Matching.{Match, entry_at}
use data_ontology_graph.Service.Search.Best.{Matches, Best}
use data_ontology_graph.Service.Search.Listed.{Hit, SearchGroup, min_rank, hits_of, groups_of}
use data_ontology_graph.Service.Search.Names.{field_name}
use data_ontology_graph.Service.Search.Groups.{IsListable, IsCut, group_of_returns}
use data_ontology_graph.Service.Search.Valid.{IsValid, IsValidBest}

-- The least rank of the matches.
abbrev pub IsLeastRank : Matches → ℕ → Type 0
IsLeastRank matches rank =
    ((x : ℕ × Match) × Memᴰ x matches × (x.1.0 ≡ rank))
    × ((x : ℕ × Match) → Memᴰ x matches → rank ≤ x.1.0)

min_rank-returns :
    (matches : Matches)
    → matches ≢ []
    → (rank : ℕ) × (min_rank matches ≡ some rank) × IsLeastRank matches rank
unfolding min_rank
min_rank-returns [] h = absurd (h refl)
min_rank-returns ((i, m) ∷ []) h =
    (m.0, refl, (((i, m), Memᴰ.head refl, refl), λ x at. only_one x (Memᴰ.eq_of_singleton at)))
  where
    only_one : (x : ℕ × Match) → x ≡ (i, m) → m.0 ≤ x.1.0
    only_one x e = rw e (omega arith)
min_rank-returns ((i, m) ∷ y ∷ matches) h =
    let (rank, e, ((z, in_, at_rank), below)) = min_rank-returns (y ∷ matches) (λ e. cc) in
    elim (Bool-cases (m.0 <= rank)) [
      | inl first ↦ (
        m.0,
        rw (e, min_rank, first) refl,
        (
          ((i, m), Memᴰ.head refl, refl),
          λ x at.
              ⊎_elim (λ same. rw same (omega arith))
                (λ t. omega (arith, below x t, le_of m.0 rank first)) (Memᴰ.cases_cons at),
        ),
      )
      | inr later ↦ (
        rank,
        rw (e, min_rank, later) refl,
        (
          (z, Memᴰ.tail in_, at_rank),
          λ x at. ⊎_elim (λ same. rw same (lt_of m.0 rank later)) (below x) (Memᴰ.cases_cons at),
        ),
      )
    ]
  where
    le_of : (a b : ℕ) → (a <= b) ≡ true → a ≤ b
    le_of a b h = ground arith

    lt_of : (a b : ℕ) → (a <= b) ≡ false → b ≤ a
    lt_of a b h = ground arith

module _ (subjects : List Subject) where
  -- One hit for each subject of the dictionary, with its matches and the least of their ranks.
  pub data AreHits : Best → List Hit → Type 0 where
    no_hits : AreHits [] []
    one_hit :
        {o : ℕ} {matches : Matches} {best : Best} {hit : Hit} {hits : List Hit}
        → entry_at subjects o ≡ some hit.subject
        → hit.matches ≡ matches
        → IsLeastRank matches hit.rank
        → AreHits best hits
        → AreHits ((o, matches) ∷ best) (hit ∷ hits)

  pub hits_of-returns :
      (best : Best)
      → IsValidBest subjects best
      → (hits : List Hit) × (hits_of subjects best ≡ some hits)
        × ((hit : Hit) → Memᴰ hit hits → IsListable hit)
        × AreHits best hits
  unfolding hits_of
  hits_of-returns [] valid = ([], refl, (λ hit m. absurd (Memᴰ.not-nil m)), AreHits.no_hits)
  hits_of-returns ((o, []) ∷ best) valid = absurd ((valid o [] (Memᴰ.head refl)).0 refl)
  hits_of-returns ((o, y ∷ ys) ∷ best) valid =
      let (nonempty, named, once) = valid o (y ∷ ys) (Memᴰ.head refl) in
      let (s, at, below, first) = named y (Memᴰ.head refl) in
      let (rank, e, least) = min_rank-returns (y ∷ ys) nonempty in
      let (hits, e', listable, are_hits) =
        hits_of-returns best (λ p ms m. valid p ms (Memᴰ.tail m)) in
      let hit : Hit = record { rank = rank; subject = s; matches = y ∷ ys } in
      (
        hit ∷ hits,
        rw (at, e, e') refl,
        (λ h m.
            ⊎_elim (λ same. subst IsListable (sym same) (listable_of s at named rank)) (listable h)
              (Memᴰ.cases_cons m)),
        AreHits.one_hit at refl least are_hits,
      )
    where
      listable_of :
          (s : Subject)
          → entry_at subjects o ≡ some s
          → ((x : ℕ × Match) → Memᴰ x (y ∷ ys) → IsValid subjects ((o, x.0), x.1))
          → (rank : ℕ) → IsListable (record { rank = rank; subject = s; matches = y ∷ ys })
      listable_of s at named rank m here =
          let (s', at', below, value) = named m here in
          let same : s' ≡ s = some_injective (sym at' ∙ at) in
          (
            below,
            subst
                (λ (z : Subject).
                  (v : SearchField × Text) × (entry_at z.values m.0 ≡ some v)
                  × ((name : Text) × (field_name z.kind v.0 ≡ some name)))
                same value,
          )

module _ (limit : ℕ) (hits : List Hit) where
  -- one group for each kind, in order, each cut off at the limit
  pub data AreCut : List SearchKind → List SearchGroup → Type 0 where
    no_more : AreCut [] []
    one_more :
        {kind : SearchKind} {kinds : List SearchKind} {g : SearchGroup} {groups : List SearchGroup}
        → g.kind ≡ kind
        → (listed : List Hit) × IsCut limit hits g listed
        → AreCut kinds groups
        → AreCut (kind ∷ kinds) (g ∷ groups)

  pub groups_of-returns :
      (kinds : List SearchKind)
      → ((hit : Hit) → Memᴰ hit hits → IsListable hit)
      → (groups : List SearchGroup) × (groups_of limit hits kinds ≡ some groups)
        × AreCut kinds groups
  unfolding groups_of
  groups_of-returns [] ok_ = ([], refl, AreCut.no_more)
  groups_of-returns (kind ∷ kinds) ok_ =
      let (g, e, of_kind, cut) = group_of_returns limit hits kind ok_ in
      let (groups, e', cuts) = groups_of-returns kinds ok_ in
      (g ∷ groups, rw (e, e') refl, AreCut.one_more of_kind cut cuts)

-- ===== src/Service/Search/Valid.antt =====
-- The dictionaries of a search name existing subjects and values, so that its groups can be listed.
use mathlib.Core.List.Memᴰ
use data_ontology_graph.Prelude.{
  ℕ, ◌<◌, Text, List, [], ◌∷◌, Memᴰ, some, ◌≡◌, ◌≢◌, ◌⊎◌, refl, sym, ap, ◌∙◌, subst, inl, inr,
  ⊎_elim, Bool-cases, IsDistinct, nat_order, list_order, pair_order,
}
use data_ontology_graph.Service.Search.Index.{SearchKind, SearchField, Subject}
use data_ontology_graph.Service.Search.Matching.{Match, Position, is_selected, entry_at}
use data_ontology_graph.Service.Search.Best.{
  Matches, Best, Considered, keep_match, keep_best, consider, consider_all,
}
use data_ontology_graph.Service.Search.Names.{field_name}
use data_ontology_graph.Service.Search.Stored.{
  Memᴰ-keep_match, keep_match-nonempty, Memᴰ-keep_best, keys_of, keep_match-IsDistinct,
  keep_best-IsDistinct,
}

module _ (subjects : List Subject) where
  -- The value of the match exists, its field has a name, and the rank is one of the four.
  abbrev pub IsValid : Considered → Type 0
  IsValid c =
      (s : Subject) × (entry_at subjects c.0.0 ≡ some s)
      × (c.1.0 < 4)
      × ((value : SearchField × Text) × (entry_at s.values c.0.1 ≡ some value)
          × ((name : Text) × (field_name s.kind value.0 ≡ some name)))

  -- Each entry of the dictionary has a match, one for a value, and its matches are valid.
  abbrev pub IsValidBest : Best → Type 0
  IsValidBest best =
      (o : ℕ) (matches : Matches)
      → Memᴰ (o, matches) best
      → (matches ≢ [])
        × ((x : ℕ × Match) → Memᴰ x matches → IsValid ((o, x.0), x.1))
        × IsDistinct (keys_of matches)

  keep_best-IsValidBest :
      (best : Best) (p : Position) (m : Match)
      → IsValidBest best
      → IsValid (p, m)
      → IsValidBest (keep_best best p m)
  keep_best-IsValidBest best p m valid new o matches at =
      ⊎_elim (valid o matches)
        (λ (ms, e, from).
          let same_o : o ≡ p.0 = ap (λ (x : ℕ × Matches). x.0) e in
          let same : matches ≡ keep_match ms p.1 m = ap (λ (x : ℕ × Matches). x.1) e in
          (
            λ none_left. keep_match-nonempty ms p.1 m (sym same ∙ none_left),
            λ x h.
                subst (λ k. IsValid ((k, x.0), x.1)) (sym same_o)
                  (⊎_elim (old ms from x)
                    (λ e'. subst (λ (y : ℕ × Match). IsValid ((p.0, y.0), y.1)) (sym e') new)
                    (Memᴰ-keep_match ms p.1 m x (subst (Memᴰ x) same h))),
            subst (λ k. IsDistinct (keys_of k)) (sym same)
                (keep_match-IsDistinct ms p.1 m (once ms from)),
          ))
        (Memᴰ-keep_best best p m (o, matches) at)
    where
      once : (ms : Matches) → (ms ≡ []) ⊎ Memᴰ (p.0, ms) best → IsDistinct (keys_of ms)
      once ms (inl e) = subst (λ k. IsDistinct (keys_of k)) (sym e) tt
      once ms (inr there) = (valid p.0 ms there).2

      old :
          (ms : Matches)
          → (ms ≡ []) ⊎ Memᴰ (p.0, ms) best
          → (x : ℕ × Match) → Memᴰ x ms
          → IsValid ((p.0, x.0), x.1)
      old ms (inl e) x h = absurd (Memᴰ.not-nil (subst (Memᴰ x) e h))
      old ms (inr there) x h = (valid p.0 ms there).1 x h

  module _ (selected : List SearchKind) where
    consider-IsValidBest :
        (best : Best) (c : Considered)
        → IsValidBest best
        → IsDistinct (keys_of best)
        → IsValid c
        → (next : Best) × (consider subjects selected best c ≡ some next)
          × IsValidBest next
          × IsDistinct (keys_of next)
    unfolding consider
    consider-IsValidBest best (p, m) valid d new =
        elim (Bool-cases (is_selected selected new.0.kind)) [
          | inl chosen ↦ (
            keep_best best p m,
            rw (new.1, chosen) refl,
            keep_best-IsValidBest best p m valid new,
            keep_best-IsDistinct best p m d,
          )
          | inr other ↦ (best, rw (new.1, other) refl, valid, d)
        ]

    pub consider_all-IsValidBest :
        (best : Best) (cs : List Considered)
        → IsValidBest best
        → IsDistinct (keys_of best)
        → ((c : Considered) → Memᴰ c cs → IsValid c)
        → (end : Best) × (consider_all subjects selected best cs ≡ some end)
          × IsValidBest end
          × IsDistinct (keys_of end)
    unfolding consider_all
    consider_all-IsValidBest best [] valid d all_ = (best, refl, valid, d)
    consider_all-IsValidBest best (c ∷ cs) valid d all_ =
        let (next, e, valid', d') = consider-IsValidBest best c valid d (all_ c (Memᴰ.head refl)) in
        let (end, e', valid'', d'') =
          consider_all-IsValidBest next cs valid' d' (λ c' m. all_ c' (Memᴰ.tail m)) in
        (end, rw e e', valid'', d'')

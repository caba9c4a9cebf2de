-- ===== src/Service/Search/Stored.antt =====
-- What the dictionaries of a search hold after one more match.
use mathlib.Core.List.Memᴰ
use data_ontology_graph.Prelude.{
  ℕ, List, [], ◌∷◌, Bool, true, false, Memᴰ, if◌then◌else◌, ◌==◌, ◌<=◌, ◌≡◌, ◌≢◌, ◌⊎◌, refl, sym,
  ap, ◌∙◌, subst, inl, inr, ⊎_elim, Bool-cases, ==→≡, ≡→==, both_ways, map, Memᴰ-map, IsDistinct,
  nat_order, list_order, pair_order,
}
use data_ontology_graph.Service.Search.Matching.{Match, Position}
use data_ontology_graph.Service.Search.Best.{Matches, Best, better, keep_match, keep_best}

-- what is there after a match was kept
pub Memᴰ-keep_match :
    (matches : Matches) (i : ℕ) (m : Match) (x : ℕ × Match)
    → Memᴰ x (keep_match matches i m)
    → Memᴰ x matches ⊎ (x ≡ (i, m))
unfolding keep_match
Memᴰ-keep_match [] i m x (Memᴰ.head e) = inr e
Memᴰ-keep_match [] i m x (Memᴰ.tail t) = absurd (Memᴰ.not-nil t)
Memᴰ-keep_match ((j, current) ∷ matches) i m x at = elim (Bool-cases (j == i)) [
  | inl same ↦ replaced (==→≡ j i same) (
      Memᴰ.cases_cons (
        subst
          (λ b.
            Memᴰ x (
              if b then (j, better current m) ∷ matches else (j, current) ∷ keep_match matches i m))
          same at))
  | inr apart ↦
      ⊎_elim (λ e. inl (Memᴰ.head e))
        (λ t. ⊎_elim (λ h. inl (Memᴰ.tail h)) inr (Memᴰ-keep_match matches i m x t))
        (Memᴰ.cases_cons (
          subst
            (λ b. Memᴰ x (
              if b then (j, better current m) ∷ matches else (j, current) ∷ keep_match matches i m))
            apart at))
]
  where
    replaced :
        j ≡ i
        → (x ≡ (j, better current m)) ⊎ Memᴰ x matches
        → Memᴰ x ((j, current) ∷ matches) ⊎ (x ≡ (i, m))
    replaced same (inr t) = inl (Memᴰ.tail t)
    replaced same (inl e) = elim (Bool-cases (current <= m)) [
      | inl stays ↦
          inl
            (Memᴰ.head (e ∙ ap (λ b. (j, if if b then false else true then m else current)) stays))
      | inr goes ↦ inr (
          e
          ∙ ap (λ b. (j, if if b then false else true then m else current)) goes
          ∙ ap (λ k. (k, m)) same)
    ]

either_nonempty :
    (b : Bool) (x y : ℕ × Match) (xs ys : Matches) → (if b then x ∷ xs else y ∷ ys) ≢ []
either_nonempty true x y xs ys e = cc
either_nonempty false x y xs ys e = cc

pub keep_match-nonempty : (matches : Matches) (i : ℕ) (m : Match) → keep_match matches i m ≢ []
unfolding keep_match
keep_match-nonempty [] i m e = cc
keep_match-nonempty ((j, current) ∷ matches) i m e =
    either_nonempty (j == i) (j, better current m) (j, current) matches (keep_match matches i m) e

-- the entry that a kept match changes, or another that was there
pub Memᴰ-keep_best :
    (best : Best) (p : Position) (m : Match) (x : ℕ × Matches)
    → Memᴰ x (keep_best best p m)
    → Memᴰ x best
      ⊎ ((matches : Matches) × (x ≡ (p.0, keep_match matches p.1 m))
          × ((matches ≡ []) ⊎ Memᴰ (p.0, matches) best))
unfolding keep_best
Memᴰ-keep_best [] p m x (Memᴰ.head e) = inr ([], e, inl refl)
Memᴰ-keep_best [] p m x (Memᴰ.tail t) = absurd (Memᴰ.not-nil t)
Memᴰ-keep_best ((o, matches) ∷ best) p m x at = elim (Bool-cases (o == p.0)) [
  | inl same ↦
      ⊎_elim
        (λ e. inr (
          matches,
          e ∙ ap (λ k. (k, keep_match matches p.1 m)) (==→≡ o p.0 same),
          inr (Memᴰ.head (ap (λ k. (k, matches)) (sym (==→≡ o p.0 same)))),
        ))
        (λ t. inl (Memᴰ.tail t))
        (Memᴰ.cases_cons (
          subst
            (λ b. Memᴰ x (
              if b
              then (o, keep_match matches p.1 m) ∷ best
              else (o, matches) ∷ keep_best best p m))
            same at))
  | inr apart ↦
      ⊎_elim (λ e. inl (Memᴰ.head e))
        (λ t.
          ⊎_elim (λ h. inl (Memᴰ.tail h))
            (λ (ms, e, from). inr (ms, e, ⊎_elim inl (λ h. inr (Memᴰ.tail h)) from))
            (Memᴰ-keep_best best p m x t))
        (Memᴰ.cases_cons (
          subst
            (λ b. Memᴰ x (
              if b
              then (o, keep_match matches p.1 m) ∷ best
              else (o, matches) ∷ keep_best best p m))
            apart at))
]

-- The keys of a dictionary.
abbrev pub keys_of {ℓ} : {A : Type ℓ} → List (ℕ × A) → List ℕ
keys_of entries = map (λ e. e.0) entries

keys-keep_match :
    (matches : Matches) (i : ℕ) (m : Match) (k : ℕ)
    → Memᴰ k (keys_of (keep_match matches i m))
    → Memᴰ k (keys_of matches) ⊎ (k ≡ i)
keys-keep_match matches i m k at =
    let (x, in_, same) = (Memᴰ-map (λ (e : ℕ × Match). e.0) k (keep_match matches i m)).0 at in
    ⊎_elim (λ old. inl ((Memᴰ-map (λ (e : ℕ × Match). e.0) k matches).1 (x, old, same)))
      (λ new. inr (sym same ∙ ap (λ (e : ℕ × Match). e.0) new)) (Memᴰ-keep_match matches i m x in_)

pub keep_match-IsDistinct :
    (matches : Matches) (i : ℕ) (m : Match)
    → IsDistinct (keys_of matches)
    → IsDistinct (keys_of (keep_match matches i m))
unfolding keep_match
keep_match-IsDistinct [] i m d = ((λ n. Memᴰ.not-nil n), tt)
keep_match-IsDistinct ((j, current) ∷ matches) i m d = elim (Bool-cases (j == i)) [
  | inl same ↦ rw same d
  | inr apart ↦ rw apart (
    λ at. ⊎_elim d.0 (λ e. both_ways (≡→== j i e) apart) (keys-keep_match matches i m j at),
    keep_match-IsDistinct matches i m d.1,
  )
]

keys-keep_best :
    (best : Best) (p : Position) (m : Match) (k : ℕ)
    → Memᴰ k (keys_of (keep_best best p m))
    → Memᴰ k (keys_of best) ⊎ (k ≡ p.0)
keys-keep_best best p m k at =
    let (x, in_, same) = (Memᴰ-map (λ (e : ℕ × Matches). e.0) k (keep_best best p m)).0 at in
    ⊎_elim (λ old. inl ((Memᴰ-map (λ (e : ℕ × Matches). e.0) k best).1 (x, old, same)))
      (λ (ms, e, from). inr (sym same ∙ ap (λ (y : ℕ × Matches). y.0) e))
      (Memᴰ-keep_best best p m x in_)

pub keep_best-IsDistinct :
    (best : Best) (p : Position) (m : Match)
    → IsDistinct (keys_of best)
    → IsDistinct (keys_of (keep_best best p m))
unfolding keep_best
keep_best-IsDistinct [] p m d = ((λ n. Memᴰ.not-nil n), tt)
keep_best-IsDistinct ((o, matches) ∷ best) p m d = elim (Bool-cases (o == p.0)) [
  | inl same ↦ rw same d
  | inr apart ↦ rw apart (
    λ at. ⊎_elim d.0 (λ e. both_ways (≡→== o p.0 e) apart) (keys-keep_best best p m o at),
    keep_best-IsDistinct best p m d.1,
  )
]

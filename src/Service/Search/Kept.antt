-- ===== src/Service/Search/Kept.antt =====
-- What `consider` leaves in `best` after a sequence of calls.
use mathlib.Core.List.Memᴰ
use data_ontology_graph.Prelude.{
  ℕ, List, [], ◌∷◌, true, false, Memᴰ, Option, none, some, ◌==◌, ◌<=◌, ◌≡◌, ◌⊎◌, refl, sym, ap, ◌∙◌,
  subst, inl, inr, ⊎_elim, Bool-cases, both_ways, ==-self, ==→≡, ≡→==, <=-self, <=-total, <=-trans,
  arith, nat_order, list_order, pair_order,
}
use data_ontology_graph.Query.Paths.Traced.{some_injective}
use data_ontology_graph.Service.Search.Index.{SearchKind, Subject}
use data_ontology_graph.Service.Search.Matching.{Match, Position, is_selected, entry_at}
use data_ontology_graph.Service.Search.Best.{
  Matches, Best, Considered, better, keep_match, keep_best, consider, consider_all, match_in,
  match_at,
}

-- a match with what was there
abbrev pub least : Option Match → Match → Match
least none m = m
least (some current) m = better current m

match_in-same :
    (matches : Matches) (i : ℕ) (m : Match)
    → match_in (keep_match matches i m) i ≡ some (least (match_in matches i) m)
unfolding keep_match
match_in-same [] i m = rw (==-self i) refl
match_in-same ((j, current) ∷ matches) i m = elim (Bool-cases (j == i)) [
  | inl same ↦ rw (same, same) refl
  | inr apart ↦ rw (apart, apart) (match_in-same matches i m)
]

match_in-other :
    (matches : Matches) (i k : ℕ) (m : Match)
    → (i == k) ≡ false
    → match_in (keep_match matches i m) k ≡ match_in matches k
unfolding keep_match
match_in-other [] i k m ne = rw ne refl
match_in-other ((j, current) ∷ matches) i k m ne = elim (Bool-cases (j == i)) [
  | inl same ↦
      let ne' : (j == k) ≡ false = ap (λ z. z == k) (==→≡ j i same) ∙ ne in rw (same, ne') refl
  | inr apart ↦ rw apart (elim (Bool-cases (j == k)) [
    | inl same ↦ rw same refl
    | inr apart' ↦ rw apart' (match_in-other matches i k m ne)
  ])
]

match_at-same :
    (best : Best) (p : Position) (m : Match)
    → match_at (keep_best best p m) p ≡ some (least (match_at best p) m)
unfolding keep_best keep_match
match_at-same [] p m = rw (==-self p.0, ==-self p.1) refl
match_at-same ((o, matches) ∷ best) p m = elim (Bool-cases (o == p.0)) [
  | inl same ↦ rw (same, same) (match_in-same matches p.1 m)
  | inr apart ↦ rw (apart, apart) (match_at-same best p m)
]

-- positions that differ and have the same subject differ in the value
second_apart : (p q : Position) → (p.0 == q.0) ≡ true → (p == q) ≡ false → (p.1 == q.1) ≡ false
second_apart p q same ne = ground arith

match_at-other :
    (best : Best) (p q : Position) (m : Match)
    → (p == q) ≡ false
    → match_at (keep_best best p m) q ≡ match_at best q
unfolding keep_best keep_match
match_at-other [] p q m ne = elim (Bool-cases (p.0 == q.0)) [
  | inr apart ↦ rw apart refl
  | inl same ↦ rw same (rw (second_apart p q same ne) refl)
]
match_at-other ((o, matches) ∷ best) p q m ne = elim (Bool-cases (o == p.0)) [
  | inl same ↦ rw same (elim (Bool-cases (o == q.0)) [
    | inl same' ↦ rw same' (
        match_in-other matches p.1 q.1 m
          (second_apart p q (≡→== p.0 q.0 (sym (==→≡ o p.0 same) ∙ ==→≡ o q.0 same')) ne))
    | inr apart ↦ rw apart refl
  ])
  | inr apart ↦ rw apart (elim (Bool-cases (o == q.0)) [
    | inl same ↦ rw same refl
    | inr apart' ↦ rw apart' (match_at-other best p q m ne)
  ])
]

-- Of the matches of which `W` tells, nothing is kept where there is none, and else a least one.
pub data Keeps (W : Match → Type 0) : Option Match → Type 0 where
  nothing : ((m : Match) → ¬ W m) → Keeps W none
  least_of :
      {m : Match} → W m → ((other : Match) → W other → (m <= other) ≡ true) → Keeps W (some m)

module _ {W V : Match → Type 0} (to : (m : Match) → W m → V m)
    (from : (m : Match) → V m → W m) where
  pub Keeps-same : {r : Option Match} → Keeps W r → Keeps V r
  Keeps-same (Keeps.nothing none_there) = Keeps.nothing (λ m v. none_there m (from m v))
  Keeps-same (Keeps.least_of {m} w all) =
      Keeps.least_of (to m w) (λ other v. all other (from other v))

-- one more match
Keeps-least :
    {W : Match → Type 0} {r : Option Match} (m : Match)
    → Keeps W r
    → Keeps (λ x. W x ⊎ (x ≡ m)) (some (least r m))
Keeps-least m (Keeps.nothing none_there) =
    Keeps.least_of (inr refl)
      (λ other w. ⊎_elim (λ v. absurd (none_there other v)) (λ e. rw e (<=-self m)) w)
Keeps-least m (Keeps.least_of {m = current} w all) = elim (Bool-cases (current <= m)) [
  | inl stays ↦
      rw stays (Keeps.least_of (inl w) (λ other v. ⊎_elim (all other) (λ e. rw e stays) v))
  | inr goes ↦ rw goes (
      Keeps.least_of (inr refl) (λ other v.
        ⊎_elim (λ u. <=-trans m current other (<=-total current m goes) (all other u))
          (λ e. rw e (<=-self m)) v))
]

only {ℓ} : {A : Type ℓ} {a b : A} → Memᴰ a (b ∷ []) → a ≡ b
only (Memᴰ.head e) = e
only (Memᴰ.tail m) = absurd (Memᴰ.not-nil m)

first_or_later {ℓ} :
    {A : Type ℓ} {a b : A} {bs : List A} → Memᴰ a (b ∷ bs) → Memᴰ a (b ∷ []) ⊎ Memᴰ a bs
first_or_later (Memᴰ.head e) = inl (Memᴰ.head e)
first_or_later (Memᴰ.tail m) = inr m

module _ (subjects : List Subject) (selected : List SearchKind) where
  -- The subject of the position exists and is of a selected kind.
  abbrev pub IsSelected : Position → Type 0
  IsSelected p =
      (subject : Subject) × (entry_at subjects p.0 ≡ some subject)
      × (is_selected selected subject.kind ≡ true)

  -- `consider` was called with this match of the value, whose subject is of a selected kind.
  abbrev pub IsConsidered : List Considered → Position → Match → Type 0
  IsConsidered cs p m = Memᴰ (p, m) cs × IsSelected p

  -- For each value the dictionary keeps a least of the matches of which `W` tells.
  abbrev KeepsAll : (Position → Match → Type 0) → Best → Type 0
  KeepsAll W best = (p : Position) → Keeps (W p) (match_at best p)

  keep_best-Keeps :
      (W : Position → Match → Type 0) (best : Best) (p : Position) (m : Match)
      → KeepsAll W best
      → IsSelected p
      → KeepsAll (λ q x. W q x ⊎ IsConsidered ((p, m) ∷ []) q x) (keep_best best p m)
  keep_best-Keeps W best p m k sel q = elim (Bool-cases (p == q)) [
    | inl same ↦
        let e = ==→≡ p q same in
        subst
          (λ z.
            Keeps (λ x. W z x ⊎ IsConsidered ((p, m) ∷ []) z x) (match_at (keep_best best p m) z))
          e
          (subst (Keeps (λ x. W p x ⊎ IsConsidered ((p, m) ∷ []) p x))
            (sym (match_at-same best p m))
            (Keeps-same
              (λ x w. ⊎_elim inl (λ i. inr (Memᴰ.head (ap (λ (y : Match). (p, y)) i), sel)) w)
              (λ x w. ⊎_elim inl (λ c. inr (ap (λ (y : Considered). y.1) (only c.0))) w)
              (Keeps-least m (k p))))
    | inr apart ↦
        subst (Keeps (λ x. W q x ⊎ IsConsidered ((p, m) ∷ []) q x))
          (sym (match_at-other best p q m apart))
          (Keeps-same (λ x w. inl w)
            (λ x w.
              ⊎_elim (λ v. v)
                (λ c. both_ways (≡→== p q (sym (ap (λ (y : Considered). y.0) (only c.0)))) apart) w)
            (k q))
  ]

  not_selected :
      (p : Position) (m : Match) (subject : Subject)
      → entry_at subjects p.0 ≡ some subject
      → is_selected selected subject.kind ≡ false
      → (q : Position) (x : Match) → ¬ IsConsidered ((p, m) ∷ []) q x
  not_selected p m subject at other q x (mem, (s, at', chosen)) =
      let e = ap (λ (y : Considered). entry_at subjects y.0.0) (only mem) in
      let same : s ≡ subject = some_injective (sym at' ∙ e ∙ at) in
      both_ways (ap (λ (z : Subject). is_selected selected z.kind) (sym same) ∙ chosen) other

  -- one call
  consider-Keeps :
      (W : Position → Match → Type 0) (best : Best) (c : Considered) (subject : Subject)
      → KeepsAll W best
      → entry_at subjects c.0.0 ≡ some subject
      → (next : Best) × (consider subjects selected best c ≡ some next)
        × KeepsAll (λ q x. W q x ⊎ IsConsidered (c ∷ []) q x) next
  unfolding consider
  consider-Keeps W best (p, m) subject k at =
      elim (Bool-cases (is_selected selected subject.kind)) [
        | inl chosen ↦ (
          keep_best best p m,
          rw (at, chosen) refl,
          keep_best-Keeps W best p m k (subject, at, chosen),
        )
        | inr other ↦ (
          best,
          rw (at, other) refl,
          λ q.
              Keeps-same (λ x w. inl w)
                (λ x w. ⊎_elim (λ v. v) (λ c. absurd (not_selected p m subject at other q x c)) w)
                (k q),
        )
      ]

  consider_all-Keeps :
      (W : Position → Match → Type 0) (best : Best) (cs : List Considered)
      → KeepsAll W best
      → ((c : Considered) → Memᴰ c cs → (s : Subject) × (entry_at subjects c.0.0 ≡ some s))
      → (end : Best) × (consider_all subjects selected best cs ≡ some end)
        × KeepsAll (λ q x. W q x ⊎ IsConsidered cs q x) end
  unfolding consider_all
  consider_all-Keeps W best [] k there = (
    best,
    refl,
    λ q.
        Keeps-same (λ x w. inl w) (λ x w. ⊎_elim (λ v. v) (λ c. absurd (Memᴰ.not-nil c.0)) w) (k q),
  )
  consider_all-Keeps W best (c ∷ cs) k there =
      let (s, at) = there c (Memᴰ.head refl) in
      let (next, e, k1) = consider-Keeps W best c s k at in
      let (end, e', k2) =
        consider_all-Keeps (λ q x. W q x ⊎ IsConsidered (c ∷ []) q x) next cs k1
          (λ d m. there d (Memᴰ.tail m)) in
      (
        end,
        rw e e',
        λ q.
            Keeps-same
              (λ x w.
                ⊎_elim (λ v. ⊎_elim inl (λ i. inr (Memᴰ.head (only i.0), i.1)) v)
                  (λ i. inr (Memᴰ.tail i.0, i.1)) w)
              (λ x w.
                ⊎_elim (λ v. inl (inl v))
                  (λ i. ⊎_elim (λ h. inl (inr (h, i.1))) (λ t. inr (t, i.1)) (first_or_later i.0))
                  w)
              (k2 q),
      )

  -- Where the considered values are of subjects of the index, the calls of `consider` come to an
  -- end without an IndexError, and for each value `best` then keeps the least (rank, term) that was
  -- considered for it, and nothing where none was or the subject's kind is not selected.
  pub consider_all_returns :
      (cs : List Considered)
      → ((c : Considered) → Memᴰ c cs → (s : Subject) × (entry_at subjects c.0.0 ≡ some s))
      → (best : Best) × (consider_all subjects selected [] cs ≡ some best)
        × ((p : Position) → Keeps (IsConsidered cs p) (match_at best p))
  consider_all_returns cs there =
      let (best, e, k) =
        consider_all-Keeps (λ q x. ⊥) [] cs (λ q. Keeps.nothing (λ m h. h)) there in
      (best, e, λ p. Keeps-same (λ x w. ⊎_elim (λ v. absurd v) (λ i. i) w) (λ x i. inr i) (k p))

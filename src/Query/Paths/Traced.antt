-- ===== src/Query/Paths/Traced.antt =====
-- The labels of a search: each distance is a walk's, which the `previous` states lead back along.
use mathlib.Core.List.Memᴰ
use data_ontology_graph.Prelude.{
  ℕ, suc, ◌+◌, ◌≤◌, ◌<◌, ◌≡◌, ◌≢◌, ◌⊎◌, inl, inr, ⊎_elim, refl, sym, ap, ◌∙◌, subst, List, [], ◌∷◌,
  ◌++◌, true, false, ltb, leb, Bool-cases, both_ways, Memᴰ, Memᴰ-snoc, Option, none, some, ◌==◌,
  ==→≡, ≡→==, arith, nat_order,
}
use data_ontology_graph.Prelude.Maps.{put, put-same, put-other}
use data_ontology_graph.Query.Paths.{State, state_order}
use data_ontology_graph.Query.Paths.Search.{Labels, or_default, enqueue, relax}

pub some_injective {ℓ} : {A : Type ℓ} {a b : A} → ◌≡◌ {A = Option A} (some a) (some b) → a ≡ b
some_injective h = cc

-- The states after `x` on a way to `goal`, with the cost of their steps.
abbrev pub Walk : (State → List (State × ℕ)) → State → State → List State → ℕ → Type 0
Walk next goal x [] n = (x ≡ goal) × (n ≡ 0)
Walk next goal x (y ∷ path) n =
    (c : ℕ) × Memᴰ (y, c) (next x) × (m : ℕ) × (n ≡ c + m) × Walk next goal y path m

-- the labels after `following` got a smaller distance
abbrev pub improved : Labels → State → State → ℕ → ℕ → Labels
improved l state following total cost = record {
  distance = put l.distance following (some total);
  previous = put l.previous following (some state);
  queue = enqueue cost following l.queue;
}

-- The two outcomes of a round.
pub relax-cases :
    (state : State) (here budget : ℕ) (l : Labels) (y : State) (c : ℕ)
    → ((relax state here budget l (y, c) ≡ l)
        × ((budget < here + c) ⊎ ((b : ℕ) × (l.distance y ≡ some b) × (b ≤ here + c))))
      ⊎ ((relax state here budget l (y, c) ≡ improved l state y (here + c) c)
          × (here + c ≤ budget)
          × (here + c < or_default (l.distance y) (suc budget)))
unfolding relax
relax-cases state here budget l y c = elim (Bool-cases (ltb budget (here + c))) [
  | inl over ↦ inl (rw over, inl (ground arith))
  | inr within ↦ elim (Bool-cases (leb (or_default (l.distance y) (suc budget)) (here + c))) [
    | inl kept ↦ inl (rw (within, kept), labelled (l.distance y) refl kept)
    | inr more ↦ inr (rw (within, more), ground arith, ground arith)
  ]
]
  where
    labelled :
        (found : Option ℕ)
        → l.distance y ≡ found
        → leb (or_default found (suc budget)) (here + c) ≡ true
        → (budget < here + c) ⊎ ((b : ℕ) × (l.distance y ≡ some b) × (b ≤ here + c))
    labelled none e h = inl (ground arith)
    labelled (some b) e h = inr (b, e, ground arith)

pub Memᴰ-enqueue :
    (c : ℕ) (x y : State) (queue : List State) → Memᴰ x (enqueue c y queue) → (x ≡ y) ⊎ Memᴰ x queue
Memᴰ-enqueue c x y queue m = elim (Bool-cases (c == 0)) [
  | inl free ↦ Memᴰ.cases_cons (subst (λ q. Memᴰ x q) (first free) m)
  | inr paid ↦ ⊎_elim inr inl ((Memᴰ-snoc x y queue).0 (subst (λ q. Memᴰ x q) (last paid) m))
]
  where
    first : (c == 0) ≡ true → enqueue c y queue ≡ y ∷ queue
    first e = rw e

    last : (c == 0) ≡ false → enqueue c y queue ≡ queue ++ y ∷ []
    last e = rw e

pub enqueue-Memᴰ :
    (c : ℕ) (x y : State) (queue : List State) → (x ≡ y) ⊎ Memᴰ x queue → Memᴰ x (enqueue c y queue)
enqueue-Memᴰ c x y queue m = elim (Bool-cases (c == 0)) [
  | inl free ↦ rw free (⊎_elim Memᴰ.head Memᴰ.tail m)
  | inr paid ↦ rw paid ((Memᴰ-snoc x y queue).1 (⊎_elim inr inl m))
]

module _ (next : State → List (State × ℕ)) (start : State) (budget : ℕ) where
  -- `x` was reached by a step from its previous state
  abbrev pub Reached : Labels → State → ℕ → Type 0
  Reached l x n =
      (y : State) × (m : ℕ) × (c : ℕ) × (l.previous x ≡ some y)
      × Memᴰ (x, c) (next y)
      × (l.distance y ≡ some m)
      × (m + c ≤ n)

  pub record IsTraced (l : Labels) : Type 0 where
    pub at_start : l.distance start ≡ some 0
    pub queued : (x : State) → Memᴰ x l.queue → (n : ℕ) × (l.distance x ≡ some n)
    pub traced :
        (x : State) (n : ℕ) → l.distance x ≡ some n → (n ≤ budget) × ((x ≡ start) ⊎ Reached l x n)

  module _ (l : Labels) (state : State) (here : ℕ) (y : State) (c : ℕ)
      (at : l.distance state ≡ some here) (step : Memᴰ (y, c) (next state))
      (within : here + c ≤ budget) (less : here + c < or_default (l.distance y) (suc budget)) where
    -- A state with a distance that is no greater is not the one improved.
    pub other_than : (x : State) (m : ℕ) → l.distance x ≡ some m → m ≤ here + c → x ≢ y
    other_than x m e le same =
        let e' = ap (λ (o : Option ℕ). or_default o (suc budget)) (sym (ap l.distance same) ∙ e) in
        omega arith

    -- Distances only fall.
    pub lowered :
        (x : State) (m : ℕ)
        → l.distance x ≡ some m
        → (m' : ℕ) × (put l.distance y (some (here + c)) x ≡ some m') × (m' ≤ m)
    lowered x m e = elim (Bool-cases (x == y)) [
      | inl same ↦
          let x_y = ==→≡ x y same in
          let e' = ap (λ (o : Option ℕ). or_default o (suc budget)) (sym (ap l.distance x_y) ∙ e) in
          (
            here + c,
            ap (put l.distance y (some (here + c))) x_y ∙ put-same l.distance y _,
            omega arith,
          )
      | inr other ↦
          (m, put-other l.distance y x _ (λ s. both_ways (≡→== x y s) other) ∙ e, omega arith)
    ]

    improved-IsTraced : IsTraced l → IsTraced (improved l state y (here + c) c)
    improved-IsTraced t = record {
      at_start =
          put-other l.distance y start _ (other_than start 0 t.at_start (omega arith)) ∙ t.at_start;
      queued = λ x m.
          ⊎_elim
            (λ e. (here + c, ap (put l.distance y (some (here + c))) e ∙ put-same l.distance y _))
            (λ old. let (n, e) = t.queued x old in let (m', e', _) = lowered x n e in (m', e'))
            (Memᴰ-enqueue c x y l.queue m);
      traced = λ x n e. elim (Bool-cases (x == y)) [
        | inl same ↦
            let x_y = ==→≡ x y same in
            let n_total = some_injective (
              sym (put-same l.distance y (some (here + c)))
              ∙ (sym (ap (put l.distance y (some (here + c))) x_y) ∙ e)) in
            (
              omega arith,
              inr (
                state,
                here,
                c,
                ap (put l.previous y (some state)) x_y ∙ put-same l.previous y _,
                Memᴰ.cast (ap (λ (z : State). (z, c)) x_y) step,
                put-other l.distance y state _ (other_than state here at (omega arith)) ∙ at,
                omega arith,
              ),
            )
        | inr other ↦
            let ne = λ (s : x ≡ y). both_ways {P = ⊥} (≡→== x y s) other in
            let (le, how) =
              t.traced x n (sym (put-other l.distance y x (some (here + c)) ne) ∙ e) in
            (
              le,
              ⊎_elim inl
                  (λ (z, m, d, p, step', at', le').
                    let (m', at'', fall) = lowered z m at' in
                    inr (z, m', d, put-other l.previous y x _ ne ∙ p, step', at'', omega arith))
                  how,
            )
      ];
    }

  -- A round keeps the labels traced, and the distance of the state that is expanded.
  pub relax-IsTraced :
      (l : Labels) (state : State) (here : ℕ) (y : State) (c : ℕ)
      → l.distance state ≡ some here
      → Memᴰ (y, c) (next state)
      → IsTraced l
      → IsTraced (relax state here budget l (y, c))
        × ((relax state here budget l (y, c)).distance state ≡ some here)
  relax-IsTraced l state here y c at step t =
      ⊎_elim
        (λ (same, _).
          subst (λ l'. IsTraced l' × (l'.distance state ≡ some here)) (sym same) (t, at))
        (λ (better, within, less).
          subst (λ l'. IsTraced l' × (l'.distance state ≡ some here)) (sym better)
            (
              improved-IsTraced l state here y c at step within less t,
              put-other l.distance y state _
                    (other_than l state here y c at step within less state here at (omega arith))
                  ∙ at,
            ))
        (relax-cases state here budget l y c)

-- ===== src/Query/Paths/Frontier.antt =====
-- The queue of a search: states at the current distance, then states one step further.
use mathlib.Core.List.Memᴰ
use data_ontology_graph.Prelude.{
  ℕ, suc, ◌+◌, ◌≤◌, ◌<◌, ◌≡◌, ◌⊎◌, inl, inr, ⊎_elim, sym, ap, ◌∙◌, List, [], ◌∷◌, ◌++◌, true, false,
  Bool-cases, both_ways, Memᴰ, Memᴰ-snoc, Option, some, ◌==◌, ==→≡, ≡→==, arith, nat_order,
  append_assoc,
}
use data_ontology_graph.Prelude.Maps.{put, put-same, put-other}
use data_ontology_graph.Query.Paths.{State, state_order}
use data_ontology_graph.Query.Paths.Search.{Labels, or_default}
use data_ontology_graph.Query.Paths.Traced.{improved, other_than, enqueue-Memᴰ}

-- `y` is within `total` of the start, or `total` is over the budget
abbrev pub IsRelaxed : ℕ → Labels → ℕ → State → Type 0
IsRelaxed budget l total y = (budget < total) ⊎ ((b : ℕ) × (l.distance y ≡ some b) × (b ≤ total))

pub record Frontier (done : List State) (l : Labels) (k : ℕ) (near far : List State) : Type 0 where
  pub split : l.queue ≡ near ++ far
  pub near_at : (x : State) → Memᴰ x near → (¬ Memᴰ x done) → l.distance x ≡ some k
  pub far_at :
      (x : State) → Memᴰ x far → (¬ Memᴰ x done) → (l.distance x ≡ some (k + 1)) ⊎ Memᴰ x near
  pub done_at : (x : State) → Memᴰ x done → (a : ℕ) × (l.distance x ≡ some a) × (a ≤ k)

-- Every labelled state that is not done waits in the queue.
abbrev pub IsOpen : List State → Labels → Type 0
IsOpen done l = (x : State) (n : ℕ) → l.distance x ≡ some n → (¬ Memᴰ x done) → Memᴰ x l.queue

-- the distances of the states of `universe`, those of unlabelled ones past the budget, summed
abbrev pub total : ℕ → Labels → List State → ℕ
total budget l [] = 0
total budget l (x ∷ xs) = or_default (l.distance x) (suc budget) + total budget l xs

module _ (next : State → List (State × ℕ)) (start : State) (budget : ℕ)
    (costs : (x y : State) (c : ℕ) → Memᴰ (y, c) (next x) → c ≤ 1) where
  module _ (l : Labels) (state : State) (k : ℕ) (y : State) (c : ℕ) (at : l.distance state ≡ some k)
      (step : Memᴰ (y, c) (next state)) (within : k + c ≤ budget)
      (less : k + c < or_default (l.distance y) (suc budget)) where
    kept_at :
        (x : State) (m : ℕ)
        → l.distance x ≡ some m
        → m ≤ k + c
        → put l.distance y (some (k + c)) x ≡ some m
    kept_at x m e le =
        put-other l.distance y x _
          (other_than next start budget l state k y c at step within less x m e le)
        ∙ e

    pub improved-IsOpen :
        (done : List State) → IsOpen done l → IsOpen done (improved l state y (k + c) c)
    improved-IsOpen done open_ x n e apart = elim (Bool-cases (x == y)) [
      | inl same ↦ enqueue-Memᴰ c x y l.queue (inl (==→≡ x y same))
      | inr other ↦ enqueue-Memᴰ c x y l.queue (
          inr (
            open_ x n
              (sym (put-other l.distance y x _ (λ s. both_ways {P = ⊥} (≡→== x y s) other)) ∙ e)
              apart))
    ]

    module _ (done near far : List State) (f : Frontier done l k near far) where
      done_kept :
          (x : State)
          → Memᴰ x done
          → (a : ℕ) × (put l.distance y (some (k + c)) x ≡ some a) × (a ≤ k)
      done_kept x m = let (a, e, le) = f.done_at x m in (a, kept_at x a e (omega arith), le)

      free_step : (c == 0) ≡ true → Frontier done (improved l state y (k + c) c) k (y ∷ near) far
      free_step zero_ = record {
        split = rw zero_ (ap (λ q. y ∷ q) f.split);
        near_at = λ x m apart. elim (Bool-cases (x == y)) [
          | inl same ↦
              ap (put l.distance y (some (k + c))) (==→≡ x y same)
              ∙ (put-same l.distance y _ ∙ ap some (ground arith))
          | inr other ↦
              ⊎_elim (λ s. both_ways (≡→== x y s) other)
                (λ t. kept_at x k (f.near_at x t apart) (omega arith)) (Memᴰ.cases_cons m)
        ];
        far_at = λ x m apart. elim (Bool-cases (x == y)) [
          | inl same ↦ inr (Memᴰ.head (==→≡ x y same))
          | inr other ↦
              ⊎_elim
                (λ e.
                  inl (put-other l.distance y x _ (λ s. both_ways {P = ⊥} (≡→== x y s) other) ∙ e))
                (λ t. inr (Memᴰ.tail t)) (f.far_at x m apart)
        ];
        done_at = done_kept;
      }

      paid_step :
          (c == 0) ≡ false → Frontier done (improved l state y (k + c) c) k near (far ++ y ∷ [])
      paid_step positive =
          let small = costs state y c step in
          let one : c ≡ 1 = ground arith in
          record {
            split = rw positive (ap (λ q. q ++ y ∷ []) f.split ∙ append_assoc near far (y ∷ []));
            near_at = λ x m apart. kept_at x k (f.near_at x m apart) (omega arith);
            far_at = λ x m apart. elim (Bool-cases (x == y)) [
              | inl same ↦ inl (
                  ap (put l.distance y (some (k + c))) (==→≡ x y same)
                  ∙ (put-same l.distance y _ ∙ ap (λ d. some (k + d)) one))
              | inr other ↦
                  ⊎_elim
                    (λ t.
                      ⊎_elim
                        (λ e. inl (
                          put-other l.distance y x _ (λ s. both_ways {P = ⊥} (≡→== x y s) other)
                          ∙ e))
                        inr (f.far_at x t apart))
                    (λ s. both_ways (≡→== x y s) other) ((Memᴰ-snoc x y far).0 m)
            ];
            done_at = done_kept;
          }

      pub improved-Frontier :
          (near' : List State) × (far' : List State) × Frontier done
            (improved l state y (k + c) c)
            k
            near'
            far'
      improved-Frontier = elim (Bool-cases (c == 0)) [
        | inl free ↦ (y ∷ near, far, free_step free)
        | inr paid ↦ (near, far ++ y ∷ [], paid_step paid)
      ]

    total-le :
        (xs : List State) → total budget (improved l state y (k + c) c) xs ≤ total budget l xs
    total-le [] = omega arith
    total-le (x ∷ xs) = elim (Bool-cases (x == y)) [
      | inl same ↦
          let x_y = ==→≡ x y same in
          let new =
            ap (λ (o : Option ℕ). or_default o (suc budget))
              (ap (put l.distance y (some (k + c))) x_y ∙ put-same l.distance y _) in
          let old = ap (λ (z : State). or_default (l.distance z) (suc budget)) x_y in
          omega (arith, total-le xs)
      | inr other ↦
          let kept =
            ap (λ (o : Option ℕ). or_default o (suc budget))
              (put-other l.distance y x (some (k + c))
                (λ s. both_ways {P = ⊥} (≡→== x y s) other)) in
          omega (arith, total-le xs)
    ]

    -- An improvement lowers the sum.
    pub total-lt :
        (xs : List State)
        → Memᴰ y xs
        → total budget (improved l state y (k + c) c) xs < total budget l xs
    total-lt [] m = absurd (Memᴰ.not-nil m)
    total-lt (x ∷ xs) m = elim (Bool-cases (x == y)) [
      | inl same ↦
          let x_y = ==→≡ x y same in
          let new =
            ap (λ (o : Option ℕ). or_default o (suc budget))
              (ap (put l.distance y (some (k + c))) x_y ∙ put-same l.distance y _) in
          let old = ap (λ (z : State). or_default (l.distance z) (suc budget)) x_y in
          omega (arith, total-le xs)
      | inr other ↦
          let kept =
            ap (λ (o : Option ℕ). or_default o (suc budget))
              (put-other l.distance y x (some (k + c))
                (λ s. both_ways {P = ⊥} (≡→== x y s) other)) in
          ⊎_elim (λ s. both_ways (≡→== x y (sym s)) other) (λ t. omega (arith, total-lt xs t))
            (Memᴰ.cases_cons m)
    ]

-- ===== src/Query/Paths/Expanded.antt =====
-- What holds while the successors of a state are relaxed, and after all of them were.
use mathlib.Core.List.{foldl}
use mathlib.Core.List.Memᴰ
use data_ontology_graph.Prelude.{
  ℕ, suc, ◌+◌, ◌≤◌, ◌<◌, ◌≡◌, ◌≢◌, inl, inr, ⊎_elim, refl, sym, ◌∙◌, subst, List, [], ◌∷◌,
  Bool-cases, Memᴰ, some, ◌==◌, arith, nat_order, length, length-append,
}
use data_ontology_graph.Prelude.Maps.{put-same, put-other}
use data_ontology_graph.Query.Paths.{State, state_order}
use data_ontology_graph.Query.Paths.Search.{Labels, or_default, enqueue, relax}
use data_ontology_graph.Query.Paths.Traced.{
  IsTraced, improved, relax-cases, other_than, lowered, relax-IsTraced, Memᴰ-enqueue,
}
use data_ontology_graph.Query.Paths.Frontier.{
  IsRelaxed, IsOpen, Frontier, improved-IsOpen, improved-Frontier, total, total-lt,
}

length-enqueue :
    (c : ℕ) (y : State) (queue : List State) → length (enqueue c y queue) ≡ suc (length queue)
length-enqueue c y queue = elim (Bool-cases (c == 0)) [
  | inl free ↦ rw free
  | inr paid ↦ rw paid (omega (arith, length-append queue (y ∷ [])))
]

-- the sum of the distances, and the entries that wait
abbrev pub measure : ℕ → List State → Labels → ℕ
measure budget states l = total budget l states + length l.queue

module _ (next : State → List (State × ℕ)) (start : State) (budget : ℕ)
    (costs : (x y : State) (c : ℕ) → Memᴰ (y, c) (next x) → c ≤ 1) (states : List State)
    (closed : (x y : State) (c : ℕ) → Memᴰ x states → Memᴰ (y, c) (next x) → Memᴰ y states) where
  -- `state` is being expanded: the other done states have had their successors relaxed
  pub record Held (done : List State) (state : State) (k bound : ℕ) (l : Labels) : Type 0 where
    pub is_traced : IsTraced next start budget l
    pub here : l.distance state ≡ some k
    pub front : (near : List State) × (far : List State) × Frontier done l k near far
    pub is_open : IsOpen done l
    pub inside : (x : State) → Memᴰ x l.queue → Memᴰ x states
    pub settled :
        (x : State)
        → Memᴰ x done
        → x ≢ state
        → (a : ℕ) → l.distance x ≡ some a
        → (y : State) (c : ℕ) → Memᴰ (y, c) (next x)
        → IsRelaxed budget l (a + c) y
    pub spent : measure budget states l ≤ bound

  module _ (done : List State) (state : State) (k bound : ℕ) (known : Memᴰ state states) where
    module _ (l : Labels) (h : Held done state k bound l) (y : State) (c : ℕ)
        (step : Memᴰ (y, c) (next state)) (within : k + c ≤ budget)
        (less : k + c < or_default (l.distance y) (suc budget)) where
      stays-IsRelaxed :
          (t : ℕ) (z : State)
          → IsRelaxed budget l t z
          → IsRelaxed budget (improved l state y (k + c) c) t z
      stays-IsRelaxed t z = ⊎_elim inl λ (b, e, le).
          let (b', e', fall) =
            lowered next start budget l state k y c h.here step within less z b e in
          inr (b', e', omega arith)

      improved-Held : Held done state k bound (improved l state y (k + c) c)
      improved-Held =
          let (near, far, f) = h.front in
          let moved = relax-IsTraced next start budget l state k y c h.here step h.is_traced in
          record {
            is_traced = subst (IsTraced next start budget) better moved.0;
            here = subst (λ l'. l'.distance state ≡ some k) better moved.1;
            front =
                improved-Frontier next start budget costs l state k y c h.here step within less done
                  near far f;
            is_open =
                improved-IsOpen next start budget costs l state k y c h.here step within less done
                  h.is_open;
            inside = λ x m.
                ⊎_elim (λ e. Memᴰ.cast e (closed state y c known step)) (h.inside x)
                  (Memᴰ-enqueue c x y l.queue m);
            settled = λ x m other a e z d into.
                let (b, at, le) = f.done_at x m in
                let apart =
                  other_than next start budget l state k y c h.here step within less x b at
                    (omega arith) in
                let old = sym (put-other l.distance y x (some (k + c)) apart) ∙ e in
                stays-IsRelaxed (a + d) z (h.settled x m other a old z d into);
            spent = omega (
              arith,
              h.spent,
              length-enqueue c y l.queue,
              total-lt next start budget costs l state k y c h.here step within less states
                  (closed state y c known step),
            );
          }
        where
          better : relax state k budget l (y, c) ≡ improved l state y (k + c) c
          better =
              ⊎_elim
                (λ (_, kept). absurd (
                  ⊎_elim (λ over. omega arith)
                    (λ (b, e, le).
                      other_than next start budget l state k y c h.here step within less y b e le
                        refl)
                    kept))
                (λ (e, _, _). e) (relax-cases state k budget l y c)

    -- One round: its successor is relaxed, those before stay so, and the rest is kept.
    relax-Held :
        (l : Labels)
        → Held done state k bound l
        → (y : State) (c : ℕ) → Memᴰ (y, c) (next state)
        → Held done state k bound (relax state k budget l (y, c))
          × IsRelaxed budget (relax state k budget l (y, c)) (k + c) y
          × ((t : ℕ) (z : State)
              → IsRelaxed budget l t z
              → IsRelaxed budget (relax state k budget l (y, c)) t z)
    relax-Held l h y c step =
        ⊎_elim (λ (same, kept). subst Both (sym same) (h, kept, λ t z r. r))
          (λ (better, within, less). subst Both (sym better) (
            improved-Held l h y c step within less,
            inr (k + c, put-same l.distance y _, omega arith),
            stays-IsRelaxed l h y c step within less,
          ))
          (relax-cases state k budget l y c)
      where
        Both : Labels → Type 0
        Both l' =
            Held done state k bound l'
            × IsRelaxed budget l' (k + c) y
            × ((t : ℕ) (z : State) → IsRelaxed budget l t z → IsRelaxed budget l' t z)

    pub fold-Held :
        (steps : List (State × ℕ)) (l : Labels)
        → ((y : State) (c : ℕ) → Memᴰ (y, c) steps → Memᴰ (y, c) (next state))
        → Held done state k bound l
        → Held done state k bound (foldl (relax state k budget) l steps)
          × ((y : State) (c : ℕ)
              → Memᴰ (y, c) steps
              → IsRelaxed budget (foldl (relax state k budget) l steps) (k + c) y)
          × ((t : ℕ) (z : State)
              → IsRelaxed budget l t z
              → IsRelaxed budget (foldl (relax state k budget) l steps) t z)
    fold-Held [] l into h = (h, (λ y c m. absurd (Memᴰ.not-nil m)), λ t z r. r)
    fold-Held ((y, c) ∷ steps) l into h =
        let (h', now, before) = relax-Held l h y c (into y c (Memᴰ.head refl)) in
        let (h'', rest, after) =
          fold-Held steps (relax state k budget l (y, c)) (λ z d m. into z d (Memᴰ.tail m)) h' in
        (
          h'',
          λ z d m.
              ⊎_elim
                (λ e.
                  subst
                    (λ (p : State × ℕ).
                      IsRelaxed budget
                        (foldl (relax state k budget) (relax state k budget l (y, c)) steps)
                        (k + p.1) p.0)
                    (sym e) (after (k + c) y now))
                (rest z d) (Memᴰ.cases_cons m),
          λ t z r. after t z (before t z r),
        )

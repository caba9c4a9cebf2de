-- ===== src/Query/Paths/Popped.antt =====
-- The state of a search between two rounds, and what taking the queue's first entry does to it.
use mathlib.Core.List.Memᴰ
use data_ontology_graph.Prelude.{
  ℕ, suc, ◌+◌, ◌≤◌, ◌≡◌, inl, inr, ⊎_elim, sym, ap, ◌∙◌, subst, List, [], ◌∷◌, ◌++◌, Bool-cases,
  Memᴰ, contains, contains_iff, not-contains, some, arith, append-nil,
}
use data_ontology_graph.Query.Paths.{State, state_order}
use data_ontology_graph.Query.Paths.Search.{Labels}
use data_ontology_graph.Query.Paths.Traced.{some_injective, Walk, IsTraced}
use data_ontology_graph.Query.Paths.Frontier.{IsRelaxed, IsOpen, Frontier}
use data_ontology_graph.Query.Paths.Nearest.{NoWalk}

tail_eq : (x y : State) (xs ys : List State) → ◌≡◌ {A = List State} (x ∷ xs) (y ∷ ys) → xs ≡ ys
tail_eq x y xs ys h = cc

head_eq : (x y : State) (xs ys : List State) → ◌≡◌ {A = List State} (x ∷ xs) (y ∷ ys) → x ≡ y
head_eq x y xs ys h = cc

module _ (next : State → List (State × ℕ)) (states : List State) (start : State) (budget : ℕ) where
  pub record IsSearching (done : List State) (k : ℕ) (l : Labels) : Type 0 where
    pub is_traced : IsTraced next start budget l
    pub front : (near : List State) × (far : List State) × Frontier done l k near far
    pub is_open : IsOpen done l
    pub inside : (x : State) → Memᴰ x l.queue → Memᴰ x states
    pub settled :
        (x : State)
        → Memᴰ x done
        → (a : ℕ) → l.distance x ≡ some a
        → (y : State) (c : ℕ) → Memᴰ (y, c) (next x)
        → IsRelaxed budget l (a + c) y
    pub no_target : ¬ Memᴰ State.target done

  module _ (done : List State) (k : ℕ) (l : Labels) (s : IsSearching done k l) where
    -- A walk from a labelled state costs what leads to a state that waits.
    pub leads_out :
        (least : ℕ)
        → least ≤ suc budget
        → ((x : State) (a : ℕ) → l.distance x ≡ some a → (¬ Memᴰ x done) → least ≤ a)
        → (x : State) (a : ℕ) → l.distance x ≡ some a
        → (path : List State) (n : ℕ) → Walk next State.target x path n
        → least ≤ a + n
    leads_out least top far x a e [] n (at, _) =
        let le = far x a e (λ m. s.no_target (Memᴰ.cast (sym at) m)) in omega arith
    leads_out least top far x a e (y ∷ path) n (c, step, m, sum, w) =
        elim (Bool-cases (contains done x)) [
          | inr waits ↦ let le = far x a e (not-contains done x waits) in omega arith
          | inl is_done ↦
              ⊎_elim (λ over. omega arith)
                (λ (b, at, le). let more = leads_out least top far y b at path m w in omega arith)
                (s.settled x ((contains_iff done x).0 is_done) a e y c step)
        ]

    pub no_walk : l.queue ≡ [] → NoWalk next start budget
    no_walk empty path n w =
        let le =
          leads_out (suc budget) (omega arith)
            (λ x a e apart.
              absurd (Memᴰ.not-nil (subst (λ q. Memᴰ x q) empty (s.is_open x a e apart))))
            start 0 s.is_traced.at_start path n w in
        omega arith

    module _ (x : State) (rest : List State) (e : l.queue ≡ x ∷ rest) where
      abbrev pub popped : Labels
      popped = record l { queue = rest }

      in_queue : (z : State) → Memᴰ z rest → Memᴰ z l.queue
      in_queue z m = subst (λ q. Memᴰ z q) (sym e) (Memᴰ.tail m)

      pub popped-IsTraced : IsTraced next start budget popped
      popped-IsTraced = record {
        at_start = s.is_traced.at_start;
        queued = λ z m. s.is_traced.queued z (in_queue z m);
        traced = s.is_traced.traced;
      }

      pub popped-inside : (z : State) → Memᴰ z rest → Memᴰ z states
      popped-inside z m = s.inside z (in_queue z m)

      pub popped-IsOpen :
          (done' : List State)
          → ((z : State) → Memᴰ z done → Memᴰ z done')
          → Memᴰ x done'
          → IsOpen done' popped
      popped-IsOpen done' more at z n d apart =
          ⊎_elim (λ z_x. absurd (apart (Memᴰ.cast z_x at))) (λ m. m)
            (Memᴰ.cases_cons (subst (λ q. Memᴰ z q) e (s.is_open z n d (λ m. apart (more z m)))))

      skip_frontier :
          (near far : List State)
          → Frontier done l k near far
          → Memᴰ x done
          → (near' : List State) × (far' : List State) × Frontier done popped k near' far'
      skip_frontier [] [] f at = absurd (cc (e, f.split))
      skip_frontier [] (y ∷ far) f at = (
        [],
        far,
        record {
          split = tail_eq x y rest far (sym e ∙ f.split);
          near_at = λ z m. absurd (Memᴰ.not-nil m);
          far_at = λ z m. f.far_at z (Memᴰ.tail m);
          done_at = f.done_at;
        },
      )
      skip_frontier (y ∷ near) far f at =
          let x_y = head_eq x y rest (near ++ far) (sym e ∙ f.split) in
          (
            near,
            far,
            record {
              split = tail_eq x y rest (near ++ far) (sym e ∙ f.split);
              near_at = λ z m. f.near_at z (Memᴰ.tail m);
              far_at = λ z m apart.
                  ⊎_elim inl
                    (λ n.
                      ⊎_elim (λ z_y. absurd (apart (Memᴰ.cast (z_y ∙ sym x_y) at))) inr
                        (Memᴰ.cases_cons n))
                    (f.far_at z m apart);
              done_at = f.done_at;
            },
          )

      -- A done state is left out.
      pub skip-IsSearching : Memᴰ x done → IsSearching done k popped
      skip-IsSearching at = record {
        is_traced = popped-IsTraced;
        front = skip_frontier s.front.0 s.front.1 s.front.2 at;
        is_open = popped-IsOpen done (λ z m. m) at;
        inside = popped-inside;
        settled = s.settled;
        no_target = s.no_target;
      }

      -- The first entry that is not done has the least distance of all states that are not.
      abbrev pub IsLeast : ℕ → Type 0
      IsLeast k' =
          (l.distance x ≡ some k')
          × ((near' : List State) × (far' : List State) × Frontier (x ∷ done) popped k' near' far')
          × ((z : State) (a : ℕ) → l.distance z ≡ some a → (¬ Memᴰ z done) → k' ≤ a)

      pop_frontier :
          (near far : List State)
          → Frontier done l k near far
          → (¬ Memᴰ x done)
          → (k' : ℕ) × IsLeast k'
      pop_frontier [] [] f apart = absurd (cc (e, f.split))
      pop_frontier [] (y ∷ far) f apart =
          let x_y = head_eq x y rest far (sym e ∙ f.split) in
          let far_at = λ (z : State) (m : Memᴰ z (y ∷ far)) (out : ¬ Memᴰ z done).
            ⊎_elim (λ (d : l.distance z ≡ some (k + 1)). d) (λ n. absurd (Memᴰ.not-nil n))
              (f.far_at z m out) in
          let here = far_at x (Memᴰ.head x_y) apart in
          (
            k + 1,
            (
              here,
              (
                far,
                [],
                record {
                  split = tail_eq x y rest far (sym e ∙ f.split) ∙ sym (append-nil far);
                  near_at = λ z m out. far_at z (Memᴰ.tail m) (λ n. out (Memᴰ.tail n));
                  far_at = λ z m. absurd (Memᴰ.not-nil m);
                  done_at = λ z m.
                      ⊎_elim (λ z_x. (k + 1, ap l.distance z_x ∙ here, omega arith))
                        (λ n. let (a, d, le) = f.done_at z n in (a, d, omega arith))
                        (Memᴰ.cases_cons m);
                },
              ),
              λ z a d out.
                  let at = far_at z (subst (λ q. Memᴰ z q) f.split (s.is_open z a d out)) out in
                  omega (arith, some_injective (sym at ∙ d)),
            ),
          )
      pop_frontier (y ∷ near) far f apart =
          let x_y = head_eq x y rest (near ++ far) (sym e ∙ f.split) in
          let here = f.near_at x (Memᴰ.head x_y) apart in
          (
            k,
            (
              here,
              (
                near,
                far,
                record {
                  split = tail_eq x y rest (near ++ far) (sym e ∙ f.split);
                  near_at = λ z m out. f.near_at z (Memᴰ.tail m) (λ n. out (Memᴰ.tail n));
                  far_at = λ z m out.
                      ⊎_elim inl
                        (λ n.
                          ⊎_elim (λ z_y. absurd (out (Memᴰ.head (z_y ∙ sym x_y)))) inr
                            (Memᴰ.cases_cons n))
                        (f.far_at z m (λ n. out (Memᴰ.tail n)));
                  done_at = λ z m.
                      ⊎_elim (λ z_x. (k, ap l.distance z_x ∙ here, omega arith)) (f.done_at z)
                        (Memᴰ.cases_cons m);
                },
              ),
              λ z a d out.
                  let near_le = λ (m : Memᴰ z (y ∷ near)).
                    let g : k ≤ a = omega (arith, some_injective (sym (f.near_at z m out) ∙ d)) in
                    g in
                  ⊎_elim near_le
                    (λ m.
                      ⊎_elim (λ at. omega (arith, some_injective (sym at ∙ d))) near_le
                        (f.far_at z m out))
                    (Memᴰ.append_cases (y ∷ near)
                      (subst (λ q. Memᴰ z q) f.split (s.is_open z a d out))),
            ),
          )

      pub pop : (¬ Memᴰ x done) → (k' : ℕ) × IsLeast k'
      pop = pop_frontier s.front.0 s.front.1 s.front.2

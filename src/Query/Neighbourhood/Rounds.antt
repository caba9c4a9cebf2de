-- ===== src/Query/Neighbourhood/Rounds.antt =====
-- One round of the loop of `expand`: what it adds to the datasets reached.
use mathlib.Core.List.Memᴰ
use data_ontology_graph.Prelude.{
  ℕ, suc, ◌≤◌, Text, List, [], ◌∷◌, ◌++◌, Memᴰ, Bool, true, Bool-cases, arith, ◌≡◌, refl, sym, ap,
  subst, ⊎_elim, inl, inr, ◌↔◌, map, contains, contains_iff, not-contains, IsDistinct,
  IsDistinct-snoc, Memᴰ-snoc, Memᴰ-map, nat_order, list_order,
}
use data_ontology_graph.Query.Neighbourhood.{
  DirectedEdge, EdgesByDataset, Frontier, reached, visit, visit_all, scan,
}

-- A dataset with its level.
abbrev pub Distances : Type 0
Distances = List (Text × ℕ)

map_snoc :
    (xs : Distances) (n : Text) (d : ℕ)
    → map (λ (p : Text × ℕ). p.0) (xs ++ (n, d) ∷ []) ≡ map (λ (p : Text × ℕ). p.0) xs ++ n ∷ []
map_snoc [] n d = refl
map_snoc (x ∷ xs) n d = ap (◌∷◌ x.0) (map_snoc xs n d)

module _ (edges : EdgesByDataset) (allowed : DirectedEdge → Bool) (seeds : List Text) where
  -- `Walk n k`: some walk of k allowed directed edges leads from a seed to n.
  pub data Walk : Text → ℕ → Type 0 where
    start : {n : Text} → Memᴰ n seeds → Walk n 0
    step :
        {u v : Text} {k : ℕ} (e : DirectedEdge)
        → Walk u k
        → Memᴰ e (edges u)
        → allowed e ≡ true
        → e.target.node_id ≡ v
        → Walk v (suc k)

  pub record Good (level : ℕ) (f : Frontier) : Type 0 where
    pub distinct : IsDistinct (reached f)
    pub walks : (n : Text) (d : ℕ) → Memᴰ (n, d) f.distance → Walk n d
    pub bound : (n : Text) (d : ℕ) → Memᴰ (n, d) f.distance → d ≤ suc level
    pub new : (n : Text) → Memᴰ n f.following ↔ Memᴰ (n, suc level) f.distance

  -- `g` holds what `f` holds, and nothing else up to the level.
  pub record Extends (level : ℕ) (f g : Frontier) : Type 0 where
    pub grows : (p : Text × ℕ) → Memᴰ p f.distance → Memᴰ p g.distance
    pub old : (n : Text) (d : ℕ) → Memᴰ (n, d) g.distance → d ≤ level → Memᴰ (n, d) f.distance

  Extends-refl : (level : ℕ) (f : Frontier) → Extends level f f
  Extends-refl level f = record { grows = λ p m. m; old = λ n d m b. m }

  Extends-trans :
      {level : ℕ} {f g h : Frontier} → Extends level f g → Extends level g h → Extends level f h
  Extends-trans a b = record {
    grows = λ p m. b.grows p (a.grows p m);
    old = λ n d m k. a.old n d (b.old n d m k) k;
  }

  abbrev pub IsReached : Frontier → Text → Type 0
  IsReached f n = (d : ℕ) × Memᴰ (n, d) f.distance

  -- what a round over some edges of a dataset, or over some datasets, achieves
  pub record Advances (level : ℕ) (f g : Frontier) : Type 0 where
    pub good : Good level g
    pub extends : Extends level f g

  abbrev extended : ℕ → Frontier → Text → Frontier
  extended level f n = record {
    distance = f.distance ++ (n, suc level) ∷ [];
    following = f.following ++ n ∷ [];
  }

  extended-Advances :
      (level : ℕ) (f : Frontier) (n : Text)
      → Good level f
      → (¬ Memᴰ n (reached f))
      → Walk n (suc level)
      → Advances level f (extended level f n)
  extended-Advances level f n g fresh walk = record {
    good = record {
      distinct =
          subst IsDistinct (sym (map_snoc f.distance n (suc level)))
            (IsDistinct-snoc n (reached f) g.distinct fresh);
      walks = λ m d at.
          ⊎_elim (g.walks m d) (λ e. subst (λ (p : Text × ℕ). Walk p.0 p.1) (sym e) walk)
            ((Memᴰ-snoc (m, d) (n, suc level) f.distance).0 at);
      bound = λ m d at.
          ⊎_elim (g.bound m d) (λ e. omega (arith, value_eq e))
            ((Memᴰ-snoc (m, d) (n, suc level) f.distance).0 at);
      new = λ m. (
        λ at.
            ⊎_elim (λ t. Memᴰ.append_left _ ((g.new m).0 t))
              (λ e.
                (Memᴰ-snoc (m, suc level) (n, suc level) f.distance).1
                  (inr (ap (λ x. (x, suc level)) e)))
              ((Memᴰ-snoc m n f.following).0 at),
        λ at.
            ⊎_elim (λ t. Memᴰ.append_left _ ((g.new m).1 t))
              (λ e. (Memᴰ-snoc m n f.following).1 (inr (key_eq e)))
              ((Memᴰ-snoc (m, suc level) (n, suc level) f.distance).0 at),
      );
    };
    extends = record {
      grows = λ p at. Memᴰ.append_left _ at;
      old = λ m d at small.
          ⊎_elim (λ t. t) (λ e. absurd (omega (arith, value_eq e)))
            ((Memᴰ-snoc (m, d) (n, suc level) f.distance).0 at);
    };
  }
    where
      key_eq : {m n : Text} {d k : ℕ} → ◌≡◌ {A = Text × ℕ} (m, d) (n, k) → m ≡ n
      key_eq e = ap (λ (p : Text × ℕ). p.0) e

      value_eq : {m n : Text} {d k : ℕ} → ◌≡◌ {A = Text × ℕ} (m, d) (n, k) → d ≡ k
      value_eq e = ap (λ (p : Text × ℕ). p.1) e

  visit-Advances :
      (level : ℕ) (f : Frontier) (u : Text) (e : DirectedEdge)
      → Good level f
      → Walk u level
      → Memᴰ e (edges u)
      → Advances level f (visit edges allowed level f e)
        × (allowed e ≡ true → IsReached (visit edges allowed level f e) e.target.node_id)
  unfolding visit
  visit-Advances level f u e g walk at = elim (Bool-cases (allowed e)) [
    | inr barred ↦ rw barred (record { good = g; extends = Extends-refl level f }, λ h. cc)
    | inl open_ ↦ elim (Bool-cases (contains (reached f) e.target.node_id)) [
      | inl known ↦
          rw (open_, known)
            (
              record { good = g; extends = Extends-refl level f },
              λ _. found ((contains_iff (reached f) e.target.node_id).0 known),
            )
      | inr fresh ↦
          rw (open_, fresh)
            (
              extended-Advances level f e.target.node_id g
                  (not-contains (reached f) e.target.node_id fresh) (step e walk at open_ refl),
              λ _. (suc level, Memᴰ.append_right f.distance (Memᴰ.head refl)),
            )
    ]
  ]
    where
      found : Memᴰ e.target.node_id (reached f) → IsReached f e.target.node_id
      found m =
          let (p, inside, same) =
            (Memᴰ-map (λ (x : Text × ℕ). x.0) e.target.node_id f.distance).0 m in
          (p.1, subst (λ n. Memᴰ (n, p.1) f.distance) same inside)

  carry :
      {level : ℕ} {f g : Frontier} {n : Text} → Extends level f g → IsReached f n → IsReached g n
  carry x (d, m) = (d, x.grows (_, d) m)

  -- Every allowed edge of the list leads to a dataset that `g` holds.
  abbrev pub AllReached : Frontier → List DirectedEdge → Type 0
  AllReached g es = (e : DirectedEdge) → Memᴰ e es → allowed e ≡ true → IsReached g e.target.node_id

  visit_all-Advances :
      (level : ℕ) (f : Frontier) (u : Text) (es : List DirectedEdge)
      → Good level f
      → Walk u level
      → ((e : DirectedEdge) → Memᴰ e es → Memᴰ e (edges u))
      → Advances level f (visit_all edges allowed level f es)
        × AllReached (visit_all edges allowed level f es) es
  unfolding visit_all
  visit_all-Advances level f u [] g walk inside =
      (record { good = g; extends = Extends-refl level f }, λ e m. absurd (Memᴰ.not-nil m))
  visit_all-Advances level f u (e ∷ es) g walk inside =
      let (first, hit) = visit-Advances level f u e g walk (inside e (Memᴰ.head refl)) in
      let f' = visit edges allowed level f e in
      let (rest, hits) =
        visit_all-Advances level f' u es first.good walk (λ x m. inside x (Memᴰ.tail m)) in
      (
        record { good = rest.good; extends = Extends-trans first.extends rest.extends },
        λ x m open_.
            ⊎_elim
              (λ same. carry rest.extends (
                subst (λ (y : DirectedEdge). IsReached f' y.target.node_id) (sym same)
                  (hit (subst (λ y. allowed y ≡ true) same open_))))
              (λ t. hits x t open_) (Memᴰ.cases_cons m),
      )

  pub scan-Advances :
      (level : ℕ) (f : Frontier) (frontier : List Text)
      → Good level f
      → ((u : Text) → Memᴰ u frontier → Walk u level)
      → Advances level f (scan edges allowed level f frontier)
        × ((u : Text)
            → Memᴰ u frontier
            → AllReached (scan edges allowed level f frontier) (edges u))
  unfolding scan
  scan-Advances level f [] g walks =
      (record { good = g; extends = Extends-refl level f }, λ u m. absurd (Memᴰ.not-nil m))
  scan-Advances level f (n ∷ rest) g walks =
      let f' = visit_all edges allowed level f (edges n) in
      let (first, hit) =
        visit_all-Advances level f n (edges n) g (walks n (Memᴰ.head refl)) (λ e m. m) in
      let (later, hits) = scan-Advances level f' rest first.good (λ u m. walks u (Memᴰ.tail m)) in
      (
        record { good = later.good; extends = Extends-trans first.extends later.extends },
        λ u m e at open_.
            ⊎_elim
              (λ same. carry later.extends (hit e (subst (λ x. Memᴰ e (edges x)) same at) open_))
              (λ t. hits u t e at open_) (Memᴰ.cases_cons m),
      )

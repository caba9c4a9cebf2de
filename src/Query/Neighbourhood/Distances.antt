-- ===== src/Query/Neighbourhood/Distances.antt =====
-- The levels that `expand` records are the lengths of the shortest walks from the seeds.
use mathlib.Core.List.Memᴰ
use data_ontology_graph.Prelude.{
  ℕ, zero, suc, ◌+◌, ◌≤◌, ◌<◌, Text, List, [], ◌∷◌, Memᴰ, Bool, true, Bool-cases, arith, ◌≡◌, refl,
  sym, ap, subst, inl, inr, ◌↔◌, map, leb, ltb, IsDistinct, value_unique, Memᴰ-map, from_keys,
  Memᴰ-from_keys, from_keys-IsDistinct, nat_order, list_order,
}
use data_ontology_graph.Query.Neighbourhood.{
  DirectedEdge, EdgesByDataset, Frontier, scan, levels, distances,
}
use data_ontology_graph.Query.Neighbourhood.Rounds.{
  Distances, Walk, start, step, Good, scan-Advances,
}

abbrev at_zero : Text → Text × ℕ
at_zero n = (n, 0)

names_of_seeds : (names : List Text) → map (λ (p : Text × ℕ). p.0) (map at_zero names) ≡ names
names_of_seeds [] = refl
names_of_seeds (n ∷ names) = ap (◌∷◌ n) (names_of_seeds names)

module _ (edges : EdgesByDataset) (allowed : DirectedEdge → Bool) (seeds : List Text) where
  -- Before round `level`: the datasets within that many steps are known, and those at exactly that
  -- distance are the frontier.
  record IsLevel (level : ℕ) (distance : Distances) (frontier : List Text) : Type 0 where
    distinct : IsDistinct (map (λ (p : Text × ℕ). p.0) distance)
    walks : (n : Text) (d : ℕ) → Memᴰ (n, d) distance → Walk edges allowed seeds n d
    bound : (n : Text) (d : ℕ) → Memᴰ (n, d) distance → d ≤ level
    last : (n : Text) → Memᴰ n frontier ↔ Memᴰ (n, level) distance
    seeded : (n : Text) → Memᴰ n seeds → Memᴰ (n, 0) distance
    closed :
        (u : Text) (d : ℕ) (e : DirectedEdge)
        → Memᴰ (u, d) distance
        → d < level
        → Memᴰ e (edges u)
        → allowed e ≡ true
        → (k : ℕ) × Memᴰ (e.target.node_id, k) distance × (k ≤ suc d)

  module _ (level : ℕ) (distance : Distances) (frontier : List Text) where
    abbrev before : Frontier
    before = record { distance = distance; following = [] }

    abbrev after : Frontier
    after = scan edges allowed level before frontier

    before-Good : IsLevel level distance frontier → Good edges allowed seeds level before
    before-Good h = record {
      distinct = h.distinct;
      walks = h.walks;
      bound = λ n d m. omega (arith, h.bound n d m);
      new =
          λ n. (λ m. absurd (Memᴰ.not-nil m), λ m. absurd (omega (arith, h.bound n (suc level) m)));
    }

    round-IsLevel :
        IsLevel level distance frontier → IsLevel (suc level) after.distance after.following
    round-IsLevel h =
        let (a, hits) =
          scan-Advances edges allowed seeds level before frontier (before-Good h)
            (λ u m. h.walks u level ((h.last u).0 m)) in
        record {
          distinct = a.good.distinct;
          walks = a.good.walks;
          bound = a.good.bound;
          last = a.good.new;
          seeded = λ n m. a.extends.grows (n, 0) (h.seeded n m);
          closed = λ u d e m less at open_.
              let was = a.extends.old u d m (omega arith) in
              elim (Bool-cases (ltb d level)) [
                | inl earlier ↦
                    let (k, inside, small) = h.closed u d e was (ground arith) at open_ in
                    (k, a.extends.grows (e.target.node_id, k) inside, small)
                | inr now ↦
                    let same : d ≡ level = ground arith in
                    let (k, inside) =
                      hits u ((h.last u).1 (subst (λ x. Memᴰ (u, x) distance) same was)) e at
                        open_ in
                    (k, inside, omega (arith, a.good.bound e.target.node_id k inside))
              ];
        }

  -- after all rounds
  levels-IsLevel :
      (rounds level total : ℕ) (distance : Distances) (frontier : List Text)
      → total ≡ level + rounds
      → IsLevel level distance frontier
      → (last : List Text) × IsLevel total
          (levels edges allowed rounds level distance frontier)
          last
  unfolding levels
  levels-IsLevel zero level total distance frontier e h =
      (frontier, subst (λ t. IsLevel t distance frontier) (omega arith) h)
  levels-IsLevel (suc rounds) level total distance frontier e h =
      levels-IsLevel rounds (suc level) total (after level distance frontier).distance
        (after level distance frontier).following (omega arith)
        (round-IsLevel level distance frontier h)

  start-IsLevel : IsLevel 0 (map at_zero (from_keys seeds)) (from_keys seeds)
  start-IsLevel = record {
    distinct =
        subst IsDistinct (sym (names_of_seeds (from_keys seeds))) (from_keys-IsDistinct seeds);
    walks = λ n d m.
        let (at, e) = tagged n d m in
        subst (Walk edges allowed seeds n) e (start ((Memᴰ-from_keys n seeds).0 at));
    bound = λ n d m. let (at, e) = tagged n d m in omega (arith, e);
    last = λ n. (λ m. Memᴰ.map at_zero m, λ m. (tagged n 0 m).0);
    seeded = λ n m. Memᴰ.map at_zero ((Memᴰ-from_keys n seeds).1 m);
    closed = λ u d e m less. absurd (omega arith);
  }
    where
      tagged :
          (n : Text) (d : ℕ)
          → Memᴰ (n, d) (map at_zero (from_keys seeds))
          → Memᴰ n (from_keys seeds) × (0 ≡ d)
      tagged n d m =
          let (x, at, e) = (Memᴰ-map at_zero (n, d) (from_keys seeds)).0 m in
          (Memᴰ.cast (sym (ap (λ (p : Text × ℕ). p.0) e)) at, ap (λ (p : Text × ℕ). p.1) e)

  -- A walk that is not too long ends at a known dataset, at no greater distance.
  Walk-known :
      (level : ℕ) (distance : Distances) (frontier : List Text) (n : Text) (k : ℕ)
      → IsLevel level distance frontier
      → Walk edges allowed seeds n k
      → k ≤ level
      → (d : ℕ) × Memᴰ (n, d) distance × (d ≤ k)
  Walk-known level distance frontier n k h (start m) small = (0, h.seeded n m, omega arith)
  Walk-known level distance frontier n k h (step {u} {k = j} e w at open_ same) small =
      let (d, inside, less) = Walk-known level distance frontier u j h w (omega arith) in
      let (d', inside', less') = h.closed u d e inside (omega arith) at open_ in
      (d', subst (λ x. Memᴰ (x, d') distance) same inside', omega arith)

  -- No walk from a seed is shorter than d, and one has that length.
  pub record IsShortest (n : Text) (d : ℕ) : Type 0 where
    pub walk : Walk edges allowed seeds n d
    pub least : (k : ℕ) → Walk edges allowed seeds n k → d ≤ k

  distances-IsLevel :
      (depth : ℕ) → (last : List Text) × IsLevel depth (distances edges allowed seeds depth) last
  unfolding distances
  distances-IsLevel depth =
      levels-IsLevel depth 0 depth (map at_zero (from_keys seeds)) (from_keys seeds) (omega arith)
        start-IsLevel

  -- The search records a dataset with a level exactly when the level is the number of directed edges
  -- on a shortest walk of allowed edges from a seed to it, and at most `depth`.
  pub distances_iff :
      (depth : ℕ) (n : Text) (d : ℕ)
      → Memᴰ (n, d) (distances edges allowed seeds depth) ↔ (IsShortest n d × (d ≤ depth))
  distances_iff depth n d =
      let (last, h) = distances-IsLevel depth in
      let found = distances edges allowed seeds depth in
      (
        λ m. (
          record {
            walk = h.walks n d m;
            least = λ k w. elim (Bool-cases (leb k depth)) [
              | inl near ↦
                  let (d', m', small) = Walk-known depth found last n k h w (ground arith) in
                  omega (arith, value_unique found h.distinct n d d' m m')
              | inr far ↦ ground (arith, h.bound n d m)
            ];
          },
          h.bound n d m,
        ),
        λ (shortest, near).
            let (d', m', small) = Walk-known depth found last n d h shortest.walk near in
            let least = shortest.least d' (h.walks n d' m') in
            let same : d' ≡ d = omega arith in subst (λ x. Memᴰ (n, x) found) same m',
      )

  -- No dataset is recorded twice.
  pub distances-IsDistinct :
      (depth : ℕ) → IsDistinct (map (λ (p : Text × ℕ). p.0) (distances edges allowed seeds depth))
  distances-IsDistinct depth = (distances-IsLevel depth).1.distinct

  -- a dataset that a short enough walk reaches is recorded
  pub distances_of_walk :
      (depth : ℕ) (n : Text) (k : ℕ)
      → Walk edges allowed seeds n k
      → k ≤ depth
      → (d : ℕ) × Memᴰ (n, d) (distances edges allowed seeds depth)
  distances_of_walk depth n k w small =
      let (last, h) = distances-IsLevel depth in
      let (d, m, _) = Walk-known depth (distances edges allowed seeds depth) last n k h w small in
      (d, m)

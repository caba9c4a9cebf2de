-- ===== src/Service/Search/Groups.antt =====
-- What a group of search results lists of the subjects with matches.
use data_ontology_graph.Prelude.{
  ℕ, zero, suc, ◌≤◌, ◌<◌, Text, List, [], ◌∷◌, ◌++◌, true, false, ltb, map, length, take, sorted_by,
  sorted_by-IsSortedBy, sorted_by-perm, length-sorted_by, select, Perm, Memᴰ-sorted_by, Memᴰ-select,
  Memᴰ, Memᴰ-take, IsSortedBy, length-take-le, take-nearest, take-IsSortedBy, take_of_short,
  length-take_of_long, some, ◌==◌, ◌<=◌, ◌≡◌, ◌↔◌, refl, sym, subst, arith, nat_order, list_order,
  pair_order, triple_order,
}
use data_ontology_graph.Service.Search.Index.{SearchKind, SearchField, Subject}
use data_ontology_graph.Service.Search.Matching.{Match, kind_number, entry_at}
use data_ontology_graph.Service.Search.Best.{Matches}
use data_ontology_graph.Service.Search.Listed.{
  hits_of_kind, Hit, match_row, rows_of, match_rows_of, SearchGroup, hit_key, ordered_hits, group,
  group_of,
}
use data_ontology_graph.Service.Search.Names.{
  match_types, field_name, field_number, match_row_header, subject_row_header,
}

-- Each match is of a value of the subject, whose field has a name, and has one of the four ranks.
abbrev pub IsListable : Hit → Type 0
IsListable hit =
    (m : ℕ × Match)
    → Memᴰ m hit.matches
    → (m.1.0 < 4)
      × ((value : SearchField × Text) × (entry_at hit.subject.values m.0 ≡ some value)
          × ((name : Text) × (field_name hit.subject.kind value.0 ≡ some name)))

match_type_of : (rank : ℕ) → rank < 4 → (name : Text) × (entry_at match_types rank ≡ some name)
unfolding entry_at
match_type_of zero h = (_, refl)
match_type_of (suc zero) h = (_, refl)
match_type_of (suc (suc zero)) h = (_, refl)
match_type_of (suc (suc (suc zero))) h = (_, refl)
match_type_of (suc (suc (suc (suc n)))) h = absurd (omega arith)

-- A row of `match_rows` with the place that it is sorted by: rank, field and position of the value.
abbrev pub Row : Type 0
Row = (ℕ × ℕ × ℕ) × List Text

-- The row names the subject, the kind of match, the field, the term and the value.
abbrev pub IsRow : Subject → ℕ × Match → Row → Type 0
IsRow subject (i, (rank, term)) row =
    (value : SearchField × Text) × (entry_at subject.values i ≡ some value)
    × ((match_type : Text) × (entry_at match_types rank ≡ some match_type)
        × ((name : Text) × (field_name subject.kind value.0 ≡ some name)
            × (row ≡ (
              (rank, field_number value.0, i),
              subject.key ∷ match_type ∷ name ∷ term ∷ value.1 ∷ [],
            ))))

-- one row for each match
pub data AreRowsOf (subject : Subject) : Matches → List Row → Type 0 where
  no_row : AreRowsOf subject [] []
  one_row :
      {m : ℕ × Match} {matches : Matches} {row : Row} {rows : List Row}
      → IsRow subject m row
      → AreRowsOf subject matches rows
      → AreRowsOf subject (m ∷ matches) (row ∷ rows)

-- the hits' rows in the hits' order, those of a hit by rank, field and position
pub data AreMatchRows : List Hit → List (List Text) → Type 0 where
  no_hit : AreMatchRows [] []
  one_hit :
      {hit : Hit} {hits : List Hit} {others : List (List Text)} (rows in_order : List Row)
      → AreRowsOf hit.subject hit.matches rows
      → Perm in_order rows
      → IsSortedBy (λ (r : Row). r.0) in_order
      → AreMatchRows hits others
      → AreMatchRows (hit ∷ hits) (map (λ (r : Row). r.1) in_order ++ others)

rows_of-returns :
    (subject : Subject) (rank : ℕ) (matches : Matches)
    → IsListable (record { rank = rank; subject = subject; matches = matches })
    → (rows : List Row) × (rows_of subject matches ≡ some rows) × AreRowsOf subject matches rows
unfolding rows_of match_row
rows_of-returns subject rank [] ok_ = ([], refl, AreRowsOf.no_row)
rows_of-returns subject rank (m ∷ matches) ok_ =
    let (below, (value, at, (name, named))) = ok_ m (Memᴰ.head refl) in
    let (match_type, typed) = match_type_of m.1.0 below in
    let (rows, e, are_rows) =
      rows_of-returns subject rank matches (λ x at_. ok_ x (Memᴰ.tail at_)) in
    let row : Row = (
      (m.1.0, field_number value.0, m.0),
      subject.key ∷ match_type ∷ name ∷ m.1.1 ∷ value.1 ∷ [],
    ) in
    (
      row ∷ rows,
      rw (at, typed, named, e) refl,
      AreRowsOf.one_row (value, at, (match_type, typed, (name, named, refl))) are_rows,
    )

match_rows_of-returns :
    (hits : List Hit)
    → ((hit : Hit) → Memᴰ hit hits → IsListable hit)
    → (rows : List (List Text)) × (match_rows_of hits ≡ some rows) × AreMatchRows hits rows
unfolding match_rows_of
match_rows_of-returns [] ok_ = ([], refl, AreMatchRows.no_hit)
match_rows_of-returns (hit ∷ hits) ok_ =
    let (rows, e, are_rows) =
      rows_of-returns hit.subject hit.rank hit.matches (ok_ hit (Memᴰ.head refl)) in
    let (others, e', are_others) = match_rows_of-returns hits (λ x at. ok_ x (Memᴰ.tail at)) in
    let in_order = sorted_by (λ (r : Row). r.0) rows in
    (
      map (λ (r : Row). r.1) in_order ++ others,
      rw (e, e') refl,
      AreMatchRows.one_hit rows in_order are_rows (sorted_by-perm (λ (r : Row). r.0) rows)
          (sorted_by-IsSortedBy (λ (r : Row). r.0) rows) are_others,
    )

-- A hit whose subject is of the kind.
abbrev pub IsOfKind : SearchKind → List Hit → Hit → Type 0
IsOfKind kind hits hit = Memᴰ hit hits × ((kind_number hit.subject.kind == kind_number kind) ≡ true)

-- How the group `g` cuts the hits of its kind off at the limit: by rank, label and key.
pub record IsCut (limit : ℕ) (hits : List Hit) (g : SearchGroup) (listed : List Hit) : Type 0 where
  pub rows : g.subject_rows ≡ map (λ (hit : Hit). hit.subject.row) listed
  pub ascending : IsSortedBy hit_key listed
  pub bounded : length listed ≤ limit
  pub of_kind : (hit : Hit) → Memᴰ hit listed → IsOfKind g.kind hits hit
  pub nearest :
      (p q : Hit)
      → Memᴰ p listed
      → IsOfKind g.kind hits q
      → (¬ Memᴰ q listed)
      → (hit_key p <= hit_key q) ≡ true
  pub whole : g.is_truncated ≡ false → (hit : Hit) → IsOfKind g.kind hits hit → Memᴰ hit listed
  pub omits : (g.is_truncated ≡ true) ↔ (
      limit
      < length (select (λ (hit : Hit). kind_number hit.subject.kind == kind_number g.kind) hits))
  pub filled : g.is_truncated ≡ true → length listed ≡ limit
  pub match_rows : AreMatchRows listed g.match_rows

long_lt : (a b : ℕ) → ltb a b ≡ true → a < b
long_lt a b h = ground arith

lt_long : (a b : ℕ) → a < b → ltb a b ≡ true
lt_long a b h = ground arith

module _ (limit : ℕ) (hits : List Hit) (kind : SearchKind) where
  Memᴰ-ordered_hits : (hit : Hit) → Memᴰ hit (ordered_hits kind hits) ↔ IsOfKind kind hits hit
  unfolding ordered_hits
  Memᴰ-ordered_hits hit =
      let (from, to) = Memᴰ-sorted_by hit_key hit (hits_of_kind kind hits) in
      let (from', to') =
        Memᴰ-select (λ (x : Hit). kind_number x.subject.kind == kind_number kind) hit hits in
      (λ m. from' (from m), λ w. to (to' w))

  ordered_hits-IsSortedBy : IsSortedBy hit_key (ordered_hits kind hits)
  unfolding ordered_hits
  ordered_hits-IsSortedBy = sorted_by-IsSortedBy hit_key (hits_of_kind kind hits)

  length-ordered_hits : length (ordered_hits kind hits) ≡ length (hits_of_kind kind hits)
  unfolding ordered_hits
  length-ordered_hits = length-sorted_by hit_key (hits_of_kind kind hits)

  -- Where the matches of the hits are listable, a group is returned without an error. It lists, in
  -- the order of rank, label and key, hits of its kind, no more than the limit, none of which comes
  -- after one that is left out, and then their match rows, those of a hit by rank, field and
  -- position. It is marked as truncated if and only if there are more hits of the kind than the
  -- limit; then the limit is reached, and otherwise all hits of the kind are listed.
  pub group_of_returns :
      ((hit : Hit) → Memᴰ hit hits → IsListable hit)
      → (g : SearchGroup) × (group_of limit hits kind ≡ some g)
        × (g.kind ≡ kind)
        × ((listed : List Hit) × IsCut limit hits g listed)
  unfolding group_of group
  group_of_returns ok_ =
      let ordered = ordered_hits kind hits in
      let listed = take limit ordered in
      let s = ordered_hits-IsSortedBy in
      let (rows, e, are_rows) =
        match_rows_of-returns listed
          (λ hit m. ok_ hit ((Memᴰ-ordered_hits hit).0 (Memᴰ-take hit limit ordered m)).0) in
      (
        record {
          kind = kind;
          is_truncated = ltb limit (length ordered);
          subject_row_header = subject_row_header kind;
          match_row_header = match_row_header;
          subject_rows = map (λ (hit : Hit). hit.subject.row) listed;
          match_rows = rows;
        },
        rw e refl,
        refl,
        (
          listed,
          record {
            rows = refl;
            ascending = take-IsSortedBy hit_key limit ordered s;
            bounded = length-take-le limit ordered;
            of_kind = λ hit m. (Memᴰ-ordered_hits hit).0 (Memᴰ-take hit limit ordered m);
            nearest = λ p q at of_kind left_out.
                take-nearest hit_key limit ordered s p q at ((Memᴰ-ordered_hits q).1 of_kind)
                  left_out;
            whole = λ h hit of_kind.
                subst (Memᴰ hit) (sym (take_of_short limit ordered h))
                  ((Memᴰ-ordered_hits hit).1 of_kind);
            omits = (
              λ h. omega (arith, long_lt limit (length ordered) h, length-ordered_hits),
              λ less. lt_long limit (length ordered) (omega (arith, less, length-ordered_hits)),
            );
            filled = length-take_of_long limit ordered;
            match_rows = are_rows;
          },
        ),
      )

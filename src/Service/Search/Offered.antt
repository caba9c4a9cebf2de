-- ===== src/Service/Search/Offered.antt =====
-- The matches that a query offers to the values of the index.
use mathlib.Core.List.Memᴰ
use data_ontology_graph.Prelude.{
  ap, ◌≢◌, ◌↔◌, false, both_ways, ≡→==, ==→≡, ◌==◌, if◌then◌else◌, ℕ, ◌<◌, Text, List, [], ◌∷◌,
  true, ltb, map, select, length, Memᴰ, Memᴰ-append, Memᴰ-map, Memᴰ-select, some, Bool-cases, ◌≡◌,
  ◌⊎◌, inl, inr, ⊎_elim, refl, sym, ◌∙◌, subst, arith, nat_order, list_order, pair_order,
}
use data_ontology_graph.Service.Search.{Unicode, normalize_term, split}
use data_ontology_graph.Service.Search.Index.{SearchKind, SearchField, Subject, SearchIndex}
use data_ontology_graph.Service.Search.Matching.{Match, Position, Trie, entry_at}
use data_ontology_graph.Service.Search.Best.{Considered}
use data_ontology_graph.Service.Search.Listed.{
  as_exact, as_prefix, is_longer, word_matches, whole_matches, split_matches,
}
use data_ontology_graph.Service.Search.Names.{field_name}
use data_ontology_graph.Query.Paths.Traced.{some_injective}
use data_ontology_graph.Service.Search.Valid.{IsValid}
use data_ontology_graph.Service.Search.Narrowed.{
  positions, IsWordValue, values_with_every_word-returns,
}
use data_ontology_graph.Service.Search.Worded.{IsStarted, IsWordMatch, word_match-returns}

-- The position is of a value of the index whose field has a name.
abbrev pub IsNamed : List Subject → Position → Type 0
IsNamed subjects p =
    (s : Subject) × (entry_at subjects p.0 ≡ some s)
    × ((value : SearchField × Text) × (entry_at s.values p.1 ≡ some value)
        × ((name : Text) × (field_name s.kind value.0 ≡ some name)))

-- What the index and its trie are for each other: the trie gives only values of the index, whose
-- fields have names, and one that it gives for a word has a word that starts with it.
pub record IsSound (u : Unicode) (x : SearchIndex) (trie : Trie) : Type 0 where
  pub by_term : (query : Text) (p : Position) → Memᴰ p (trie.get query) → IsNamed x.subjects p
  pub by_prefix :
      (query : Text) (p : Position)
      → Memᴰ p (positions (trie.iteritems query))
      → IsNamed x.subjects p
  pub by_word :
      (query word : Text) (p : Position)
      → Memᴰ word (split query)
      → Memᴰ p (positions (trie.iteritems word))
      → (s : Subject) → entry_at x.subjects p.0 ≡ some s
      → (value : SearchField × Text) → entry_at s.values p.1 ≡ some value
      → IsStarted (split (normalize_term u value.1)) word

a_word : (words : List Text) → ltb 1 (length words) ≡ true → (word : Text) × Memᴰ word words
a_word [] h = absurd (ground arith)
a_word (word ∷ words) h = (word, Memᴰ.head refl)

module _ (u : Unicode) (x : SearchIndex) (trie : Trie) where
  -- The query is a term of the value, or begins one.
  pub data IsWhole (query : Text) (p : Position) : Match → Type 0 where
    exact : Memᴰ p (trie.get query) → IsWhole query p (0, query)
    prefix :
        {term : Text}
        → Memᴰ (term, p) (trie.iteritems query)
        → term ≢ query
        → IsWhole query p (1, term)

  -- The words of the query match those of the value.
  abbrev pub IsOfWords : List Text → Position → Match → Type 0
  IsOfWords words p m =
      (s : Subject) × (entry_at x.subjects p.0 ≡ some s)
      × ((value : SearchField × Text) × (entry_at s.values p.1 ≡ some value)
          × IsWordMatch (split (normalize_term u value.1)) words m)

  -- There are several words, each of which begins a term of the value, and the value is one that is
  -- matched word by word.
  abbrev pub IsWorded : List Text → List SearchKind → Position → Match → Type 0
  IsWorded words selected p m =
      (1 < length words)
      × ((word : Text) → Memᴰ word words → Memᴰ p (positions (trie.iteritems word)))
      × IsWordValue x.subjects selected p
      × IsOfWords words p m

  pub whole_matches_iff :
      (query : Text) (p : Position) (m : Match)
      → Memᴰ (p, m) (whole_matches u x trie query) ↔ IsWhole query p m
  unfolding whole_matches
  whole_matches_iff query p m = (
    λ at.
        ⊎_elim
          (λ a.
            let (q, in_, same) = (Memᴰ-map (as_exact query) (p, m) (trie.get query)).0 a in
            subst (λ (c : Considered). IsWhole query c.0 c.1) same (IsWhole.exact in_))
          (λ b.
            let (item, in_, same) = (Memᴰ-map as_prefix (p, m) items).0 b in
            let (inside, longer) =
              (Memᴰ-select (is_longer query) item (trie.iteritems query)).0 in_ in
            subst (λ (c : Considered). IsWhole query c.0 c.1) same
              (IsWhole.prefix inside (longer-apart item longer)))
          ((Memᴰ-append (p, m) (map (as_exact query) (trie.get query)) (map as_prefix items)).0 at),
    λ w.
        (Memᴰ-append (p, m) (map (as_exact query) (trie.get query)) (map as_prefix items)).1
          (back w),
  )
    where
      items : List (Text × Position)
      items = select (is_longer query) (trie.iteritems query)

      longer-apart : (item : Text × Position) → is_longer query item ≡ true → item.0 ≢ query
      longer-apart item h e =
          both_ways h (ap (λ b. if b then false else true) (≡→== item.0 query e))

      apart-longer : (item : Text × Position) → item.0 ≢ query → is_longer query item ≡ true
      apart-longer item ne = elim (Bool-cases (item.0 == query)) [
        | inl same ↦ absurd (ne (==→≡ item.0 query same))
        | inr other ↦ ap (λ b. if b then false else true) other
      ]

      back :
          {n : Match}
          → IsWhole query p n
          → Memᴰ (p, n) (map (as_exact query) (trie.get query)) ⊎ Memᴰ (p, n) (map as_prefix items)
      back (IsWhole.exact in_) = inl (Memᴰ.map (as_exact query) in_)
      back (IsWhole.prefix {term} in_ ne) = inr (
          Memᴰ.map as_prefix (
            (Memᴰ-select (is_longer query) (term, p) (trie.iteritems query)).1
              (in_, apart-longer (term, p) ne)))

module _ (u : Unicode) (x : SearchIndex) (trie : Trie) (sound : IsSound u x trie) where
  IsValid-of :
      (p : Position) (m : Match) → m.0 < 4 → IsNamed x.subjects p → IsValid x.subjects (p, m)
  IsValid-of p m below (s, at, value) = (s, at, below, value)

  pub whole_matches-IsValid :
      (query : Text) (c : Considered) → Memᴰ c (whole_matches u x trie query) → IsValid x.subjects c
  whole_matches-IsValid query (p, m) at = by_case ((whole_matches_iff u x trie query p m).0 at)
    where
      by_case : {n : Match} → IsWhole u x trie query p n → IsValid x.subjects (p, n)
      by_case (IsWhole.exact in_) =
          IsValid-of p (0, query) (omega arith) (sound.by_term query p in_)
      by_case (IsWhole.prefix {term} in_ ne) =
          IsValid-of p (1, term) (omega arith)
            (sound.by_prefix query p (Memᴰ.map (λ (i : Text × Position). i.1) in_))

  word_matches-returns :
      (query : Text) (found : List Position)
      → ((p : Position)
          → Memᴰ p found
          → IsNamed x.subjects p
            × ((word : Text) → Memᴰ word (split query) → Memᴰ p (positions (trie.iteritems word))))
      → (cs : List Considered) × (word_matches u x trie (split query) found ≡ some cs)
        × ((c : Considered) → Memᴰ c cs → IsValid x.subjects c)
        × ((p : Position) (m : Match)
            → Memᴰ (p, m) cs ↔ (Memᴰ p found × IsOfWords u x trie (split query) p m))
  unfolding word_matches
  word_matches-returns query [] holds = (
    [],
    refl,
    (λ c m. absurd (Memᴰ.not-nil m)),
    λ p m. (λ at. absurd (Memᴰ.not-nil at), λ (at, _). absurd (Memᴰ.not-nil at)),
  )
  word_matches-returns query (p ∷ found) holds =
      let (named, given) = holds p (Memᴰ.head refl) in
      let (s, at, (value, at', name)) = named in
      let (m, e, below, only) =
        word_match-returns (split (normalize_term u value.1)) (split query)
          (λ word h. sound.by_word query word p h (given word h) s at value at') in
      let (cs, e', valid, same_cs) =
        word_matches-returns query found (λ q h. holds q (Memᴰ.tail h)) in
      (
        (p, m) ∷ cs,
        rw (at, at', e, e') refl,
        (λ c h.
            ⊎_elim (λ same. subst (IsValid x.subjects) (sym same) (IsValid-of p m below named))
              (valid c) (Memᴰ.cases_cons h)),
        λ q n. (
          λ h.
              ⊎_elim
                (λ same. (
                  Memᴰ.head (ap (λ (c : Considered). c.0) same),
                  subst (λ (c : Considered). IsOfWords u x trie (split query) c.0 c.1) (sym same)
                      (s, at, (value, at', (only m).1 refl)),
                ))
                (λ t. let (in_, w) = (same_cs q n).0 t in (Memᴰ.tail in_, w)) (Memᴰ.cases_cons h),
          λ (h, w).
              ⊎_elim
                (λ same.
                  let is_m =
                    known s at value at' m only n
                      (subst (λ z. IsOfWords u x trie (split query) z n) same w) in
                  Memᴰ.head (λ i. (same i, is_m i)))
                (λ t. Memᴰ.tail ((same_cs q n).1 (t, w))) (Memᴰ.cases_cons h),
        ),
      )
    where
      known :
          (s : Subject)
          → entry_at x.subjects p.0 ≡ some s
          → (value : SearchField × Text) → entry_at s.values p.1 ≡ some value
          → (m : Match)
          → ((n : Match) → IsWordMatch (split (normalize_term u value.1)) (split query) n ↔ (n ≡ m))
          → (n : Match) → IsOfWords u x trie (split query) p n
          → n ≡ m
      known s at value at' m only n (s', e, (value', e', w)) =
          let same : s' ≡ s = some_injective (sym e ∙ at) in
          let same' : value' ≡ value =
            some_injective (sym e' ∙ ap (λ (z : Subject). entry_at z.values p.1) same ∙ at') in
          (only n).0 (
            subst
              (λ (v : SearchField × Text).
                IsWordMatch (split (normalize_term u v.1)) (split query) n)
              same' w)

  pub split_matches-returns :
      (selected : List SearchKind) (query : Text)
      → (cs : List Considered) × (split_matches u x trie selected (split query) ≡ some cs)
        × ((c : Considered) → Memᴰ c cs → IsValid x.subjects c)
        × ((p : Position) (m : Match)
            → Memᴰ (p, m) cs ↔ IsWorded u x trie (split query) selected p m)
  unfolding split_matches
  split_matches-returns selected query = elim (Bool-cases (ltb 1 (length (split query)))) [
    | inr one_word ↦ (
      [],
      rw (one_word, split_matches) refl,
      (λ c m. absurd (Memᴰ.not-nil m)),
      λ p m. (
        λ at. absurd (Memᴰ.not-nil at),
        λ (several, _, _, _). absurd (ground (arith, several, one_word)),
      ),
    )
    | inl several ↦
        let (word, at_word) = a_word (split query) several in
        let (found, e, given) =
          values_with_every_word-returns x.subjects selected trie (split query)
            (λ word at p m.
              let (s, at', (value, at'', name)) = sound.by_prefix word p m in
              (s, at', (value, at'')))
            at_word in
        let (cs, e', valid, same_cs) = word_matches-returns query found (λ p m.
          let all_given = ((given p).0 m).0 in
          (sound.by_prefix word p (all_given word at_word), all_given)) in
        (
          cs,
          rw (several, split_matches, e) e',
          valid,
          λ p m. (
            λ at.
                let (in_, w) = (same_cs p m).0 at in
                let (all_given, kept) = (given p).0 in_ in (lt_of several, all_given, kept, w),
            λ (_, all_given, kept, w). (same_cs p m).1 ((given p).1 (all_given, kept), w),
          ),
        )
  ]
    where
      lt_of : {n : ℕ} → ltb 1 n ≡ true → 1 < n
      lt_of h = ground arith

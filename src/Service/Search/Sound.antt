-- ===== src/Service/Search/Sound.antt =====
-- The index that `LexicalSearchIndex.__init__` builds is sound for a trie of its entries.
use mathlib.Core.List.{foldl}
use mathlib.Core.List.Memᴰ
use data_ontology_graph.Prelude.{
  ℕ, zero, suc, ◌+◌, Text, List, [], ◌∷◌, ◌++◌, Bool, true, false, map, flat_map, length, is_empty,
  Memᴰ, Memᴰ-map, Memᴰ-append, Memᴰ-flat_map, some, if◌then◌else◌, sorted_by, ◌≡◌, ◌↔◌, ⊎_elim,
  refl, sym, ap, ◌∙◌, subst, arith, nat_order, list_order,
}
use data_ontology_graph.Query.Paths.Traced.{some_injective}
use data_ontology_graph.Model.Snapshot.{LogicalIdentity, GraphSnapshot}
use data_ontology_graph.Model.Definition.{EntityDefinition}
use data_ontology_graph.Model.Dataset.{DatasetNode, ColumnMetadata}
use data_ontology_graph.Service.Search.{Unicode, index_terms}
use data_ontology_graph.Service.Search.Index.{
  SearchKind, SearchField, Subject, SearchIndex, TermEntry, Draft, kept_values, value_entries,
  add_subject, identity_draft, node_draft, definition_draft, column_draft, node_drafts, drafts,
  search_index, field_values,
}
use data_ontology_graph.Service.Search.Matching.{Position, Trie, entry_at, starts_with}
use data_ontology_graph.Service.Search.Names.{field_name}
use data_ontology_graph.Service.Search.Narrowed.{positions}
use data_ontology_graph.Service.Search.Terms.{term-IsStarted}
use data_ontology_graph.Service.Search.Offered.{IsNamed, IsSound}

-- What marisa_trie documents: a record trie gives the values of a key, and of the keys with a prefix.
pub record IsTrieOf (entries : List TermEntry) (trie : Trie) : Type 0 where
  pub gets : (term : Text) (p : Position) → Memᴰ p (trie.get term) ↔ Memᴰ (term, p.0, p.1) entries
  pub iterates :
      (query term : Text) (p : Position)
      → Memᴰ (term, p) (trie.iteritems query)
        ↔ (Memᴰ (term, p.0, p.1) entries × (starts_with term query ≡ true))

entry_at-append :
    {A : Type 0} (xs ys : List A) (n : ℕ) {a : A}
    → entry_at xs n ≡ some a
    → entry_at (xs ++ ys) n ≡ some a
unfolding entry_at
entry_at-append [] ys n h = cc
entry_at-append (x ∷ xs) ys zero h = h
entry_at-append (x ∷ xs) ys (suc n) h = entry_at-append xs ys n h

entry_at-last : {A : Type 0} (xs : List A) (a : A) → entry_at (xs ++ a ∷ []) (length xs) ≡ some a
unfolding entry_at
entry_at-last [] a = refl
entry_at-last (x ∷ xs) a = entry_at-last xs a

-- every field of such a subject has a name
abbrev IsNameable : SearchKind → List (SearchField × Text) → Type 0
IsNameable kind fields =
    (f : SearchField × Text) → Memᴰ f fields → (name : Text) × (field_name kind f.0 ≡ some name)

module _ (kind : SearchKind) where
  Nameable-nil : IsNameable kind []
  Nameable-nil f m = absurd (Memᴰ.not-nil m)

  Nameable-cons :
      (field : SearchField) (value : Text) {name : Text} {fields : List (SearchField × Text)}
      → field_name kind field ≡ some name
      → IsNameable kind fields
      → IsNameable kind ((field, value) ∷ fields)
  Nameable-cons field value {name} e h f m =
      ⊎_elim (λ same. (name, ap (λ (g : SearchField × Text). field_name kind g.0) same ∙ e)) (h f)
        (Memᴰ.cases_cons m)

  Nameable-map :
      (field : SearchField) (values : List Text) {name : Text}
      → field_name kind field ≡ some name
      → IsNameable kind (map (λ value. (field, value)) values)
  Nameable-map field [] e = Nameable-nil
  Nameable-map field (v ∷ values) e = Nameable-cons field v e (Nameable-map field values e)

  Nameable-append :
      (xs ys : List (SearchField × Text))
      → IsNameable kind xs
      → IsNameable kind ys
      → IsNameable kind (xs ++ ys)
  Nameable-append xs ys h k f m = ⊎_elim (h f) (k f) ((Memᴰ-append f xs ys).0 m)

module _ (u : Unicode) where
  kept-subset :
      (fields : List (SearchField × Text)) (f : SearchField × Text)
      → Memᴰ f (kept_values u fields)
      → Memᴰ f fields
  kept-subset [] f m = m
  kept-subset ((field, value) ∷ fields) f m =
      by_test (is_empty (index_terms u value)) (kept-subset fields f) m
    where
      by_test :
          (b : Bool)
          → (Memᴰ f (kept_values u fields) → Memᴰ f fields)
          → Memᴰ f (if b then kept_values u fields else (field, value) ∷ kept_values u fields)
          → Memᴰ f ((field, value) ∷ fields)
      by_test true rest m = Memᴰ.tail (rest m)
      by_test false rest m = ⊎_elim Memᴰ.head (λ t. Memᴰ.tail (rest t)) (Memᴰ.cases_cons m)

  -- an entry of these values is a term of one of them
  value_entries-lem :
      (ordinal index : ℕ) (values all_ : List (SearchField × Text))
      → ((j : ℕ) (v : SearchField × Text)
          → entry_at values j ≡ some v
          → entry_at all_ (index + j) ≡ some v)
      → (e : TermEntry) → Memᴰ e (value_entries u ordinal index values)
      → (e.1 ≡ ordinal)
        × ((v : SearchField × Text) × (entry_at all_ e.2 ≡ some v)
            × Memᴰ v values
            × Memᴰ e.0 (index_terms u v.1))
  unfolding entry_at
  value_entries-lem ordinal index [] all_ h e m = absurd (Memᴰ.not-nil m)
  value_entries-lem ordinal index ((field, value) ∷ values) all_ h e m =
      ⊎_elim
        (λ a.
          let (term, at, same) =
            (Memᴰ-map (λ (t : Text). (t, ordinal, index)) e (index_terms u value)).0 a in
          (
            ap (λ (x : TermEntry). x.1) (sym same),
            (
              (field, value),
              ap (entry_at all_) (ap (λ (x : TermEntry). x.2) (sym same) ∙ plus_zero index)
                  ∙ h 0 (field, value) refl,
              Memᴰ.head refl,
              Memᴰ.cast (ap (λ (x : TermEntry). x.0) (sym same)) at,
            ),
          ))
        (λ b.
          let (o, (v, at, in_, term)) =
            value_entries-lem ordinal (suc index) values all_
              (λ j w k. ap (entry_at all_) (next_plus index j) ∙ h (suc j) w k) e b in
          (o, (v, at, Memᴰ.tail in_, term)))
        ((Memᴰ-append e (map (λ (t : Text). (t, ordinal, index)) (index_terms u value))
            (value_entries u ordinal (suc index) values)).0
          m)
    where
      plus_zero : (n : ℕ) → n ≡ n + 0
      plus_zero n = omega arith

      next_plus : (n j : ℕ) → suc n + j ≡ n + suc j
      next_plus n j = omega arith

  -- Each entry is a term of a value of a subject, whose field has a name.
  abbrev pub IsIndexed : SearchIndex → Type 0
  IsIndexed x =
      (e : TermEntry)
      → Memᴰ e x.entries
      → (s : Subject) × (entry_at x.subjects e.1 ≡ some s)
        × ((v : SearchField × Text) × (entry_at s.values e.2 ≡ some v)
            × ((name : Text) × (field_name s.kind v.0 ≡ some name))
            × Memᴰ e.0 (index_terms u v.1))

  add_subject-IsIndexed :
      (x : SearchIndex) (d : Draft)
      → IsNameable d.kind d.fields
      → IsIndexed x
      → IsIndexed (add_subject u x d)
  unfolding add_subject
  add_subject-IsIndexed x d named indexed e m =
      ⊎_elim (λ old. let (s, at, v) = indexed e old in (s, entry_at-append x.subjects _ e.1 at, v))
        (λ new.
          let (o, (v, at, in_, term)) =
            value_entries-lem (length x.subjects) 0 (kept_values u d.fields)
              (kept_values u d.fields)
              (λ j w k. ap (entry_at (kept_values u d.fields)) (zero_plus j) ∙ k) e new in
          (
            _,
            ap (entry_at (x.subjects ++ _)) o ∙ entry_at-last x.subjects _,
            (v, at, named v (kept-subset d.fields v in_), term),
          ))
        ((Memᴰ-append e x.entries
            (value_entries u (length x.subjects) 0 (kept_values u d.fields))).0
          m)
    where
      zero_plus : (j : ℕ) → 0 + j ≡ j
      zero_plus j = omega arith

  all_added :
      (ds : List Draft) (x : SearchIndex)
      → ((d : Draft) → Memᴰ d ds → IsNameable d.kind d.fields)
      → IsIndexed x
      → IsIndexed (foldl (add_subject u) x ds)
  all_added [] x named indexed = indexed
  all_added (d ∷ ds) x named indexed =
      all_added ds (add_subject u x d) (λ c m. named c (Memᴰ.tail m))
        (add_subject-IsIndexed x d (named d (Memᴰ.head refl)) indexed)

  module _ (placeholders : List Text) where
    identity-Nameable :
        (i : LogicalIdentity)
        → let d = identity_draft u placeholders i in IsNameable d.kind d.fields
    identity-Nameable i =
        let kind = SearchKind.identity in
        Nameable-cons kind SearchField.stable_id _ refl (
          Nameable-cons kind SearchField.canonical_name _ refl (
            Nameable-cons kind SearchField.description _ refl
              (Nameable-map kind SearchField.synonym i.synonyms refl)))

    node-Nameable :
        (node : DatasetNode) → let d = node_draft u placeholders node in IsNameable d.kind d.fields
    node-Nameable node =
        let kind = SearchKind.dataset in
        Nameable-cons kind SearchField.stable_id _ refl (
          Nameable-cons kind SearchField.canonical_name _ refl (
            Nameable-cons kind SearchField.qualified_name _ refl (
              Nameable-cons kind SearchField.description _ refl (
                Nameable-cons kind SearchField.accessor _ refl (
                  Nameable-append kind _ _
                    (Nameable-map kind SearchField.synonym node.descriptor.synonyms refl)
                    (Nameable-append kind _ _
                      (Nameable-map kind SearchField.tag node.descriptor.tags refl)
                      (Nameable-map kind SearchField.accessor
                        (field_values node.accessor.properties) refl)))))))

    definition-Nameable :
        (node_id : Text) (e : EntityDefinition)
        → let d = definition_draft u placeholders node_id e in IsNameable d.kind d.fields
    definition-Nameable node_id e =
        let kind = SearchKind.entity_definition in
        Nameable-cons kind SearchField.stable_id _ refl (
          Nameable-append kind _ _
            (Nameable-map kind SearchField.dataset_columns e.dataset_columns refl)
            (Nameable-append kind _ _
              (Nameable-map kind SearchField.entity_expression e.entity_expression refl)
              (Nameable-map kind SearchField.entity_metadata (field_values e.entity_metadata)
                refl)))

    column-Nameable :
        (node_id : Text) (c : ColumnMetadata)
        → let d = column_draft u placeholders node_id c in IsNameable d.kind d.fields
    column-Nameable node_id c =
        let kind = SearchKind.column in
        Nameable-cons kind SearchField.column _ refl (
          Nameable-cons kind SearchField.description _ refl (
            Nameable-cons kind SearchField.value_description _ refl
              (Nameable-map kind SearchField.synonym c.synonyms refl)))

    drafts-Nameable :
        (s : GraphSnapshot) (d : Draft)
        → Memᴰ d (drafts u placeholders s)
        → IsNameable d.kind d.fields
    drafts-Nameable s d m =
        ⊎_elim
          (λ a.
            let (i, at, same) = (Memᴰ-map (identity_draft u placeholders) d identities).0 a in
            subst (λ (z : Draft). IsNameable z.kind z.fields) same (identity-Nameable i))
          (λ b.
            let (node, at, inside) = (Memᴰ-flat_map (node_drafts u placeholders) d nodes).0 b in
            of_node node inside)
          ((Memᴰ-append d (map (identity_draft u placeholders) identities)
              (flat_map (node_drafts u placeholders) nodes)).0
            m)
      where
        identities : List LogicalIdentity
        identities = sorted_by (λ i. i.identity_id) s.logical_identities

        nodes : List DatasetNode
        nodes = sorted_by (λ node. node.node_id) s.nodes

        of_node :
            (node : DatasetNode)
            → Memᴰ d (node_drafts u placeholders node)
            → IsNameable d.kind d.fields
        of_node node at =
            let definitions =
              map (definition_draft u placeholders node.node_id) node.entity_definitions in
            let columns = map (column_draft u placeholders node.node_id) node.columns in
            ⊎_elim
              (λ same.
                subst (λ (z : Draft). IsNameable z.kind z.fields) (sym same) (node-Nameable node))
              (λ t.
                ⊎_elim
                  (λ a.
                    let (e, in_, same) =
                      (Memᴰ-map (definition_draft u placeholders node.node_id) d
                          node.entity_definitions).0
                        a in
                    subst (λ (z : Draft). IsNameable z.kind z.fields) same
                      (definition-Nameable node.node_id e))
                  (λ b.
                    let (c, in_, same) =
                      (Memᴰ-map (column_draft u placeholders node.node_id) d node.columns).0 b in
                    subst (λ (z : Draft). IsNameable z.kind z.fields) same
                      (column-Nameable node.node_id c))
                  ((Memᴰ-append d definitions columns).0 t))
              (Memᴰ.cases_cons at)

    search_index-IsIndexed : (s : GraphSnapshot) → IsIndexed (search_index u placeholders s)
    unfolding search_index
    search_index-IsIndexed s =
        all_added (drafts u placeholders s) (record { subjects = []; entries = [] })
          (drafts-Nameable s) (λ e m. absurd (Memᴰ.not-nil m))

-- The index that is built from a snapshot is sound for a trie of its entries.
pub search_index-IsSound :
    (u : Unicode) (placeholders : List Text) (s : GraphSnapshot) (trie : Trie)
    → IsTrieOf (search_index u placeholders s).entries trie
    → IsSound u (search_index u placeholders s) trie
search_index-IsSound u placeholders s trie of_entries = record {
  by_term = λ query p m. named query p ((of_entries.gets query p).0 m);
  by_prefix = λ query p m.
      let (term, in_) = from_item query p m in
      named term p ((of_entries.iterates query term p).0 in_).0;
  by_word = λ query word p at m z in_ value in_'.
      let (term, given) = from_item word p m in
      let (entry, starts) = (of_entries.iterates word term p).0 given in
      let (z', e, (v, e', _, of_value)) = indexed (term, p.0, p.1) entry in
      let same : z' ≡ z = some_injective (sym e ∙ in_) in
      let same' : v ≡ value =
        some_injective (sym e' ∙ ap (λ (y : Subject). entry_at y.values p.1) same ∙ in_') in
      term-IsStarted u value.1 term query word
        (subst (λ (y : SearchField × Text). Memᴰ term (index_terms u y.1)) same' of_value) at
        starts;
}
  where
    indexed : IsIndexed u (search_index u placeholders s)
    indexed = search_index-IsIndexed u placeholders s

    named :
        (term : Text) (p : Position)
        → Memᴰ (term, p.0, p.1) (search_index u placeholders s).entries
        → IsNamed (search_index u placeholders s).subjects p
    named term p m =
        let (z, e, (v, e', name, _)) = indexed (term, p.0, p.1) m in (z, e, (v, e', name))

    from_item :
        (query : Text) (p : Position)
        → Memᴰ p (positions (trie.iteritems query))
        → (term : Text) × Memᴰ (term, p) (trie.iteritems query)
    from_item query p m =
        let (item, in_, same) =
          (Memᴰ-map (λ (i : Text × Position). i.1) p (trie.iteritems query)).0 m in
        (item.0, subst (λ q. Memᴰ (item.0, q) (trie.iteritems query)) same in_)

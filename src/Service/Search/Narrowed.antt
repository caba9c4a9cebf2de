-- ===== src/Service/Search/Narrowed.antt =====
-- The values that hold every word of a query.
use mathlib.Core.List.{reverse, reverse-cons}
use mathlib.Core.List.Memᴰ
use data_ontology_graph.Prelude.{
  Text, List, [], ◌∷◌, Bool, true, false, map, length, Memᴰ, Memᴰ-append, to_set, Memᴰ-to_set,
  sorted_by, Memᴰ-sorted_by, Option, none, some, if◌then◌else◌, Bool-cases, both_ways, ◌≡◌, ◌↔◌,
  ◌⊎◌, inl, inr, ⊎_elim, refl, sym, ap, ◌∙◌, subst, nat_order, list_order, pair_order, contains_iff,
}
use data_ontology_graph.Prelude.Options.{◌>>=◌}
use data_ontology_graph.Query.Paths.Traced.{some_injective}
use data_ontology_graph.Service.Search.Index.{SearchKind, SearchField, Subject}
use data_ontology_graph.Service.Search.Matching.{
  Position, Trie, is_selected, is_word_field, entry_at, is_word_value, is_word_value_of, is_common,
  found_among, narrow, values_with_every_word,
}

Memᴰ-reverse : (w : Text) (ws : List Text) → Memᴰ w (reverse ws) ↔ Memᴰ w ws
Memᴰ-reverse w [] = (λ m. m, λ m. m)
Memᴰ-reverse w (x ∷ ws) =
    let (from, to) = Memᴰ-append w (reverse ws) (x ∷ []) in
    let (here, back) = Memᴰ-reverse w ws in
    (
      λ m.
          ⊎_elim (λ t. Memᴰ.tail (here t)) (λ l. Memᴰ.append_left ws l)
            (from (subst (Memᴰ w) (reverse-cons x ws) m)),
      λ m.
          subst (Memᴰ w) (sym (reverse-cons x ws))
            (to (⊎_elim (λ e. inr (Memᴰ.head e)) (λ t. inl (back t)) (Memᴰ.cases_cons m))),
    )

from_kept :
    (kept : Bool) (p : Position) (found : List Position) (q : Position)
    → Memᴰ q (if kept then p ∷ found else found)
    → ((q ≡ p) × (kept ≡ true)) ⊎ Memᴰ q found
from_kept true p found q m = ⊎_elim (λ same. inl (same, refl)) inr (Memᴰ.cases_cons m)
from_kept false p found q m = inr m

to_kept :
    (kept : Bool) (p : Position) (found : List Position) (q : Position)
    → ((q ≡ p) × (kept ≡ true)) ⊎ Memᴰ q found
    → Memᴰ q (if kept then p ∷ found else found)
to_kept true p found q (inl (same, k)) = Memᴰ.head same
to_kept true p found q (inr m) = Memᴰ.tail m
to_kept false p found q (inl (same, k)) = cc
to_kept false p found q (inr m) = m

-- what a trie's items are about
abbrev pub positions : List (Text × Position) → List Position
positions items = map (λ (item : Text × Position). item.1) items

module _ (subjects : List Subject) (selected : List SearchKind) where
  -- The position is of a value of a subject.
  abbrev pub IsThere : Position → Type 0
  IsThere p =
      (s : Subject) × (entry_at subjects p.0 ≡ some s)
      × ((value : SearchField × Text) × (entry_at s.values p.1 ≡ some value))

  -- Its subject is of a selected kind, and its field is one that is matched word by word.
  abbrev pub IsWordValue : Position → Type 0
  IsWordValue p =
      (s : Subject) × (entry_at subjects p.0 ≡ some s)
      × (is_selected selected s.kind ≡ true)
      × ((value : SearchField × Text) × (entry_at s.values p.1 ≡ some value)
          × (is_word_field s.kind value.0 ≡ true))

  is_word_value-returns :
      (p : Position)
      → IsThere p
      → (kept : Bool) × (is_word_value subjects selected p ≡ some kept)
        × ((kept ≡ true) ↔ IsWordValue p)
  unfolding is_word_value
  is_word_value-returns p (s, at, (value, at')) = elim (Bool-cases (is_selected selected s.kind)) [
    | inl chosen ↦ (
      is_word_field s.kind value.0,
      ap (λ o. o >>= in_subject) at ∙ (in_kind chosen ∙ rw at' refl),
      (
        λ h. (s, at, chosen, (value, at', h)),
        λ (s', e, chosen', (value', e', h)).
            let same : s' ≡ s = some_injective (sym e ∙ at) in
            let same' : value' ≡ value =
              some_injective (sym e' ∙ ap (λ (z : Subject). entry_at z.values p.1) same ∙ at') in
            ap (λ (v : SearchField × Text). is_word_field s.kind v.0) (sym same')
            ∙ (ap (λ (z : Subject). is_word_field z.kind value'.0) (sym same) ∙ h),
      ),
    )
    | inr other ↦ (
      false,
      ap (λ o. o >>= in_subject) at ∙ in_kind other,
      (
        λ h. cc,
        λ (s', e, chosen', v).
            let same : s' ≡ s = some_injective (sym e ∙ at) in
            both_ways (ap (λ (z : Subject). is_selected selected z.kind) (sym same) ∙ chosen')
              other,
      ),
    )
  ]
    where
      in_subject : Subject → Option Bool
      in_subject z = is_word_value_of z p.1 (is_selected selected z.kind)

      in_kind :
          {b : Bool} → is_selected selected s.kind ≡ b → in_subject s ≡ is_word_value_of s p.1 b
      in_kind e = ap (is_word_value_of s p.1) e

  found_among-returns :
      (common : Option (List Position)) (items : List (Text × Position))
      → ((p : Position) → Memᴰ p (positions items) → IsThere p)
      → (found : List Position) × (found_among subjects selected common items ≡ some found)
        × ((p : Position)
            → Memᴰ p found
              ↔ (Memᴰ p (positions items) × (is_common common p ≡ true) × IsWordValue p))
  unfolding found_among
  found_among-returns common [] there =
      ([], refl, λ p. (λ m. absurd (Memᴰ.not-nil m), λ (m, _, _). absurd (Memᴰ.not-nil m)))
  found_among-returns common ((term, p) ∷ items) there =
      let (found, e, among) = found_among-returns common items (λ q m. there q (Memᴰ.tail m)) in
      let later : (q : Position)
          → Memᴰ q found
          → Memᴰ q (p ∷ positions items) × (is_common common q ≡ true) × IsWordValue q =
        λ q m. (Memᴰ.tail ((among q).0 m).0, ((among q).0 m).1, ((among q).0 m).2) in
      elim (Bool-cases (is_common common p)) [
        | inr apart ↦ (
          found,
          rw (apart, found_among) e,
          λ q. (
            later q,
            λ (m, shared, word).
                ⊎_elim (λ same. both_ways (ap (is_common common) (sym same) ∙ shared) apart)
                  (λ t. (among q).1 (t, shared, word)) (Memᴰ.cases_cons m),
          ),
        )
        | inl shared ↦
            let (kept, e', is_kept) = is_word_value-returns p (there p (Memᴰ.head refl)) in
            (
              if kept then p ∷ found else found,
              rw (shared, found_among, e', e) refl,
              λ q. (
                λ m.
                    ⊎_elim
                      (λ (same, k). (
                        Memᴰ.head same,
                        ap (is_common common) same ∙ shared,
                        subst IsWordValue (sym same) (is_kept.0 k),
                      ))
                      (later q) (from_kept kept p found q m),
                λ (m, shared', word).
                    ⊎_elim
                      (λ same.
                        to_kept kept p found q
                          (inl (same, is_kept.1 (subst IsWordValue same word))))
                      (λ t. to_kept kept p found q (inr ((among q).1 (t, shared', word))))
                      (Memᴰ.cases_cons m),
              ),
            )
      ]

  module _ (trie : Trie) where
    -- Every word gives positions that are there.
    abbrev pub AllThere : List Text → Type 0
    AllThere words =
        (word : Text)
        → Memᴰ word words
        → (p : Position) → Memᴰ p (positions (trie.iteritems word))
        → IsThere p

    -- The position is common so far, and each of the words gives it, as that of a word value.
    abbrev pub HoldsAll : Option (List Position) → List Text → Position → Type 0
    HoldsAll common words p =
        (is_common common p ≡ true)
        × ((word : Text)
            → Memᴰ word words
            → Memᴰ p (positions (trie.iteritems word)) × IsWordValue p)

    -- The loop has found something, or there is a word left.
    abbrev HasStarted : Option (List Position) → List Text → Type 0
    HasStarted none [] = ⊥
    HasStarted _ _ = Unit

    narrow-returns :
        (common : Option (List Position)) (words : List Text)
        → AllThere words
        → HasStarted common words
        → (found : List Position) × (narrow subjects selected trie common words ≡ some found)
          × ((p : Position) → Memᴰ p found ↔ HoldsAll common words p)
    unfolding narrow
    narrow-returns none [] there started = absurd started
    narrow-returns (some common) [] there started = (
      common,
      refl,
      λ p. (
        λ m. ((contains_iff common p).1 m, λ word m'. absurd (Memᴰ.not-nil m')),
        λ h. (contains_iff common p).0 h.0,
      ),
    )
    narrow-returns common (word ∷ words) there started =
        let (found, e, among) =
          found_among-returns common (trie.iteritems word) (there word (Memᴰ.head refl)) in
        let again =
          λ (c : List Position). narrow-returns (some c) words (λ w m. there w (Memᴰ.tail m)) tt in
        let (r, e', holds) = rest again (to_set found) in
        (
          r,
          rw e e',
          λ p. (
            λ m.
                let (at, h) = (holds p).0 m in
                let (here, shared, kept) = (among p).0 ((Memᴰ-to_set p found).0 at) in
                (
                  shared,
                  λ w m'.
                      ⊎_elim
                        (λ same. (
                          subst (λ v. Memᴰ p (positions (trie.iteritems v))) (sym same) here,
                          kept,
                        ))
                        (h w) (Memᴰ.cases_cons m'),
                ),
            λ (shared, h).
                let (here, kept) = h word (Memᴰ.head refl) in
                (holds p).1 (
                  (Memᴰ-to_set p found).1 ((among p).1 (here, shared, kept)),
                  λ w m'. h w (Memᴰ.tail m'),
                ),
          ),
        )
      where
        rest :
            ((c : List Position)
              → (r : List Position) × (narrow subjects selected trie (some c) words ≡ some r)
                × ((p : Position) → Memᴰ p r ↔ HoldsAll (some c) words p))
            → (t : List Position)
            → (r : List Position) × ((elim t [
              | [] ↦ some []
              | q ∷ qs ↦ narrow subjects selected trie (some (q ∷ qs)) words
            ])
                ≡ some r)
              × ((p : Position)
                  → Memᴰ p r ↔ (
                      Memᴰ p t
                      × ((w : Text)
                          → Memᴰ w words
                          → Memᴰ p (positions (trie.iteritems w)) × IsWordValue p)))
        rest again [] =
            ([], refl, λ p. (λ m. absurd (Memᴰ.not-nil m), λ (m, _). absurd (Memᴰ.not-nil m)))
        rest again (q ∷ qs) =
            let (r, e, holds) = again (q ∷ qs) in
            (
              r,
              e,
              λ p. (
                λ m. let (c, h) = (holds p).0 m in ((contains_iff (q ∷ qs) p).0 c, h),
                λ (m, h). (holds p).1 ((contains_iff (q ∷ qs) p).1 m, h),
              ),
            )

    -- The values that hold every word are found without an error: those of the word fields of
    -- subjects of selected kinds that each of the words gives.
    pub values_with_every_word-returns :
        (words : List Text)
        → AllThere words
        → {word : Text} → Memᴰ word words
        → (found : List Position) × (values_with_every_word subjects selected trie words
            ≡ some found)
          × ((p : Position)
              → Memᴰ p found ↔ (
                  ((word : Text) → Memᴰ word words → Memᴰ p (positions (trie.iteritems word)))
                  × IsWordValue p))
    unfolding values_with_every_word
    values_with_every_word-returns words there {word} at_word =
        let size = λ (word : Text). length word in
        let (r, e, holds) =
          narrow-returns none (reverse (sorted_by size (to_set words)))
            (λ word m. there word ((inside word).0 m)) (started _ ((inside word).1 at_word)) in
        (
          r,
          e,
          λ p. (
            λ m.
                let h = ((holds p).0 m).1 in
                (λ w at. (h w ((inside w).1 at)).0, (h word ((inside word).1 at_word)).1),
            λ (given, kept). (holds p).1 (refl, λ w at. (given w ((inside w).0 at), kept)),
          ),
        )
      where
        started : (ws : List Text) {w : Text} → Memᴰ w ws → HasStarted none ws
        started [] m = absurd (Memᴰ.not-nil m)
        started (w ∷ ws) m = tt

        inside :
            (word : Text)
            → Memᴰ word (reverse (sorted_by (λ (w : Text). length w) (to_set words)))
              ↔ Memᴰ word words
        inside word =
            let size = λ (w : Text). length w in
            let (down, up) = Memᴰ-sorted_by size word (to_set words) in
            let (from, to) = Memᴰ-to_set word words in
            let (here, back) = Memᴰ-reverse word (sorted_by size (to_set words)) in
            (λ m. from (down (here m)), λ m. back (up (to m)))

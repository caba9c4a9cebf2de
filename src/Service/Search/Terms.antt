-- ===== src/Service/Search/Terms.antt =====
-- Terms of a value: a query's word that begins one of them begins one of the value's words.
use mathlib.Core.List.Memᴰ
use data_ontology_graph.Prelude.{
  ℕ, Text, text, List, [], ◌∷◌, ◌++◌, Bool, true, false, and_parts, join, is_empty, is_space,
  to_set, Memᴰ-to_set, Memᴰ, map, Bool-cases, both_ways, if◌then◌else◌, ◌==◌, ==→≡, ◌≡◌, inl, inr,
  ⊎_elim, refl, sym, ap, ◌∙◌, subst, append-nil, nat_order, list_order,
}
use data_ontology_graph.Service.Search.{
  Unicode, normalize_term, index_terms, split, split_words, camel_boundary_1, camel_boundary_2,
  as_space,
}
use data_ontology_graph.Service.Search.Matching.{starts_with}
use data_ontology_graph.Service.Search.Worded.{IsStarted}

-- no character is a space
abbrev pub HasNoSpace : Text → Type 0
HasNoSpace word = (c : ℕ) → Memᴰ c word → is_space c ≡ false

split_words-HasNoSpace :
    (cs : Text)
    → HasNoSpace (split_words cs).0
      × ((word : Text) → Memᴰ word (split_words cs).1 → HasNoSpace word × (is_empty word ≡ false))
split_words-HasNoSpace [] = ((λ c m. absurd (Memᴰ.not-nil m)), λ w m. absurd (Memᴰ.not-nil m))
split_words-HasNoSpace (c ∷ cs) =
    let (first, later) = split_words-HasNoSpace cs in
    elim (Bool-cases (is_space c)) [
      | inl space ↦
          rw space
            ((λ d m. absurd (Memᴰ.not-nil m)), λ w m. kept (split_words cs).0 first later w m)
      | inr other ↦
          rw other
            ((λ d m. ⊎_elim (λ e. ap is_space e ∙ other) (first d) (Memᴰ.cases_cons m)), later)
    ]
  where
    kept :
        {others : List Text} (word : Text)
        → HasNoSpace word
        → ((w : Text) → Memᴰ w others → HasNoSpace w × (is_empty w ≡ false))
        → (w : Text) → Memᴰ w (if is_empty word then others else word ∷ others)
        → HasNoSpace w × (is_empty w ≡ false)
    kept [] first later w m = later w m
    kept (c ∷ word) first later w m =
        ⊎_elim (λ e. subst (λ v. HasNoSpace v × (is_empty v ≡ false)) (sym e) (first, refl))
          (later w) (Memᴰ.cases_cons m)

pub split-HasNoSpace :
    (value word : Text) → Memᴰ word (split value) → HasNoSpace word × (is_empty word ≡ false)
unfolding split
split-HasNoSpace value word = by_first (split_words value).0 refl
  where
    by_first :
        (w : Text)
        → (split_words value).0 ≡ w
        → Memᴰ word (if is_empty w then (split_words value).1 else w ∷ (split_words value).1)
        → HasNoSpace word × (is_empty word ≡ false)
    by_first [] e m = (split_words-HasNoSpace value).1 word m
    by_first (c ∷ cs) e m =
        ⊎_elim
          (λ same.
            subst (λ v. HasNoSpace v × (is_empty v ≡ false)) (sym same)
              (subst HasNoSpace e (split_words-HasNoSpace value).0, refl))
          ((split_words-HasNoSpace value).1 word) (Memᴰ.cases_cons m)

-- a word before a space or the end is the first one
split_words-front :
    (word rest : Text)
    → HasNoSpace word
    → (split_words (word ++ rest)).0 ≡ word ++ (split_words rest).0
split_words-front [] rest h = refl
split_words-front (c ∷ word) rest h =
    rw (h c (Memᴰ.head refl)) (ap (◌∷◌ c) (split_words-front word rest (λ d m. h d (Memᴰ.tail m))))

front-split :
    (word rest : Text)
    → HasNoSpace word
    → is_empty word ≡ false
    → (split_words rest).0 ≡ []
    → Memᴰ word (split (word ++ rest))
unfolding split
front-split word rest h nonempty ends =
    let first = split_words-front word rest h ∙ (ap (λ r. word ++ r) ends ∙ append-nil word) in
    in_first (split_words (word ++ rest)).0 first (split_words (word ++ rest)).1
  where
    in_first :
        (w : Text)
        → w ≡ word
        → (others : List Text) → Memᴰ word (if is_empty w then others else w ∷ others)
    in_first [] e others = both_ways refl (ap is_empty e ∙ nonempty)
    in_first (c ∷ cs) e others = Memᴰ.head (sym e)

-- what begins the front and has no space begins the first word
starts-first :
    (word rest query : Text)
    → HasNoSpace query
    → starts_with (word ++ 32 ∷ rest) query ≡ true
    → starts_with word query ≡ true
unfolding starts_with
starts-first [] rest [] h s = refl
starts-first (c ∷ word) rest [] h s = refl
starts-first [] rest (q ∷ query) h s =
    let is_q = ==→≡ 32 q (and_parts _ _ s).0 in
    both_ways (sym (ap is_space is_q)) (h q (Memᴰ.head refl))
starts-first (c ∷ word) rest (q ∷ query) h s =
    let (first, others) = and_parts (c == q) (starts_with (word ++ 32 ∷ rest) query) s in
    rw first (starts-first word rest query (λ d m. h d (Memᴰ.tail m)) others)

joined-IsStarted :
    (words : List Text) (query : Text)
    → ((word : Text) → Memᴰ word words → HasNoSpace word × (is_empty word ≡ false))
    → is_empty (join (text " ") words) ≡ false
    → HasNoSpace query
    → starts_with (join (text " ") words) query ≡ true
    → IsStarted (split (join (text " ") words)) query
unfolding join
joined-IsStarted [] query h nonempty q s = cc
joined-IsStarted (word ∷ []) query h nonempty q s =
    let (clean, full) = h word (Memᴰ.head refl) in
    (
      word,
      subst (λ v. Memᴰ word (split v)) (append-nil word) (front-split word [] clean full refl),
      s,
    )
joined-IsStarted (word ∷ next ∷ words) query h nonempty q s =
    let (clean, full) = h word (Memᴰ.head refl) in
    let others = join (text " ") (next ∷ words) in
    (word, front-split word (32 ∷ others) clean full refl, starts-first word others query q s)

normalized-words :
    (u : Unicode) (value : Text)
    → (words : List Text) × (normalize_term u value ≡ join (text " ") words)
      × ((word : Text) → Memᴰ word words → HasNoSpace word × (is_empty word ≡ false))
unfolding normalize_term
normalized-words u value =
    let spaced = camel_boundary_1 (camel_boundary_2 (u.nfkc value)) in
    let known = map (as_space u) (u.casefold spaced) in
    (split known, refl, λ word. split-HasNoSpace known word)

pub term-IsStarted :
    (u : Unicode) (value term query word : Text)
    → Memᴰ term (index_terms u value)
    → Memᴰ word (split query)
    → starts_with term word ≡ true
    → IsStarted (split (normalize_term u value)) word
unfolding index_terms
term-IsStarted u value term query word m at s = by_empty (is_empty (normalize_term u value)) refl m
  where
    by_empty :
        (b : Bool)
        → is_empty (normalize_term u value) ≡ b
        → Memᴰ term
            (if b then [] else to_set (normalize_term u value ∷ split (normalize_term u value)))
        → IsStarted (split (normalize_term u value)) word
    by_empty true e m = absurd (Memᴰ.not-nil m)
    by_empty false e m =
        ⊎_elim
          (λ whole.
            let (words, same, clean) = normalized-words u value in
            subst (λ t. IsStarted (split t) word) (sym same)
              (joined-IsStarted words word clean (ap is_empty (sym same) ∙ e)
                (split-HasNoSpace query word at).0
                (ap (λ t. starts_with t word) (sym (whole ∙ same)) ∙ s)))
          (λ t. (term, t, s))
          (Memᴰ.cases_cons
            ((Memᴰ-to_set term (normalize_term u value ∷ split (normalize_term u value))).0 m))

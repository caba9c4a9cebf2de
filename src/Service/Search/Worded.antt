-- ===== src/Service/Search/Worded.antt =====
-- `_word_match`: the match of a value that holds every word of a query.
use data_ontology_graph.Prelude.{
  ℕ, zero, suc, ◌<◌, Text, text, List, [], ◌∷◌, ◌++◌, true, false, length, take, join, Memᴰ, Option,
  none, some, Option-cases, Bool-cases, both_ways, if◌then◌else◌, and_parts, ◌≡◌, ◌↔◌, refl, sym,
  ap, ◌∙◌, subst, inl, inr, ⊎_elim, arith,
}
use mathlib.Core.List.Memᴰ
use data_ontology_graph.Query.Paths.Traced.{some_injective}
use data_ontology_graph.Service.Search.Matching.{
  Match, starts_with, starts_all, first_started, all_started, find_window, word_match,
}

-- The words start with the queries' words, one by one.
pub data AreAligned : List Text → List Text → Type 0 where
  no_words : AreAligned [] []
  one_word :
      {word query : Text} {words queries : List Text}
      → starts_with word query ≡ true
      → AreAligned words queries
      → AreAligned (word ∷ words) (query ∷ queries)

-- Words at the front are aligned with the query.
abbrev pub IsFront : List Text → List Text → List Text → Type 0
IsFront words queries window =
    ((after : List Text) × (words ≡ window ++ after)) × AreAligned window queries

-- the first words in a row that are
pub data IsFirstWindow (queries window : List Text) : List Text → Type 0 where
  at_front : {words : List Text} → IsFront words queries window → IsFirstWindow queries window words
  further :
      {word : Text} {words : List Text}
      → ((w : List Text) → ¬ IsFront (word ∷ words) queries w)
      → IsFirstWindow queries window words
      → IsFirstWindow queries window (word ∷ words)

-- the first of the words that starts with the query's
pub data IsFirst (query found : Text) : List Text → Type 0 where
  here : {words : List Text} → starts_with found query ≡ true → IsFirst query found (found ∷ words)
  later :
      {word : Text} {words : List Text}
      → starts_with word query ≡ false
      → IsFirst query found words
      → IsFirst query found (word ∷ words)

pub data AreFirst (words : List Text) : List Text → List Text → Type 0 where
  no_more : AreFirst words [] []
  one_more :
      {query found : Text} {queries matched : List Text}
      → IsFirst query found words
      → AreFirst words queries matched
      → AreFirst words (query ∷ queries) (found ∷ matched)

-- A phrase if the words stand in a row, and else the first word for each of the query's.
pub data IsWordMatch (words queries : List Text) : Match → Type 0 where
  phrase :
      {window : List Text}
      → IsFirstWindow queries window words
      → IsWordMatch words queries (2, join (text " ") window)
  all_words :
      {matched : List Text}
      → ((window : List Text) → ¬ IsFirstWindow queries window words)
      → AreFirst words queries matched
      → IsWordMatch words queries (3, join (text " ") matched)

aligned-starts :
    {window queries : List Text} (after : List Text)
    → AreAligned window queries
    → (starts_all (window ++ after) queries ≡ true)
      × (take (length queries) (window ++ after) ≡ window)
unfolding starts_all
aligned-starts [] AreAligned.no_words = (refl, refl)
aligned-starts (x ∷ after) AreAligned.no_words = (refl, refl)
aligned-starts after (AreAligned.one_word {word} h rest) =
    let (e, e') = aligned-starts after rest in (ground (arith, h, e), ap (◌∷◌ word) e')

starts-IsFront :
    (words queries : List Text)
    → starts_all words queries ≡ true
    → IsFront words queries (take (length queries) words)
unfolding starts_all
starts-IsFront words [] h = ((words, refl), AreAligned.no_words)
starts-IsFront [] (query ∷ queries) h = cc
starts-IsFront (word ∷ words) (query ∷ queries) h =
    let (first, others) = and_parts _ _ h in
    let ((after, e), rest) = starts-IsFront words queries others in
    ((after, ap (◌∷◌ word) e), AreAligned.one_word first rest)

front-window :
    {words queries window : List Text}
    → IsFront words queries window
    → (starts_all words queries ≡ true) × (take (length queries) words ≡ window)
front-window {words} {queries} {window} ((after, e), aligned) =
    let (starts, kept) = aligned-starts after aligned in
    (ap (λ ws. starts_all ws queries) e ∙ starts, ap (take (length queries)) e ∙ kept)

take-none : (n : ℕ) → take {A = Text} n [] ≡ []
take-none zero = refl
take-none (suc n) = refl

none-some {ℓ} : {A : Type ℓ} {a : A} → ◌≡◌ {A = Option A} none (some a) → ⊥
none-some e = cc

find_window_iff :
    (words queries window : List Text)
    → (find_window words queries ≡ some window) ↔ IsFirstWindow queries window words
unfolding find_window
find_window_iff words queries window = (finds words, found words)
  where
    finds :
        (ws : List Text) → find_window ws queries ≡ some window → IsFirstWindow queries window ws
    finds [] h = elim (Bool-cases (starts_all [] queries)) [
      | inl starts ↦
          let same : [] ≡ window =
            some_injective (subst (λ b. (if b then some [] else none) ≡ some window) starts h) in
          IsFirstWindow.at_front (
            subst (IsFront [] queries) (take-none (length queries) ∙ same)
              (starts-IsFront [] queries starts))
      | inr other ↦
          absurd (none-some (subst (λ b. (if b then some [] else none) ≡ some window) other h))
    ]
    finds (w ∷ ws) h =
        let kept = take (length queries) (w ∷ ws) in
        let rest = find_window ws queries in
        elim (Bool-cases (starts_all (w ∷ ws) queries)) [
          | inl starts ↦
              let same : kept ≡ window =
                some_injective
                  (subst (λ b. (if b then some kept else rest) ≡ some window) starts h) in
              IsFirstWindow.at_front
                (subst (IsFront (w ∷ ws) queries) same (starts-IsFront (w ∷ ws) queries starts))
          | inr other ↦
              IsFirstWindow.further (λ v f. both_ways (front-window f).0 other)
                (finds ws (subst (λ b. (if b then some kept else rest) ≡ some window) other h))
        ]

    found :
        (ws : List Text) → IsFirstWindow queries window ws → find_window ws queries ≡ some window
    found [] (IsFirstWindow.at_front f) =
        let (starts, kept) = front-window f in
        rw starts (ap some (sym (take-none (length queries)) ∙ kept))
    found (w ∷ ws) (IsFirstWindow.at_front f) =
        let (starts, kept) = front-window f in rw starts (ap some kept)
    found (w ∷ ws) (IsFirstWindow.further no_front rest) =
        elim (Bool-cases (starts_all (w ∷ ws) queries)) [
          | inl starts ↦ absurd (no_front _ (starts-IsFront (w ∷ ws) queries starts))
          | inr other ↦ rw other (found ws rest)
        ]

first_started_iff :
    (words : List Text) (query found : Text)
    → (first_started words query ≡ some found) ↔ IsFirst query found words
unfolding first_started
first_started_iff words query found = (finds words, is_found words)
  where
    finds : (ws : List Text) → first_started ws query ≡ some found → IsFirst query found ws
    finds [] h = absurd (none-some h)
    finds (w ∷ ws) h =
        let rest = first_started ws query in
        elim (Bool-cases (starts_with w query)) [
          | inl starts ↦
              let same : w ≡ found =
                some_injective (subst (λ b. (if b then some w else rest) ≡ some found) starts h) in
              subst (λ v. IsFirst query v (w ∷ ws)) same (IsFirst.here starts)
          | inr other ↦
              IsFirst.later other
                (finds ws (subst (λ b. (if b then some w else rest) ≡ some found) other h))
        ]

    is_found : (ws : List Text) → IsFirst query found ws → first_started ws query ≡ some found
    is_found [] f = elim f [ ]
    is_found (w ∷ ws) (IsFirst.here starts) = rw starts refl
    is_found (w ∷ ws) (IsFirst.later other rest) = rw other (is_found ws rest)

-- a word of the value starts with the query's
abbrev pub IsStarted : List Text → Text → Type 0
IsStarted words query = (word : Text) × Memᴰ word words × (starts_with word query ≡ true)

started-first :
    (words : List Text) (query : Text)
    → IsStarted words query
    → (word : Text) × (first_started words query ≡ some word)
unfolding first_started
started-first [] query (word, m, h) = absurd (Memᴰ.not-nil m)
started-first (w ∷ ws) query (word, m, h) = elim (Bool-cases (starts_with w query)) [
  | inl starts ↦ (w, rw starts refl)
  | inr other ↦ rw other (
      ⊎_elim (λ same. both_ways (ap (λ v. starts_with v query) (sym same) ∙ h) other)
        (λ t. started-first ws query (word, t, h)) (Memᴰ.cases_cons m))
]

all_started-returns :
    (words queries : List Text)
    → ((query : Text) → Memᴰ query queries → IsStarted words query)
    → (matched : List Text) × (all_started words queries ≡ some matched)
      × AreFirst words queries matched
unfolding all_started
all_started-returns words [] h = ([], refl, AreFirst.no_more)
all_started-returns words (query ∷ queries) h =
    let (word, e) = started-first words query (h query (Memᴰ.head refl)) in
    let (others, e', are_first) = all_started-returns words queries (λ q m. h q (Memᴰ.tail m)) in
    (
      word ∷ others,
      rw (e, e') refl,
      AreFirst.one_more ((first_started_iff words query word).0 e) are_first,
    )

AreFirst-eq :
    (words : List Text) {queries matched : List Text}
    → AreFirst words queries matched
    → all_started words queries ≡ some matched
unfolding all_started
AreFirst-eq words AreFirst.no_more = refl
AreFirst-eq words (AreFirst.one_more {query} {found} first rest) =
    rw ((first_started_iff words query found).1 first, AreFirst-eq words rest) refl

-- The match of a value with such words exists, is the only one, and has one of the ranks.
pub word_match-returns :
    (words queries : List Text)
    → ((query : Text) → Memᴰ query queries → IsStarted words query)
    → (m : Match) × (word_match words queries ≡ some m)
      × (m.0 < 4)
      × ((x : Match) → IsWordMatch words queries x ↔ (x ≡ m))
unfolding word_match
word_match-returns words queries h = elim (Option-cases (find_window words queries)) [
  | inr (window, e) ↦
      let first = (find_window_iff words queries window).0 e in
      (
        (2, join (text " ") window),
        rw (e, word_match) refl,
        omega arith,
        λ x. (
          λ w. only_phrase window e x w,
          λ same. subst (IsWordMatch words queries) (sym same) (IsWordMatch.phrase first),
        ),
      )
  | inl e ↦
      let (matched, e', are_first) = all_started-returns words queries h in
      let no_window = λ (w : List Text) (f : IsFirstWindow queries w words).
        none-some (sym e ∙ (find_window_iff words queries w).1 f) in
      (
        (3, join (text " ") matched),
        rw (e, word_match, e') refl,
        omega arith,
        λ x. (
          λ w. only_words matched e' e x w,
          λ same.
              subst (IsWordMatch words queries) (sym same)
                (IsWordMatch.all_words no_window are_first),
        ),
      )
]
  where
    only_phrase :
        (window : List Text)
        → find_window words queries ≡ some window
        → (x : Match) → IsWordMatch words queries x
        → x ≡ (2, join (text " ") window)
    only_phrase window e x (IsWordMatch.phrase {window = other} f) =
        let same = some_injective (sym ((find_window_iff words queries other).1 f) ∙ e) in
        ap (λ w. (2, join (text " ") w)) same
    only_phrase window e x (IsWordMatch.all_words no_window first) =
        absurd (no_window window ((find_window_iff words queries window).0 e))

    only_words :
        (matched : List Text)
        → all_started words queries ≡ some matched
        → find_window words queries ≡ none
        → (x : Match) → IsWordMatch words queries x
        → x ≡ (3, join (text " ") matched)
    only_words matched e none_found x (IsWordMatch.phrase {window = other} f) =
        absurd (none-some (sym none_found ∙ (find_window_iff words queries other).1 f))
    only_words matched e none_found x (IsWordMatch.all_words {matched = other} no_window first) =
        let same = some_injective (sym (AreFirst-eq words first) ∙ e) in
        ap (λ w. (3, join (text " ") w)) same

-- ===== src/Builder/Directory/Inventory.antt =====
-- What a clean inventory says: the manifest's entries and the YAML files of the directory agree.
use mathlib.Core.List.Memᴰ
use data_ontology_graph.Prelude.{
  Bool-cases, inl, inr, Memᴰ-snoc, Text, text, List, [], ◌∷◌, ◌++◌, Bool, true, false, not, ◌||◌,
  map, contains, contains_iff, not-contains, sorted_by, Memᴰ-sorted_by, Memᴰ, append_assoc,
  append-nil, IsDistinct, is_empty, ◌≡◌, ◌≢◌, refl, sym, ap, ◌∙◌, subst, ⊎_elim, if◌then◌else◌,
  nat_order, list_order,
}
use data_ontology_graph.Builder.Directory.Paths.{relative_path, is_absolute, has_yaml_suffix, parts}
use data_ontology_graph.Builder.Directory.Collections.{ValidationFinding, finding}
use data_ontology_graph.Builder.Directory.{
  Source, Entry, check_entry, check_entries, check_file, check_files, inventory_findings,
}

abbrev pub paths_of : List Entry → List Text
paths_of entries = map (λ (e : Entry). relative_path e.1) entries

both_nil {ℓ} : {A : Type ℓ} (xs ys : List A) → xs ++ ys ≡ [] → (xs ≡ []) × (ys ≡ [])
both_nil [] ys h = (refl, h)
both_nil (x ∷ xs) ys h = cc

module _ (source : Source) where
  -- The path is relative, does not lead upwards, and names a YAML file inside the directory.
  pub record IsFine (raw_path : Text) : Type 0 where
    pub is_relative : is_absolute raw_path ≡ false
    pub never_up : contains (parts raw_path) (text "..") ≡ false
    pub has_suffix : has_yaml_suffix (relative_path raw_path) ≡ true
    pub is_inside : source.resolves_inside (relative_path raw_path) ≡ true
    pub is_there : source.is_file (relative_path raw_path) ≡ true

  -- The manifest lists YAML files of the directory, each once, and every YAML file is listed.
  pub record IsInventoried (entries : List Entry) : Type 0 where
    pub fine : (e : Entry) → Memᴰ e entries → IsFine e.1
    pub once : IsDistinct (paths_of entries)
    pub some_file : source.files ≢ []
    pub listed :
        (file : Text)
        → Memᴰ file source.files
        → (has_yaml_suffix file ≡ true) × Memᴰ file (paths_of entries)

  -- one round, by the outcomes of its tests
  abbrev verdict :
      Bool
      → Bool
      → Bool
      → Bool
      → Bool
      → Bool
      → List Text
      → Text
      → Text
      → List Text × List ValidationFinding
  verdict absolute up known suffix inside there listed path location =
      if absolute || up
      then (listed, finding location (text "invalid_collection_path") ∷ [])
      else if known
      then (listed, finding location (text "duplicate_manifest_path") ∷ [])
      else (
        listed ++ path ∷ [],
        if not suffix
            then finding location (text "unsupported_file") ∷ []
            else if not inside
            then finding location (text "path_outside_directory") ∷ []
            else if not there
            then finding location (text "missing_file") ∷ []
            else [],
      )

  verdict-fine :
      (absolute up known suffix inside there : Bool) (listed : List Text) (path location : Text)
      → (verdict absolute up known suffix inside there listed path location).1 ≡ []
      → (absolute ≡ false)
        × (up ≡ false)
        × (known ≡ false)
        × (suffix ≡ true)
        × (inside ≡ true)
        × (there ≡ true)
        × ((verdict absolute up known suffix inside there listed path location).0
            ≡ listed ++ path ∷ [])
  verdict-fine true up known suffix inside there listed path location h = cc
  verdict-fine false true known suffix inside there listed path location h = cc
  verdict-fine false false true suffix inside there listed path location h = cc
  verdict-fine false false false false inside there listed path location h = cc
  verdict-fine false false false true false there listed path location h = cc
  verdict-fine false false false true true false listed path location h = cc
  verdict-fine false false false true true true listed path location h =
      (refl, refl, refl, refl, refl, refl, refl)

  check_entry-IsFine :
      (listed : List Text) (e : Entry)
      → (check_entry source listed e).1 ≡ []
      → IsFine e.1
        × (¬ Memᴰ (relative_path e.1) listed)
        × ((check_entry source listed e).0 ≡ listed ++ relative_path e.1 ∷ [])
  check_entry-IsFine listed (collection, raw_path, location) h =
      let path = relative_path raw_path in
      let (absolute, up, known, suffix, inside, there, grown) =
        verdict-fine (is_absolute raw_path) (contains (parts raw_path) (text ".."))
          (contains listed path) (has_yaml_suffix path) (source.resolves_inside path)
          (source.is_file path) listed path _ h in
      (
        record {
          is_relative = absolute;
          never_up = up;
          has_suffix = suffix;
          is_inside = inside;
          is_there = there;
        },
        not-contains listed path known,
        grown,
      )

  check_entries-IsFine :
      (entries : List Entry) (listed : List Text)
      → (check_entries source listed entries).1 ≡ []
      → ((e : Entry) → Memᴰ e entries → IsFine e.1)
        × IsDistinct (paths_of entries)
        × ((path : Text) → Memᴰ path (paths_of entries) → ¬ Memᴰ path listed)
        × ((check_entries source listed entries).0 ≡ listed ++ paths_of entries)
  unfolding check_entries
  check_entries-IsFine [] listed h = (
    λ e m. absurd (Memᴰ.not-nil m),
    tt,
    λ path m. absurd (Memᴰ.not-nil m),
    sym (append-nil listed),
  )
  check_entries-IsFine (e ∷ entries) listed h =
      let (here, later) = both_nil (check_entry source listed e).1 _ h in
      let (fine, new, grown) = check_entry-IsFine listed e here in
      let (all_fine, once, apart, all_grown) =
        check_entries-IsFine entries (check_entry source listed e).0 later in
      let path = relative_path e.1 in
      (
        λ x m.
            ⊎_elim (λ same. subst (λ (y : Entry). IsFine y.1) (sym same) fine) (all_fine x)
              (Memᴰ.cases_cons m),
        (
          λ m.
              apart path m
                (subst (Memᴰ path) (sym grown) (Memᴰ.append_right listed (Memᴰ.head refl))),
          once,
        ),
        λ x m at.
            ⊎_elim (λ same. new (Memᴰ.cast (sym same) at))
              (λ t. apart x t (subst (Memᴰ x) (sym grown) (Memᴰ.append_left (path ∷ []) at)))
              (Memᴰ.cases_cons m),
        all_grown ∙ ap (λ ys. ys ++ paths_of entries) grown ∙ append_assoc listed (path ∷ []) _,
      )

  check_files-listed :
      (listed files : List Text)
      → check_files source listed files ≡ []
      → (file : Text) → Memᴰ file files
      → (has_yaml_suffix file ≡ true) × Memᴰ file listed
  unfolding check_files
  check_files-listed listed [] h file m = absurd (Memᴰ.not-nil m)
  check_files-listed listed (f ∷ files) h file m =
      let (here, later) = both_nil (check_file source listed f) _ h in
      ⊎_elim
        (λ same. subst (λ z. (has_yaml_suffix z ≡ true) × Memᴰ z listed) (sym same) (first f here))
        (check_files-listed listed files later file) (Memᴰ.cases_cons m)
    where
      passed :
          (suffix known : Bool) (path : Text)
          → (if not suffix
              then finding path (text "unsupported_file") ∷ []
              else if not known
              then finding path (text "unlisted_file") ∷ []
              else [])
            ≡ []
          → (suffix ≡ true) × (known ≡ true)
      passed false known path h = cc
      passed true false path h = cc
      passed true true path h = (refl, refl)

      first :
          (f : Text) → check_file source listed f ≡ [] → (has_yaml_suffix f ≡ true) × Memᴰ f listed
      first f h =
          let (suffix, known) = passed (has_yaml_suffix f) (contains listed f) f h in
          (suffix, (contains_iff listed f).0 known)

  pub inventory_findings-IsInventoried :
      (entries : List Entry) → inventory_findings source entries ≡ [] → IsInventoried entries
  unfolding inventory_findings
  inventory_findings-IsInventoried entries h =
      let in_order = sorted_by (λ (path : Text). path) source.files in
      let rest = check_files source (check_entries source [] entries).0 in_order in
      let missing =
        if is_empty source.files then finding (text "$") (text "missing_yaml") ∷ [] else [] in
      let (early, files) = both_nil ((check_entries source [] entries).1 ++ missing) rest h in
      let (before, present) = both_nil (check_entries source [] entries).1 missing early in
      let (fine, once, apart, grown) = check_entries-IsFine entries [] before in
      record {
        fine = fine;
        once = once;
        some_file = λ none_there. has_some source.files none_there present;
        listed = λ file m.
            let (suffix, known) =
              check_files-listed (check_entries source [] entries).0 in_order files file
                ((Memᴰ-sorted_by (λ (p : Text). p) file source.files).1 m) in
            (suffix, subst (Memᴰ file) grown known);
      }
    where
      has_some :
          (files : List Text)
          → files ≡ []
          → (if is_empty files then finding (text "$") (text "missing_yaml") ∷ [] else []) ≡ []
          → ⊥
      has_some [] e p = cc
      has_some (f ∷ files) e p = cc

  absent : (xs : List Text) (x : Text) → (¬ Memᴰ x xs) → contains xs x ≡ false
  absent xs x out = elim (Bool-cases (contains xs x)) [
    | inl has ↦ absurd (out ((contains_iff xs x).0 has))
    | inr has ↦ has
  ]

  verdict-clean :
      (absolute up known suffix inside there : Bool) (listed : List Text) (path location : Text)
      → absolute ≡ false
      → up ≡ false
      → known ≡ false
      → suffix ≡ true
      → inside ≡ true
      → there ≡ true
      → verdict absolute up known suffix inside there listed path location
        ≡ (listed ++ path ∷ [], [])
  verdict-clean absolute up known suffix inside there listed path location a b c d e f =
      rw (a, b, c, d, e, f) refl

  check_entry-clean :
      (listed : List Text) (e : Entry)
      → IsFine e.1
      → (¬ Memᴰ (relative_path e.1) listed)
      → check_entry source listed e ≡ (listed ++ relative_path e.1 ∷ [], [])
  check_entry-clean listed (collection, raw_path, location) k out =
      verdict-clean _ _ _ _ _ _ listed (relative_path raw_path) _ k.is_relative k.never_up
        (absent listed (relative_path raw_path) out) k.has_suffix k.is_inside k.is_there

  check_entries-clean :
      (entries : List Entry) (listed : List Text)
      → ((e : Entry) → Memᴰ e entries → IsFine e.1)
      → IsDistinct (paths_of entries)
      → ((path : Text) → Memᴰ path (paths_of entries) → ¬ Memᴰ path listed)
      → check_entries source listed entries ≡ (listed ++ paths_of entries, [])
  unfolding check_entries
  check_entries-clean [] listed fine once apart = ap (λ xs. (xs, [])) (sym (append-nil listed))
  check_entries-clean (e ∷ entries) listed fine once apart =
      let path = relative_path e.1 in
      let here =
        check_entry-clean listed e (fine e (Memᴰ.head refl)) (apart path (Memᴰ.head refl)) in
      let later =
        check_entries-clean entries (listed ++ path ∷ []) (λ x m. fine x (Memᴰ.tail m)) once.1
          (λ x m at.
            ⊎_elim (λ old. apart x (Memᴰ.tail m) old) (λ same. once.0 (Memᴰ.cast (sym same) m))
              ((Memᴰ-snoc x path listed).0 at)) in
      rw (here, later) (ap (λ xs. (xs, [])) (append_assoc listed (path ∷ []) (paths_of entries)))

  check_files-clean :
      (listed files : List Text)
      → ((file : Text) → Memᴰ file files → (has_yaml_suffix file ≡ true) × Memᴰ file listed)
      → check_files source listed files ≡ []
  unfolding check_files
  check_files-clean listed [] all_listed = refl
  check_files-clean listed (f ∷ files) all_listed =
      let (suffix, at) = all_listed f (Memᴰ.head refl) in
      rw (suffix, (contains_iff listed f).1 at)
        (check_files-clean listed files (λ x m. all_listed x (Memᴰ.tail m)))

  pub inventory_findings_of_inventoried :
      (entries : List Entry) → IsInventoried entries → inventory_findings source entries ≡ []
  unfolding inventory_findings
  inventory_findings_of_inventoried entries k =
      let checked = check_entries-clean entries [] k.fine k.once (λ x m. Memᴰ.not-nil) in
      let files =
        check_files-clean (paths_of entries) (sorted_by (λ (path : Text). path) source.files)
          (λ file m. k.listed file ((Memᴰ-sorted_by (λ (p : Text). p) file source.files).0 m)) in
      rw (checked, present source.files k.some_file, files) refl
    where
      present :
          (files : List Text)
          → files ≢ []
          → (if is_empty files then finding (text "$") (text "missing_yaml") ∷ [] else []) ≡ []
      present [] some_file = absurd (some_file refl)
      present (f ∷ files) some_file = refl

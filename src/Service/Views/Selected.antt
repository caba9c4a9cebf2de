-- ===== src/Service/Views/Selected.antt =====
-- What a resolved view selects.
use mathlib.Core.List.Memᴰ
use data_ontology_graph.Prelude.{
  Text, text, List, [], ◌∷◌, ◌++◌, Bool, true, false, Bool-cases, ◌≡◌, refl, sym, ap, ◌∙◌, subst,
  ◌↔◌, ◌⊎◌, inl, inr, ⊎_elim, all, all-at, all_of, contains, contains_iff, from_keys, Memᴰ,
  Memᴰ-append, Memᴰ-select, Memᴰ-from_keys, is_empty, Result, ok, err, >>=-eq-ok, ok_injective,
  if◌then◌else◌, nat_order, list_order,
}
use data_ontology_graph.Service.Views.Fields.{Detail, FieldObject, catalog, basic, level_fields}
use data_ontology_graph.Service.Views.{
  Added, View, ViewProblem, up_to, fields_of, chosen, besides, check_added, fields_in, once_each,
  resolve,
}

-- `level` is the detail or one below it
pub data IsAtMost : Detail → Detail → Type 0 where
  essential_any : {detail : Detail} → IsAtMost Detail.essential detail
  standard_itself : IsAtMost Detail.standard Detail.standard
  standard_full : IsAtMost Detail.standard Detail.full
  full_itself : IsAtMost Detail.full Detail.full

-- Why a field is in a view: it is always there, a level brings it, or the caller named it; or it is
-- the logical entity of a path's edge, or the definitions that hold fields the caller named.
pub data IsWanted (detail : Detail) (fields : Added) (paths : Bool) (name : FieldObject)
    (field : Text) : Type 0 where
  always : Memᴰ field (basic name) → IsWanted detail fields paths name field
  by_level :
      (level : Detail)
      → IsAtMost level detail
      → Memᴰ field (level_fields name level)
      → IsWanted detail fields paths name field
  by_caller : Memᴰ field (fields name) → IsWanted detail fields paths name field
  holds_named :
      {named : Text}
      → name ≡ FieldObject.dataset
      → field ≡ text "entity_definitions"
      → Memᴰ named (fields FieldObject.entity_definition)
      → IsWanted detail fields paths name field
  on_path :
      name ≡ FieldObject.edge
      → field ≡ text "identity_id"
      → paths ≡ true
      → IsWanted detail fields paths name field

-- the view's fields of an object
abbrev pub view_fields : View → FieldObject → List Text
view_fields view FieldObject.dataset = view.dataset
view_fields view FieldObject.edge = view.edge
view_fields view FieldObject.entity_definition = view.entity_definition

fields_of-mem :
    (detail : Detail) (name : FieldObject) (field : Text)
    → Memᴰ field (fields_of name (up_to detail))
      ↔ ((level : Detail) × IsAtMost level detail × Memᴰ field (level_fields name level))
fields_of-mem detail name field = (down detail, up detail)
  where
    down :
        (d : Detail)
        → Memᴰ field (fields_of name (up_to d))
        → (level : Detail) × IsAtMost level d × Memᴰ field (level_fields name level)
    down Detail.essential m =
        ⊎_elim (λ here. (Detail.essential, essential_any, here)) (λ n. absurd (Memᴰ.not-nil n))
          ((Memᴰ-append field _ _).0 m)
    down Detail.standard m =
        ⊎_elim (λ here. (Detail.essential, essential_any, here))
          (λ t.
            ⊎_elim (λ here. (Detail.standard, standard_itself, here)) (λ n. absurd (Memᴰ.not-nil n))
              ((Memᴰ-append field _ _).0 t))
          ((Memᴰ-append field _ _).0 m)
    down Detail.full m =
        ⊎_elim (λ here. (Detail.essential, essential_any, here))
          (λ t.
            ⊎_elim (λ here. (Detail.standard, standard_full, here))
              (λ u.
                ⊎_elim (λ here. (Detail.full, full_itself, here)) (λ n. absurd (Memᴰ.not-nil n))
                  ((Memᴰ-append field _ _).0 u))
              ((Memᴰ-append field _ _).0 t))
          ((Memᴰ-append field _ _).0 m)

    up :
        (d : Detail)
        → ((level : Detail) × IsAtMost level d × Memᴰ field (level_fields name level))
        → Memᴰ field (fields_of name (up_to d))
    up Detail.essential (level, essential_any, m) = (Memᴰ-append field _ _).1 (inl m)
    up Detail.standard (level, essential_any, m) = (Memᴰ-append field _ _).1 (inl m)
    up Detail.full (level, essential_any, m) = (Memᴰ-append field _ _).1 (inl m)
    up Detail.standard (level, standard_itself, m) =
        (Memᴰ-append field _ _).1 (inr ((Memᴰ-append field _ _).1 (inl m)))
    up Detail.full (level, standard_full, m) =
        (Memᴰ-append field _ _).1 (inr ((Memᴰ-append field _ _).1 (inl m)))
    up Detail.full (level, full_itself, m) =
        (Memᴰ-append field _ _).1
          (inr ((Memᴰ-append field _ _).1 (inr ((Memᴰ-append field _ _).1 (inl m)))))

-- what `besides` adds, and why
besides-cases :
    (detail : Detail) (fields : Added) (paths : Bool) (name : FieldObject) (field : Text)
    → Memᴰ field (besides fields paths name)
    → IsWanted detail fields paths name field
besides-cases detail fields paths FieldObject.dataset field =
    named (fields FieldObject.entity_definition) (λ x m. m)
  where
    named :
        (xs : List Text)
        → ((x : Text) → Memᴰ x xs → Memᴰ x (fields FieldObject.entity_definition))
        → Memᴰ field (if is_empty xs then [] else text "entity_definitions" ∷ [])
        → IsWanted detail fields paths FieldObject.dataset field
    named [] inside m = absurd (Memᴰ.not-nil m)
    named (x ∷ xs) inside m = holds_named refl (Memᴰ.eq_of_singleton m) (inside x (Memᴰ.head refl))
besides-cases detail fields true FieldObject.edge field =
    λ m. on_path refl (Memᴰ.eq_of_singleton m) refl
besides-cases detail fields false FieldObject.edge field = λ m. absurd (Memᴰ.not-nil m)
besides-cases detail fields paths FieldObject.entity_definition field = λ m. absurd (Memᴰ.not-nil m)

besides-named :
    (fields : Added) (paths : Bool) {named : Text}
    → Memᴰ named (fields FieldObject.entity_definition)
    → Memᴰ (text "entity_definitions") (besides fields paths FieldObject.dataset)
besides-named fields paths = from_list (fields FieldObject.entity_definition)
  where
    from_list :
        (xs : List Text) {x : Text}
        → Memᴰ x xs
        → Memᴰ
            (text "entity_definitions")
            (if is_empty xs then [] else text "entity_definitions" ∷ [])
    from_list [] m = absurd (Memᴰ.not-nil m)
    from_list (y ∷ xs) m = Memᴰ.head refl

from_keys-empty : (xs : List Text) → is_empty (from_keys xs) ≡ is_empty xs
unfolding from_keys
from_keys-empty [] = refl
from_keys-empty (x ∷ xs) = refl

besides-once_each :
    (fields : Added) (paths : Bool) (name : FieldObject)
    → besides (once_each fields) paths name ≡ besides fields paths name
unfolding once_each
besides-once_each fields paths FieldObject.dataset =
    ap (λ b. if b then [] else text "entity_definitions" ∷ [])
      (from_keys-empty (fields FieldObject.entity_definition))
besides-once_each fields paths FieldObject.edge = refl
besides-once_each fields paths FieldObject.entity_definition = refl

module _ (detail : Detail) (fields : Added) (paths : Bool) where
  IsWanted-mem :
      (name : FieldObject) (field : Text)
      → Memᴰ field (chosen detail (once_each fields) name ++ besides (once_each fields) paths name)
        ↔ IsWanted detail fields paths name field
  unfolding once_each
  IsWanted-mem name field = (
    λ m.
        ⊎_elim
          (λ c.
            ⊎_elim always
              (λ l.
                ⊎_elim
                  (λ levels.
                    let (level, below, inside) = (fields_of-mem detail name field).0 levels in
                    by_level level below inside)
                  (λ own. by_caller ((Memᴰ-from_keys field (fields name)).0 own))
                  ((Memᴰ-append field _ _).0 l))
              ((Memᴰ-append field _ _).0 c))
          (λ b.
            besides-cases detail fields paths name field
              (subst (Memᴰ field) (besides-once_each fields paths name) b))
          ((Memᴰ-append field _ _).0 m),
    λ w. (Memᴰ-append field _ _).1 (back w),
  )
    where
      added :
          Memᴰ field (besides fields paths name)
          → Memᴰ field (besides (once_each fields) paths name)
      added m = subst (Memᴰ field) (sym (besides-once_each fields paths name)) m

      back :
          IsWanted detail fields paths name field
          → Memᴰ field (chosen detail (once_each fields) name)
            ⊎ Memᴰ field (besides (once_each fields) paths name)
      back (always m) = inl ((Memᴰ-append field _ _).1 (inl m))
      back (by_level level below m) = inl (
          (Memᴰ-append field _ _).1 (
            inr (
              (Memᴰ-append field _ _).1
                (inl ((fields_of-mem detail name field).1 (level, below, m))))))
      back (by_caller m) = inl (
          (Memᴰ-append field _ _).1
            (inr ((Memᴰ-append field _ _).1 (inr ((Memᴰ-from_keys field (fields name)).1 m)))))
      back (holds_named {named} object what m) = inr (
          added (
            subst (λ n. Memᴰ field (besides fields paths n)) (sym object)
              (Memᴰ.cast what (besides-named fields paths m))))
      back (on_path object what shown) = inr (
          added (
            subst (λ n. Memᴰ field (besides fields paths n)) (sym object)
              (subst (λ b. Memᴰ field (if b then text "identity_id" ∷ [] else [])) (sym shown)
                (Memᴰ.head what))))

  abbrev the_view : View
  the_view = record {
    detail = detail;
    added = once_each fields;
    dataset = fields_in detail (once_each fields) paths FieldObject.dataset;
    edge = fields_in detail (once_each fields) paths FieldObject.edge;
    entity_definition = fields_in detail (once_each fields) paths FieldObject.entity_definition;
  }

  the_view-mem :
      (name : FieldObject) (field : Text)
      → Memᴰ field (view_fields the_view name)
        ↔ (Memᴰ field (catalog name) × IsWanted detail fields paths name field)
  unfolding fields_in
  the_view-mem name field = (
    λ m.
        let (listed, found) =
          (Memᴰ-select _ field (catalog name)).0 (subst (Memᴰ field) (fields_at name) m) in
        (listed, (IsWanted-mem name field).0 ((contains_iff _ field).0 found)),
    λ (listed, w). subst (Memᴰ field) (sym (fields_at name)) (
        (Memᴰ-select _ field (catalog name)).1
          (listed, (contains_iff _ field).1 ((IsWanted-mem name field).1 w))),
  )
    where
      fields_at :
          (n : FieldObject) → view_fields the_view n ≡ fields_in detail (once_each fields) paths n
      fields_at FieldObject.dataset = refl
      fields_at FieldObject.edge = refl
      fields_at FieldObject.entity_definition = refl

  checked :
      (name : FieldObject)
      → (check_added (once_each fields) name ≡ ok tt)
        ↔ ((field : Text) → Memᴰ field (fields name) → Memᴰ field (catalog name))
  unfolding once_each
  checked name = (
    λ h field m. (contains_iff (catalog name) field).0 (
        all-at (contains (catalog name)) (from_keys (fields name)) (passed_test h)
          ((Memᴰ-from_keys field (fields name)).1 m)),
    λ known. rw (
        all_of (contains (catalog name)) (from_keys (fields name)) (λ field m.
          (contains_iff (catalog name) field).1
            (known field ((Memᴰ-from_keys field (fields name)).0 m)))),
  )
    where
      passed_test :
          check_added (once_each fields) name ≡ ok tt
          → all (contains (catalog name)) (from_keys (fields name)) ≡ true
      passed_test h = elim (Bool-cases (all (contains (catalog name)) (from_keys (fields name)))) [
        | inl yes_ ↦ yes_
        | inr no_ ↦ absurd (refuses (sym (rw no_) ∙ h))
      ]
        where
          refuses :
              ◌≡◌ {A = Result ViewProblem (Unit {0})}
                (err (ViewProblem.unknown_fields name))
                (ok tt)
              → ⊥
          refuses e = cc

  resolve-the_view :
      ((name : FieldObject) (field : Text) → Memᴰ field (fields name) → Memᴰ field (catalog name))
      → resolve detail fields paths ≡ ok the_view
  unfolding resolve
  resolve-the_view known = rw (
    (checked FieldObject.dataset).1 (known FieldObject.dataset),
    (checked FieldObject.edge).1 (known FieldObject.edge),
    (checked FieldObject.entity_definition).1 (known FieldObject.entity_definition),
  )

  resolve-known :
      (view : View)
      → resolve detail fields paths ≡ ok view
      → (name : FieldObject) (field : Text) → Memᴰ field (fields name)
      → Memᴰ field (catalog name)
  unfolding resolve
  resolve-known view h name =
      let (_, first, h1) = >>=-eq-ok (check_added (once_each fields) FieldObject.dataset) _ h in
      let (_, second, h2) = >>=-eq-ok (check_added (once_each fields) FieldObject.edge) _ h1 in
      let (_, third, _) =
        >>=-eq-ok (check_added (once_each fields) FieldObject.entity_definition) _ h2 in
      elim name as (λ n. (field : Text) → Memᴰ field (fields n) → Memᴰ field (catalog n)) [
        | FieldObject.dataset ↦ (checked FieldObject.dataset).0 first
        | FieldObject.edge ↦ (checked FieldObject.edge).0 second
        | FieldObject.entity_definition ↦ (checked FieldObject.entity_definition).0 third
      ]

  -- A view is resolved exactly when every field that the caller names is in the catalog of its
  -- object; otherwise the call raises.
  pub resolve_returns_iff :
      ((view : View) × (resolve detail fields paths ≡ ok view))
      ↔ ((name : FieldObject) (field : Text) → Memᴰ field (fields name) → Memᴰ field (catalog name))
  resolve_returns_iff =
      (λ (view, h). resolve-known view h, λ known. (the_view, resolve-the_view known))

  -- A resolved view has, of each object, exactly the fields of the catalog that are basic, that the
  -- detail or a level below it brings, that the caller names, or that are implied: the logical
  -- entity on a path, and a dataset's definitions where the caller names fields of definitions.
  pub resolve-fields :
      (view : View)
      → resolve detail fields paths ≡ ok view
      → (name : FieldObject) (field : Text)
      → Memᴰ field (view_fields view name)
        ↔ (Memᴰ field (catalog name) × IsWanted detail fields paths name field)
  resolve-fields view h name field =
      let same = ok_injective (sym (resolve-the_view (resolve-known view h)) ∙ h) in
      subst
        (λ v.
          Memᴰ field (view_fields v name)
          ↔ (Memᴰ field (catalog name) × IsWanted detail fields paths name field))
        same (the_view-mem name field)

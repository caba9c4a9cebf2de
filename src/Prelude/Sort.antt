-- ===== src/Prelude/Sort.antt =====
-- `sorted(xs, key=key)`: a stable sort, here by insertion from the right.
use Prim.Native.Nat.{suc}
use mathlib.Core.Path.{◌≡◌, refl, ap, ◌∙◌, subst, sym}
use mathlib.Core.Logic.{◌↔◌, ◌⊎◌, inl, inr, ⊎_elim}
use mathlib.Core.Bool.{true}
use mathlib.Core.List.{List, [], ◌∷◌, Memᴰ, Perm}
use mathlib.Core.List.Memᴰ
use mathlib.Core.List.Perm
use native.Mathlib.Omega.{arith}
use data_ontology_graph.Prelude.Tests.{if◌then◌else◌, Bool-cases}
use data_ontology_graph.Prelude.Lists.{length}
use data_ontology_graph.Prelude.Orders.{Order, ◌<=◌, <=-total, <=-trans}

module _ {ℓ κ} {A : Type ℓ} {K : Type κ} ⦃o : Order K⦄ (key : A → K) where
  -- before the first item whose key is not smaller
  unfoldable pub insert_by : A → List A → List A
  insert_by x [] = x ∷ []
  insert_by x (y ∷ ys) = if key x <= key y then x ∷ y ∷ ys else y ∷ insert_by x ys

  unfoldable pub sorted_by : List A → List A
  unfolding insert_by
  sorted_by [] = []
  sorted_by (x ∷ xs) = insert_by x (sorted_by xs)

  -- the key of `x` is at most every key of `xs`
  abbrev pub IsLeast : A → List A → Type (ℓ)
  IsLeast x xs = (y : A) → Memᴰ y xs → (key x <= key y) ≡ true

  abbrev pub IsSortedBy : List A → Type ℓ
  IsSortedBy [] = Unit
  IsSortedBy (x ∷ xs) = IsLeast x xs × IsSortedBy xs

  insert_by-perm : (x : A) (ys : List A) → Perm (insert_by x ys) (x ∷ ys)
  unfolding insert_by
  insert_by-perm x [] = Perm.rfl
  insert_by-perm x (y ∷ ys) = elim (Bool-cases (key x <= key y)) [
    | inl first ↦ rw first Perm.rfl
    | inr later ↦ rw later (Perm.trans (Perm.cons y (insert_by-perm x ys)) (Perm.swap x y ys))
  ]

  -- Sorting permutes.
  pub sorted_by-perm : (xs : List A) → Perm (sorted_by xs) xs
  unfolding sorted_by
  sorted_by-perm [] = Perm.rfl
  sorted_by-perm (x ∷ xs) =
      Perm.trans (insert_by-perm x (sorted_by xs)) (Perm.cons x (sorted_by-perm xs))

  pub Memᴰ-insert_by : (a x : A) (ys : List A) → Memᴰ a (insert_by x ys) ↔ ((a ≡ x) ⊎ Memᴰ a ys)
  unfolding insert_by
  Memᴰ-insert_by a x [] = (Memᴰ.cases_cons, ⊎_elim Memᴰ.head Memᴰ.tail)
  Memᴰ-insert_by a x (y ∷ ys) = elim (Bool-cases (key x <= key y)) [
    | inl first ↦ rw first (Memᴰ.cases_cons, ⊎_elim Memᴰ.head Memᴰ.tail)
    | inr later ↦
        let (from, to) = Memᴰ-insert_by a x ys in
        rw later (
          λ m.
              ⊎_elim (λ e. inr (Memᴰ.head e)) (λ t. ⊎_elim inl (λ r. inr (Memᴰ.tail r)) (from t))
                (Memᴰ.cases_cons m),
          ⊎_elim (λ e. Memᴰ.tail (to (inl e)))
              (λ m. ⊎_elim Memᴰ.head (λ t. Memᴰ.tail (to (inr t))) (Memᴰ.cases_cons m)),
        )
  ]

  -- Sorting keeps the members.
  pub Memᴰ-sorted_by : (a : A) (xs : List A) → Memᴰ a (sorted_by xs) ↔ Memᴰ a xs
  unfolding sorted_by
  Memᴰ-sorted_by a [] = (λ m. m, λ m. m)
  Memᴰ-sorted_by a (x ∷ xs) =
      let (from, to) = Memᴰ-insert_by a x (sorted_by xs) in
      let (down, up) = Memᴰ-sorted_by a xs in
      (
        λ m. ⊎_elim Memᴰ.head (λ t. Memᴰ.tail (down t)) (from m),
        λ m. to (⊎_elim inl (λ t. inr (up t)) (Memᴰ.cases_cons m)),
      )

  length-insert_by : (x : A) (ys : List A) → length (insert_by x ys) ≡ suc (length ys)
  unfolding insert_by
  length-insert_by x [] = refl
  length-insert_by x (y ∷ ys) = ground (arith, length-insert_by x ys)

  pub length-sorted_by : (xs : List A) → length (sorted_by xs) ≡ length xs
  unfolding sorted_by
  length-sorted_by [] = refl
  length-sorted_by (x ∷ xs) = length-insert_by x (sorted_by xs) ∙ ap suc (length-sorted_by xs)

  insert_by-IsSortedBy : (x : A) (ys : List A) → IsSortedBy ys → IsSortedBy (insert_by x ys)
  unfolding insert_by
  insert_by-IsSortedBy x [] s = ((λ y m. absurd (Memᴰ.not-nil m)), tt)
  insert_by-IsSortedBy x (y ∷ ys) s = elim (Bool-cases (key x <= key y)) [
    | inl first ↦ rw first (below first, s)
    | inr later ↦ rw later (
      λ z m.
          ⊎_elim
            (λ e. subst (λ w. (key y <= key w) ≡ true) (sym e) (<=-total (key x) (key y) later))
            (s.0 z) ((Memᴰ-insert_by z x ys).0 m),
      insert_by-IsSortedBy x ys s.1,
    )
  ]
    where
      below : (key x <= key y) ≡ true → IsLeast x (y ∷ ys)
      below first z (Memᴰ.head e) = subst (λ w. (key x <= key w) ≡ true) (sym e) first
      below first z (Memᴰ.tail m) = <=-trans (key x) (key y) (key z) first (s.0 z m)

  -- The result ascends by the key.
  pub sorted_by-IsSortedBy : (xs : List A) → IsSortedBy (sorted_by xs)
  unfolding sorted_by
  sorted_by-IsSortedBy [] = tt
  sorted_by-IsSortedBy (x ∷ xs) = insert_by-IsSortedBy x (sorted_by xs) (sorted_by-IsSortedBy xs)

  -- A list that ascends by the key is left as it is.
  pub sorted_by_of_IsSortedBy : (xs : List A) → IsSortedBy xs → sorted_by xs ≡ xs
  unfolding sorted_by
  sorted_by_of_IsSortedBy [] s = refl
  sorted_by_of_IsSortedBy (x ∷ xs) s =
      ap (insert_by x) (sorted_by_of_IsSortedBy xs s.1) ∙ keeps xs s.0
    where
      keeps : (ys : List A) → IsLeast x ys → insert_by x ys ≡ x ∷ ys
      keeps [] h = refl
      keeps (y ∷ ys) h = rw (h y (Memᴰ.head refl))

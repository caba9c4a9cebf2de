-- ===== src/Prelude/Lists.antt =====
-- Lists measured by native numbers, tests over them, and membership as a family that is matched.
use Prim.Native.Nat.{ℕ, zero, suc, ◌+◌}
use mathlib.Core.Path.{◌≡◌, refl, ap, ◌∙◌, sym, subst}
use mathlib.Core.Logic.{◌⊎◌, inl, inr, ◌↔◌, ⊎_elim}
use mathlib.Core.Bool.{Bool, true, false, ◌&&◌, ◌||◌}
use mathlib.Core.List.{List, [], ◌∷◌, ◌++◌, map, Memᴰ}
use mathlib.Core.List.Memᴰ
use native.Mathlib.Omega.{arith}
use data_ontology_graph.Prelude.Tests.{if◌then◌else◌, Bool-cases}

module _ {ℓ} {A : Type ℓ} where
  abbrev pub length : List A → ℕ
  length [] = 0
  length (x ∷ xs) = suc (length xs)

  abbrev pub take : ℕ → List A → List A
  take zero xs = []
  take (suc n) [] = []
  take (suc n) (x ∷ xs) = x ∷ take n xs

  -- `any(p(x) for x in xs)` and `all(p(x) for x in xs)`
  abbrev pub any : (A → Bool) → List A → Bool
  any p [] = false
  any p (x ∷ xs) = p x || any p xs

  abbrev pub all : (A → Bool) → List A → Bool
  all p [] = true
  all p (x ∷ xs) = p x && all p xs

  -- `[x for x in xs if p(x)]`
  abbrev pub select : (A → Bool) → List A → List A
  select p [] = []
  select p (x ∷ xs) = if p x then x ∷ select p xs else select p xs

  pub length-append : (xs ys : List A) → length (xs ++ ys) ≡ length xs + length ys
  length-append [] ys = omega arith
  length-append (x ∷ xs) ys = omega (arith, length-append xs ys)

  pub Memᴰ-cons : (a x : A) (xs : List A) → Memᴰ a (x ∷ xs) ↔ ((a ≡ x) ⊎ Memᴰ a xs)
  Memᴰ-cons a x xs = (Memᴰ.cases_cons, ⊎_elim Memᴰ.head Memᴰ.tail)

  pub Memᴰ-append : (a : A) (xs ys : List A) → Memᴰ a (xs ++ ys) ↔ (Memᴰ a xs ⊎ Memᴰ a ys)
  Memᴰ-append a xs ys = (Memᴰ.append_cases xs, ⊎_elim (Memᴰ.append_left ys) (Memᴰ.append_right xs))

  pub all-at : (p : A → Bool) (xs : List A) {x : A} → all p xs ≡ true → Memᴰ x xs → p x ≡ true
  all-at p [] h m = elim m [ ]
  all-at p (y ∷ xs) h (Memᴰ.head e) = ground (arith, ap p e)
  all-at p (y ∷ xs) h (Memᴰ.tail m) = all-at p xs (ground arith) m

  pub all_of : (p : A → Bool) (xs : List A) → ((x : A) → Memᴰ x xs → p x ≡ true) → all p xs ≡ true
  all_of p [] h = refl
  all_of p (x ∷ xs) h = ground (arith, h x (Memᴰ.head refl), all_of p xs (λ y m. h y (Memᴰ.tail m)))

  pub any_of : (p : A → Bool) (xs : List A) {x : A} → Memᴰ x xs → p x ≡ true → any p xs ≡ true
  any_of p [] m h = elim m [ ]
  any_of p (y ∷ xs) (Memᴰ.head e) h = ground (arith, ap p e)
  any_of p (y ∷ xs) (Memᴰ.tail m) h = ground (arith, any_of p xs m h)

  pub any-witness :
      (p : A → Bool) (xs : List A) → any p xs ≡ true → (x : A) × Memᴰ x xs × (p x ≡ true)
  any-witness p (x ∷ xs) h = elim (Bool-cases (p x)) [
    | inl here ↦ (x, Memᴰ.head refl, here)
    | inr other ↦ let (y, m, e) = any-witness p xs (ground arith) in (y, Memᴰ.tail m, e)
  ]
  any-witness p [] h = absurd (ground arith)

  pub Memᴰ-select :
      (p : A → Bool) (a : A) (xs : List A) → Memᴰ a (select p xs) ↔ (Memᴰ a xs × (p a ≡ true))
  Memᴰ-select p a [] = (λ m. absurd (Memᴰ.not-nil m), λ (m, _). m)
  Memᴰ-select p a (x ∷ xs) = elim (Bool-cases (p x)) [
    | inl kept ↦ rw kept (
      λ m.
          ⊎_elim (λ e. (Memᴰ.head e, ap p e ∙ kept))
            (λ t. let (t', h) = (Memᴰ-select p a xs).0 t in (Memᴰ.tail t', h)) (Memᴰ.cases_cons m),
      λ (m, h).
          ⊎_elim Memᴰ.head (λ t. Memᴰ.tail ((Memᴰ-select p a xs).1 (t, h))) (Memᴰ.cases_cons m),
    )
    | inr dropped ↦ rw dropped (
      λ m. let (t, h) = (Memᴰ-select p a xs).0 m in (Memᴰ.tail t, h),
      λ (m, h).
          ⊎_elim (λ e. absurd (clash (ap p e ∙ dropped) h)) (λ t. (Memᴰ-select p a xs).1 (t, h))
            (Memᴰ.cases_cons m),
    )
  ]
    where
      clash : {b : Bool} → b ≡ false → b ≡ true → ⊥
      clash e h = cc

-- `P` holds of every item.
abbrev pub All {ℓ κ} : {A : Type ℓ} → (A → Type κ) → List A → Type κ
All P [] = Unit
All P (x ∷ xs) = P x × All P xs

pub All-at {ℓ κ} :
    {A : Type ℓ} (P : A → Type κ) (xs : List A) → All P xs → (x : A) → Memᴰ x xs → P x
All-at P [] h x m = elim m [ ]
All-at P (y ∷ xs) h x (Memᴰ.head e) = subst P (sym e) h.0
All-at P (y ∷ xs) h x (Memᴰ.tail m) = All-at P xs h.1 x m

module _ {ℓ κ} {A : Type ℓ} {B : Type κ} where
  abbrev pub flat_map : (A → List B) → List A → List B
  flat_map f [] = []
  flat_map f (x ∷ xs) = f x ++ flat_map f xs

  pub Memᴰ-flat_map :
      (f : A → List B) (b : B) (xs : List A)
      → Memᴰ b (flat_map f xs) ↔ ((x : A) × Memᴰ x xs × Memᴰ b (f x))
  Memᴰ-flat_map f b [] = (λ m. absurd (Memᴰ.not-nil m), λ (x, m, _). absurd (Memᴰ.not-nil m))
  Memᴰ-flat_map f b (x ∷ xs) = (
    λ m.
        ⊎_elim (λ here. (x, Memᴰ.head refl, here))
          (λ t. let (y, at, inside) = (Memᴰ-flat_map f b xs).0 t in (y, Memᴰ.tail at, inside))
          (Memᴰ.append_cases (f x) m),
    λ (y, at, inside).
        ⊎_elim (λ e. Memᴰ.append_left _ (subst (λ z. Memᴰ b (f z)) e inside))
          (λ t. Memᴰ.append_right (f x) ((Memᴰ-flat_map f b xs).1 (y, t, inside)))
          (Memᴰ.cases_cons at),
  )

  pub Memᴰ-map :
      (f : A → B) (b : B) (xs : List A) → Memᴰ b (map f xs) ↔ ((x : A) × Memᴰ x xs × (f x ≡ b))
  Memᴰ-map f b xs = (Memᴰ.of_map f xs, λ (x, m, e). Memᴰ.cast (sym e) (Memᴰ.map f m))

pub length-map {ℓ κ} :
    {A : Type ℓ} {B : Type κ} (f : A → B) (xs : List A) → length (map f xs) ≡ length xs
length-map f [] = refl
length-map f (x ∷ xs) = ap suc (length-map f xs)

-- ===== src/Prelude/Orders.antt =====
-- Comparison as Python does it: numbers, and tuples and lists position by position.
use Prim.Native.Nat.{ℕ, compare, Ordering}
use Prim.Native.Nat.Ordering.{lt, eq, gt}
use mathlib.Core.Path.{◌≡◌, refl, ap}
use mathlib.Core.Logic.{◌↔◌, ◌⊎◌, inl, inr}
use mathlib.Core.Bool.{Bool, true, false}
use mathlib.Core.List.{List, [], ◌∷◌}
use native.Mathlib.Omega.{arith}

abbrev pub flip : Ordering → Ordering
flip lt = gt
flip eq = eq
flip gt = lt

-- A total order, by its three-way comparison.
pub record Order {ℓ} (A : Type ℓ) : Type ℓ where
  pub cmp : A → A → Ordering
  pub cmp_self : (a : A) → cmp a a ≡ eq
  pub cmp_sound : (a b : A) → cmp a b ≡ eq → a ≡ b
  pub cmp-flip : (a b : A) → cmp b a ≡ flip (cmp a b)
  pub cmp_trans : (a b c : A) → cmp a b ≡ lt → cmp b c ≡ lt → cmp a c ≡ lt

module _ {ℓ} {A : Type ℓ} ⦃o : Order A⦄ where
  infix 50 ◌==◌ ◌<=◌
  abbrev pub ◌==◌ : A → A → Bool
  a == b = elim (o.cmp a b) [ eq ↦ true | _ ↦ false ]

  abbrev pub ◌<=◌ : A → A → Bool
  a <= b = elim (o.cmp a b) [ gt ↦ false | _ ↦ true ]

  pub ==-self : (a : A) → (a == a) ≡ true
  ==-self a = ground (arith, o.cmp_self a)

  pub ==→≡ : (a b : A) → (a == b) ≡ true → a ≡ b
  ==→≡ a b h = o.cmp_sound a b (ground arith)

  pub ≡→== : (a b : A) → a ≡ b → (a == b) ≡ true
  ≡→== a b e = rw e (==-self b)

  pub ==-iff : (a b : A) → ((a == b) ≡ true) ↔ (a ≡ b)
  ==-iff a b = (==→≡ a b, ≡→== a b)

  pub <=-self : (a : A) → (a <= a) ≡ true
  <=-self a = ground (arith, o.cmp_self a)

  pub <=-total : (a b : A) → (a <= b) ≡ false → (b <= a) ≡ true
  <=-total a b h = ground (arith, o.cmp-flip a b)

  pub ==-of_not_le : (a b : A) → (a <= b) ≡ false → (b == a) ≡ false
  ==-of_not_le a b h = ground (arith, o.cmp-flip a b)

  pub <=-antisymm : (a b : A) → (a <= b) ≡ true → (b <= a) ≡ true → a ≡ b
  <=-antisymm a b h k = o.cmp_sound a b (ground (arith, o.cmp-flip a b))

  pub cmp-cases : (a b : A) → (o.cmp a b ≡ eq) ⊎ ((o.cmp a b ≡ lt) ⊎ (o.cmp a b ≡ gt))
  cmp-cases a b = ground arith

  pub <=-trans : (a b c : A) → (a <= b) ≡ true → (b <= c) ≡ true → (a <= c) ≡ true
  <=-trans a b c h k = elim (cmp-cases a b) [
    | inl e ↦ rw (o.cmp_sound a b e) k
    | inr (inl less) ↦ elim (cmp-cases b c) [
      | inl e ↦ rw (← o.cmp_sound b c e) h
      | inr (inl less') ↦ ground (arith, o.cmp_trans a b c less less')
      | inr (inr more) ↦ absurd (ground arith)
    ]
    | inr (inr more) ↦ absurd (ground arith)
  ]

-- the native numbers
pub compare_self : (a : ℕ) → compare a a ≡ eq
compare_self a = ground arith

pub compare_sound : (a b : ℕ) → compare a b ≡ eq → a ≡ b
compare_sound a b = ground arith

pub compare-flip : (a b : ℕ) → compare b a ≡ flip (compare a b)
compare-flip a b = ground arith

pub compare_trans : (a b c : ℕ) → compare a b ≡ lt → compare b c ≡ lt → compare a c ≡ lt
compare_trans a b c = ground arith

instance abbrev pub nat_order : Order ℕ
nat_order = record {
  cmp = compare;
  cmp_self = compare_self;
  cmp_sound = compare_sound;
  cmp-flip = compare-flip;
  cmp_trans = compare_trans;
}

abbrev pub then : Ordering → Ordering → Ordering
then eq second = second
then first _ = first

-- the first position that differs decides
module _ {ℓ} {A : Type ℓ} ⦃a : Order A⦄ where
  then_trans :
      (x y z : A) (p q r : Ordering)
      → (p ≡ lt → q ≡ lt → r ≡ lt)
      → then (a.cmp x y) p ≡ lt
      → then (a.cmp y z) q ≡ lt
      → then (a.cmp x z) r ≡ lt
  then_trans x y z p q r tails h k = elim (cmp-cases x y) [
    | inl e ↦ let same = ap (λ w. a.cmp w z) (a.cmp_sound x y e) in ground (arith, e, same, tails)
    | inr (inl less) ↦ elim (cmp-cases y z) [
      | inl e ↦ let same = ap (a.cmp x) (a.cmp_sound y z e) in ground (arith, e, same)
      | inr (inl less') ↦ rw (a.cmp_trans x y z less less')
      | inr (inr more) ↦ absurd (ground arith)
    ]
    | inr (inr more) ↦ absurd (ground arith)
  ]

module _ {ℓ κ} {A : Type ℓ} {B : Type κ} ⦃a : Order A⦄ ⦃b : Order B⦄ where
  abbrev pub compare_pair : A × B → A × B → Ordering
  compare_pair x y = then (a.cmp x.0 y.0) (b.cmp x.1 y.1)

  pub compare_pair_self : (x : A × B) → compare_pair x x ≡ eq
  compare_pair_self x = ground (arith, a.cmp_self x.0, b.cmp_self x.1)

  pub compare_pair_sound : (x y : A × B) → compare_pair x y ≡ eq → x ≡ y
  compare_pair_sound x y = ground (arith, a.cmp_sound x.0 y.0, b.cmp_sound x.1 y.1)

  pub compare_pair-flip : (x y : A × B) → compare_pair y x ≡ flip (compare_pair x y)
  compare_pair-flip x y = ground (arith, a.cmp-flip x.0 y.0, b.cmp-flip x.1 y.1)

  pub compare_pair_trans :
      (x y z : A × B) → compare_pair x y ≡ lt → compare_pair y z ≡ lt → compare_pair x z ≡ lt
  compare_pair_trans x y z =
      then_trans x.0 y.0 z.0 (b.cmp x.1 y.1) (b.cmp y.1 z.1) (b.cmp x.1 z.1)
        (b.cmp_trans x.1 y.1 z.1)

  instance abbrev pub pair_order : Order (A × B)
  pair_order = record {
    cmp = compare_pair;
    cmp_self = compare_pair_self;
    cmp_sound = compare_pair_sound;
    cmp-flip = compare_pair-flip;
    cmp_trans = compare_pair_trans;
  }

module _ {ℓ} {A : Type ℓ} ⦃a : Order A⦄ where
  abbrev pub compare_list : List A → List A → Ordering
  compare_list [] [] = eq
  compare_list [] (y ∷ ys) = lt
  compare_list (x ∷ xs) [] = gt
  compare_list (x ∷ xs) (y ∷ ys) = then (a.cmp x y) (compare_list xs ys)

  pub compare_list_self : (xs : List A) → compare_list xs xs ≡ eq
  compare_list_self [] = refl
  compare_list_self (x ∷ xs) = ground (arith, a.cmp_self x, compare_list_self xs)

  pub compare_list_sound : (xs ys : List A) → compare_list xs ys ≡ eq → xs ≡ ys
  compare_list_sound [] [] h = refl
  compare_list_sound [] (y ∷ ys) h = absurd (ground arith)
  compare_list_sound (x ∷ xs) [] h = absurd (ground arith)
  compare_list_sound (x ∷ xs) (y ∷ ys) h = ground (arith, a.cmp_sound x y, compare_list_sound xs ys)

  pub compare_list-flip : (xs ys : List A) → compare_list ys xs ≡ flip (compare_list xs ys)
  compare_list-flip [] [] = refl
  compare_list-flip [] (y ∷ ys) = refl
  compare_list-flip (x ∷ xs) [] = refl
  compare_list-flip (x ∷ xs) (y ∷ ys) = ground (arith, a.cmp-flip x y, compare_list-flip xs ys)

  pub compare_list_trans :
      (xs ys zs : List A)
      → compare_list xs ys ≡ lt
      → compare_list ys zs ≡ lt
      → compare_list xs zs ≡ lt
  compare_list_trans xs [] [] = λ h k. absurd (ground arith)
  compare_list_trans [] [] (z ∷ zs) = λ h k. refl
  compare_list_trans (x ∷ xs) [] (z ∷ zs) = λ h k. absurd (ground arith)
  compare_list_trans xs (y ∷ ys) [] = λ h k. absurd (ground arith)
  compare_list_trans [] (y ∷ ys) (z ∷ zs) = λ h k. refl
  compare_list_trans (x ∷ xs) (y ∷ ys) (z ∷ zs) =
      then_trans x y z (compare_list xs ys) (compare_list ys zs) (compare_list xs zs)
        (compare_list_trans xs ys zs)

  instance abbrev pub list_order : Order (List A)
  list_order = record {
    cmp = compare_list;
    cmp_self = compare_list_self;
    cmp_sound = compare_list_sound;
    cmp-flip = compare_list-flip;
    cmp_trans = compare_list_trans;
  }

-- Longer tuples compare as nested pairs.
module _ {ℓ κ} {A : Type ℓ} {B : Type κ} ⦃b : Order B⦄ (f : A → B) where
  abbrev pub order_by : ((x y : A) → f x ≡ f y → x ≡ y) → Order A
  order_by inj = record {
    cmp = λ x y. b.cmp (f x) (f y);
    cmp_self = λ x. b.cmp_self (f x);
    cmp_sound = λ x y h. inj x y (b.cmp_sound (f x) (f y) h);
    cmp-flip = λ x y. b.cmp-flip (f x) (f y);
    cmp_trans = λ x y z. b.cmp_trans (f x) (f y) (f z);
  }

module _ {ℓ} {A B C : Type ℓ} where
  abbrev pub nest_triple : A × B × C → A × (B × C)
  nest_triple t = (t.0, (t.1, t.2))

  pub nest_triple-injective : (x y : A × B × C) → nest_triple x ≡ nest_triple y → x ≡ y
  nest_triple-injective x y e = λ i. ((e i).0, (e i).1.0, (e i).1.1)

  instance abbrev pub triple_order : ⦃a : Order A⦄ ⦃b : Order B⦄ ⦃c : Order C⦄ → Order (A × B × C)
  triple_order = order_by nest_triple nest_triple-injective

module _ {ℓ} {A B C D : Type ℓ} where
  abbrev pub nest_quad : A × B × C × D → A × (B × C × D)
  nest_quad t = (t.0, (t.1, t.2, t.3))

  pub nest_quad-injective : (x y : A × B × C × D) → nest_quad x ≡ nest_quad y → x ≡ y
  nest_quad-injective x y e = λ i. ((e i).0, (e i).1.0, (e i).1.1, (e i).1.2)

  instance abbrev pub quad_order :
      ⦃a : Order A⦄ ⦃b : Order B⦄ ⦃c : Order C⦄ ⦃d : Order D⦄ → Order (A × B × C × D)
  quad_order = order_by nest_quad nest_quad-injective

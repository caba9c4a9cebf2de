-- ===== src/Prelude/Prefixes.antt =====
-- What `xs[:n]` keeps of a list.
use Prim.Native.Nat.{ℕ, zero, suc, ◌≤◌}
use mathlib.Core.Path.{◌≡◌, refl, sym, ap, subst}
use mathlib.Core.Logic.{⊎_elim}
use mathlib.Core.Bool.{true, false}
use mathlib.Core.List.{List, [], ◌∷◌, Memᴰ}
use mathlib.Core.List.Memᴰ
use native.Mathlib.Omega.{arith}
use data_ontology_graph.Prelude.Tests.{ltb}
use data_ontology_graph.Prelude.Lists.{length, take}
use data_ontology_graph.Prelude.Orders.{Order, ◌<=◌}
use data_ontology_graph.Prelude.Sort.{IsSortedBy}

pub Memᴰ-take {ℓ} : {A : Type ℓ} (a : A) (n : ℕ) (xs : List A) → Memᴰ a (take n xs) → Memᴰ a xs
Memᴰ-take a zero xs m = absurd (Memᴰ.not-nil m)
Memᴰ-take a (suc n) [] m = m
Memᴰ-take a (suc n) (x ∷ xs) m =
    ⊎_elim Memᴰ.head (λ t. Memᴰ.tail (Memᴰ-take a n xs t)) (Memᴰ.cases_cons m)

pub length-take-le {ℓ} : {A : Type ℓ} (n : ℕ) (xs : List A) → length (take n xs) ≤ n
length-take-le zero xs = omega arith
length-take-le (suc n) [] = omega arith
length-take-le (suc n) (x ∷ xs) = omega (arith, length-take-le n xs)

-- What a prefix of an ascending list leaves out has no smaller key than what it keeps.
pub take-nearest {ℓ κ} :
    {A : Type ℓ} {K : Type κ} ⦃o : Order K⦄ (key : A → K) (n : ℕ) (xs : List A)
    → IsSortedBy key xs
    → (p q : A) → Memᴰ p (take n xs)
    → Memᴰ q xs
    → (¬ Memᴰ q (take n xs))
    → (key p <= key q) ≡ true
take-nearest key zero xs s p q kept all_ left_out = absurd (Memᴰ.not-nil kept)
take-nearest key (suc n) [] s p q kept all_ left_out = absurd (Memᴰ.not-nil kept)
take-nearest key (suc n) (x ∷ xs) s p q kept all_ left_out =
    ⊎_elim (λ e. absurd (left_out (Memᴰ.head e)))
      (λ later.
        ⊎_elim (λ e. subst (λ y. (key y <= key q) ≡ true) (sym e) (s.0 q later))
          (λ t. take-nearest key n xs s.1 p q t later (λ m. left_out (Memᴰ.tail m)))
          (Memᴰ.cases_cons kept))
      (Memᴰ.cases_cons all_)

-- the first of a list that ascends
pub take-IsSortedBy {ℓ κ} :
    {A : Type ℓ} {K : Type κ} ⦃o : Order K⦄ (key : A → K) (n : ℕ) (xs : List A)
    → IsSortedBy key xs
    → IsSortedBy key (take n xs)
take-IsSortedBy key zero xs s = tt
take-IsSortedBy key (suc n) [] s = tt
take-IsSortedBy key (suc n) (x ∷ xs) s =
    (λ y m. s.0 y (Memᴰ-take y n xs m), take-IsSortedBy key n xs s.1)

pub take_of_short {ℓ} :
    {A : Type ℓ} (n : ℕ) (xs : List A) → ltb n (length xs) ≡ false → take n xs ≡ xs
take_of_short zero [] h = refl
take_of_short zero (x ∷ xs) h = absurd (ground arith)
take_of_short (suc n) [] h = refl
take_of_short (suc n) (x ∷ xs) h = ap (◌∷◌ x) (take_of_short n xs (ground arith))

pub length-take_of_long {ℓ} :
    {A : Type ℓ} (n : ℕ) (xs : List A) → ltb n (length xs) ≡ true → length (take n xs) ≡ n
length-take_of_long zero xs h = refl
length-take_of_long (suc n) [] h = absurd (ground arith)
length-take_of_long (suc n) (x ∷ xs) h = ap suc (length-take_of_long n xs (ground arith))

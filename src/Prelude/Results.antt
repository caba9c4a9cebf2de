-- ===== src/Prelude/Results.antt =====
-- A call that may raise: the value, or what was raised.
use mathlib.Core.Path.{◌≡◌, refl, ap, ◌∙◌}
use mathlib.Core.Logic.{⊎_elim}
use mathlib.Core.Bool.{Bool, true, false}
use mathlib.Core.List.{List, [], ◌∷◌, map, Memᴰ}
use mathlib.Core.List.Memᴰ

pub data Result {ℓ} (E : Type 0) (A : Type ℓ) : Type ℓ where
  ok : A → Result E A
  err : E → Result E A

module _ {E : Type 0} where
  -- `if not test: raise problem`
  abbrev pub guard : (test : Bool) (problem : E) → Result E (Unit {0})
  guard false problem = err problem
  guard true problem = ok tt

  module _ {ℓ κ} {A : Type ℓ} {B : Type κ} where
    infixl 5 ◌>>=◌
    abbrev pub ◌>>=◌ : (outcome : Result E A) (next : A → Result E B) → Result E B
    err problem >>= next = err problem
    ok value >>= next = next value

    -- A bind that returned: the first part did, and the second did on its value.
    pub >>=-eq-ok :
        (outcome : Result E A) (next : A → Result E B) {returned : B}
        → (outcome >>= next) ≡ ok returned
        → (value : A) × (outcome ≡ ok value) × (next value ≡ ok returned)
    >>=-eq-ok (err problem) next h = cc
    >>=-eq-ok (ok value) next h = (value, refl, h)

  infixl 5 ◌>>◌
  abbrev pub ◌>>◌ {ℓ} : {B : Type ℓ} (check : Result E (Unit {0})) (next : Result E B) → Result E B
  check >> next = check >>= λ passed_. next

pub ok_injective {ℓ} :
    {E : Type 0} {A : Type ℓ} {a b : A} → ◌≡◌ {A = Result E A} (ok a) (ok b) → a ≡ b
ok_injective h = cc

-- A check of each item in turn, up to the first that raises.
abbrev pub check_each {ℓ} :
    {E : Type 0} {A : Type ℓ} → (A → Result E (Unit {0})) → List A → Result E (Unit {0})
check_each f [] = ok tt
check_each f (x ∷ xs) = let rest = check_each f xs in f x >>= λ _. rest

-- Inversion of a check that passed.
pub guard-eq-ok {ℓ} :
    {E : Type 0} {B : Type ℓ} (test : Bool) (e : E) (k : Result E B) {b : B}
    → (guard test e >> k) ≡ ok b
    → (test ≡ true) × (k ≡ ok b)
guard-eq-ok true e k h = (refl, h)
guard-eq-ok false e k h = cc

pub check_each-eq-ok {ℓ} :
    {E : Type 0} {A : Type ℓ} (f : A → Result E (Unit {0})) (xs : List A)
    → check_each f xs ≡ ok tt
    → {x : A} → Memᴰ x xs
    → f x ≡ ok tt
check_each-eq-ok f [] h m = elim m [ ]
check_each-eq-ok f (y ∷ xs) h m =
    let (u, head, rest) = >>=-eq-ok (f y) (λ _. check_each f xs) h in
    ⊎_elim (λ e. ap f e ∙ head) (check_each-eq-ok f xs rest) (Memᴰ.cases_cons m)

pub check_each_of {ℓ} :
    {E : Type 0} {A : Type ℓ} (f : A → Result E (Unit {0})) (xs : List A)
    → ((x : A) → Memᴰ x xs → f x ≡ ok tt)
    → check_each f xs ≡ ok tt
check_each_of f [] h = refl
check_each_of f (x ∷ xs) h =
    rw (h x (Memᴰ.head refl)) (check_each_of f xs (λ y m. h y (Memᴰ.tail m)))

-- `[f(x) for x in xs]`, where `f` may raise
abbrev pub traverse {ℓ κ} :
    {E : Type 0} {A : Type ℓ} {B : Type κ} → (A → Result E B) → List A → Result E (List B)
traverse f [] = ok []
traverse f (x ∷ xs) = let rest = traverse f xs in f x >>= λ y. rest >>= λ ys. ok (y ∷ ys)

pub traverse_of {ℓ κ} :
    {E : Type 0} {A : Type ℓ} {B : Type κ} (f : A → Result E B) (g : A → B) (xs : List A)
    → ((x : A) → Memᴰ x xs → f x ≡ ok (g x))
    → traverse f xs ≡ ok (map g xs)
traverse_of f g [] h = refl
traverse_of f g (x ∷ xs) h =
    rw (h x (Memᴰ.head refl), traverse_of f g xs (λ y m. h y (Memᴰ.tail m)))

pub passed : {E : Type 0} (test : Bool) (e : E) → guard test e ≡ ok tt → test ≡ true
passed true e h = refl
passed false e h = cc

-- an exception raised again as another one
abbrev pub map_err {ℓ} : {E F : Type 0} {A : Type ℓ} → (E → F) → Result E A → Result F A
map_err f (ok value) = ok value
map_err f (err problem) = err (f problem)

pub map_err-eq-ok {ℓ} :
    {E F : Type 0} {A : Type ℓ} (f : E → F) (outcome : Result E A) {value : A}
    → map_err f outcome ≡ ok value
    → outcome ≡ ok value
map_err-eq-ok f (ok value) h = cc
map_err-eq-ok f (err problem) h = cc

-- ===== src/Prelude/Maps.antt =====
-- A dictionary as a function from its keys, and `d[key] = value`.
use mathlib.Core.Path.{◌≡◌}
use mathlib.Core.Logic.{◌≢◌, inl, inr}
use data_ontology_graph.Prelude.Tests.{if◌then◌else◌, Bool-cases}
use data_ontology_graph.Prelude.Orders.{Order, ◌==◌, ==-self, ==→≡}

module _ {ℓ κ} {K : Type ℓ} {A : Type κ} ⦃o : Order K⦄ where
  unfoldable pub put : (K → A) → K → A → K → A
  put d key value x = if x == key then value else d x

  pub put-same : (d : K → A) (k : K) (v : A) → put d k v k ≡ v
  unfolding put
  put-same d k v = rw (==-self k)

  pub put-other : (d : K → A) (k x : K) (v : A) → x ≢ k → put d k v x ≡ d x
  unfolding put
  put-other d k x v ne = elim (Bool-cases (x == k)) [
    | inl same ↦ absurd (ne (==→≡ x k same))
    | inr other ↦ rw other
  ]

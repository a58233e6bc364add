-- ===== src/Prelude/Maps.antt =====
-- A Go map or `sync.Map` as an association list. Go leaves the order of iteration open: a theorem
-- about every list is a theorem about every order in which the entries may be met.
use mathlib.Core.Path.{◌≡◌, refl}
use mathlib.Core.Logic.{◌≢◌}
use mathlib.Core.Bool.{Bool, true, false}
use mathlib.Core.Option.{Option, none, some}
use mathlib.Core.List.{List, [], ◌∷◌}
use native.Mathlib.Omega.{arith}
use bxtest.Prelude.Tests.{if◌then◌else◌}
use bxtest.Prelude.Interface.{Eq, ◌==◌}

abbrev pub Map {ℓ κ} : Type ℓ → Type κ → Type (ℓ ⊔ κ)
Map K V = List (K × V)

abbrev pub is_some {ℓ} : {A : Type ℓ} → Option A → Bool
is_some none = false
is_some (some a) = true

abbrev pub get_or_default {ℓ} : {A : Type ℓ} → A → Option A → A
get_or_default d none = d
get_or_default d (some a) = a

module _ {ℓ κ} {K : Type ℓ} {V : Type κ} ⦃e : Eq K⦄ where
  unfoldable pub lookup : K → Map K V → Option V
  lookup k [] = none
  lookup k ((j, found) ∷ rest) = if j == k then some found else lookup k rest

  unfoldable pub insert : K → V → Map K V → Map K V
  insert k v [] = (k, v) ∷ []
  insert k v ((j, old) ∷ rest) = if j == k then (k, v) ∷ rest else (j, old) ∷ insert k v rest

  unfoldable pub erase : K → Map K V → Map K V
  erase k [] = []
  erase k ((j, v) ∷ m) = let rest = erase k m in if j == k then rest else (j, v) ∷ rest

  pub lookup-insert :
      (j k : K) (v : V) (m : Map K V)
      → lookup j (insert k v m) ≡ (if k == j then some v else lookup j m)
  unfolding lookup insert
  lookup-insert j k v [] = refl
  lookup-insert j k v ((i, w) ∷ m) =
      ground (arith, e.beq_iff k j, e.beq_iff i k, e.beq_iff i j, lookup-insert j k v m)

  pub lookup-erase :
      (j k : K) (m : Map K V) → lookup j (erase k m) ≡ (if k == j then none else lookup j m)
  unfolding lookup erase
  lookup-erase j k [] = ground arith
  lookup-erase j k ((i, v) ∷ m) =
      ground (arith, e.beq_iff k j, e.beq_iff i k, e.beq_iff i j, lookup-erase j k m)

  -- An entry that is new goes again without a trace.
  pub erase-insert : (k : K) (v : V) (m : Map K V) → lookup k m ≡ none → erase k (insert k v m) ≡ m
  unfolding lookup insert erase
  erase-insert k v [] h = ground (arith, e.beq_iff k k)
  erase-insert k v ((j, w) ∷ m) h = ground (arith, e.beq_iff j k, erase-insert k v m)

pub beq_refl {ℓ} : {K : Type ℓ} ⦃e : Eq K⦄ (k : K) → (k == k) ≡ true
beq_refl ⦃e⦄ k = (e.beq_iff k k).1 refl

pub beq_ne {ℓ} : {K : Type ℓ} ⦃e : Eq K⦄ (j k : K) → j ≢ k → (j == k) ≡ false
beq_ne ⦃e⦄ j k h = ground (arith, e.beq_iff j k)

pub beq_eq {ℓ} : {K : Type ℓ} ⦃e : Eq K⦄ (j k : K) → (j == k) ≡ true → j ≡ k
beq_eq ⦃e⦄ j k h = (e.beq_iff j k).0 h

pub ruleset map_laws = (lookup-insert, lookup-erase)

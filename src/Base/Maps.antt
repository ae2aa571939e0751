-- ===== src/Base/Maps.antt =====
-- Maps from numbers, as functions: what the code keeps in a `HashMap<u64, _>`.
use Prim.Native.Nat.{ℕ}
use mathlib.Core.Path.{◌≡◌}
use mathlib.Core.Logic.{◌≢◌}
use mathlib.Core.Option.{Option, none, some}
use native.Mathlib.Omega.{arith}
use ssh.Base.Tests.{◌==◌, if◌then◌else◌}

abbrev pub Map {ℓ} : Type ℓ → Type ℓ
Map A = ℕ → Option A

module _ {ℓ} {A : Type ℓ} where
  abbrev pub empty : Map A
  empty k = none

  unfoldable pub insert : ℕ → A → Map A → Map A
  insert key value map k = if k == key then some value else map k

  unfoldable pub remove : ℕ → Map A → Map A
  remove key map k = if k == key then none else map k

  pub lookup-insert : (key : ℕ) (value : A) (map : Map A) → insert key value map key ≡ some value
  unfolding insert
  lookup-insert key value map = ground arith

  pub lookup-insert_other :
      (key k : ℕ) (value : A) (map : Map A) → k ≢ key → insert key value map k ≡ map k
  unfolding insert
  lookup-insert_other key k value map h = ground arith

  pub lookup-remove : (key : ℕ) (map : Map A) → remove key map key ≡ none
  unfolding remove
  lookup-remove key map = ground arith

  pub lookup-remove_other : (key k : ℕ) (map : Map A) → k ≢ key → remove key map k ≡ map k
  unfolding remove
  lookup-remove_other key k map h = ground arith

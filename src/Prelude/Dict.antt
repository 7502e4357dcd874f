-- ===== src/Prelude/Dict.antt =====
-- A JavaScript `Map` from texts: an association list in insertion order. `insert` keeps the place
-- of a key that is there.
use Prim.Native.String.{String}
use mathlib.Core.Path.{◌≡◌, refl}
use mathlib.Core.Bool.{Bool, true, false}
use mathlib.Core.Option.{Option, none, some}
use mathlib.Core.List.{List, [], ◌∷◌}
use native.Mathlib.Omega.{arith}
use text.Mathlib.Text.{◌==◌}
use text.Mathlib.TextEquality.{eq_iff}
use text.Mathlib.TextPositions.{eq_refl}
use crm_multi_tenant_saas_ar.Prelude.Tests.{if◌then◌else◌}

abbrev pub Dict {ℓ} : Type ℓ → Type ℓ
Dict V = List (String × V)

module _ {ℓ} {V : Type ℓ} where
  unfoldable pub lookup : String → Dict V → Option V
  lookup key [] = none
  lookup key ((name, value) ∷ entries) = if name == key then some value else lookup key entries

  -- `Map.prototype.has`
  abbrev pub has : String → Dict V → Bool
  has key entries = elim (lookup key entries) [ none ↦ false | some _ ↦ true ]

  unfoldable pub remove : String → Dict V → Dict V
  remove key [] = []
  remove key ((name, value) ∷ entries) =
      let rest = remove key entries in if name == key then rest else (name, value) ∷ rest

  unfoldable pub insert : String → V → Dict V → Dict V
  insert key value [] = (key, value) ∷ []
  insert key value ((name, old) ∷ entries) =
      if name == key then (key, value) ∷ entries else (name, old) ∷ insert key value entries

  pub lookup-remove :
      (key j : String) (entries : Dict V)
      → lookup j (remove key entries) ≡ (if key == j then none else lookup j entries)
  unfolding lookup remove
  lookup-remove key j [] = ground arith
  lookup-remove key j ((name, old) ∷ entries) =
      ground (arith, eq_iff key j, eq_iff name key, eq_iff name j, lookup-remove key j entries)

  pub lookup-insert :
      (key j : String) (value : V) (entries : Dict V)
      → lookup j (insert key value entries) ≡ (if key == j then some value else lookup j entries)
  unfolding lookup insert
  lookup-insert key j value [] = refl
  lookup-insert key j value ((name, old) ∷ entries) =
      ground
        (arith, eq_iff key j, eq_iff name key, eq_iff name j, lookup-insert key j value entries)

  pub lookup-insert_self : (k : String) (v : V) (m : Dict V) → lookup k (insert k v m) ≡ some v
  lookup-insert_self k v m = simp (lookup-insert, eq_refl)

  pub lookup-insert_ne :
      (k j : String) (v : V) (m : Dict V) → (k == j) ≡ false → lookup j (insert k v m) ≡ lookup j m
  lookup-insert_ne k j v m h = rw (lookup-insert, h)

  pub lookup-remove_self : (k : String) (m : Dict V) → lookup k (remove k m) ≡ none
  lookup-remove_self k m = simp (lookup-remove, eq_refl)

  pub lookup-remove_ne :
      (k j : String) (m : Dict V) → (k == j) ≡ false → lookup j (remove k m) ≡ lookup j m
  lookup-remove_ne k j m h = rw (lookup-remove, h)

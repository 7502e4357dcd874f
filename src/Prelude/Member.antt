-- ===== src/Prelude/Member.antt =====
-- Membership in a list, with its place.
use Prim.Native.Nat.{ℕ, zero, suc}
use mathlib.Core.Path.{◌≡◌, refl, sym, ap, ◌∙◌}
use mathlib.Core.Logic.{◌⊎◌, inl, inr}
use mathlib.Core.Bool.{Bool, true, false}
use mathlib.Core.Option.{Option, none, some}
use mathlib.Core.List.{List, [], ◌∷◌, ◌++◌}
use crm_multi_tenant_saas_ar.Prelude.Tests.{if◌then◌else◌, Bool-cases}
use crm_multi_tenant_saas_ar.Prelude.Lists.{filter, All}

module _ {A : Type 0} where
  abbrev pub In : A → List A → Type 0
  In a [] = ⊥
  In a (x ∷ xs) = (x ≡ a) ⊎ In a xs

  abbrev pub get_elem? : List A → ℕ → Option A
  get_elem? [] i = none
  get_elem? (x ∷ xs) zero = some x
  get_elem? (x ∷ xs) (suc i) = get_elem? xs i

  pub In-append_left : (a : A) (xs ys : List A) → In a xs → In a (xs ++ ys)
  In-append_left a [] ys i = absurd i
  In-append_left a (x ∷ xs) ys (inl e) = inl e
  In-append_left a (x ∷ xs) ys (inr i) = inr (In-append_left a xs ys i)

  pub In-append_right : (a : A) (xs ys : List A) → In a ys → In a (xs ++ ys)
  In-append_right a [] ys i = i
  In-append_right a (x ∷ xs) ys i = inr (In-append_right a xs ys i)

  pub In-append : (a : A) (xs ys : List A) → In a (xs ++ ys) → In a xs ⊎ In a ys
  In-append a [] ys i = inr i
  In-append a (x ∷ xs) ys (inl e) = inl (inl e)
  In-append a (x ∷ xs) ys (inr i) = elim (In-append a xs ys i) [
    | inl l ↦ inl (inr l)
    | inr r ↦ inr r
  ]

  kept_if :
      (p : A → Bool) (a x : A) (xs kept : List A) (b : Bool)
      → p x ≡ b
      → (In a kept → In a xs × (p a ≡ true))
      → In a (if b then x ∷ kept else kept)
      → In a (x ∷ xs) × (p a ≡ true)
  kept_if p a x xs kept true h ih (inl e) = (inl e, sym (ap p e) ∙ h)
  kept_if p a x xs kept true h ih (inr j) = let (here, good) = ih j in (inr here, good)
  kept_if p a x xs kept false h ih j = let (here, good) = ih j in (inr here, good)

  pub In-filter : (p : A → Bool) (a : A) (xs : List A) → In a (filter p xs) → In a xs × (p a ≡ true)
  In-filter p a [] i = absurd i
  In-filter p a (x ∷ xs) i = kept_if p a x xs (filter p xs) (p x) refl (In-filter p a xs) i

  pub filter-In : (p : A → Bool) (a : A) (xs : List A) → In a xs → p a ≡ true → In a (filter p xs)
  filter-In p a [] i h = i
  filter-In p a (x ∷ xs) (inl e) h = let here = ap p e ∙ h in rw here (inl e)
  filter-In p a (x ∷ xs) (inr i) h =
      let later = filter-In p a xs i h in
      elim (Bool-cases (p x)) [ inl e ↦ rw e (inr later) | inr e ↦ rw e later ]

  pub All-In {κ} : {P : A → Type κ} (xs : List A) → ((a : A) → In a xs → P a) → All P xs
  All-In [] h = tt
  All-In (x ∷ xs) h = (h x (inl refl), All-In xs (λ a i. h a (inr i)))

-- ===== src/Prelude/Chars.antt =====
-- Texts as lists of characters: `split`, `trim`, `includes` and `startsWith` of JavaScript.
use Prim.Native.Nat.{ℕ}
use Prim.Native.Char.{Char, code}
use Prim.Native.String.{String}
use mathlib.Core.Path.{◌≡◌, refl}
use mathlib.Core.Logic.{◌≢◌, inl, inr}
use mathlib.Core.Bool.{Bool, true, false, ◌&&◌, ◌||◌}
use mathlib.Core.List.{List, [], ◌∷◌, ◌++◌, reverse}
use native.Mathlib.Omega.{arith}
use crm_multi_tenant_saas_ar.Prelude.Tests.{eqb, leb, if◌then◌else◌, Bool-cases}

-- The characters of a text.
abbrev pub chars : String → List Char
chars String.[] = []
chars (String.◌∷◌ c s) = c ∷ chars s

abbrev pub text : List Char → String
text [] = ""
text (c ∷ s) = String.◌∷◌ c (text s)

-- `s.split(c)`: never empty.
abbrev prepend : Char → List (List Char) → List (List Char)
prepend c [] = (c ∷ []) ∷ []
prepend c (part ∷ parts) = (c ∷ part) ∷ parts

unfoldable pub split : ℕ → List Char → List (List Char)
split sep [] = [] ∷ []
split sep (c ∷ s) = let rest = split sep s in if eqb (code c) sep then [] ∷ rest else prepend c rest

-- A part without the separator.
abbrev pub Free : ℕ → List Char → Type 0
Free sep [] = Unit
Free sep (c ∷ s) = (code c ≢ sep) × Free sep s

-- Splitting gives back the part before the first separator, and splits the rest.
pub split-append :
    (sep : ℕ) (part s : List Char) (c : Char)
    → Free sep part
    → code c ≡ sep
    → split sep (part ++ c ∷ s) ≡ part ∷ split sep s
unfolding split
split-append sep [] s c free same = ground arith
split-append sep (d ∷ part) s c free same =
    let ih = split-append sep part s c free.1 same in ground (arith, ih)

pub split-Free : (sep : ℕ) (part : List Char) → Free sep part → split sep part ≡ part ∷ []
unfolding split
split-Free sep [] free = refl
split-Free sep (d ∷ part) free = let ih = split-Free sep part free.1 in ground (arith, ih)

pub split-ne-nil :
    (sep : ℕ) (s : List Char) → (p : List Char) × (ps : List (List Char)) × (split sep s ≡ p ∷ ps)
unfolding split
split-ne-nil sep [] = ([], [], refl)
split-ne-nil sep (c ∷ s) =
    let (p, ps, e) = split-ne-nil sep s in
    elim (Bool-cases (eqb (code c) sep)) [
      | inl same ↦ ([], split sep s, rw same)
      | inr other ↦ (c ∷ p, ps, rw (other, e))
    ]

-- `s.startsWith(prefix)`
unfoldable pub starts_with : List Char → List Char → Bool
starts_with [] s = true
starts_with (c ∷ prefix) [] = false
starts_with (c ∷ prefix) (d ∷ s) = eqb (code c) (code d) && starts_with prefix s

-- `s.includes(part)`
unfoldable pub contains : List Char → List Char → Bool
unfolding starts_with
contains part [] = starts_with part []
contains part (c ∷ s) = starts_with part (c ∷ s) || contains part s

-- The white space and line ends that `trim` strips.
abbrev pub is_space : ℕ → Bool
is_space c =
    leb 9 c && leb c 13
    || eqb c 32
    || eqb c 160
    || eqb c 0x1680
    || leb 0x2000 c && leb c 0x200a
    || eqb c 0x2028
    || eqb c 0x2029
    || eqb c 0x202f
    || eqb c 0x205f
    || eqb c 0x3000
    || eqb c 0xfeff

unfoldable pub trim_start : List Char → List Char
trim_start [] = []
trim_start (c ∷ s) = let rest = trim_start s in if is_space (code c) then rest else c ∷ s

-- `s.trim()`
unfoldable pub trim : List Char → List Char
unfolding trim_start
trim s = reverse (trim_start (reverse (trim_start s)))

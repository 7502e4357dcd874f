-- ===== src/Prelude/Texts.antt =====
-- Texts: joining, and their code points.
use Prim.Native.Nat.{ℕ}
use Prim.Native.Char.{code}
use Prim.Native.String
use Prim.Native.String.{String}
use mathlib.Core.Path.{◌≡◌, refl, ap, ap₂}
use mathlib.Core.Logic.{◌≢◌}
use mathlib.Core.List.{List, [], ◌∷◌, ◌++◌}
use native.Mathlib.Omega.{arith}
use text.Mathlib.TextLemmas.{nil-append, cons-append}
use text.Mathlib.TextEquality.{Char-path}

-- A template literal, `${s}${t}`.
infixr 65 ◌<>◌
abbrev pub ◌<>◌ : String → String → String
s <> t = String.◌++◌ s t

-- The code points of a text.
abbrev pub codes : String → List ℕ
codes String.[] = []
codes (String.◌∷◌ c s) = code c ∷ codes s

pub codes-<> : (s t : String) → codes (s <> t) ≡ codes s ++ codes t
codes-<> String.[] t = rw nil-append
codes-<> (String.◌∷◌ c s) t = rw cons-append (ap (◌∷◌ (code c)) (codes-<> s t))

pub codes_inj : (s t : String) → codes s ≡ codes t → s ≡ t
codes_inj String.[] String.[] h = refl
codes_inj String.[] (String.◌∷◌ d t) h = cc
codes_inj (String.◌∷◌ c s) String.[] h = cc
codes_inj (String.◌∷◌ c s) (String.◌∷◌ d t) h =
    ap₂ String.◌∷◌ (Char-path c d (ground arith)) (codes_inj s t (ground arith))

-- A text with no colon in it.
abbrev pub NoColon : List ℕ → Type 0
NoColon [] = Unit
NoColon (c ∷ s) = (c ≢ b':') × NoColon s

-- Up to its first colon a text is determined.
pub colon_split :
    (xs ys r t : List ℕ)
    → NoColon xs
    → NoColon ys
    → xs ++ b':' ∷ r ≡ ys ++ b':' ∷ t
    → (xs ≡ ys) × (r ≡ t)
colon_split [] [] r t hx hy h = ground arith
colon_split [] (y ∷ ys) r t hx hy h = absurd (hy.0 (ground arith))
colon_split (x ∷ xs) [] r t hx hy h = absurd (hx.0 (ground arith))
colon_split (x ∷ xs) (y ∷ ys) r t hx hy h =
    let ih = colon_split xs ys r t hx.1 hy.1 (ground arith) in ground (arith, ih)

-- ===== src/Automation/Template/Printed.antt =====
-- Templates that are printed from their parts.
use Prim.Native.Char.{Char, code}
use crm_multi_tenant_saas_ar.Prelude.{
  zero, suc, ◌+◌, ◌≡◌, ◌≢◌, refl, ap, ◌∙◌, String, Option, none, some, List, [], ◌∷◌, ◌++◌, arith,
  length, All,
}
use crm_multi_tenant_saas_ar.Prelude.Chars.{chars, text, Free, trim}
use crm_multi_tenant_saas_ar.Automation.Values.{Json}
use crm_multi_tenant_saas_ar.Automation.Template.{
  until_close, closed_path, placeholder, filled, replaced, resolve_template,
}

pub data Part : Type 0 where
  literal : List Char → Part
  variable : List Char → Part

-- The template of a list of parts.
abbrev pub printed : List Part → List Char
printed [] = []
printed (literal s ∷ parts) = s ++ printed parts
printed (variable path ∷ parts) = "{" ∷ "{" ∷ (path ++ "}" ∷ "}" ∷ printed parts)

-- A literal has no opening brace, a path has a character and no closing one.
abbrev pub IsPart : Part → Type 0
IsPart (literal s) = Free b'{' s
IsPart (variable path) = (path ≢ []) × Free b'}' path

until_close-append :
    (path s : List Char) (c : Char)
    → Free b'}' path
    → code c ≡ b'}'
    → until_close (path ++ c ∷ s) ≡ (path, c ∷ s)
unfolding until_close
until_close-append [] s c free same = ground arith
until_close-append (d ∷ path) s c free same =
    let ih = until_close-append path s c free.1 same in ground (arith, ih)

placeholder-variable :
    (path s : List Char)
    → path ≢ []
    → Free b'}' path
    → placeholder ("{" ∷ "{" ∷ (path ++ "}" ∷ "}" ∷ s)) ≡ some path
unfolding placeholder closed_path
placeholder-variable [] s some_char free = absurd (some_char refl)
placeholder-variable (p ∷ path) s some_char free =
    rw (until_close-append (p ∷ path) ("}" ∷ s) "}" free refl) refl

placeholder-ne : (c : Char) (s : List Char) → code c ≢ b'{' → placeholder (c ∷ s) ≡ none
unfolding placeholder
placeholder-ne c [] ne = refl
placeholder-ne c (d ∷ s) ne = ground arith

append_closing : (path s : List Char) → path ++ "}" ∷ "}" ∷ s ≡ (path ++ "}" ∷ "}" ∷ []) ++ s
append_closing [] s = refl
append_closing (p ∷ path) s = ap (◌∷◌ p) (append_closing path s)

length_closing : (path : List Char) → length (path ++ "}" ∷ "}" ∷ []) ≡ length path + 2
length_closing [] = omega arith
length_closing (p ∷ path) = omega (arith, length_closing path)

chars-text : (s : List Char) → chars (text s) ≡ s
chars-text [] = refl
chars-text (c ∷ s) = ap (◌∷◌ c) (chars-text s)

module _ (inherited : Json → String → Option Json) where
  replaced-skip :
      (xs s : List Char) (ctx : Json)
      → replaced inherited (length xs) (xs ++ s) ctx ≡ replaced inherited zero s ctx
  unfolding replaced
  replaced-skip [] s ctx = refl
  replaced-skip (x ∷ xs) s ctx = replaced-skip xs s ctx

  replaced-literal :
      (xs s : List Char) (ctx : Json)
      → Free b'{' xs
      → replaced inherited zero (xs ++ s) ctx ≡ xs ++ replaced inherited zero s ctx
  unfolding replaced
  replaced-literal [] s ctx free = refl
  replaced-literal (x ∷ xs) s ctx free =
      rw (replaced, placeholder-ne x (xs ++ s) free.0)
        (ap (◌∷◌ x) (replaced-literal xs s ctx free.1))

  replaced-variable :
      (path s : List Char) (ctx : Json)
      → path ≢ []
      → Free b'}' path
      → replaced inherited zero ("{" ∷ "{" ∷ (path ++ "}" ∷ "}" ∷ s)) ctx
        ≡ filled inherited path (trim path) ctx ++ replaced inherited zero s ctx
  unfolding replaced
  replaced-variable path s ctx some_char free =
      let closing = path ++ "}" ∷ "}" ∷ [] in
      let counted : length path + 3 ≡ suc (length closing) = omega (arith, length_closing path) in
      let rest = replaced-skip closing s ctx in
      rw (replaced, placeholder-variable path s some_char free, counted, append_closing path s)
        (ap (λ t. filled inherited path (trim path) ctx ++ t) rest)

  -- The text of the parts in a context.
  abbrev pub rendered : List Part → Json → List Char
  rendered [] ctx = []
  rendered (literal s ∷ parts) ctx = s ++ rendered parts ctx
  rendered (variable path ∷ parts) ctx = filled inherited path (trim path) ctx ++ rendered parts ctx

  replaced-printed :
      (parts : List Part) (ctx : Json)
      → All IsPart parts
      → replaced inherited zero (printed parts) ctx ≡ rendered parts ctx
  unfolding replaced
  replaced-printed [] ctx ok = refl
  replaced-printed (literal s ∷ parts) ctx ok =
      replaced-literal s (printed parts) ctx ok.0
      ∙ ap (λ t. s ++ t) (replaced-printed parts ctx ok.1)
  replaced-printed (variable path ∷ parts) ctx ok =
      replaced-variable path (printed parts) ctx ok.0.0 ok.0.1
      ∙ ap (λ t. filled inherited path (trim path) ctx ++ t) (replaced-printed parts ctx ok.1)

  -- A template that is printed from literals without an opening brace and from paths in double braces
  -- without a closing one is filled in part by part: the literals stay as they are, each path gives
  -- its value, and what a value holds is not filled in again.
  pub resolve_template-printed :
      (parts : List Part) (ctx : Json)
      → All IsPart parts
      → resolve_template inherited (text (printed parts)) ctx ≡ text (rendered parts ctx)
  unfolding resolve_template
  resolve_template-printed parts ctx ok =
      rw (chars-text (printed parts)) (ap text (replaced-printed parts ctx ok))

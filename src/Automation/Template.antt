-- ===== src/Automation/Template.antt =====
-- backend/src/plugins/cores/automation/template-engine.ts: texts with `{{path}}` in them.
pub mod Printed
use Prim.Native.Char.{Char, code}
use crm_multi_tenant_saas_ar.Prelude.{
  ℕ, zero, suc, ◌+◌, Bool, true, false, ◌&&◌, String, Option, none, some, List, [], ◌∷◌, ◌++◌, ◌==◌,
  eqb, length, map, if◌then◌else◌,
}
use crm_multi_tenant_saas_ar.Prelude.Chars.{chars, text, split, trim}
use crm_multi_tenant_saas_ar.Automation.Values.{
  Json, null, bool, num, str, arr, obj, Fields, end, field, text_of, own_field, or_missing,
}

-- A text up to its first `}`, and from there.
unfoldable pub until_close : List Char → List Char × List Char
until_close [] = ([], [])
until_close (c ∷ s) =
    let (path, after) = until_close s in
    if eqb (code c) b'}' then ([], c ∷ s) else (c ∷ path, after)

-- The path in front of `}}`, which is not empty.
unfoldable pub closed_path : List Char × List Char → Option (List Char)
closed_path ([], after) = none
closed_path (p ∷ path, c ∷ d ∷ after) =
    if eqb (code c) b'}' && eqb (code d) b'}' then some (p ∷ path) else none
closed_path (p ∷ path, after) = none

-- The match of `/\{\{([^}]+)\}\}/` at the start of a text, if there is one. The run up to a `}` is
-- the only length that can match, since what follows it is `}`.
unfoldable pub placeholder : List Char → Option (List Char)
unfolding until_close closed_path
placeholder (c ∷ d ∷ s) =
    if eqb (code c) b'{' && eqb (code d) b'{' then closed_path (until_close s) else none
placeholder _ = none

-- `acc !== null && typeof acc === 'object'`
abbrev pub is_object : Json → Bool
is_object (obj _) = true
is_object (arr _ _) = true
is_object _ = false

-- `inherited` is what a property access finds beside the own fields, a function as its text. (On
-- null the access throws, and the code never makes it.)
module _ (inherited : Json → String → Option Json) where
  unfoldable pub property : Json → String → Option Json
  property (obj fields) key = elim (own_field key fields) [
    | none ↦ inherited (obj fields) key
    | some v ↦ some v
  ]
  property (arr n elements) key =
      if key == "length"
      then some (num n)
      else elim (own_field key elements) [ none ↦ inherited (arr n elements) key | some v ↦ some v ]
  property null key = none
  property v key = inherited v key

  -- `path.split('.').reduce(…, ctx)`
  unfoldable pub resolve_keys : List (List Char) → Option Json → Option Json
  unfolding property
  resolve_keys [] found = found
  resolve_keys (key ∷ keys) none = resolve_keys keys none
  resolve_keys (key ∷ keys) (some v) =
      resolve_keys keys (if is_object v then property v (text key) else none)

  unfoldable pub resolve_path : List Char → Json → Option Json
  unfolding resolve_keys
  resolve_path path ctx = resolve_keys (split b'.' path) (some ctx)

  abbrev pub shown : Option Json → List Char
  shown none = []
  shown (some v) = chars (text_of v)

  -- The callback of `replace`: what stands for a match.
  abbrev pub filled : List Char → List Char → Json → List Char
  filled path [] ctx = chars "{{" ++ (path ++ chars "}}")
  filled path (c ∷ trimmed) ctx = shown (or_missing (resolve_path (c ∷ trimmed) ctx))

  -- `template.replace(…)`: the first argument counts the characters of a match that are left.
  unfoldable pub replaced : ℕ → List Char → Json → List Char
  unfolding placeholder trim resolve_path
  replaced skip [] ctx = []
  replaced (suc skip) (c ∷ s) ctx = replaced skip s ctx
  replaced zero (c ∷ s) ctx =
      let kept = c ∷ replaced zero s ctx in
      elim (placeholder (c ∷ s)) [
        | none ↦ kept
        | some path ↦ filled path (trim path) ctx ++ replaced (length path + 3) s ctx
      ]

  unfoldable pub resolve_template : String → Json → String
  unfolding replaced
  resolve_template template ctx = text (replaced zero (chars template) ctx)

  unfoldable pub resolve_param : Json → Json → Json
  unfolding resolve_template
  resolve_param (str s) ctx = str (resolve_template s ctx)
  resolve_param v ctx = v

  unfoldable pub resolve_params : Fields → Json → Fields
  unfolding resolve_param
  resolve_params end ctx = end
  resolve_params (field key v params) ctx =
      field key (resolve_param v ctx) (resolve_params params ctx)

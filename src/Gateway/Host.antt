-- ===== src/Gateway/Host.antt =====
-- `extractSubdomain` of backend/src/gateway/middleware/tenant-resolver.middleware.ts.
pub mod Subdomain
use Prim.Native.Char.{Char}
use crm_multi_tenant_saas_ar.Prelude.Chars.{chars, text, split}
use crm_multi_tenant_saas_ar.Prelude.{
  ℕ, String, Option, none, some, List, [], ◌∷◌, ◌==◌, ◌||◌, eqb, if◌then◌else◌,
}

-- `parts[0]`
abbrev pub first : List (List Char) → List Char
first [] = []
first (part ∷ parts) = part

-- The test of `sub`, with what comes after it.
unfoldable pub named_subdomain : String → Option String
named_subdomain sub = if sub == "" || (sub == "www" || sub == "api") then none else some sub

-- At least three parts.
unfoldable pub subdomain_of : List (List Char) → Option String
unfolding named_subdomain
subdomain_of (sub ∷ _ ∷ _ ∷ _) = named_subdomain (text sub)
subdomain_of _ = none

unfoldable pub extract_subdomain : String → Option String
unfolding split subdomain_of
extract_subdomain host = subdomain_of (split b'.' (first (split b':' (chars host))))

-- ===== src/Tests/SecurityRuns.antt =====
-- Runs of the theorems on the encryption and on the users of a tenant.
use Prim.Native.Char.{Char, code}
use crm_multi_tenant_saas_ar.Prelude.{
  ◌≡◌, refl, ap, Bool, true, false, some, List, [], ◌∷◌, arith, eqb, length,
}
use crm_multi_tenant_saas_ar.Prelude.Chars.{Free}
use crm_multi_tenant_saas_ar.Security.{Crypto, encrypt, decrypt}
use crm_multi_tenant_saas_ar.Security.RoundTrip.{decrypt-encrypt}
use crm_multi_tenant_saas_ar.Admin.Users.{UserTables}
use crm_multi_tenant_saas_ar.Admin.Users.Links.{OneRole}
use crm_multi_tenant_saas_ar.Admin.Users.Roles.{UserOperation, creates, perform, perform-OneRole}
use crm_multi_tenant_saas_ar.Tests.Samples.{id_a}

-- Bits for bytes, written as ones and zeros.
abbrev digits : List Bool → List Char
digits [] = []
digits (true ∷ bits) = "1" ∷ digits bits
digits (false ∷ bits) = "0" ∷ digits bits

abbrev bits_of : List Char → List Bool
bits_of [] = []
bits_of (c ∷ s) = eqb (code c) b'1' ∷ bits_of s

bits_of-digits : (bits : List Bool) → bits_of (digits bits) ≡ bits
bits_of-digits [] = refl
bits_of-digits (true ∷ bits) = ap (◌∷◌ true) (bits_of-digits bits)
bits_of-digits (false ∷ bits) = ap (◌∷◌ false) (bits_of-digits bits)

digits-Free : (bits : List Bool) → Free b':' (digits bits)
digits-Free [] = tt
digits-Free (true ∷ bits) = (omega arith, digits-Free bits)
digits-Free (false ∷ bits) = (omega arith, digits-Free bits)

-- Each bit is turned over; the tag is the key.
abbrev turned : List Bool → List Bool
turned [] = []
turned (true ∷ bits) = false ∷ turned bits
turned (false ∷ bits) = true ∷ turned bits

turned-turned : (bits : List Bool) → turned (turned bits) ≡ bits
turned-turned [] = refl
turned-turned (true ∷ bits) = ap (◌∷◌ true) (turned-turned bits)
turned-turned (false ∷ bits) = ap (◌∷◌ false) (turned-turned bits)

abbrev toy : Crypto
toy = record {
  Bytes = List Bool;
  Text = List Bool;
  size = λ b. length b;
  from_hex = bits_of;
  to_base64 = digits;
  from_base64 = bits_of;
  to_utf8 = λ t. t;
  from_utf8 = λ b. b;
  seal = λ key iv b. (turned b, key);
  unseal = λ key iv tag b. some (turned b);
  from_base64-to_base64 = bits_of-digits;
  no_colon = digits-Free;
  from_utf8-to_utf8 = λ t. refl;
  unseal-seal = λ key iv b. ap some (turned-turned b);
}

decrypt-encrypt_example :
    decrypt toy (true ∷ []) (encrypt toy (true ∷ []) (false ∷ []) (true ∷ (false ∷ [])))
    ≡ some (true ∷ (false ∷ []))
decrypt-encrypt_example = decrypt-encrypt toy (true ∷ []) (false ∷ []) (true ∷ (false ∷ []))

abbrev tables : UserTables
tables = record {
  users = [];
  roles = [];
  user_roles = record { user_id = "u1"; role_id = "r1"; tenant_id = id_a } ∷ [];
}

abbrev creation : UserOperation
creation =
    creates ("r1", "r2") (record { id = "u2"; now = 7; password_hash = "h" })
      (record { name = "Ann"; email = "ann@acme.test"; role = "manager" })

one_link : OneRole tables.user_roles
one_link t u = ground arith

perform-OneRole_example : OneRole (perform (λ users. users) id_a creation tables).user_roles
perform-OneRole_example = perform-OneRole (λ users. users) id_a creation tables refl one_link

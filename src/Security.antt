-- ===== src/Security.antt =====
-- backend/src/common/security/encryption.service.ts: fields are stored encrypted.
pub mod RoundTrip
use Prim.Native.Char.{Char}
use crm_multi_tenant_saas_ar.Prelude.{
  ℕ, ◌≡◌, Bool, Option, none, some, List, [], ◌∷◌, ◌++◌, eqb, if◌then◌else◌,
}
use crm_multi_tenant_saas_ar.Prelude.Chars.{split, Free}

-- What the service takes of Node's Buffer and its AES-256-GCM, and what it relies on. A text of the
-- standard base64 alphabet has no colon in it; what was sealed opens under the same key and vector.
pub record Crypto : Type 1 where
  pub Bytes : Type 0
  pub Text : Type 0
  pub size : Bytes → ℕ
  pub from_hex : List Char → Bytes
  pub to_base64 : Bytes → List Char
  pub from_base64 : List Char → Bytes
  pub to_utf8 : Text → Bytes
  pub from_utf8 : Bytes → Text
  -- With a key and a vector: the sealed bytes and their tag.
  pub seal : Bytes → Bytes → Bytes → Bytes × Bytes
  -- With a key, a vector and a tag; `none` where the tag is wrong.
  pub unseal : Bytes → Bytes → Bytes → Bytes → Option Bytes
  pub from_base64-to_base64 : (b : Bytes) → from_base64 (to_base64 b) ≡ b
  pub no_colon : (b : Bytes) → Free b':' (to_base64 b)
  pub from_utf8-to_utf8 : (t : Text) → from_utf8 (to_utf8 t) ≡ t
  pub unseal-seal : (key iv b : Bytes) → unseal key iv (seal key iv b).1 (seal key iv b).0 ≡ some b

-- `[a, b, c].join(':')`
abbrev pub joined : Char → List Char → List Char → List Char → List Char
joined colon a b c = a ++ (colon ∷ (b ++ (colon ∷ c)))

module _ (crypto : Crypto) where
  open crypto use {
    Bytes, Text, size, from_hex, to_base64, from_base64, to_utf8, from_utf8, seal, unseal,
  }

  -- The constructor; `none` where it throws.
  unfoldable pub key_of : List Char → Option Bytes
  key_of encryption_key =
      let key = from_hex encryption_key in if eqb (size key) 32 then some key else none

  -- `encrypt`, with the vector that is drawn.
  unfoldable pub encrypt : Bytes → Bytes → Text → List Char
  encrypt key iv plaintext =
      let sealed = seal key iv (to_utf8 plaintext) in
      joined ":" (to_base64 iv) (to_base64 sealed.1) (to_base64 sealed.0)

  abbrev pub opened : Option Bytes → Option Text
  opened none = none
  opened (some b) = some (from_utf8 b)

  -- The parts of a text: there must be three.
  unfoldable pub decrypt_parts : Bytes → List (List Char) → Option Text
  decrypt_parts key (iv ∷ (tag ∷ (enc ∷ []))) =
      opened (unseal key (from_base64 iv) (from_base64 tag) (from_base64 enc))
  decrypt_parts key _ = none

  -- `decrypt`; `none` where it throws.
  unfoldable pub decrypt : Bytes → List Char → Option Text
  unfolding decrypt_parts split
  decrypt key ciphertext = decrypt_parts key (split b':' ciphertext)

-- ===== src/Security/RoundTrip.antt =====
-- What was encrypted is decrypted.
use Prim.Native.Char.{Char}
use crm_multi_tenant_saas_ar.Prelude.{◌≡◌, refl, ap, ◌∙◌, some, List, [], ◌∷◌, ◌++◌}
use crm_multi_tenant_saas_ar.Prelude.Chars.{split, Free, split-append, split-Free}
use crm_multi_tenant_saas_ar.Security.{Crypto, joined, encrypt, decrypt_parts, decrypt}

split-joined :
    (a b c : List Char)
    → Free b':' a
    → Free b':' b
    → Free b':' c
    → split b':' (joined ":" a b c) ≡ a ∷ (b ∷ (c ∷ []))
split-joined a b c free_a free_b free_c =
    split-append b':' a (b ++ (":" ∷ c)) ":" free_a refl
    ∙ ap (◌∷◌ a) (split-append b':' b c ":" free_b refl ∙ ap (◌∷◌ b) (split-Free b':' c free_c))

-- Under the laws of base64, UTF-8 and AES-GCM that the service relies on, for every key, every vector
-- and every text, decrypting what was encrypted gives the text back.
pub decrypt-encrypt :
    (crypto : Crypto) (key iv : crypto.Bytes) (plaintext : crypto.Text)
    → decrypt crypto key (encrypt crypto key iv plaintext) ≡ some plaintext
unfolding decrypt decrypt_parts encrypt
decrypt-encrypt crypto key iv plaintext =
    let sealed = crypto.seal key iv (crypto.to_utf8 plaintext) in
    rw
      (
        split-joined (crypto.to_base64 iv) (crypto.to_base64 sealed.1) (crypto.to_base64 sealed.0)
            (crypto.no_colon iv) (crypto.no_colon sealed.1) (crypto.no_colon sealed.0),
        crypto.from_base64-to_base64 iv,
        crypto.from_base64-to_base64 sealed.1,
        crypto.from_base64-to_base64 sealed.0,
        crypto.unseal-seal key iv (crypto.to_utf8 plaintext),
        crypto.from_utf8-to_utf8 plaintext,
      )
      refl

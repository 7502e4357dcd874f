-- ===== src/Gateway/Host/Subdomain.antt =====
-- The subdomain of a host of the form `sub.domain.tld[:port]`.
use Prim.Native.Char.{Char, code}
use crm_multi_tenant_saas_ar.Prelude.{◌≡◌, refl, ap, String, none, List, ◌∷◌, ◌++◌, inl, inr, ◌⊎◌}
use crm_multi_tenant_saas_ar.Prelude.Chars.{
  chars, text, split, Free, split-append, split-Free, split-ne-nil,
}
use crm_multi_tenant_saas_ar.Gateway.Host.{first, named_subdomain, subdomain_of, extract_subdomain}

-- The host name of `Host`, its port cut off.
first-split_port :
    (name port : List Char) (c : Char)
    → Free b':' name
    → code c ≡ b':'
    → first (split b':' (name ++ c ∷ port)) ≡ name
first-split_port name port c free same = ap first (split-append b':' name port c free same)

subdomain_of-split :
    (sub domain tld : List Char) (d d' : Char)
    → Free b'.' sub
    → Free b'.' domain
    → code d ≡ b'.'
    → code d' ≡ b'.'
    → subdomain_of (split b'.' (sub ++ d ∷ (domain ++ d' ∷ tld))) ≡ named_subdomain (text sub)
unfolding subdomain_of
subdomain_of-split sub domain tld d d' fs fd ed ed' =
    let (p, ps, e) = split-ne-nil b'.' tld in
    rw (split-append b'.' sub _ d fs ed, split-append b'.' domain _ d' fd ed', e) refl

-- From a host `sub.domain.tld:port` the text before the first dot is taken, unless it is empty,
-- `www` or `api`; the top-level part may have more dots, and the port is cut off.
pub extract_subdomain-port :
    (host : String) (sub domain tld port : List Char) (d d' c : Char)
    → chars host ≡ (sub ++ d ∷ (domain ++ d' ∷ tld)) ++ c ∷ port
    → Free b':' (sub ++ d ∷ (domain ++ d' ∷ tld))
    → Free b'.' sub
    → Free b'.' domain
    → (code d ≡ b'.') × (code d' ≡ b'.') × (code c ≡ b':')
    → extract_subdomain host ≡ named_subdomain (text sub)
unfolding extract_subdomain
extract_subdomain-port host sub domain tld port d d' c e fc fs fd (ed, ed', ec) =
    rw (e, first-split_port (sub ++ d ∷ (domain ++ d' ∷ tld)) port c fc ec)
      (subdomain_of-split sub domain tld d d' fs fd ed ed')

-- A host name with fewer than three parts has no subdomain: one with no dot, and one with one.
pub extract_subdomain-apex :
    (host : String) (name tld : List Char) (d : Char)
    → (chars host ≡ name) ⊎ ((chars host ≡ name ++ d ∷ tld) × (code d ≡ b'.'))
    → Free b':' (chars host)
    → Free b'.' name
    → Free b'.' tld
    → extract_subdomain host ≡ none
unfolding extract_subdomain subdomain_of
extract_subdomain-apex host name tld d (inl e) fc fn ft =
    rw (split-Free b':' (chars host) fc, e, split-Free b'.' name fn) refl
extract_subdomain-apex host name tld d (inr (e, ed)) fc fn ft =
    rw
      (
        split-Free b':' (chars host) fc,
        e,
        split-append b'.' name tld d fn ed,
        split-Free b'.' tld ft,
      )
      refl

-- ===== src/Dal/Uuid.antt =====
-- The UUID test before a tenant id is put into a `SET` command: `assertValidUuid` of
-- backend/src/dal/interceptor/QueryInterceptor.ts and backend/src/dal/pool/PoolRegistry.ts, and
-- `isUuid` of backend/src/gateway/middleware/tenant-resolver.middleware.ts.
use crm_multi_tenant_saas_ar.Prelude.{
  ℕ, zero, suc, ◌+◌, ◌≡◌, refl, Bool, true, false, ◌&&◌, ◌||◌, String, Option, none, some, List, [],
  ◌∷◌, leb, eqb, length, All, codes, arith, if◌then◌else◌,
}

-- `[0-9a-f]` under the flag `i`
unfoldable pub is_hex : ℕ → Bool
is_hex c = (leb b'0' c && leb c b'9') || (leb b'a' c && leb c b'f') || (leb b'A' c && leb c b'F')

-- One piece of the pattern: `n` hexadecimal digits, then the dash or, for the last, the end.
unfoldable pub hex_run : ℕ → List ℕ → Option (List ℕ)
hex_run zero s = some s
hex_run (suc n) [] = none
hex_run (suc n) (c ∷ s) = let rest = hex_run n s in if is_hex c then rest else none

unfoldable pub dash : List ℕ → Option (List ℕ)
dash [] = none
dash (c ∷ s) = if eqb c b'-' then some s else none

infixl 5 ◌>>=◌
abbrev ◌>>=◌ : {A B : Type 0} → Option A → (A → Option B) → Option B
none >>= k = none
some a >>= k = k a

unfoldable pub uuid_rest : List ℕ → Option (List ℕ)
uuid_rest s = do
  a ← hex_run 8 s
  b ← dash a
  c ← hex_run 4 b
  d ← dash c
  e ← hex_run 4 d
  f ← dash e
  g ← hex_run 4 f
  h ← dash g
  hex_run 12 h

-- `$`: nothing is left after the last digit.
abbrev at_end : Option (List ℕ) → Bool
at_end (some []) = true
at_end _ = false

-- `/^[0-9a-f]{8}-[0-9a-f]{4}-[0-9a-f]{4}-[0-9a-f]{4}-[0-9a-f]{12}$/i.test(id)`
unfoldable pub is_uuid : String → Bool
is_uuid id = at_end (uuid_rest (codes id))

-- What may stand between the quotes of `SET "app.tenant_id" = '…'`.
abbrev pub IsPlain : ℕ → Type 0
IsPlain c = (is_hex c || eqb c b'-') ≡ true

-- A piece consumes plain characters only, and as many as it says.
record Consumes (n : ℕ) (s rest : List ℕ) : Type 0 where
  count : length s ≡ n + length rest
  plain : All IsPlain rest → All IsPlain s

Consumes-hex_run :
    (n : ℕ) (s : List ℕ) {rest : List ℕ} → hex_run n s ≡ some rest → Consumes n s rest
unfolding hex_run
Consumes-hex_run zero s h = record { count = ground arith; plain = ground arith }
Consumes-hex_run (suc n) [] h = cc
Consumes-hex_run (suc n) (c ∷ s) {rest} h =
    let later : Consumes n s rest = Consumes-hex_run n s (ground arith) in
    record { count = omega (arith, later.count); plain = λ p. (ground arith, later.plain p) }

Consumes-dash : (s : List ℕ) {rest : List ℕ} → dash s ≡ some rest → Consumes 1 s rest
unfolding dash is_hex
Consumes-dash [] h = cc
Consumes-dash (c ∷ s) {rest} h =
    let same : s ≡ rest = ground arith in
    record { count = ground arith; plain = λ p. (ground arith, rw same p) }

Consumes-trans : {m n : ℕ} {s t u : List ℕ} → Consumes m s t → Consumes n t u → Consumes (m + n) s u
Consumes-trans a b = record {
  count = omega (arith, a.count, b.count);
  plain = λ p. a.plain (b.plain p);
}

>>=-eq-some :
    {A B : Type 0} (m : Option A) (f : A → Option B) {b : B}
    → (m >>= f) ≡ some b
    → (a : A) × (m ≡ some a) × (f a ≡ some b)
>>=-eq-some none f h = cc
>>=-eq-some (some a) f h = (a, refl, h)

-- A digit run and the dash after it.
Consumes-group :
    (n : ℕ) (s : List ℕ) (k : List ℕ → Option (List ℕ)) {rest : List ℕ}
    → (hex_run n s >>= λ t. dash t >>= k) ≡ some rest
    → (u : List ℕ) × Consumes (n + 1) s u × (k u ≡ some rest)
Consumes-group n s k h =
    let (t, run, more) = >>=-eq-some (hex_run n s) _ h in
    let (u, dashed, last) = >>=-eq-some (dash t) k more in
    (u, Consumes-trans (Consumes-hex_run n s run) (Consumes-dash t dashed), last)

Consumes-uuid_rest : (s : List ℕ) {rest : List ℕ} → uuid_rest s ≡ some rest → Consumes 36 s rest
unfolding uuid_rest
Consumes-uuid_rest s h =
    let (b, first, h₁) = Consumes-group 8 s _ h in
    let (d, second, h₂) = Consumes-group 4 b _ h₁ in
    let (f, third, h₃) = Consumes-group 4 d _ h₂ in
    let (g, fourth, h₄) = Consumes-group 4 f _ h₃ in
    let last = Consumes-hex_run 12 g h₄ in
    Consumes-trans first (Consumes-trans second (Consumes-trans third (Consumes-trans fourth last)))

at_end→eq : (o : Option (List ℕ)) → at_end o ≡ true → o ≡ some []
at_end→eq (some []) h = refl
at_end→eq (some (c ∷ s)) h = cc
at_end→eq none h = cc

-- A text that passes the UUID test has 36 characters, each a hexadecimal digit or a dash: it
-- holds no quote, and so cannot end the quoted text of the `SET` command.
pub is_uuid-IsPlain :
    (id : String) → is_uuid id ≡ true → (length (codes id) ≡ 36) × All IsPlain (codes id)
unfolding is_uuid
is_uuid-IsPlain id h =
    let all : Consumes 36 (codes id) [] =
      Consumes-uuid_rest (codes id) (at_end→eq (uuid_rest (codes id)) h) in
    (omega (arith, all.count), all.plain tt)

-- ===== src/Automation/Conditions/Meaning.antt =====
-- What the operators of the conditions say of texts.
use Prim.Native.Char.{Char, code}
use package.text.Mathlib.TextEquality.{Char-path}
use mathlib.Core.List.{reverse, reverse-cons, reverse-reverse}
use crm_multi_tenant_saas_ar.Prelude.{
  ◌≡◌, ◌≢◌, ◌↔◌, refl, sym, ap, subst, ◌∙◌, Bool, true, false, not, String, Option, some, List, [],
  ◌∷◌, ◌++◌, ◌==◌, arith, eq_iff, All, if◌then◌else◌, Bool-cases, inl, inr, ◌⊎◌,
}
use crm_multi_tenant_saas_ar.Prelude.Chars.{
  chars, text, starts_with, contains, is_space, trim, trim_start,
}
use crm_multi_tenant_saas_ar.Automation.Values.{Json}
use crm_multi_tenant_saas_ar.Automation.Conditions.{
  ConditionRule, text_or_empty, violates, field_text, holds_all, customer_of, evaluate_conditions,
}

starts_with-append : (p s : List Char) → starts_with p (p ++ s) ≡ true
unfolding starts_with
starts_with-append [] s = refl
starts_with-append (c ∷ p) s = let ih = starts_with-append p s in ground (arith, ih)

-- The rest after a prefix.
starts_with_sound :
    (p s : List Char) → starts_with p s ≡ true → (rest : List Char) × (s ≡ p ++ rest)
unfolding starts_with
starts_with_sound [] s h = (s, refl)
starts_with_sound (c ∷ p) [] h = cc
starts_with_sound (c ∷ p) (d ∷ s) h =
    let (rest, e) = starts_with_sound p s (ground arith) in
    let same : d ≡ c = Char-path d c (ground arith) in
    (rest, ap (◌∷◌ d) e ∙ ap (λ x. x ∷ (p ++ rest)) same)

contains_sound :
    (p s : List Char)
    → contains p s ≡ true
    → (front : List Char) × (rest : List Char) × (s ≡ front ++ (p ++ rest))
unfolding contains
contains_sound p [] h = let (rest, e) = starts_with_sound p [] h in ([], rest, e)
contains_sound p (c ∷ s) h = elim (Bool-cases (starts_with p (c ∷ s))) [
  | inl here ↦ let (rest, e) = starts_with_sound p (c ∷ s) here in ([], rest, e)
  | inr later ↦
      let (front, rest, e) = contains_sound p s (ground arith) in (c ∷ front, rest, ap (◌∷◌ c) e)
]

contains-append : (front p rest : List Char) → contains p (front ++ (p ++ rest)) ≡ true
unfolding contains
contains-append [] [] [] = refl
contains-append [] [] (c ∷ rest) = rw (starts_with-append [] (c ∷ rest)) refl
contains-append [] (c ∷ p) rest = rw (starts_with-append (c ∷ p) rest) refl
contains-append (c ∷ front) p rest = let ih = contains-append front p rest in ground (arith, ih)

-- Only white space.
abbrev pub Blank : List Char → Type 0
Blank s = All (λ c. is_space (code c) ≡ true) s

trim_start-Blank : (s : List Char) → Blank s → trim_start s ≡ []
unfolding trim_start
trim_start-Blank [] blank = refl
trim_start-Blank (c ∷ s) blank = rw blank.0 (trim_start-Blank s blank.1)

trim_start_sound : (s : List Char) → trim_start s ≡ [] → Blank s
unfolding trim_start
trim_start_sound [] h = tt
trim_start_sound (c ∷ s) h = elim (Bool-cases (is_space (code c))) [
  | inl e ↦ (e, trim_start_sound s (ground arith))
  | inr e ↦ absurd (ground arith)
]

-- What is left after the strip starts with no white space.
trim_start_cases :
    (s : List Char)
    → (trim_start s ≡ [])
      ⊎ ((c : Char) × (rest : List Char) × (trim_start s ≡ c ∷ rest) × (is_space (code c) ≡ false))
unfolding trim_start
trim_start_cases [] = inl refl
trim_start_cases (c ∷ s) = elim (Bool-cases (is_space (code c))) [
  | inl e ↦ rw e (trim_start_cases s)
  | inr e ↦ rw e (inr (c, s, refl, e))
]

Blank-last : (xs : List Char) (c : Char) → Blank (xs ++ c ∷ []) → is_space (code c) ≡ true
Blank-last [] c blank = blank.0
Blank-last (x ∷ xs) c blank = Blank-last xs c blank.1

trim-Blank : (s : List Char) → (trim s ≡ []) ↔ Blank s
unfolding trim
trim-Blank s = (
  (λ h.
      let inner = trim_start (reverse (trim_start s)) in
      let empty : inner ≡ [] = sym (reverse-reverse inner) ∙ ap (λ t. reverse t) h in
      let blank = trim_start_sound (reverse (trim_start s)) empty in
      elim (trim_start_cases s) [
        | inl e ↦ trim_start_sound s e
        | inr (c, rest, e, solid) ↦
            let last =
              Blank-last (reverse rest) c
                (subst Blank (ap (λ t. reverse t) e ∙ reverse-cons c rest) blank) in
            absurd (ground arith)
      ]),
  (λ blank. rw (trim_start-Blank s blank) refl),
)

text-empty : (s : List Char) → (text s ≡ "") ↔ (s ≡ [])
text-empty [] = ((λ _. refl), (λ _. refl))
text-empty (c ∷ s) = ((λ h. cc), (λ h. cc))

-- What an operator asks of the text of a field and of the rule's value, in terms of their parts. An
-- operator that is not known asks nothing.
abbrev pub Meets : String → String → String → Type 0
Meets op field_value rule_value =
    if op == "equals"
    then field_value ≡ rule_value
    else if op == "not_equals"
    then field_value ≢ rule_value
    else if op == "contains"
    then ((front : List Char) × (rest : List Char) × (chars field_value
          ≡ front ++ (chars rule_value ++ rest)))
    else if op == "starts_with"
    then ((rest : List Char) × (chars field_value ≡ chars rule_value ++ rest))
    else if op == "is_empty"
    then Blank (chars field_value)
    else if op == "is_not_empty"
    then ¬ Blank (chars field_value)
    else Unit

not_iff : (b : Bool) {A : Type 0} → ((b ≡ true) ↔ A) → (not b ≡ false) ↔ A
not_iff true h = ((λ _. h.0 refl), (λ _. refl))
not_iff false h = ((λ e. cc), (λ a. absurd (ground (arith, h.1 a))))

false_iff : (b : Bool) {A : Type 0} → ((b ≡ true) ↔ A) → (b ≡ false) ↔ (¬ A)
false_iff true h = ((λ e. cc), (λ n. absurd (n (h.0 refl))))
false_iff false h = ((λ _ a. ground (arith, h.1 a)), (λ _. refl))

-- A test whose two branches have a meaning has the meaning of the branch.
if_iff :
    (b x y : Bool) {A B : Type 0}
    → ((x ≡ false) ↔ A)
    → ((y ≡ false) ↔ B)
    → ((if b then x else y) ≡ false) ↔ (if b then A else B)
if_iff true x y hx hy = hx
if_iff false x y hx hy = hy

contains_iff :
    (p s : List Char)
    → (contains p s ≡ true)
      ↔ ((front : List Char) × (rest : List Char) × (s ≡ front ++ (p ++ rest)))
contains_iff p s = (contains_sound p s, λ (front, rest, e). rw e (contains-append front p rest))

starts_with_iff :
    (p s : List Char) → (starts_with p s ≡ true) ↔ ((rest : List Char) × (s ≡ p ++ rest))
starts_with_iff p s = (starts_with_sound p s, λ (rest, e). rw e (starts_with-append p rest))

Blank-iff : (s : String) → ((text (trim (chars s)) == "") ≡ true) ↔ Blank (chars s)
Blank-iff s =
    let trimmed = trim (chars s) in
    let same = eq_iff (text trimmed) "" in
    let empty = text-empty trimmed in
    let blank = trim-Blank (chars s) in
    ((λ h. blank.0 (empty.0 (same.0 h))), λ b. same.1 (empty.1 (blank.1 b)))

violates-Meets : (op fv rv : String) → (violates op fv rv ≡ false) ↔ Meets op fv rv
unfolding violates
violates-Meets op fv rv = if_iff (op == "equals") _ _ (not_iff (fv == rv) (eq_iff fv rv)) (
    if_iff (op == "not_equals") _ _ (false_iff (fv == rv) (eq_iff fv rv)) (
      if_iff (op == "contains") _ _ (not_iff _ (contains_iff (chars rv) (chars fv))) (
        if_iff (op == "starts_with") _ _ (not_iff _ (starts_with_iff (chars rv) (chars fv))) (
          if_iff (op == "is_empty") _ _ (not_iff _ (Blank-iff fv)) (
            if_iff (op == "is_not_empty") _ _ (false_iff _ (Blank-iff fv))
              ((λ _. tt), (λ _. refl)))))))

module _ (inherited : Json → String → Option Json) where
  -- What every rule asks of the customer.
  abbrev pub MeetsAll : List ConditionRule → Json → Type 0
  MeetsAll rules customer =
      All (λ r. Meets r.op (field_text inherited r.field customer) (text_or_empty r.value)) rules

  holds_all-MeetsAll :
      (rules : List ConditionRule) (customer : Json)
      → (holds_all inherited rules customer ≡ true) ↔ MeetsAll rules customer
  unfolding holds_all
  holds_all-MeetsAll [] customer = ((λ _. tt), (λ _. refl))
  holds_all-MeetsAll (r ∷ rules) customer =
      let ih = holds_all-MeetsAll rules customer in
      let here =
        violates-Meets r.op (field_text inherited r.field customer) (text_or_empty r.value) in
      elim (Bool-cases
        (violates r.op (field_text inherited r.field customer) (text_or_empty r.value))) [
          | inl bad ↦ ((λ h. absurd (ground arith)), λ m. absurd (ground (arith, here.1 m.0)))
          | inr good ↦ rw good ((λ h. (here.0 good, ih.0 h)), λ m. ih.1 m.1)
        ]

  -- The conditions of a trigger hold exactly if every rule of its list is met by the text of its
  -- field of the customer: equal to the rule's value, another text, with the value as a part, with
  -- the value in front, nothing but white space, or more than that.
  pub evaluate_conditions-MeetsAll :
      (rules : List ConditionRule) (ctx : Json)
      → (evaluate_conditions inherited (some rules) ctx ≡ true)
        ↔ MeetsAll rules (customer_of inherited ctx)
  unfolding evaluate_conditions
  evaluate_conditions-MeetsAll rules ctx = holds_all-MeetsAll rules (customer_of inherited ctx)

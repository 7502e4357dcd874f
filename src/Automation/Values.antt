-- ===== src/Automation/Values.antt =====
-- The JSON values that triggers and actions hold, and JavaScript's `String(value)` on them.
use crm_multi_tenant_saas_ar.Prelude.{
  Bool, true, false, String, Option, none, some, ◌==◌, ◌<>◌, if◌then◌else◌,
}

-- A number is held as the text that `String` makes of it. An array has the text of its length, and
-- its elements under their indices.
mutual
  pub data Json : Type 0 where
    null : Json
    bool : Bool → Json
    num : String → Json
    str : String → Json
    arr : String → Fields → Json
    obj : Fields → Json

  pub data Fields : Type 0 where
    end : Fields
    field : String → Json → Fields → Fields

abbrev pub is_null : Json → Bool
is_null null = true
is_null _ = false

abbrev pub after_comma : Fields → String → String
after_comma end joined = ""
after_comma (field _ _ _) joined = "," <> joined

-- `String(value)`; an array joins its elements, with nothing for `null`.
unfoldable mutual
  pub text_of : Json → String
  text_of null = "null"
  text_of (bool true) = "true"
  text_of (bool false) = "false"
  text_of (num n) = n
  text_of (str s) = s
  text_of (arr _ elements) = joined elements
  text_of (obj _) = "[object Object]"

  pub joined : Fields → String
  joined end = ""
  joined (field _ v rest) =
      let here = text_of v in
      let more = joined rest in (if is_null v then "" else here) <> after_comma rest more

unfoldable pub own_field : String → Fields → Option Json
own_field key end = none
own_field key (field name v rest) =
    let later = own_field key rest in if name == key then some v else later

-- `none` for `undefined`, and `null` itself, are missing.
abbrev pub or_missing : Option Json → Option Json
or_missing none = none
or_missing (some null) = none
or_missing (some v) = some v

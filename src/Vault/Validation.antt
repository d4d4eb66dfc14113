-- ===== src/Vault/Validation.antt =====
-- internal/vault/validation.go. strings.TrimSpace and the length of a text are parameters.
use subnetree.Prelude.{
  ℕ, ◌≡◌, ◌↔◌, refl, String, true, false, List, [], ◌∷◌, Option, none, some, ◌==◌, string_eq, ltb,
  contains, if◌then◌else◌, arith, ==_cases, subst, inl, inr,
}

-- A value of JSON: a text, an object, or anything else.
pub data Value : Type 0 where
  text : String → Value
  object other : Value

pub data Refusal : Type 0 where
  unsupported_type no_data no_fields bad_fields name_empty name_too_long : Refusal
  missing not_text blank : String → Refusal

abbrev pub max_credential_name_len : ℕ
max_credential_name_len = 255

module _ (trim : String → String) where
  unfoldable pub validate_credential_name : (String → ℕ) → String → Option Refusal
  validate_credential_name length_of name =
      if trim name == ""
      then some Refusal.name_empty
      else if ltb max_credential_name_len (length_of (trim name))
      then some Refusal.name_too_long
      else none

  unfoldable pub check_field : (String → Option Value) → String → Option Refusal
  check_field values f = elim (values f) [
    | none ↦ some (Refusal.missing f)
    | some v ↦ elim v [
      | text s ↦ if trim s == "" then some (Refusal.blank f) else none
      | object ↦ some (Refusal.not_text f)
      | other ↦ some (Refusal.not_text f)
    ]
  ]

  unfoldable pub require_string_fields : (String → Option Value) → List String → Option Refusal
  unfolding check_field
  require_string_fields values [] = none
  require_string_fields values (f ∷ fs) = elim (check_field values f) [
    | some e ↦ some e
    | none ↦ require_string_fields values fs
  ]

  -- The fields that a type asks for; `none` for a type that is not in the list of texts.
  abbrev pub required_fields : String → Option (List String)
  required_fields kind =
      if kind == "ssh_password"
      then some ("username" ∷ "password" ∷ [])
      else if kind == "ssh_key"
      then some ("username" ∷ "private_key" ∷ [])
      else if kind == "snmp_v2c"
      then some ("community" ∷ [])
      else if kind == "snmp_v3"
      then some ("username" ∷ "auth_protocol" ∷ "auth_key" ∷ "security_level" ∷ [])
      else if kind == "api_key"
      then some ("key" ∷ [])
      else if kind == "http_basic"
      then some ("username" ∷ "password" ∷ [])
      else none

  -- Nil data is `none`.
  unfoldable pub validate_credential_data : String → Option (String → Option Value) → Option Refusal
  unfolding require_string_fields
  validate_credential_data kind data' = elim data' [
    | none ↦ some Refusal.no_data
    | some values ↦ elim (required_fields kind) [
      | some fields ↦ require_string_fields values fields
      | none ↦
          if kind == "custom"
          then elim (values "fields") [
            | none ↦ some Refusal.no_fields
            | some v ↦ elim v [
              | text s ↦ some Refusal.bad_fields
              | object ↦ none
              | other ↦ some Refusal.bad_fields
            ]
          ]
          else some Refusal.unsupported_type
    ]
  ]

  -- A text that is not blank stands in the field.
  pub IsFilled : (String → Option Value) → String → Type 0
  IsFilled values f = (s : String) × (values f ≡ some (text s)) × ((trim s == "") ≡ false)

  check_field-IsFilled :
      (values : String → Option Value) (f : String)
      → (check_field values f ≡ none) ↔ IsFilled values f
  unfolding check_field IsFilled
  check_field-IsFilled values f = (λ h. filled (values f) refl h, λ (s, e, b). ground (arith, e, b))
    where
      filled :
          (o : Option Value)
          → values f ≡ o
          → check_field values f ≡ none
          → (s : String) × (values f ≡ some (text s)) × ((trim s == "") ≡ false)
      filled none e h = absurd (ground (arith, e, h))
      filled (some (text s)) e h = (s, e, ground (arith, e, h))
      filled (some object) e h = absurd (ground (arith, e, h))
      filled (some other) e h = absurd (ground (arith, e, h))

  require_string_fields-IsFilled :
      (values : String → Option Value) (fields : List String)
      → (require_string_fields values fields ≡ none)
        ↔ ((f : String) → contains fields f ≡ true → IsFilled values f)
  unfolding require_string_fields
  require_string_fields-IsFilled values [] = (λ h f m. absurd (cc m), λ h. refl)
  require_string_fields-IsFilled values (g ∷ gs) =
      let (to, from) = require_string_fields-IsFilled values gs in
      let (to1, from1) = check_field-IsFilled values g in
      (
        λ h f m. elim (==_cases g f) [
          | inl (t, p) ↦ subst (IsFilled values) p (to1 (ground (arith, h)))
          | inr (n, p) ↦ to (ground (arith, h)) f (ground (arith, m, n))
        ],
        λ h. ground (
          arith,
          from1 (h g (ground (arith, string_eq.same_iff g g))),
          from (λ f m. h f (ground (arith, m))),
        ),
      )

  -- For every type of credential that asks for texts, ValidateCredentialData accepts exactly the data
  -- in which each field that the type asks for holds a text that is not blank.
  pub validate_credential_data-IsFilled :
      (kind : String) (values : String → Option Value) (fields : List String)
      → required_fields kind ≡ some fields
      → (validate_credential_data kind (some values) ≡ none)
        ↔ ((f : String) → contains fields f ≡ true → IsFilled values f)
  unfolding validate_credential_data
  validate_credential_data-IsFilled kind values fields h =
      rw (validate_credential_data, h) (require_string_fields-IsFilled values fields)

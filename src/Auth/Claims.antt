-- ===== src/Auth/Claims.antt =====
-- The claims of a verified token, and what dealfinder/auth.py and dealfinder/tenancy.py read from
-- them. A claim is a JSON value; of a number, a Boolean or a list only its truth matters here.
use tutorial_dealfinder.Base.{
  ℕ, String, Bool, true, false, not, none, some, [], ◌∷◌, if◌then◌else◌, Dict, lookup, Result, ok,
  raise, ◌>>=◌, string_eq, ◌==◌,
}

pub data Error : Type 0 where
  -- `HTTPException(status_code, detail)`
  http : ℕ → String → Error
  -- `.get` on a claim that is no object
  attribute_error : Error
  -- pydantic's refusal of a field that is no text
  validation_error : Error

pub data Scalar : Type 0 where
  null : Scalar
  text : String → Scalar
  other : Bool → Scalar

pub data Value : Type 0 where
  scalar : Scalar → Value
  object : Dict String Scalar → Value

abbrev pub Claims : Type 0
Claims = Dict String Value

-- the truth of a value, as `or` and `not` see it
unfoldable pub truthy_scalar : Scalar → Bool
truthy_scalar null = false
truthy_scalar (text s) = not (s == "")
truthy_scalar (other b) = b

unfoldable pub truthy : Value → Bool
unfolding truthy_scalar
truthy (scalar s) = truthy_scalar s
truthy (object []) = false
truthy (object (_ ∷ _)) = true

-- `d.get(k)`, an absent key being `None`
unfoldable pub get : Claims → String → Value
get claims k = elim (lookup claims k) [ none ↦ scalar null | some v ↦ v ]

abbrev pub get_meta : Dict String Scalar → String → Value
get_meta meta k = elim (lookup meta k) [ none ↦ scalar null | some s ↦ scalar s ]

-- Python's `a or b`
infixr 30 ◌or◌
abbrev pub ◌or◌ : Value → Value → Value
a or b = if truthy a then a else b

-- `claims.get("app_metadata") or {}`, which is then used as an object
unfoldable pub as_object : Value → Result Error (Dict String Scalar)
as_object (object d) = ok d
as_object (scalar s) = raise attribute_error

unfoldable pub app_metadata : Claims → Result Error (Dict String Scalar)
unfolding as_object get truthy
app_metadata claims = as_object (get claims "app_metadata" or object [])

-- `_role_from_claims`
unfoldable pub role_from_claims : Claims → Result Error Value
unfolding app_metadata get truthy
role_from_claims claims = do
  meta ← app_metadata claims
  ok (
      get claims "user_role"
      or get_meta meta "plan"
      or get_meta meta "role"
      or scalar (text "free"))

-- `_tenant_from_claims`: the last value stands, true or not
unfoldable pub tenant_from_claims : Claims → Result Error Value
unfolding app_metadata get truthy
tenant_from_claims claims = do
  meta ← app_metadata claims
  ok (
      get claims "tenant"
      or get_meta meta "tenant"
      or get_meta meta "tenant_id"
      or get claims "org_id")

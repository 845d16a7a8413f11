-- ===== src/Auth.antt =====
-- lib/auth. golang-jwt's ParseWithClaims is a parameter, and so is how net/http reads the cookies and
-- the headers of a request.
use quick_bite_analytics_ser.Prelude.{
  ℤ, String, ◌==◌, Bool, true, false, not, ◌||◌, Option, none, some, List, [], ◌∷◌, if◌then◌else◌,
}
use quick_bite_analytics_ser.Errors.{Error, new, plain}
use quick_bite_analytics_ser.Go.Effect.{Result, ok, fail}
use quick_bite_analytics_ser.Go.Strings.{trim_space, cut_prefix}
use quick_bite_analytics_ser.Rbac.Middleware.{Claims, Outcome, served, refused, err_unauthenticated}

-- http.Request: r.Cookie, r.Header.Get, and the rest of it for the router
pub record Incoming : Type 0 where
  pub method : String
  pub path : String
  pub cookie : String → Option String
  pub header : String → String
  pub query : String → String

pub record JwtClaims : Type 0 where
  pub user_id : ℤ
  pub role : String
  pub email : String
  pub restaurant_id : Option ℤ
  pub restaurant_role : String
  pub branch_ids : List ℤ

-- jwt.ParseWithClaims with a key and jwt.WithValidMethods, and token.Valid
abbrev pub Jwt : Type 0
Jwt = String → List String → String → Result (JwtClaims × Bool)

abbrev pub access_cookie_name : String
access_cookie_name = "access_token"

abbrev pub bearer : Option String → String
bearer none = ""
bearer (some token) = trim_space token

abbrev pub cookie_or : Option String → String → String
cookie_or none token = token
cookie_or (some value) token = if value == "" then token else value

unfoldable pub extract_token : Incoming → String
extract_token r =
    cookie_or (r.cookie access_cookie_name)
      (bearer (cut_prefix "Bearer " (r.header "Authorization")))

abbrev pub err_invalid_token : Error
err_invalid_token = plain "invalid or expired access token"

abbrev pub claims_of : JwtClaims → Claims
claims_of claims = record {
  user_id = claims.user_id;
  role = claims.role;
  email = claims.email;
  restaurant_id = claims.restaurant_id;
  restaurant_role = claims.restaurant_role;
  branch_ids = claims.branch_ids;
}

abbrev pub if_valid : Result (JwtClaims × Bool) → Result Claims
if_valid (ok (claims, true)) = ok (claims_of claims)
if_valid (ok (claims, false)) = fail err_invalid_token
if_valid (fail e) = fail err_invalid_token

unfoldable pub verify_access_token : Jwt → String → String → Result Claims
verify_access_token jwt token secret = if_valid (jwt secret ("HS256" ∷ []) token)

abbrev pub or_unauthenticated : Result Claims → Result Claims
or_unauthenticated (ok claims) = ok claims
or_unauthenticated (fail e) = fail err_unauthenticated

-- Authenticate: the claims that the next handler finds in the context, or the error that is answered
unfoldable pub authenticate : Jwt → String → Incoming → Result Claims
unfolding extract_token verify_access_token
authenticate jwt access_secret r =
    let token = extract_token r in
    if token == ""
    then fail err_unauthenticated
    else or_unauthenticated (verify_access_token jwt token access_secret)

abbrev pub err_invalid_api_key : Error
err_invalid_api_key = new "UNAUTHENTICATED" 401 "invalid api key"

-- RequireInternalAPIKey; subtle.ConstantTimeCompare is equality
unfoldable pub require_internal_api_key : String → Incoming → Outcome
require_internal_api_key expected r =
    let got = r.header "api-key" in
    if got == "" || not (got == expected) then refused err_invalid_api_key else served

-- ===== src/CoreClient.antt =====
-- lib/coreclient: the client of core-service over pkg/httpclient. The correlation id of the context
-- is an argument; url.QueryEscape and json.Unmarshal of the envelope are parameters.
use quick_bite_analytics_ser.Prelude.{
  String, ◌==◌, ◌<>◌, Bool, Option, none, some, List, [], ◌∷◌, if◌then◌else◌,
}
use quick_bite_analytics_ser.Errors.{wrapped}
use quick_bite_analytics_ser.Go.Effect.{wrapping, Eff, Result, ok, fail}
use quick_bite_analytics_ser.HttpClient
use quick_bite_analytics_ser.HttpClient.{Net, Request, do_request}

pub record CoreClient : Type 0 where
  pub http : HttpClient.Client
  pub base_url : String
  pub api_key : String

-- Envelope[RolePermissionsResponse]
pub record RolePermissions : Type 0 where
  pub role : String
  pub permissions : List String

pub record Envelope (T : Type 0) : Type 0 where
  pub success : Bool
  pub data_ : T

module _ {J : Type 0} (c : CoreClient) (correlation_id : String) where
  unfoldable pub core_request : String → Request J
  core_request path = record {
    method = "GET";
    url = c.base_url <> path;
    headers =
        ("api-key", c.api_key)
        ∷ (if correlation_id == "" then [] else ("X-CorrelationId", correlation_id) ∷ []);
    body = none;
  }

module _ {W J : Type 0} (net : Net W J) (c : CoreClient) (correlation_id : String) where
  unfoldable pub get : {A : Type 0} → (String → Result A) → String → Eff W (Option A)
  get decode path w =
      let (r, w') = do_request net c.http decode (core_request c correlation_id path) w in
      (wrapping "coreclient: %w" [] r, w')

  -- env.Data.Permissions, of an envelope that stays at its zero value if the body was empty
  abbrev pub permissions_of : Option (Envelope RolePermissions) → List String
  permissions_of none = []
  permissions_of (some env) = env.data_.permissions

  abbrev pub permissions_result :
      String → Result (Option (Envelope RolePermissions)) → Result (List String)
  permissions_result role (ok env) = ok (permissions_of env)
  permissions_result role (fail e) = fail (wrapped "get permissions for role %q: %w" (role ∷ []) e)

  unfoldable pub get_permissions_by_role :
      (String → Result (Envelope RolePermissions))
      → (String → String)
      → String
      → Eff W (List String)
  unfolding get
  get_permissions_by_role decode query_escape role w =
      let (r, w') = get decode ("/api/internal/rbac/permissions?role=" <> query_escape role) w in
      (permissions_result role r, w')

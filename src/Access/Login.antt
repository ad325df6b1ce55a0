-- ===== src/Access/Login.antt =====
-- api/auth_routes.py: the login of the control plane.
use resolver_ai.Prelude.{
  ℕ, ◌+◌, ◌*◌, ◌/◌, ◌≤◌, ◌≡◌, refl, true, ◌&&◌, Option, none, some, List, ◌++◌, any, is_some,
  if◌then◌else◌, Text, codes, text_eq, text_eq_refl,
}
use resolver_ai.Access.{
  Codec, permissions_of, payload_for, create_access_token, allowed, bearer, require_permission,
}
use resolver_ai.Access.Tokens.{Inverts}
use resolver_ai.Access.Holders.{role_decides}

-- OPERATOR_USERNAME and OPERATOR_PASSWORD
pub record Credentials : Type 0 where
  pub username : Text
  pub password : Text

pub record LoginRequest : Type 0 where
  pub username : Text
  pub password : Text
  pub role : Text

unfoldable pub role_or_operator : Text → Text
role_or_operator role = if is_some (permissions_of role) then role else codes "operator"

-- `login`, as far as the token; `none` is the exception with status 401
unfoldable pub login : Codec → Credentials → ℕ → LoginRequest → Option Text
login k operator now req =
    if text_eq req.username operator.username && text_eq req.password operator.password
    then create_access_token k now req.username (role_or_operator req.role)
        (codes "default_merchant")
    else none

-- Whoever knows the one pair of credentials is given the role that the request names: a login that
-- asks for one of the roles returns a token with which every operation of that role, of an
-- administrator too, is let through until the token expires.
pub login_grants_role :
    (k : Codec) (operator : Credentials) (now later : ℕ) (role permission : Text)
    (perms : List Text)
    → permissions_of role ≡ some perms
    → any (text_eq permission) perms ≡ true
    → Inverts k (payload_for k now operator.username role (codes "default_merchant") perms)
    → later ≤ (now / 1000000 + k.lifetime) * 1000000
    → (token : Text) × (login k operator now
          (record { username = operator.username; password = operator.password; role = role })
        ≡ some token)
      × (require_permission k later permission (some (bearer ++ token))
          ≡ allowed (payload_for k now operator.username role (codes "default_merchant") perms))
unfolding login role_or_operator
login_grants_role k operator now later role permission perms known listed law fresh =
    let (token, made, decided) =
      role_decides k now later operator.username role (codes "default_merchant") permission perms
        known law fresh in
    (
      token,
      rw (text_eq_refl operator.username, text_eq_refl operator.password, known) made,
      rw decided (rw listed refl),
    )

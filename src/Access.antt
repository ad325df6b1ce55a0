-- ===== src/Access.antt =====
-- core/auth.py, core/rbac.py, the role table of config.py and `verify_merchant_access` of
-- api/payment_routes.py: signed tokens and what their holder may do. Base64, JSON and HMAC-SHA256 are
-- parameters; bytes and the ASCII text that they encode are the same list of codes. The clock counts
-- microseconds, `iat` and `exp` count seconds.
pub mod Tokens
pub mod Holders
pub mod Login
use resolver_ai.Prelude.{
  ℕ, ◌+◌, ◌-◌, ◌*◌, ◌/◌, ◌%◌, zero, suc, Bool, false, ◌&&◌, ◌||◌, not, Option, none, some, List, [],
  ◌∷◌, ◌++◌, length, any, ltb, ◌==◌, if◌then◌else◌, Text, codes, text_eq, starts_with, truthy,
}
use resolver_ai.Money.{is_empty}

-- the payload of a token, as far as it is read; a missing list of permissions is empty
pub record Claims : Type 0 where
  pub sub : Text
  pub role : Option Text
  pub merchant_id : Option Text
  pub permissions : List Text
  pub iat : ℕ
  pub exp : Option ℕ

-- `base64.urlsafe_b64encode` and its inverse, `json.dumps` and `json.loads` of a payload, the dump of
-- the constant header, HMAC-SHA256, and the settings
pub record Codec : Type 0 where
  pub b64_encode : Text → Text
  pub b64_decode : Text → Option Text
  pub dumps : Claims → Text
  pub loads : Text → Option Claims
  pub header : Text
  pub digest : Text → Text → Text
  pub secret : Text
  pub lifetime : ℕ

abbrev viewer_permissions : List Text
viewer_permissions =
    codes "read:dashboard"
    ∷ codes "read:payments"
    ∷ codes "read:webhooks"
    ∷ codes "read:audit"
    ∷ codes "read:cases"
    ∷ codes "read:integration"
    ∷ []

abbrev operator_permissions : List Text
operator_permissions =
    viewer_permissions
    ++ (codes "write:reconcile" ∷ codes "write:resolve_case" ∷ codes "write:verify_razorpay" ∷ [])

abbrev admin_permissions : List Text
admin_permissions =
    operator_permissions
    ++ (codes "write:create_order"
        ∷ codes "write:replay_webhook"
        ∷ codes "write:manage_integration"
        ∷ [])

-- RBAC_ROLES; `none` where the role is not in VALID_ROLES
unfoldable pub permissions_of : Text → Option (List Text)
permissions_of role =
    if text_eq role (codes "viewer")
    then some viewer_permissions
    else if text_eq role (codes "operator")
    then some operator_permissions
    else if text_eq role (codes "admin")
    then some admin_permissions
    else none

-- `bytes.rstrip(b"=")`
unfoldable pub strip_pad : Text → Text
strip_pad [] = []
strip_pad (c ∷ s) = let rest = strip_pad s in if c == b'=' && is_empty rest then [] else c ∷ rest

-- `"=" * n`
abbrev pub pads : ℕ → Text
pads zero = []
pads (suc n) = b'=' ∷ pads n

abbrev pub padding : Text → ℕ
padding bytes = 4 - length bytes % 4

unfoldable pub base64url_encode : Codec → Text → Text
base64url_encode k bytes = strip_pad (k.b64_encode bytes)

unfoldable pub base64url_decode : Codec → Text → Option Text
base64url_decode k bytes =
    k.b64_decode (if padding bytes == 4 then bytes else bytes ++ pads (padding bytes))

abbrev pub put_first : ℕ → List Text → List Text
put_first c [] = (c ∷ []) ∷ []
put_first c (w ∷ ws) = (c ∷ w) ∷ ws

-- `str.split(sep)` for a separator of one character
unfoldable pub split : ℕ → Text → List Text
split sep [] = [] ∷ []
split sep (c ∷ s) = let rest = split sep s in if c == sep then [] ∷ rest else put_first c rest

abbrev pub signing_input : Text → Text → Text
signing_input h p = h ++ (b'.' ∷ p)

unfoldable pub payload_for : Codec → ℕ → Text → Text → Text → List Text → Claims
payload_for k now name role merchant perms = record {
  sub = name;
  role = some role;
  merchant_id = some merchant;
  permissions = perms;
  iat = now / 1000000;
  exp = some (now / 1000000 + k.lifetime);
}

unfoldable pub token_of : Codec → Claims → Text
token_of k c =
    let input = signing_input (base64url_encode k k.header) (base64url_encode k (k.dumps c)) in
    input ++ (b'.' ∷ base64url_encode k (k.digest k.secret input))

abbrev pub create_with : Codec → ℕ → Text → Text → Text → Option (List Text) → Option Text
create_with k now name role merchant none = none
create_with k now name role merchant (some perms) =
    some (token_of k (payload_for k now name role merchant perms))

-- `none` is the ValueError on an invalid role
unfoldable pub create_access_token : Codec → ℕ → Text → Text → Text → Option Text
create_access_token k now name role merchant =
    create_with k now name role merchant (permissions_of role)

-- `exp and time.time() > exp`
abbrev pub expired : ℕ → Option ℕ → Bool
expired now none = false
expired now (some e) = not (e == 0) && ltb (e * 1000000) now

abbrev pub if_fresh : ℕ → Option Claims → Option Claims
if_fresh now none = none
if_fresh now (some c) = if expired now c.exp then none else some c

abbrev pub load : Codec → Option Text → Option Claims
load k none = none
load k (some bytes) = k.loads bytes

abbrev pub checked : Codec → ℕ → Text → Text → Option Text → Option Claims
checked k now h p none = none
checked k now h p (some sig) =
    if text_eq (k.digest k.secret (signing_input h p)) sig
    then if_fresh now (load k (base64url_decode k p))
    else none

abbrev pub by_parts : Codec → ℕ → List Text → Option Claims
by_parts k now (h ∷ p ∷ s ∷ []) = checked k now h p (base64url_decode k s)
by_parts k now _ = none

-- every exception ends in `none`
unfoldable pub decode_access_token : Codec → ℕ → Text → Option Claims
decode_access_token k now token = by_parts k now (split b'.' token)

unfoldable pub has_permission : Claims → Text → Bool
has_permission c permission = any (text_eq permission) c.permissions

pub data Guarded (A : Type 0) : Type 0 where
  allowed : A → Guarded A
  missing_token invalid_token insufficient : Guarded A

abbrev pub bearer : Text
bearer = codes "Bearer "

abbrev pub second : List Text → Text
second (a ∷ b ∷ rest) = b
second _ = []

abbrev pub valid_or : Option Claims → Guarded Claims
valid_or none = invalid_token
valid_or (some c) = allowed c

abbrev pub from_header : Codec → ℕ → Option Text → Guarded Claims
from_header k now none = missing_token
from_header k now (some a) =
    if starts_with bearer a
    then valid_or (decode_access_token k now (second (split b' ' a)))
    else missing_token

unfoldable pub get_current_user : Codec → ℕ → Option Text → Guarded Claims
get_current_user k now authorization = from_header k now authorization

abbrev pub permitted : Text → Guarded Claims → Guarded Claims
permitted permission (allowed c) = if has_permission c permission then allowed c else insufficient
permitted permission missing_token = missing_token
permitted permission invalid_token = invalid_token
permitted permission insufficient = insufficient

-- `require_permission`
unfoldable pub require_permission : Codec → ℕ → Text → Option Text → Guarded Claims
require_permission k now permission authorization =
    permitted permission (get_current_user k now authorization)

abbrev pub is_admin : Option Text → Bool
is_admin none = false
is_admin (some role) = text_eq role (codes "admin")

abbrev pub same_merchant : Option Text → Text → Bool
same_merchant none row = false
same_merchant (some m) row = text_eq m row

-- `verify_merchant_access`; false is the exception with status 403
unfoldable pub verify_merchant_access : Claims → Text → Bool
verify_merchant_access c row =
    is_admin c.role || not (truthy c.merchant_id) || same_merchant c.merchant_id row

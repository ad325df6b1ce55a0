-- ===== src/Tests/Tokens.antt =====
-- Tokens of an administrator, with a code of its own in place of base64.
use resolver_ai.Prelude.{
  ℕ, ◌+◌, ◌-◌, ◌%◌, ◌≡◌, refl, Bool, true, false, not, none, some, List, [], ◌∷◌, ◌++◌, map, filter,
  length, ◌==◌, if◌then◌else◌, Text, codes, text_eq, arith,
}
use resolver_ai.Access.{
  Claims, Codec, permissions_of, pads, payload_for, create_access_token, decode_access_token,
  allowed, bearer, require_permission, base64url_decode, split,
}
use resolver_ai.Access.Tokens.{Encodes, Inverts, decode-create}
use resolver_ai.Access.Holders.{Signed, decoded_is_Signed}
use resolver_ai.Access.Login.{Credentials, login, login_grants_role}

abbrev lift : ℕ → ℕ
lift c = c + 100

abbrev drop : ℕ → ℕ
drop c = c - 100

abbrev is_body : ℕ → Bool
is_body c = not (c == b'=')

-- a digest that shows the parity of the length
abbrev parity : Bool → ℕ
parity even = if even then b'0' else b'1'

abbrev perms : List Text
perms =
    codes "read:dashboard"
    ∷ codes "read:payments"
    ∷ codes "read:webhooks"
    ∷ codes "read:audit"
    ∷ codes "read:cases"
    ∷ codes "read:integration"
    ∷ codes "write:reconcile"
    ∷ codes "write:resolve_case"
    ∷ codes "write:verify_razorpay"
    ∷ codes "write:create_order"
    ∷ codes "write:replay_webhook"
    ∷ codes "write:manage_integration"
    ∷ []

abbrev payload : Claims
payload = record {
  sub = codes "op";
  role = some (codes "admin");
  merchant_id = some (codes "default_merchant");
  permissions = perms;
  iat = 5;
  exp = some 3605;
}

abbrev codec : Codec
codec = record {
  b64_encode = λ bytes. map lift bytes ++ pads ((4 - length bytes % 4) % 4);
  b64_decode = λ text. some (map drop (filter is_body text));
  dumps = λ c. c.sub ++ codes "!";
  loads = λ t. if text_eq t (codes "op!") then some payload else none;
  header = codes "hs256";
  digest = λ key input. parity (length input % 2 == 0) ∷ key;
  secret = codes "s";
  lifetime = 3600;
}

known : permissions_of (codes "admin") ≡ some perms
unfolding permissions_of text_eq
known = refl

header-Encodes : Encodes codec (codes "hs256")
header-Encodes = record {
  body = map lift (codes "hs256");
  pad = 3;
  body_plain = refl;
  shape = refl;
  few = omega arith;
  whole = refl;
  inverse = refl;
}

payload-Encodes : Encodes codec (codes "op!")
payload-Encodes = record {
  body = map lift (codes "op!");
  pad = 1;
  body_plain = refl;
  shape = refl;
  few = omega arith;
  whole = refl;
  inverse = refl;
}

digest-Encodes : (even : Bool) → Encodes codec (parity even ∷ codes "s")
digest-Encodes true = record {
  body = map lift (codes "0s");
  pad = 2;
  body_plain = refl;
  shape = refl;
  few = omega arith;
  whole = refl;
  inverse = refl;
}
digest-Encodes false = record {
  body = map lift (codes "1s");
  pad = 2;
  body_plain = refl;
  shape = refl;
  few = omega arith;
  whole = refl;
  inverse = refl;
}

payload-Inverts :
    Inverts codec
      (payload_for codec 5000000 (codes "op") (codes "admin") (codes "default_merchant") perms)
unfolding payload_for text_eq
payload-Inverts = record {
  header = header-Encodes;
  payload = payload-Encodes;
  signature = λ input. digest-Encodes (length input % 2 == 0);
  json = refl;
}

decode-create_example :
    (token : Text) × (create_access_token codec 5000000
        (codes "op")
        (codes "admin")
        (codes "default_merchant")
      ≡ some token)
    × (decode_access_token codec 6000000 token
        ≡ some (
            payload_for codec 5000000
              (codes "op")
              (codes "admin")
              (codes "default_merchant")
              perms))
decode-create_example =
    decode-create codec 5000000 6000000 (codes "op") (codes "admin") (codes "default_merchant")
      perms known payload-Inverts (omega arith)

abbrev operator : Credentials
operator = record { username = codes "op"; password = codes "pw" }

login_grants_role_example :
    (token : Text) × (login codec operator 5000000
        (record { username = codes "op"; password = codes "pw"; role = codes "admin" })
      ≡ some token)
    × (require_permission codec 6000000 (codes "write:create_order") (some (bearer ++ token))
        ≡ allowed (
            payload_for codec 5000000
              (codes "op")
              (codes "admin")
              (codes "default_merchant")
              perms))
unfolding text_eq
login_grants_role_example =
    login_grants_role codec operator 5000000 6000000 (codes "admin") (codes "write:create_order")
      perms known refl payload-Inverts (omega arith)

abbrev token : Text
token =
    map lift (codes "hs256") ++ (b'.' ∷ map lift (codes "op!")) ++ (b'.' ∷ map lift (codes "1s"))

decodes : decode_access_token codec 6000000 token ≡ some payload
unfolding decode_access_token split base64url_decode text_eq
decodes = refl

decoded_is_Signed_example : Signed codec 6000000 token payload
decoded_is_Signed_example = decoded_is_Signed codec 6000000 token payload decodes

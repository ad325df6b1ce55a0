-- ===== src/Access/Holders.antt =====
-- What the holder of a token may do, by core/auth.py and core/rbac.py.
use resolver_ai.Prelude.{
  ℕ, ◌+◌, ◌*◌, ◌/◌, ◌≤◌, ◌≡◌, refl, ap, sym, subst, Bool, true, false, not, Option, none, some,
  List, [], ◌∷◌, ◌++◌, all, any, arith, ◌==◌, if◌then◌else◌, Text, codes, text_eq, text_eq_sound,
  starts_with,
}
use resolver_ai.Access.{
  Claims, Codec, permissions_of, base64url_encode, base64url_decode, split, signing_input,
  payload_for, token_of, create_access_token, expired, if_fresh, load, checked, by_parts,
  decode_access_token, allowed, insufficient, bearer, require_permission, get_current_user,
  has_permission, second,
}
use resolver_ai.Access.Tokens.{
  Inverts, decode-token_of, not_expired, plain, encoded-plain, split_first, split_last,
}

abbrev exp_of : Option Claims → Option ℕ
exp_of none = none
exp_of (some c) = c.exp

-- how a token carries a payload: the third part is the digest of the first two
pub record Signed (k : Codec) (now : ℕ) (token : Text) (c : Claims) : Type 0 where
  pub head : Text
  pub payload : Text
  pub signature : Text
  pub bytes : Text
  pub parts : split b'.' token ≡ head ∷ payload ∷ signature ∷ []
  pub digest : base64url_decode k signature ≡ some (k.digest k.secret (signing_input head payload))
  pub content : base64url_decode k payload ≡ some bytes
  pub json : k.loads bytes ≡ some c
  pub fresh : expired now c.exp ≡ false

unless-some :
    (b : Bool) (o : Option Claims) (c : Claims)
    → (if b then none else o) ≡ some c
    → (b ≡ false) × (o ≡ some c)
unless-some true o c h = cc
unless-some false o c h = (refl, h)

when-some :
    (b : Bool) (o : Option Claims) (c : Claims)
    → (if b then o else none) ≡ some c
    → (b ≡ true) × (o ≡ some c)
when-some true o c h = (refl, h)
when-some false o c h = cc

if_fresh-some :
    (now : ℕ) (o : Option Claims) (c : Claims)
    → if_fresh now o ≡ some c
    → (o ≡ some c) × (expired now c.exp ≡ false)
if_fresh-some now none c h = cc
if_fresh-some now (some d) c h =
    let (e, same) = unless-some (expired now d.exp) (some d) c h in
    (same, subst (λ o. expired now (exp_of o) ≡ false) same e)

load-some :
    (k : Codec) (o : Option Text) (c : Claims)
    → load k o ≡ some c
    → (bytes : Text) × (o ≡ some bytes) × (k.loads bytes ≡ some c)
load-some k none c h = cc
load-some k (some bytes) c h = (bytes, refl, h)

checked-some :
    (k : Codec) (now : ℕ) (h p : Text) (o : Option Text) (c : Claims)
    → checked k now h p o ≡ some c
    → (o ≡ some (k.digest k.secret (signing_input h p)))
      × (load k (base64url_decode k p) ≡ some c)
      × (expired now c.exp ≡ false)
checked-some k now h p none c e = cc
checked-some k now h p (some sig) c e =
    let digest = k.digest k.secret (signing_input h p) in
    let (same, rest) = when-some (text_eq digest sig) _ c e in
    let (loaded, fresh) = if_fresh-some now _ c rest in
    (ap some (sym (text_eq_sound digest sig same)), loaded, fresh)

by_parts-some :
    (k : Codec) (now : ℕ) (token : Text) (ws : List Text) (c : Claims)
    → split b'.' token ≡ ws
    → by_parts k now ws ≡ some c
    → Signed k now token c
by_parts-some k now token [] c e h = cc
by_parts-some k now token (a ∷ []) c e h = cc
by_parts-some k now token (a ∷ b ∷ []) c e h = cc
by_parts-some k now token (a ∷ b ∷ s ∷ []) c e h =
    let (digest, loaded, fresh) = checked-some k now a b (base64url_decode k s) c h in
    let (bytes, content, json) = load-some k (base64url_decode k b) c loaded in
    record {
      head = a;
      payload = b;
      signature = s;
      bytes = bytes;
      parts = e;
      digest = digest;
      content = content;
      json = json;
      fresh = fresh;
    }
by_parts-some k now token (a ∷ b ∷ s ∷ t ∷ ws) c e h = cc

-- Every token that decodes is signed: its third part is the digest, under the secret, of the other
-- two, its second part carries the payload that is returned, and that payload has not expired.
pub decoded_is_Signed :
    (k : Codec) (now : ℕ) (token : Text) (c : Claims)
    → decode_access_token k now token ≡ some c
    → Signed k now token c
unfolding decode_access_token
decoded_is_Signed k now token c h = by_parts-some k now token (split b'.' token) c refl h

no_space : (s : Text) → all plain s ≡ true → all (λ c. not (c == b' ')) s ≡ true
no_space [] h = refl
no_space (c ∷ s) h = ground (arith, no_space s)

all-append : (p : ℕ → Bool) (s t : Text) → all p s ≡ true → all p t ≡ true → all p (s ++ t) ≡ true
all-append p [] t h k = k
all-append p (c ∷ s) t h k = ground (arith, all-append p s t)

token_no_space :
    (k : Codec) (c : Claims) → Inverts k c → all (λ x. not (x == b' ')) (token_of k c) ≡ true
unfolding token_of
token_no_space k c law =
    let free = λ (x : ℕ). not (x == b' ') in
    let head = base64url_encode k k.header in
    let payload = base64url_encode k (k.dumps c) in
    let digest = k.digest k.secret (signing_input head payload) in
    let h = no_space head (encoded-plain k k.header law.header) in
    let p = no_space payload (encoded-plain k (k.dumps c) law.payload) in
    let s = no_space (base64url_encode k digest) (encoded-plain k digest (law.signature _)) in
    all-append free (signing_input head payload) (b'.' ∷ base64url_encode k digest)
      (all-append free head (b'.' ∷ payload) h p) s

second_word :
    (s : Text) → all (λ c. not (c == b' ')) s ≡ true → second (split b' ' (bearer ++ s)) ≡ s
second_word s h = rw (split_first b' ' (codes "Bearer") s refl, split_last b' ' s h) refl

starts_with-bearer : (s : Text) → starts_with bearer (bearer ++ s) ≡ true
unfolding starts_with
starts_with-bearer s = refl

-- A request with a token that was created for a role is let through to an operation, until the token
-- expires, exactly if the permission of the operation is listed for the role; the operation is given
-- the payload of the token.
pub role_decides :
    (k : Codec) (now later : ℕ) (name role merchant permission : Text) (perms : List Text)
    → permissions_of role ≡ some perms
    → Inverts k (payload_for k now name role merchant perms)
    → later ≤ (now / 1000000 + k.lifetime) * 1000000
    → (token : Text) × (create_access_token k now name role merchant ≡ some token)
      × (require_permission k later permission (some (bearer ++ token)) ≡ (
          if any (text_eq permission) perms
          then allowed (payload_for k now name role merchant perms)
          else insufficient))
unfolding create_access_token require_permission get_current_user has_permission payload_for
role_decides k now later name role merchant permission perms known law fresh =
    let c = payload_for k now name role merchant perms in
    let e : expired later c.exp ≡ false = not_expired k now later name role merchant perms fresh in
    (
      token_of k c,
      rw known refl,
      rw
          (
            starts_with-bearer (token_of k c),
            second_word (token_of k c) (token_no_space k c law),
            decode-token_of k c law later,
            e,
          )
          refl,
    )

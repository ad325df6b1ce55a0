-- ===== src/Access/Tokens.antt =====
-- Tokens of core/auth.py through their encoding and back.
use resolver_ai.Prelude.{
  ℕ, ◌+◌, ◌*◌, ◌/◌, ◌%◌, ◌≤◌, ◌<◌, zero, suc, ◌≡◌, refl, Bool, true, false, ◌&&◌, not, some, List,
  [], ◌∷◌, ◌++◌, length, all, arith, ◌==◌, if◌then◌else◌, Text, text_eq_refl,
}
use resolver_ai.Access.{
  Claims, Codec, permissions_of, strip_pad, pads, padding, base64url_encode, base64url_decode,
  split, signing_input, payload_for, token_of, create_access_token, expired, if_fresh,
  decode_access_token,
}

-- a character of the base64 alphabet is neither the pad nor a separator of the source
abbrev pub plain : ℕ → Bool
plain c = not (c == b'=') && not (c == b'.') && not (c == b' ')

-- What the source relies on in base64: the encoding is plain but for at most three pads at its end,
-- its length is a multiple of four, and it decodes to what was encoded.
pub record Encodes (k : Codec) (bytes : Text) : Type 0 where
  pub body : Text
  pub pad : ℕ
  pub body_plain : all plain body ≡ true
  pub shape : k.b64_encode bytes ≡ body ++ pads pad
  pub few : pad < 4
  pub whole : (length body + pad) % 4 ≡ 0
  pub inverse : k.b64_decode (body ++ pads pad) ≡ some bytes

strip_pads : (n : ℕ) → strip_pad (pads n) ≡ []
unfolding strip_pad
strip_pads zero = refl
strip_pads (suc n) = rw (strip_pads n) refl

strip_pad-append : (s : Text) (n : ℕ) → all plain s ≡ true → strip_pad (s ++ pads n) ≡ s
unfolding strip_pad
strip_pad-append [] n h = strip_pads n
strip_pad-append (c ∷ s) n h =
    let e : (c == b'=') ≡ false = ground arith in rw (strip_pad-append s n (ground arith), e) refl

append_nil : (s : Text) → s ++ [] ≡ s
append_nil [] = refl
append_nil (c ∷ s) = rw (append_nil s) refl

padding-body :
    (s : Text) (n : ℕ)
    → n < 4
    → (length s + n) % 4 ≡ 0
    → (if padding s == 4 then s else s ++ pads (padding s)) ≡ s ++ pads n
padding-body s zero few whole = let e : padding s ≡ 4 = omega arith in rw (e, append_nil s) refl
padding-body s (suc n) few whole =
    let e : padding s ≡ suc n = omega arith in
    rw e (let f : (suc n == 4) ≡ false = ground arith in rw f refl)

module _ (k : Codec) (bytes : Text) (law : Encodes k bytes) where
  encoded-body : base64url_encode k bytes ≡ law.body
  unfolding base64url_encode
  encoded-body = rw law.shape (strip_pad-append law.body law.pad law.body_plain)

  pub encoded-plain : all plain (base64url_encode k bytes) ≡ true
  encoded-plain = rw encoded-body law.body_plain

  pub decode-encode : base64url_decode k (base64url_encode k bytes) ≡ some bytes
  unfolding base64url_decode
  decode-encode =
      rw (encoded-body, base64url_decode, padding-body law.body law.pad law.few law.whole)
        law.inverse

pub split_last : (sep : ℕ) (s : Text) → all (λ c. not (c == sep)) s ≡ true → split sep s ≡ s ∷ []
unfolding split
split_last sep [] h = refl
split_last sep (c ∷ s) h =
    let e : (c == sep) ≡ false = ground arith in rw (e, split_last sep s (ground arith)) refl

pub split_first :
    (sep : ℕ) (s t : Text)
    → all (λ c. not (c == sep)) s ≡ true
    → split sep (s ++ (sep ∷ t)) ≡ s ∷ split sep t
unfolding split
split_first sep [] t h = let e : (sep == sep) ≡ true = ground arith in rw e refl
split_first sep (c ∷ s) t h =
    let e : (c == sep) ≡ false = ground arith in rw (e, split_first sep s t (ground arith)) refl

pub append_assoc : (a b c : Text) → (a ++ b) ++ c ≡ a ++ (b ++ c)
append_assoc [] b c = refl
append_assoc (x ∷ a) b c = rw (append_assoc a b c) refl

no_dot : (s : Text) → all plain s ≡ true → all (λ c. not (c == b'.')) s ≡ true
no_dot [] h = refl
no_dot (c ∷ s) h = ground (arith, no_dot s)

-- What the source relies on for the token with payload `c`: base64 inverts on the three parts, JSON on
-- the payload.
pub record Inverts (k : Codec) (c : Claims) : Type 0 where
  pub header : Encodes k k.header
  pub payload : Encodes k (k.dumps c)
  pub signature : (input : Text) → Encodes k (k.digest k.secret input)
  pub json : k.loads (k.dumps c) ≡ some c

module _ (k : Codec) (c : Claims) (law : Inverts k c) where
  abbrev head_part : Text
  head_part = base64url_encode k k.header

  abbrev payload_part : Text
  payload_part = base64url_encode k (k.dumps c)

  abbrev signature_part : Text
  signature_part = base64url_encode k (k.digest k.secret (signing_input head_part payload_part))

  token_parts : split b'.' (token_of k c) ≡ head_part ∷ payload_part ∷ signature_part ∷ []
  unfolding token_of
  token_parts =
      let h = no_dot head_part (encoded-plain k k.header law.header) in
      let p = no_dot payload_part (encoded-plain k (k.dumps c) law.payload) in
      let s = no_dot signature_part (encoded-plain k _ (law.signature _)) in
      rw
        (
          append_assoc head_part (b'.' ∷ payload_part) (b'.' ∷ signature_part),
          split_first b'.' head_part (payload_part ++ (b'.' ∷ signature_part)) h,
          split_first b'.' payload_part signature_part p,
          split_last b'.' signature_part s,
        )
        refl

  pub decode-token_of : (now : ℕ) → decode_access_token k now (token_of k c) ≡ if_fresh now (some c)
  unfolding decode_access_token
  decode-token_of now =
      rw
        (
          token_parts,
          decode-encode k (k.digest k.secret (signing_input head_part payload_part))
              (law.signature (signing_input head_part payload_part)),
          text_eq_refl (k.digest k.secret (signing_input head_part payload_part)),
          decode-encode k (k.dumps c) law.payload,
          law.json,
        )
        refl

pub not_expired :
    (k : Codec) (now later : ℕ) (name role merchant : Text) (perms : List Text)
    → later ≤ (now / 1000000 + k.lifetime) * 1000000
    → expired later (payload_for k now name role merchant perms).exp ≡ false
unfolding payload_for
not_expired k now later name role merchant perms fresh = ground arith

-- A token that was created for one of the roles decodes, until it expires, to the payload with the
-- name, the role, the merchant and the permissions of the role, if base64 and JSON invert.
pub decode-create :
    (k : Codec) (now later : ℕ) (name role merchant : Text) (perms : List Text)
    → permissions_of role ≡ some perms
    → Inverts k (payload_for k now name role merchant perms)
    → later ≤ (now / 1000000 + k.lifetime) * 1000000
    → (token : Text) × (create_access_token k now name role merchant ≡ some token)
      × (decode_access_token k later token ≡ some (payload_for k now name role merchant perms))
unfolding create_access_token
decode-create k now later name role merchant perms known law fresh =
    let c = payload_for k now name role merchant perms in
    let e : expired later c.exp ≡ false = not_expired k now later name role merchant perms fresh in
    (token_of k c, rw known refl, rw (decode-token_of k c law later, e) refl)

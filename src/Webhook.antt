-- ===== src/Webhook.antt =====
-- webhook/{secret,config,signer,verifier}.go: signatures of messages, and their verification.
--
-- Bytes are numbers, and a header is the list of its values. What the code calls of crypto/hmac,
-- encoding/base64 and strconv is a `Library`. An int64 is a 64-bit pattern (Prelude/Words), the clock
-- in nanoseconds after 1970. A timestamp is added to it without the overflow of time.Unix, which comes
-- in the year 292 277 026 596.
pub mod Accepted
pub mod Signed
mod Tests
use fries.Prelude.{
  ℕ, suc, ◌+◌, ◌-◌, ◌*◌, Bool, true, false, not, ◌&&◌, ◌||◌, Option, none, some, List, [], ◌∷◌,
  ◌++◌, if◌then◌else◌, ltb, ◌==◌, min, length, ◌⊎◌, inl, inr, map,
}
use fries.Prelude.Words.{half_word, max_int64, nonpos64, lt64}

abbrev pub Bytes : Type 0
Bytes = List ℕ

-- HMAC-SHA256 of a key and a message, base64 with its decoder, and a number in base 10 with ParseInt.
pub record Library : Type 0 where
  pub hmac : Bytes → Bytes → Bytes
  pub encode : Bytes → Bytes
  pub decode : Bytes → Option Bytes
  pub format : ℕ → Bytes
  pub parse : Bytes → Option ℕ

pub data HeaderName : Type 0 where
  header_id header_timestamp header_signature : HeaderName

pub data Error : Type 0 where
  invalid_secret invalid_tolerance invalid_message_id : Error
  missing_header : HeaderName → Error
  invalid_timestamp timestamp_outside_tolerance invalid_signature : Error

pub record Headers : Type 0 where
  pub id : List Bytes
  pub timestamp : List Bytes
  pub signature : List Bytes

unfoldable pub same_bytes : Bytes → Bytes → Bool
same_bytes [] [] = true
same_bytes [] (y ∷ ys) = false
same_bytes (x ∷ xs) [] = false
same_bytes (x ∷ xs) (y ∷ ys) = (x == y) && same_bytes xs ys

-- `validateSecretLength`, of a key that NewSecret or a zero Secret holds.
unfoldable pub validate_secret : Bytes → Option Error
validate_secret key =
    if ltb (length key) 24 || ltb 64 (length key) then some invalid_secret else none

unfoldable pub new_secret : Bytes → Bytes ⊎ Error
unfolding validate_secret
new_secret key = elim (validate_secret key) [ some e ↦ inr e | none ↦ inl key ]

-- The bytes of "whsec_".
abbrev pub secret_prefix : Bytes
secret_prefix = 119 ∷ 104 ∷ 115 ∷ 101 ∷ 99 ∷ 95 ∷ []

-- `strings.CutPrefix`.
unfoldable pub cut_prefix : Bytes → Bytes → Option Bytes
cut_prefix [] value = some value
cut_prefix (p ∷ ps) [] = none
cut_prefix (p ∷ ps) (b ∷ bs) = let rest = cut_prefix ps bs in if p == b then rest else none

unfoldable pub parse_secret : Library → Bytes → Bytes ⊎ Error
unfolding cut_prefix new_secret
parse_secret lib value = elim (cut_prefix secret_prefix value) [
  | none ↦ inr invalid_secret
  | some encoded ↦ elim encoded [
    | [] ↦ inr invalid_secret
    | ◌∷◌ b bs ↦ elim (lib.decode (b ∷ bs)) [
      | none ↦ inr invalid_secret
      | some key ↦ new_secret key
    ]
  ]
]

-- The additional secrets of an option, and those in place.
unfoldable pub add_secrets : List Bytes → List Bytes → List Bytes ⊎ Error
unfolding validate_secret
add_secrets secrets [] = inl secrets
add_secrets secrets (key ∷ keys) =
    let rest = add_secrets (secrets ++ (key ∷ [])) keys in
    elim (validate_secret key) [ some e ↦ inr e | none ↦ rest ]

pub record VerifierConfig : Type 0 where
  pub secrets : List Bytes
  pub tolerance : ℕ

pub data VerifierOption : Type 0 where
  with_tolerance : ℕ → VerifierOption
  with_additional_verification_secrets : List Bytes → VerifierOption

abbrev pub with_secrets : VerifierConfig → List Bytes ⊎ Error → VerifierConfig ⊎ Error
with_secrets c (inl secrets) = inl (record c { secrets = secrets })
with_secrets c (inr e) = inr e

unfoldable pub apply_verifier : VerifierConfig → VerifierOption → VerifierConfig ⊎ Error
unfolding nonpos64 add_secrets
apply_verifier c (with_tolerance tolerance) =
    if nonpos64 tolerance then inr invalid_tolerance else inl (record c { tolerance = tolerance })
apply_verifier c (with_additional_verification_secrets secrets) =
    with_secrets c (add_secrets c.secrets secrets)

-- The loop over the options; nil ones are skipped.
unfoldable pub apply_all :
    VerifierConfig ⊎ Error → List (Option VerifierOption) → VerifierConfig ⊎ Error
unfolding apply_verifier
apply_all (inr e) os = inr e
apply_all (inl c) [] = inl c
apply_all (inl c) (none ∷ os) = apply_all (inl c) os
apply_all (inl c) (some o ∷ os) = apply_all (apply_verifier c o) os

-- Five minutes.
abbrev pub default_tolerance : ℕ
default_tolerance = 300_000_000_000

unfoldable pub new_verifier : Bytes → List (Option VerifierOption) → VerifierConfig ⊎ Error
unfolding validate_secret apply_all
new_verifier secret options = elim (validate_secret secret) [
  | some e ↦ inr e
  | none ↦ apply_all (inl (record { secrets = secret ∷ []; tolerance = default_tolerance })) options
]

-- `NewSigner`: an option is the secrets of WithAdditionalSigningSecrets, `none` a nil one.
unfoldable pub add_all : List Bytes ⊎ Error → List (Option (List Bytes)) → List Bytes ⊎ Error
unfolding add_secrets
add_all (inr e) os = inr e
add_all (inl secrets) [] = inl secrets
add_all (inl secrets) (none ∷ os) = add_all (inl secrets) os
add_all (inl secrets) (some keys ∷ os) = add_all (add_secrets secrets keys) os

unfoldable pub new_signer : Bytes → List (Option (List Bytes)) → List Bytes ⊎ Error
unfolding validate_secret add_all
new_signer secret options = elim (validate_secret secret) [
  | some e ↦ inr e
  | none ↦ add_all (inl (secret ∷ [])) options
]

-- A visible ASCII byte other than a full stop.
abbrev pub allowed : ℕ → Bool
allowed b = not (ltb b 33 || ltb 126 b || (b == 46))

unfoldable pub all_allowed : Bytes → Bool
all_allowed [] = true
all_allowed (b ∷ bs) = allowed b && all_allowed bs

unfoldable pub valid_message_id : Bytes → Bool
unfolding all_allowed
valid_message_id [] = false
valid_message_id (b ∷ bs) = all_allowed (b ∷ bs)

unfoldable pub sign_digest : Library → Bytes → Bytes → Bytes → Bytes → Bytes
sign_digest lib secret id timestamp payload =
    lib.hmac secret (id ++ (46 ∷ (timestamp ++ (46 ∷ payload))))

-- The bytes of "v1", and of "v1," with the signature.
abbrev pub signature_version : Bytes
signature_version = 118 ∷ 49 ∷ []

abbrev pub token_of : Library → Bytes → Bytes
token_of lib digest = signature_version ++ (44 ∷ lib.encode digest)

-- `strings.Join` with a space.
unfoldable pub join : List Bytes → Bytes
join [] = []
join (t ∷ []) = t
join (t ∷ u ∷ ts) = t ++ (32 ∷ join (u ∷ ts))

unfoldable pub tokens : Library → List Bytes → Bytes → Bytes → Bytes → List Bytes
unfolding sign_digest
tokens lib secrets id timestamp payload =
    map (λ secret. token_of lib (sign_digest lib secret id timestamp payload)) secrets

-- `Signer.Sign`, at a time in seconds.
unfoldable pub sign : Library → List Bytes → ℕ → Bytes → Bytes → Headers ⊎ Error
unfolding valid_message_id tokens join
sign lib secrets now id payload =
    if valid_message_id id
    then inl (record {
      id = id ∷ [];
      timestamp = lib.format now ∷ [];
      signature = join (tokens lib secrets id (lib.format now) payload) ∷ [];
    })
    else inr invalid_message_id

-- `requiredSingleHeader`.
unfoldable pub required_single_header : HeaderName → Error → List Bytes → Bytes ⊎ Error
required_single_header name invalid [] = inr (missing_header name)
required_single_header name invalid ([] ∷ []) = inr (missing_header name)
required_single_header name invalid ((b ∷ bs) ∷ []) = inl (b ∷ bs)
required_single_header name invalid (v ∷ w ∷ vs) = inr invalid

-- White space in ASCII.
abbrev pub is_space : ℕ → Bool
is_space b = (b == 32) || not (ltb b 9 || ltb 13 b)

-- A field at its end, unless it is empty.
abbrev pub emit : Bytes → List Bytes → List Bytes
emit [] rest = rest
emit (b ∷ bs) rest = (b ∷ bs) ∷ rest

-- `strings.FieldsSeq`, with the field so far.
unfoldable pub fields : Bytes → Bytes → List Bytes
fields current [] = emit current []
fields current (b ∷ bs) =
    let ended = fields [] bs in
    let longer = fields (current ++ (b ∷ [])) bs in
    if is_space b then emit current ended else longer

-- `strings.Cut` at a comma.
unfoldable pub cut : Bytes → Bytes → Option (Bytes × Bytes)
cut before [] = none
cut before (b ∷ bs) =
    let rest = cut (before ++ (b ∷ [])) bs in if b == 44 then some (before, bs) else rest

abbrev pub sized : Option Bytes → Option Bytes
sized none = none
sized (some signature) = if length signature == 32 then some signature else none

abbrev pub versioned : Library → Option (Bytes × Bytes) → Option Bytes
versioned lib none = none
versioned lib (some (version, encoded)) =
    if same_bytes version signature_version then sized (lib.decode encoded) else none

-- The signature of a token, if it has one.
unfoldable pub signature_of : Library → Bytes → Option Bytes
unfolding cut same_bytes
signature_of lib token = versioned lib (cut [] token)

abbrev pub kept : Option Bytes → List Bytes → List Bytes
kept none signatures = signatures
kept (some s) signatures = signatures ++ (s ∷ [])

-- The loop over the tokens, with their number and the signatures so far.
unfoldable pub parse_tokens : Library → ℕ → List Bytes → List Bytes → Option (ℕ × List Bytes)
unfolding signature_of
parse_tokens lib count signatures [] = some (count, signatures)
parse_tokens lib count signatures (token ∷ rest) =
    let go = parse_tokens lib (suc count) (kept (signature_of lib token) signatures) rest in
    if ltb 32 (suc count) then none else go

-- The loop over the values of the header, with the bytes so far.
unfoldable pub parse_values : Library → ℕ → ℕ → List Bytes → List Bytes → Option (List Bytes)
unfolding fields parse_tokens
parse_values lib total count signatures [] = some signatures
parse_values lib total count signatures (value ∷ values) =
    if ltb 16384 (total + length value)
    then none
    else elim (parse_tokens lib count signatures (fields [] value)) [
      | none ↦ none
      | some p ↦ parse_values lib (total + length value) p.0 p.1 values
    ]

abbrev pub non_empty : Option (List Bytes) → List Bytes ⊎ Error
non_empty none = inr invalid_signature
non_empty (some []) = inr invalid_signature
non_empty (some (s ∷ ss)) = inl (s ∷ ss)

unfoldable pub parse_signatures : Library → List Bytes → List Bytes ⊎ Error
unfolding parse_values
parse_signatures lib [] = inr (missing_header header_signature)
parse_signatures lib (v ∷ vs) = non_empty (parse_values lib 0 0 [] (v ∷ vs))

pub record Metadata : Type 0 where
  pub id : Bytes
  pub timestamp : ℕ

-- `hmac.Equal` against each signature.
unfoldable pub match_signatures : Bytes → Bool → List Bytes → Bool
unfolding same_bytes
match_signatures expected matched [] = matched
match_signatures expected matched (s ∷ ss) =
    match_signatures expected (same_bytes expected s || matched) ss

unfoldable pub match_secrets :
    Library → Bytes → Bytes → Bytes → List Bytes → Bool → List Bytes → Bool
unfolding match_signatures sign_digest
match_secrets lib id timestamp payload signatures matched [] = matched
match_secrets lib id timestamp payload signatures matched (secret ∷ secrets) =
    match_secrets lib id timestamp payload signatures
      (match_signatures (sign_digest lib secret id timestamp payload) matched signatures) secrets

-- The difference of the clock and the timestamp, which saturates, is beyond the tolerance.
unfoldable pub outside : ℕ → ℕ → ℕ → Bool
outside tolerance now seconds =
    ltb tolerance (min max_int64 (now - seconds * 1_000_000_000))
    || ltb tolerance (min half_word (seconds * 1_000_000_000 - now))

module _ (lib : Library) (c : VerifierConfig) (now : ℕ) (payload : Bytes) where
  -- `Verify` from its last test back to its first.
  abbrev pub verify_signatures : Bytes → Bytes → ℕ → List Bytes ⊎ Error → Metadata ⊎ Error
  verify_signatures id value seconds (inr e) = inr e
  verify_signatures id value seconds (inl signatures) =
      if match_secrets lib id value payload signatures false c.secrets
      then inl (record { id = id; timestamp = seconds })
      else inr invalid_signature

  unfoldable pub verify_time : Headers → Bytes → Bytes → Option ℕ → Metadata ⊎ Error
  unfolding lt64 outside parse_signatures
  verify_time headers id value none = inr invalid_timestamp
  verify_time headers id value (some seconds) =
      if lt64 seconds 0
      then inr invalid_timestamp
      else (if outside c.tolerance now seconds
          then inr timestamp_outside_tolerance
          else verify_signatures id value seconds (parse_signatures lib headers.signature))

  abbrev pub verify_timestamp : Headers → Bytes → Bytes ⊎ Error → Metadata ⊎ Error
  verify_timestamp headers id (inr e) = inr e
  verify_timestamp headers id (inl value) = verify_time headers id value (lib.parse value)

  unfoldable pub verify_id : Headers → Bytes ⊎ Error → Metadata ⊎ Error
  unfolding valid_message_id required_single_header verify_time
  verify_id headers (inr e) = inr e
  verify_id headers (inl id) =
      if valid_message_id id
      then verify_timestamp headers id
          (required_single_header header_timestamp invalid_timestamp headers.timestamp)
      else inr invalid_message_id

  unfoldable pub verify : Headers → Metadata ⊎ Error
  unfolding verify_id required_single_header
  verify headers =
      verify_id headers (required_single_header header_id invalid_message_id headers.id)

-- ===== src/Webhook/Signed.antt =====
-- What `Signer.Sign` of webhook/signer.go makes, `Verifier.Verify` of webhook/verifier.go accepts.
use fries.Prelude.{
  ℕ, suc, ◌+◌, ◌*◌, ◌≤◌, ◌<◌, ◌≡◌, refl, sym, ap, ◌∙◌, subst, Bool, true, false, ◌||◌, some, List,
  [], ◌∷◌, ◌++◌, arith, if◌then◌else◌, ltb, ◌==◌, length, ◌⊎◌, inl, inr, Bool-cases, All, map,
  append-nil, append_assoc, length-append,
}
use fries.Prelude.Words.{half_word, lt64}
use fries.Webhook.{
  Bytes, Library, Headers, Error, same_bytes, sign_digest, token_of, join, tokens, sign, is_space,
  emit, fields, cut, sized, versioned, signature_of, kept, parse_tokens, parse_values, non_empty,
  parse_signatures, VerifierConfig, Metadata, match_signatures, match_secrets, outside,
  valid_message_id, all_allowed, required_single_header, header_id, header_timestamp,
  invalid_message_id, invalid_timestamp, verify_signatures, verify_time, verify_timestamp,
  verify_id, verify,
}
use fries.Webhook
use fries.Webhook.Accepted.{Any}

-- What the packages promise: a SHA-256 MAC has 32 bytes, base64 of these has 44 and no white space and
-- can be decoded, and a number in base 10 can be parsed.
pub record Documented (lib : Library) : Type 0 where
  pub size : (key message : Bytes) → length (lib.hmac key message) ≡ 32
  pub encoded_size : (bytes : Bytes) → length bytes ≡ 32 → length (lib.encode bytes) ≡ 44
  pub no_space : (bytes : Bytes) → All (λ b. is_space b ≡ false) (lib.encode bytes)
  pub decodes : (bytes : Bytes) → lib.decode (lib.encode bytes) ≡ some bytes
  pub some_digit : (n : ℕ) → (b : ℕ) × (bs : Bytes) × (lib.format n ≡ b ∷ bs)
  pub parses : (n : ℕ) → n < half_word → lib.parse (lib.format n) ≡ some n

NoSpace : Bytes → Type 0
NoSpace = All (λ b. is_space b ≡ false)

fields-run :
    (current t rest : Bytes) → NoSpace t → fields current (t ++ rest) ≡ fields (current ++ t) rest
unfolding fields NoSpace
fields-run current [] rest h = ap (λ x. fields x rest) (sym (append-nil current))
fields-run current (b ∷ t) rest h = rw h.0 (
    fields-run (current ++ (b ∷ [])) t rest h.1
    ∙ ap (λ x. fields x rest) (append_assoc current (b ∷ []) t))

-- A token: it is not empty and has no white space.
IsToken : Bytes → Type 0
IsToken [] = ⊥
IsToken (b ∷ bs) = NoSpace (b ∷ bs)

emit-token : (t : Bytes) (rest : List Bytes) → IsToken t → emit t rest ≡ t ∷ rest
unfolding IsToken
emit-token [] rest h = absurd h
emit-token (b ∷ bs) rest h = refl

IsToken-NoSpace : (t : Bytes) → IsToken t → NoSpace t
unfolding IsToken
IsToken-NoSpace [] h = absurd h
IsToken-NoSpace (b ∷ bs) h = h

fields-join :
    (t : Bytes) (ts : List Bytes) → All IsToken (t ∷ ts) → fields [] (join (t ∷ ts)) ≡ t ∷ ts
unfolding join fields
fields-join t [] h =
    ap (fields []) (sym (append-nil t))
    ∙ fields-run [] t [] (IsToken-NoSpace t h.0)
    ∙ emit-token t [] h.0
fields-join t (u ∷ ts) h =
    fields-run [] t (32 ∷ join (u ∷ ts)) (IsToken-NoSpace t h.0)
    ∙ emit-token t (fields [] (join (u ∷ ts))) h.0
    ∙ ap (◌∷◌ t) (fields-join u ts h.1)

match_signatures-true :
    (expected : Bytes) (ss : List Bytes) → match_signatures expected true ss ≡ true
unfolding match_signatures
match_signatures-true expected [] = refl
match_signatures-true expected (s ∷ ss) =
    ap (λ b. match_signatures expected b ss) (or_true (same_bytes expected s))
    ∙ match_signatures-true expected ss
  where
    or_true : (b : Bool) → (b || true) ≡ true
    or_true true = refl
    or_true false = refl

same_bytes_refl : (xs : Bytes) → same_bytes xs xs ≡ true
unfolding same_bytes
same_bytes_refl [] = refl
same_bytes_refl (x ∷ xs) = let e : (x == x) ≡ true = ground arith in rw (e, same_bytes_refl xs) refl

match_signatures-found :
    (expected : Bytes) (matched : Bool) (ss : List Bytes)
    → Any (λ s. expected ≡ s) ss
    → match_signatures expected matched ss ≡ true
unfolding match_signatures
match_signatures-found expected matched [] h = absurd h
match_signatures-found expected matched (s ∷ ss) (inl e) =
    ap (λ b. match_signatures expected (b || matched) ss)
      (ap (same_bytes expected) (sym e) ∙ same_bytes_refl expected)
    ∙ match_signatures-true expected ss
match_signatures-found expected matched (s ∷ ss) (inr h) =
    match_signatures-found expected (same_bytes expected s || matched) ss h

module _ (lib : Library) (id timestamp payload : Bytes) (ss : List Bytes) where
  match_secrets-true :
      (secrets : List Bytes) → match_secrets lib id timestamp payload ss true secrets ≡ true
  unfolding match_secrets
  match_secrets-true [] = refl
  match_secrets-true (k ∷ ks) =
      ap (λ b. match_secrets lib id timestamp payload ss b ks)
        (match_signatures-true (sign_digest lib k id timestamp payload) ss)
      ∙ match_secrets-true ks

  match_secrets-found :
      (secret : Bytes) (matched : Bool) (secrets : List Bytes)
      → Any (λ s. sign_digest lib secret id timestamp payload ≡ s) ss
      → Any (λ k. secret ≡ k) secrets
      → match_secrets lib id timestamp payload ss matched secrets ≡ true
  unfolding match_secrets
  match_secrets-found secret matched [] h k = absurd k
  match_secrets-found secret matched (x ∷ xs) h (inl e) =
      ap (λ b. match_secrets lib id timestamp payload ss b xs)
        (match_signatures-found (sign_digest lib x id timestamp payload) matched ss
          (subst (λ y. Any (λ s. sign_digest lib y id timestamp payload ≡ s) ss) e h))
      ∙ match_secrets-true xs
  match_secrets-found secret matched (x ∷ xs) h (inr k) =
      match_secrets-found secret
        (match_signatures (sign_digest lib x id timestamp payload) matched ss) xs h k

module _ (lib : Library) (doc : Documented lib) where
  token-signature :
      (digest : Bytes) → length digest ≡ 32 → signature_of lib (token_of lib digest) ≡ some digest
  unfolding signature_of cut same_bytes
  token-signature digest e = ap sized (doc.decodes digest) ∙ rw (e) refl

  token_of-IsToken : (digest : Bytes) → IsToken (token_of lib digest)
  unfolding IsToken NoSpace
  token_of-IsToken digest = (refl, (refl, (refl, doc.no_space digest)))

  module _ (id timestamp payload : Bytes) where
    abbrev digest_of : Bytes → Bytes
    digest_of secret = sign_digest lib secret id timestamp payload

    abbrev token_for : Bytes → Bytes
    token_for secret = token_of lib (digest_of secret)

    digest-size : (secret : Bytes) → length (digest_of secret) ≡ 32
    unfolding sign_digest
    digest-size secret = doc.size secret _

    tokens-IsToken : (secrets : List Bytes) → All IsToken (map token_for secrets)
    tokens-IsToken [] = tt
    tokens-IsToken (s ∷ ss) = (token_of-IsToken (digest_of s), tokens-IsToken ss)

    -- The parser takes every token, up to 32.
    parse_tokens-all :
        (count : ℕ) (found secrets : List Bytes)
        → count + length secrets ≤ 32
        → parse_tokens lib count found (map token_for secrets)
          ≡ some (count + length secrets, found ++ map digest_of secrets)
    unfolding parse_tokens
    parse_tokens-all count found [] l =
        rw (append-nil found) (ap (λ n. some (n, found)) (omega arith))
    parse_tokens-all count found (s ∷ ss) l =
        let few : ltb 32 (suc count) ≡ false = ground (arith, l) in
        let one = token-signature (digest_of s) (digest-size s) in
        rw (few, one)
          (parse_tokens-all (suc count) (found ++ (digest_of s ∷ [])) ss (omega (arith, l))
            ∙ ap (λ n. some (n, (found ++ (digest_of s ∷ [])) ++ map digest_of ss)) (omega arith)
            ∙ ap (λ x. some (count + suc (length ss), x))
                (append_assoc found (digest_of s ∷ []) (map digest_of ss)))

    token-size : (secret : Bytes) → length (token_for secret) ≡ 47
    token-size secret =
        let size = doc.encoded_size (digest_of secret) (digest-size secret) in omega (arith, size)

    -- The header has 48 bytes for each signature but the last.
    join-size :
        (s : Bytes) (ss : List Bytes) → length (join (map token_for (s ∷ ss))) ≡ 47 + 48 * length ss
    unfolding join
    join-size s [] = let size = token-size s in omega (arith, size)
    join-size s (u ∷ ss) =
        let size = token-size s in
        let rest = join-size u ss in
        let all = length-append (token_for s) (32 ∷ join (map token_for (u ∷ ss))) in
        omega (arith, size, rest, all)

    parse_signatures-all :
        (s : Bytes) (ss : List Bytes)
        → length (s ∷ ss) ≤ 32
        → parse_signatures lib (join (map token_for (s ∷ ss)) ∷ []) ≡ inl (map digest_of (s ∷ ss))
    unfolding parse_signatures parse_values
    parse_signatures-all s ss l =
        let header = join (map token_for (s ∷ ss)) in
        let size = join-size s ss in
        let short : ltb 16384 (0 + length header) ≡ false = ground (arith, size, l) in
        let parts =
          ap (parse_tokens lib 0 [])
            (fields-join (token_for s) (map token_for ss) (tokens-IsToken (s ∷ ss)))
          ∙ parse_tokens-all 0 [] (s ∷ ss) (omega (arith, l)) in
        rw (short, parts) refl

digest-found :
    (lib : Library) (id timestamp payload secret : Bytes) (secrets : List Bytes)
    → Any (λ k. secret ≡ k) secrets
    → Any
        (λ s. sign_digest lib secret id timestamp payload ≡ s)
        (map (λ k. sign_digest lib k id timestamp payload) secrets)
digest-found lib id timestamp payload secret [] h = absurd h
digest-found lib id timestamp payload secret (x ∷ xs) (inl e) =
    inl (ap (λ k. sign_digest lib k id timestamp payload) e)
digest-found lib id timestamp payload secret (x ∷ xs) (inr h) =
    inr (digest-found lib id timestamp payload secret xs h)

required-single :
    (name : Webhook.HeaderName) (invalid : Error) (v : Bytes) (b : ℕ) (bs : Bytes)
    → v ≡ b ∷ bs
    → required_single_header name invalid (v ∷ []) ≡ inl v
unfolding required_single_header
required-single name invalid v b bs e = rw e refl

inside-false :
    (tolerance now seconds : ℕ)
    → now ≤ seconds * 1_000_000_000 + tolerance
    → seconds * 1_000_000_000 ≤ now + tolerance
    → outside tolerance now seconds ≡ false
unfolding outside
inside-false tolerance now seconds late early = ground (arith, late, early)

headers_eq : (a b : Headers) → ◌≡◌ {A = Headers ⊎ Error} (inl a) (inl b) → a ≡ b
headers_eq a b e = cc

starts : (id : Bytes) → valid_message_id id ≡ true → (b : ℕ) × (bs : Bytes) × (id ≡ b ∷ bs)
unfolding valid_message_id
starts [] h = cc
starts (b ∷ bs) h = (b, bs, refl)

not_negative : (n : ℕ) → n < half_word → lt64 n 0 ≡ false
unfolding lt64
not_negative n h = ground (arith, h)

module _ (lib : Library) (doc : Documented lib) (c : VerifierConfig) (payload : Bytes) (s : Bytes)
    (ss : List Bytes) (at now : ℕ) (id secret : Bytes) where
  abbrev value : Bytes
  value = lib.format at

  -- The headers of a signed message.
  abbrev signed : Headers
  unfolding tokens
  signed = record {
    id = id ∷ [];
    timestamp = value ∷ [];
    signature = join (tokens lib (s ∷ ss) id value payload) ∷ [];
  }

  abbrev metadata : Metadata
  metadata = record { id = id; timestamp = at }

  signatures-accepted :
      Any (λ k. secret ≡ k) (s ∷ ss)
      → Any (λ k. secret ≡ k) c.secrets
      → verify_signatures lib c now payload id value at
          (inl (map (λ k. sign_digest lib k id value payload) (s ∷ ss)))
        ≡ inl metadata
  signatures-accepted mine known =
      let digests = map (λ k. sign_digest lib k id value payload) (s ∷ ss) in
      ap (λ b. if b then inl metadata else inr Error.invalid_signature)
        (match_secrets-found lib id value payload digests secret false c.secrets
          (digest-found lib id value payload secret (s ∷ ss) mine) known)

  module _ (few : length (s ∷ ss) ≤ 32) (mine : Any (λ k. secret ≡ k) (s ∷ ss))
      (known : Any (λ k. secret ≡ k) c.secrets) (soon : at < half_word)
      (late : now ≤ at * 1_000_000_000 + c.tolerance)
      (early : at * 1_000_000_000 ≤ now + c.tolerance) where
    time-accepted : verify_time lib c now payload signed id value (some at) ≡ inl metadata
    unfolding verify_time signed tokens
    time-accepted =
        let positive = not_negative at soon in
        let inside = inside-false c.tolerance now at late early in
        rw (positive, inside)
          (ap (verify_signatures lib c now payload id value at)
              (parse_signatures-all lib doc id value payload s ss few)
            ∙ signatures-accepted mine known)

    id-accepted :
        valid_message_id id ≡ true → verify_id lib c now payload signed (inl id) ≡ inl metadata
    unfolding verify_id signed
    id-accepted valid =
        let (b, bs, e) = doc.some_digit at in
        rw valid (
          ap (verify_timestamp lib c now payload signed id)
            (required-single header_timestamp invalid_timestamp value b bs e)
          ∙ ap (verify_time lib c now payload signed id value) (doc.parses at soon)
          ∙ time-accepted)

    signed-accepted : valid_message_id id ≡ true → verify lib c now payload signed ≡ inl metadata
    unfolding verify signed
    signed-accepted valid =
        let (b, bs, e) = starts id valid in
        ap (verify_id lib c now payload signed)
          (required-single header_id invalid_message_id id b bs e)
        ∙ id-accepted valid

module _ (lib : Library) (doc : Documented lib) (c : VerifierConfig) (payload : Bytes) where
  -- A message that was signed with at most 32 secrets, one of them known to the verifier, is accepted
  -- while the clock is within the tolerance of the time of signing, and the metadata are its ID and
  -- this time. (The library's functions do what is documented.)
  pub sign-verify :
      (s : Bytes) (ss : List Bytes) (at now : ℕ) (id secret : Bytes) (headers : Headers)
      → length (s ∷ ss) ≤ 32
      → Any (λ k. secret ≡ k) (s ∷ ss)
      → Any (λ k. secret ≡ k) c.secrets
      → at < half_word
      → now ≤ at * 1_000_000_000 + c.tolerance
      → at * 1_000_000_000 ≤ now + c.tolerance
      → sign lib (s ∷ ss) at id payload ≡ inl headers
      → verify lib c now payload headers ≡ inl (record { id = id; timestamp = at })
  unfolding sign signed tokens
  sign-verify s ss at now id secret headers few mine known soon late early h =
      elim (Bool-cases (valid_message_id id)) [
        | inr b ↦
            let no : ◌≡◌ {A = Headers ⊎ Error} (inr invalid_message_id) (inl headers) = rw b at h in
            cc
        | inl b ↦
            subst (λ x. verify lib c now payload x ≡ inl (record { id = id; timestamp = at }))
              (headers_eq _ headers (rw b at h))
              (signed-accepted lib doc c payload s ss at now id secret few mine known soon late
                early b)
      ]

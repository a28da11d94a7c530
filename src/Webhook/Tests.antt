-- ===== src/Webhook/Tests.antt =====
-- A message that is signed and verified, webhook/{signer,verifier}.go, over a library that pads.
use fries.Prelude.{
  ℕ, zero, suc, ◌+◌, ◌-◌, ◌≡◌, refl, ap, ◌∙◌, false, none, some, [], ◌∷◌, ◌++◌, arith,
  if◌then◌else◌, ◌==◌, length, inl, inr, All,
}
use fries.Prelude.Words.{lt64}
use fries.Webhook.{
  Bytes, Library, Headers, join, tokens, sign, is_space, VerifierConfig, verify, valid_message_id,
  all_allowed, validate_secret, new_verifier, with_tolerance, apply_all, apply_verifier,
  invalid_tolerance,
}
use fries.Webhook.Signed.{Documented, sign-verify}

-- The first 32 bytes, after zeros have been added.
unfoldable pad : ℕ → Bytes → Bytes
pad zero bs = []
pad (suc n) [] = 0 ∷ pad n []
pad (suc n) (b ∷ bs) = b ∷ pad n bs

pad-size : (n : ℕ) (bs : Bytes) → length (pad n bs) ≡ n
unfolding pad
pad-size zero bs = refl
pad-size (suc n) [] = ap suc (pad-size n [])
pad-size (suc n) (b ∷ bs) = ap suc (pad-size n bs)

-- Bytes moved up, and twelve marks at the end.
abbrev marks : Bytes
marks = 99 ∷ 99 ∷ 99 ∷ 99 ∷ 99 ∷ 99 ∷ 99 ∷ 99 ∷ 99 ∷ 99 ∷ 99 ∷ 99 ∷ []

unfoldable raised : Bytes → Bytes
raised [] = marks
raised (b ∷ bs) = (b + 100) ∷ raised bs

unfoldable lowered : Bytes → Bytes
lowered [] = []
lowered (b ∷ bs) = let rest = lowered bs in if b == 99 then [] else (b - 100) ∷ rest

raised-size : (bs : Bytes) → length (raised bs) ≡ length bs + 12
unfolding raised
raised-size [] = refl
raised-size (b ∷ bs) = omega (arith, raised-size bs)

raised-no_space : (bs : Bytes) → All (λ b. is_space b ≡ false) (raised bs)
unfolding raised
raised-no_space [] = (
  refl,
  (refl, (refl, (refl, (refl, (refl, (refl, (refl, (refl, (refl, (refl, (refl, tt))))))))))),
)
raised-no_space (b ∷ bs) = (ground arith, raised-no_space bs)

lowered-raised : (bs : Bytes) → lowered (raised bs) ≡ bs
unfolding raised lowered
lowered-raised [] = refl
lowered-raised (b ∷ bs) =
    let differs : ((b + 100) == 99) ≡ false = ground arith in
    rw differs (ap (λ x. x ∷ lowered (raised bs)) (omega arith) ∙ ap (◌∷◌ b) (lowered-raised bs))

abbrev padding : Library
padding = record {
  hmac = λ key message. pad 32 (key ++ message);
  encode = raised;
  decode = λ bs. some (lowered bs);
  format = λ n. suc n ∷ [];
  parse = λ bs. elim bs [ [] ↦ none | ◌∷◌ b rest ↦ some (b - 1) ];
}

padding-Documented : Documented padding
padding-Documented = record {
  size = λ key message. pad-size 32 (key ++ message);
  encoded_size = λ bs e. omega (arith, raised-size bs, e);
  no_space = raised-no_space;
  decodes = λ bs. ap some (lowered-raised bs);
  some_digit = λ n. (suc n, [], refl);
  parses = λ n h. ap some (omega arith);
}

abbrev config : VerifierConfig
config = record { secrets = (7 ∷ []) ∷ (8 ∷ []) ∷ []; tolerance = 300_000_000_000 }

abbrev headers : Headers
headers = record {
  id = (97 ∷ []) ∷ [];
  timestamp = (1001 ∷ []) ∷ [];
  signature = join (tokens padding ((9 ∷ []) ∷ (8 ∷ []) ∷ []) (97 ∷ []) (1001 ∷ []) (5 ∷ [])) ∷ [];
}

sign-verify_example :
    verify padding config 1_010_000_000_000 (5 ∷ []) headers
    ≡ inl (record { id = 97 ∷ []; timestamp = 1000 })
unfolding sign valid_message_id all_allowed
sign-verify_example =
    sign-verify padding padding-Documented config (5 ∷ []) (9 ∷ []) ((8 ∷ []) ∷ []) 1000
      1_010_000_000_000 (97 ∷ []) (8 ∷ []) headers (omega arith) (inr (inl refl)) (inr (inl refl))
      (omega arith) (omega arith) (omega arith) refl

-- A tolerance of zero is refused.
zero_tolerance : new_verifier (pad 32 []) (some (with_tolerance 0) ∷ []) ≡ inr invalid_tolerance
unfolding new_verifier pad validate_secret apply_all apply_verifier lt64
zero_tolerance = refl

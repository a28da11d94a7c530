-- ===== src/Webhook/Accepted.antt =====
-- What a message that `Verifier.Verify` of webhook/verifier.go accepts has.
use fries.Prelude.{
  ℕ, ◌+◌, ◌*◌, ◌≤◌, ◌≡◌, refl, ap, ◌∙◌, Bool, true, false, Option, some, List, [], ◌∷◌, ◌++◌, arith,
  ◌==◌, ◌⊎◌, inl, inr, Bool-cases,
}
use fries.Webhook.{
  Bytes, Library, Headers, same_bytes, sign_digest, fields, signature_of, VerifierConfig, Metadata,
  valid_message_id,
}

abbrev pub Any {ℓ} : {A : Type ℓ} → (A → Type 0) → List A → Type 0
Any P [] = ⊥
Any P (x ∷ xs) = P x ⊎ Any P xs

module _ {A : Type 0} (P : A → Type 0) where
  pub Any-append : (xs ys : List A) → Any P (xs ++ ys) → Any P xs ⊎ Any P ys
  Any-append [] ys h = inr h
  Any-append (x ∷ xs) ys (inl h) = inl (inl h)
  Any-append (x ∷ xs) ys (inr h) = elim (Any-append xs ys h) [ inl k ↦ inl (inr k) | inr k ↦ inr k ]

  pub Any-left : (xs ys : List A) → Any P xs → Any P (xs ++ ys)
  Any-left [] ys h = absurd h
  Any-left (x ∷ xs) ys (inl h) = inl h
  Any-left (x ∷ xs) ys (inr h) = inr (Any-left xs ys h)

  pub Any-right : (xs ys : List A) → Any P ys → Any P (xs ++ ys)
  Any-right [] ys h = h
  Any-right (x ∷ xs) ys h = inr (Any-right xs ys h)

pub same_bytes-eq : (xs ys : Bytes) → same_bytes xs ys ≡ true → xs ≡ ys
unfolding same_bytes
same_bytes-eq [] [] h = refl
same_bytes-eq [] (y ∷ ys) h = cc
same_bytes-eq (x ∷ xs) [] h = cc
same_bytes-eq (x ∷ xs) (y ∷ ys) h = elim (Bool-cases (x == y)) [
  | inl e ↦
      let same : x ≡ y = ground arith in
      let rest = same_bytes-eq xs ys (rw e at h) in ap (◌∷◌ x) rest ∙ ap (λ z. z ∷ ys) same
  | inr e ↦ let no : ◌≡◌ {A = Bool} false true = rw e at h in cc
]

-- The tokens of all values.
abbrev pub all_fields : List Bytes → List Bytes
all_fields [] = []
all_fields (v ∷ vs) = fields [] v ++ all_fields vs

module _ (lib : Library) (Q : Bytes → Type 0) where
  -- A token with a signature of this kind.
  abbrev pub Signs : Bytes → Type 0
  Signs token = (s : Bytes) × (signature_of lib token ≡ some s) × Q s

module _ (lib : Library) (c : VerifierConfig) (now : ℕ) (payload : Bytes) (headers : Headers) where
  -- Some secret gives the digest of the message as the signature of some token.
  abbrev pub IsSigned : Bytes → Bytes → Type 0
  IsSigned id value =
      Any
        (λ secret.
          Any (Signs lib (λ s. sign_digest lib secret id value payload ≡ s))
            (all_fields headers.signature))
        c.secrets

  pub record Authentic (m : Metadata) : Type 0 where
    -- The text of the timestamp, which is what is signed.
    pub value : Bytes
    pub id_header : headers.id ≡ m.id ∷ []
    pub valid : valid_message_id m.id ≡ true
    pub timestamp_header : headers.timestamp ≡ value ∷ []
    pub parsed : lib.parse value ≡ some m.timestamp
    pub not_late : now ≤ m.timestamp * 1_000_000_000 + c.tolerance
    pub not_early : m.timestamp * 1_000_000_000 ≤ now + c.tolerance
    pub signed : IsSigned m.id value

-- ===== src/Slices/Sets/Distinct.antt =====
-- `Unique` and `UniqueBy` of slices/slices.go.
use fries.Prelude.{
  ℕ, suc, ◌≡◌, refl, ◌∙◌, ap, sym, subst, lookup, true, false, ◌||◌, List, [], ◌∷◌, ◌++◌, map, ite,
  if_pos, if_neg, Bool-cases, inl, inr, arith,
}
use fries.Slices.{range_from}
use fries.Slices.Search.{contains}
use fries.Slices.Sets.{Set, has, keep_new, unique_by, unique}
use fries.Slices.Sets.Members.{has-insert}

module _ {K : Type 0} (same : Discrete K) where
  -- No item is repeated.
  abbrev pub IsDistinct : List K → Type 0
  IsDistinct [] = Unit
  IsDistinct (k ∷ ks) = (contains same ks k ≡ false) × IsDistinct ks

  contains-snoc :
      (ks : List K) (k e : K)
      → contains same (ks ++ (k ∷ [])) e ≡ ite (same k e) true (contains same ks e)
  unfolding contains
  contains-snoc [] k e = refl
  contains-snoc (j ∷ ks) k e = ground (arith, contains-snoc ks k e)

  IsDistinct-snoc :
      (ks : List K) (k : K)
      → IsDistinct ks
      → contains same ks k ≡ false
      → IsDistinct (ks ++ (k ∷ []))
  unfolding contains
  IsDistinct-snoc [] k d e = (refl, tt)
  IsDistinct-snoc (j ∷ ks) k d e =
      let apart : contains same ks k ≡ false = ground arith in
      (ground (arith, contains-snoc ks k j, d.0), IsDistinct-snoc ks k d.1 apart)

-- What the loop knows: the keys of the result are distinct, and they are the seeds.
record Seen {E K : Type 0} (same : Discrete K) (fn : E → K) (r : List E × Set K) : Type 0 where
  distinct : IsDistinct same (map fn r.0)
  seeds : (k : K) → has same r.1 k ≡ contains same (map fn r.0) k

module _ {E K : Type 0} (same : Discrete K) (fn : E → K) where
  map-snoc : (r : List E) (item : E) → map fn (r ++ (item ∷ [])) ≡ map fn r ++ (fn item ∷ [])
  map-snoc [] item = refl
  map-snoc (x ∷ r) item = ap (◌∷◌ (fn x)) (map-snoc r item)

  keep_new-Seen :
      (r : List E × Set K) (item : E)
      → Seen same fn r
      → Seen same fn (keep_new same r (fn item) item)
        × ((k : K)
            → contains same (map fn (keep_new same r (fn item) item).0) k
              ≡ ite (same (fn item) k) true (contains same (map fn r.0) k))
  keep_new-Seen (result, m) item seen = elim (Bool-cases (has same m (fn item))) [
    | inl e ↦ rw e (
      seen,
      λ k. elim (same (fn item) k) [
        | yes p ↦ rw (if_pos (same (fn item) k) p) (rw (sym p) (sym (seen.seeds (fn item)) ∙ e))
        | no n ↦ rw (if_neg (same (fn item) k) n) refl
      ],
    )
    | inr e ↦
        let added : (k : K)
            → contains same (map fn (result ++ (item ∷ []))) k
              ≡ ite (same (fn item) k) true (contains same (map fn result) k) =
          λ k. rw (map-snoc result item) (contains-snoc same (map fn result) (fn item) k) in
        rw e (
          record {
            distinct = rw (map-snoc result item) (
                IsDistinct-snoc same (map fn result) (fn item) seen.distinct
                  (sym (seen.seeds (fn item)) ∙ e));
            seeds = λ k.
                has-insert same m (fn item) k
                ∙ (ap (λ b. ite (same (fn item) k) true b) (seen.seeds k) ∙ sym (added k));
          },
          added,
        )
  ]

  abbrev each_item : List E × Set K → E → ℕ → List E × Set K
  each_item r item i = keep_new same r (fn item) item

  unique_loop :
      (i : ℕ) (r : List E × Set K) (s : List E)
      → Seen same fn r
      → IsDistinct same (map fn (range_from each_item i r s).0)
        × ((k : K)
            → contains same (map fn (range_from each_item i r s).0) k
              ≡ contains same (map fn r.0) k || contains same (map fn s) k)
  unfolding range_from contains
  unique_loop i r [] seen = (seen.distinct, λ k. ground arith)
  unique_loop i r (item ∷ s) seen =
      let (next, added) = keep_new-Seen r item seen in
      let (distinct, all) = unique_loop (suc i) (keep_new same r (fn item) item) s next in
      (distinct, λ k. all k ∙ rw (added k) (ground arith))

  -- UniqueBy returns items of which no two have the same key, and it has the keys of all items of the
  -- slice and no others.
  pub unique_by_lem :
      (s : List E)
      → IsDistinct same (map fn (unique_by same s fn))
        × ((k : K) → contains same (map fn (unique_by same s fn)) k ≡ contains same (map fn s) k)
  unfolding unique_by contains has lookup
  unique_by_lem s = unique_loop 0 ([], []) s (record { distinct = tt; seeds = λ k. refl })

map_same : {E : Type 0} (s : List E) → map (λ e. e) s ≡ s
map_same [] = refl
map_same (e ∷ s) = ap (◌∷◌ e) (map_same s)

-- Unique repeats no item, and contains what the slice contains.
pub unique_lem :
    {E : Type 0} (same : Discrete E) (s : List E)
    → IsDistinct same (unique same s)
      × ((e : E) → contains same (unique same s) e ≡ contains same s e)
unfolding unique unique_by
unique_lem same s =
    let (distinct, all) = unique_by_lem same (λ e. e) s in
    let whole = map_same (unique same s) in
    (
      subst (IsDistinct same) whole distinct,
      λ e.
          ap (λ x. contains same x e) (sym whole)
          ∙ (all e ∙ ap (λ x. contains same x e) (map_same s)),
    )

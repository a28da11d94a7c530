-- ===== src/Ratelimit/Memory/Invariant.antt =====
-- The map and the heap of the store in ratelimit/memory/store.go hold the same records.
use fries.Prelude.{
  ℕ, ◌+◌, ◌^◌, ◌≤◌, ◌<◌, ◌≡◌, refl, sym, ◌∙◌, ◌≢◌, inl, inr, subst, Bool-cases, true, false, ite,
  if_pos, if_neg, Option, none, some, List, [], ◌∷◌, String, arith, ltb, if◌then◌else◌, lookup,
  insert, delete, string_discrete, IsKeyed, NotIn, lookup-insert, lookup-delete, delete-IsKeyed,
  lookup-NotIn, NotIn-of_lookup,
}
use fries.Prelude.Words.{half_word, lt64, lt64-ltb}
use fries.Ratelimit.Memory.{Store, new_store, push, remove, fix, expire, cleanup, write}

-- No arrival time reaches this bound, so that sums with a burst stay below 2 ^ 63.
abbrev pub horizon : ℕ
horizon = 2 ^ 62 + 2 ^ 61

abbrev pub find : String → List (String × ℕ) → Option ℕ
find = lookup string_discrete

-- The heap in ascending order, from the bound on.
abbrev pub Ordered : ℕ → List (String × ℕ) → Type 0
Ordered b [] = Unit
Ordered b (e ∷ h) = (b ≤ e.1) × (e.1 < horizon) × Ordered e.1 h

pub record IsValid (s : Store) : Type 0 where
  pub agrees : (k : String) → find k s.records ≡ find k s.expirations
  pub keyed : IsKeyed s.expirations
  pub ordered : Ordered 0 s.expirations

Ordered-mono : (b c : ℕ) (h : List (String × ℕ)) → c ≤ b → Ordered b h → Ordered c h
Ordered-mono b c [] l o = tt
Ordered-mono b c (e ∷ h) l o = (omega arith, o.1, o.2)

push-Ordered :
    (b : ℕ) (e : String × ℕ) (h : List (String × ℕ))
    → b ≤ e.1
    → e.1 < horizon
    → Ordered b h
    → Ordered b (push e h)
unfolding push
push-Ordered b e [] l m o = (l, m, tt)
push-Ordered b e (f ∷ h) l m o =
    let rest : f.1 ≤ e.1 → Ordered f.1 (push e h) = λ g. push-Ordered f.1 e h g m o.2 in
    ground (arith, lt64-ltb e.1 f.1 (omega arith) (omega arith), rest)

remove-Ordered : (b : ℕ) (k : String) (h : List (String × ℕ)) → Ordered b h → Ordered b (remove k h)
unfolding remove delete
remove-Ordered b k [] o = tt
remove-Ordered b k (e ∷ h) o =
    ground (arith, remove-Ordered e.1 k h o.2, Ordered-mono e.1 b (delete string_discrete k h) o.0)

NotIn-push :
    (k : String) (e : String × ℕ) (h : List (String × ℕ)) → e.0 ≢ k → NotIn k h → NotIn k (push e h)
unfolding push
NotIn-push k e [] d n = (d, tt)
NotIn-push k e (f ∷ h) d n =
    let rest = NotIn-push k e h d n.1 in
    elim (lt64 e.1 f.1) as (λ b. NotIn k (if b then e ∷ f ∷ h else f ∷ push e h)) [
      | true ↦ (d, n)
      | false ↦ (n.0, rest)
    ]

push-IsKeyed :
    (e : String × ℕ) (h : List (String × ℕ)) → NotIn e.0 h → IsKeyed h → IsKeyed (push e h)
unfolding push
push-IsKeyed e [] n d = (tt, tt)
push-IsKeyed e (f ∷ h) n d =
    elim (lt64 e.1 f.1) as (λ b. IsKeyed (if b then e ∷ f ∷ h else f ∷ push e h)) [
      | true ↦ (n, d)
      | false ↦ (NotIn-push f.0 e h (λ p. n.0 (sym p)) d.0, push-IsKeyed e h n.1 d.1)
    ]

find-push :
    (k : String) (e : String × ℕ) (h : List (String × ℕ))
    → NotIn e.0 h
    → find k (push e h) ≡ ite (string_discrete e.0 k) (some e.1) (find k h)
unfolding push lookup
find-push k e [] n = refl
find-push k e (f ∷ h) n = ground (arith, find-push k e h n.1)

-- `now` itself and whatever is below it is dropped.
abbrev pub kept : ℕ → Option ℕ → Option ℕ
kept now none = none
kept now (some tat) = if ltb now tat then some tat else none

find_head :
    (k : String) (e : String × ℕ) (h : List (String × ℕ))
    → find k (e ∷ h) ≡ ite (string_discrete e.0 k) (some e.1) (find k h)
unfolding lookup
find_head k e h = refl

find_bound :
    (b : ℕ) (k : String) (h : List (String × ℕ)) {t : ℕ}
    → Ordered b h
    → find k h ≡ some t
    → (b ≤ t) × (t < horizon)
unfolding lookup
find_bound b k [] o e = cc
find_bound b k (f ∷ h) {t} o e = elim (string_discrete f.0 k) [
  | yes p ↦ (ground arith, ground arith)
  | no p ↦ let (low, high) = find_bound f.1 k h o.2 (rw (if_neg _ p) at e) in (omega arith, high)
]

kept_later : (now : ℕ) (o : Option ℕ) → ((t : ℕ) → o ≡ some t → now < t) → kept now o ≡ o
kept_later now none h = refl
kept_later now (some t) h = ground (arith, h t)

none_kept : (now : ℕ) (k : String) → find k [] ≡ kept now (find k [])
unfolding lookup
none_kept now k = refl

-- One round: the head has expired, and the rest agrees without it.
module _ (now : ℕ) (records h : List (String × ℕ)) (e : String × ℕ)
    (a : (k : String) → find k records ≡ find k (e ∷ h)) (n : NotIn e.0 h) where
  rest_agrees : (k : String) → find k (delete string_discrete e.0 records) ≡ find k h
  rest_agrees k = elim (string_discrete e.0 k) [
    | yes p ↦
        rw (lookup-delete string_discrete e.0 k records, if_pos _ p)
          (sym (lookup-NotIn string_discrete k h (subst (λ j. NotIn j h) p n)))
    | no p ↦
        rw (lookup-delete string_discrete e.0 k records, if_neg _ p)
          (ground (arith, a k, find_head k e h))
  ]

  head_kept :
      (k : String)
      → e.1 ≤ now
      → kept now (find k (delete string_discrete e.0 records)) ≡ kept now (find k records)
  head_kept k l = ground (arith, lookup-delete string_discrete e.0 k records, a k, find_head k e h)

-- The loop of `cleanup` drops exactly the records that have expired.
expire_lem :
    (now b : ℕ) (records h : List (String × ℕ))
    → now < half_word
    → ((k : String) → find k records ≡ find k h)
    → IsKeyed h
    → Ordered b h
    → IsValid (expire now records h)
      × ((k : String) → find k (expire now records h).records ≡ kept now (find k records))
unfolding expire
expire_lem now b records [] l a d o =
    (record { agrees = a; keyed = tt; ordered = tt }, λ k. rw (a k) (none_kept now k))
expire_lem now b records (e ∷ h) l a d o = elim (Bool-cases (lt64 now e.1)) [
  | inl g ↦ rw g (
    record { agrees = a; keyed = d; ordered = Ordered-mono b 0 (e ∷ h) (omega arith) o },
    λ k. sym (
        kept_later now (find k records) λ t f.
          omega (arith, find_bound e.1 k (e ∷ h) (omega arith, o.1, o.2) (sym (a k) ∙ f), later g)),
  )
  | inr g ↦ rw g (
      let (valid, same) =
        expire_lem now e.1 (delete string_discrete e.0 records) h l
          (rest_agrees now records h e a d.0) d.1 o.2 in
      (valid, λ k. same k ∙ head_kept now records h e a d.0 k (sooner g)))
]
  where
    later : lt64 now e.1 ≡ true → now < e.1
    later g = ground (arith, lt64-ltb now e.1 l (omega arith))

    sooner : lt64 now e.1 ≡ false → e.1 ≤ now
    sooner g = ground (arith, lt64-ltb now e.1 l (omega arith))

pub cleanup_lem :
    (s : Store) (now : ℕ)
    → now < half_word
    → IsValid s
    → IsValid (cleanup s now)
      × ((k : String) → find k (cleanup s now).records ≡ kept now (find k s.records))
unfolding cleanup
cleanup_lem s now l v = expire_lem now 0 s.records s.expirations l v.agrees v.keyed v.ordered

push-IsValid :
    (key : String) (tat : ℕ) (records h : List (String × ℕ))
    → tat < horizon
    → ((k : String) → key ≢ k → find k records ≡ find k h)
    → NotIn key h
    → IsKeyed h
    → Ordered 0 h
    → IsValid (record {
      records = insert string_discrete key tat records;
      expirations = push (key, tat) h;
    })
push-IsValid key tat records h l a n d o = record {
  agrees = λ k.
      ground
        (arith, lookup-insert string_discrete key k tat records, find-push k (key, tat) h n, a k);
  keyed = push-IsKeyed (key, tat) h n d;
  ordered = push-Ordered 0 (key, tat) h (omega arith) l o;
}

removed : (key : String) (h : List (String × ℕ)) → NotIn key (remove key h)
unfolding remove
removed key h =
    NotIn-of_lookup string_discrete key (delete string_discrete key h)
      (rw (lookup-delete string_discrete key key h) (if_pos (string_discrete key key) refl _ _))

find-remove : (key k : String) (h : List (String × ℕ)) → key ≢ k → find k (remove key h) ≡ find k h
unfolding remove
find-remove key k h d =
    rw (lookup-delete string_discrete key k h) (if_neg (string_discrete key k) d _ _)

remove-IsKeyed : (key : String) (h : List (String × ℕ)) → IsKeyed h → IsKeyed (remove key h)
unfolding remove
remove-IsKeyed key h d = delete-IsKeyed string_discrete key h d

-- The write of an accepted request sets one key.
pub write_lem :
    (s : Store) (key : String) (tat : ℕ) (current : Option ℕ)
    → current ≡ find key s.records
    → tat < horizon
    → IsValid s
    → IsValid (write s key tat current)
      × ((k : String)
          → find k (write s key tat current).records
            ≡ ite (string_discrete key k) (some tat) (find k s.records))
unfolding write fix
write_lem s key tat none e l v = (
  push-IsValid key tat s.records s.expirations l (λ k _. v.agrees k)
      (NotIn-of_lookup string_discrete key s.expirations (sym (v.agrees key) ∙ sym e)) v.keyed
      v.ordered,
  λ k. lookup-insert string_discrete key k tat s.records,
)
write_lem s key tat (some t) e l v = (
  push-IsValid key tat s.records (remove key s.expirations) l
      (λ k d. v.agrees k ∙ sym (find-remove key k s.expirations d)) (removed key s.expirations)
      (remove-IsKeyed key s.expirations v.keyed) (remove-Ordered 0 key s.expirations v.ordered),
  λ k. lookup-insert string_discrete key k tat s.records,
)

pub new_store-IsValid : IsValid new_store
unfolding new_store
new_store-IsValid = record { agrees = λ k. refl; keyed = tt; ordered = tt }

-- Without the key's record, in the map and in the heap.
pub removed_lem :
    (s : Store) (key : String)
    → IsValid s
    → let s' : Store = record {
      records = delete string_discrete key s.records;
      expirations = remove key s.expirations;
    } in
      IsValid s'
      × ((k : String) → find k s'.records ≡ ite (string_discrete key k) none (find k s.records))
unfolding remove
removed_lem s key v = (
  record {
    agrees = λ k. ground (
      arith,
      lookup-delete string_discrete key k s.records,
      lookup-delete string_discrete key k s.expirations,
      v.agrees k,
    );
    keyed = remove-IsKeyed key s.expirations v.keyed;
    ordered = remove-Ordered 0 key s.expirations v.ordered;
  },
  λ k. lookup-delete string_discrete key k s.records,
)

-- ===== src/Period/InPlace.antt =====
-- The loop of `Merge` in time/period/set.go as it runs: it overwrites the slice that it reads,
-- `result[last]` growing behind the index of the range loop.
use fries.Prelude.{
  ℕ, zero, suc, ◌+◌, ◌-◌, ◌≡◌, refl, sym, ap, ◌∙◌, List, [], ◌∷◌, ◌++◌, append_assoc, none, some,
  arith, ltb, if◌then◌else◌, length, get_elem?, set, take, length-append, get_elem?-append,
  set-append, take-append,
}
use fries.Period.{Period}
use fries.Period.Set.{absorb, merge_sorted, merge, sort, non_empty}

-- The body for the item `p`, where `q` is `result[last]`: the new `last` and the new slice.
write_back : Period → Period → ℕ → List Period → ℕ × List Period
write_back p q last result =
    if ltb q.end p.start
    then (suc last, set result (suc last) p)
    else if ltb q.end p.end
    then (last, set result last (record q { end = p.end }))
    else (last, result)

-- `rounds` items are left, the next at index `i`. The indices stay in range (overwrite_lem).
overwrite : ℕ → ℕ → ℕ → List Period → ℕ × List Period
unfolding write_back
overwrite zero i last result = (last, result)
overwrite (suc rounds) i last result = elim (get_elem? result i) [
  | none ↦ (last, result)
  | some p ↦ elim (get_elem? result last) [
    | none ↦ (last, result)
    | some q ↦
        let (last', result') = write_back p q last result in overwrite rounds (suc i) last' result'
  ]
]

abbrev prefix : ℕ × List Period → List Period
prefix o = take (suc o.0) o.1

unfoldable pub merge_in_place : List Period → List Period
unfolding overwrite non_empty sort
merge_in_place periods =
    let result = sort (non_empty periods) in
    if ltb 0 (length result) then prefix (overwrite (length result - 1) 1 0 result) else []

-- The slice: finished intervals, `result[last]`, items that are read and dead, items to come.
abbrev layout : List Period → Period → List Period → List Period → List Period
layout front cur gap rest = front ++ (cur ∷ (gap ++ rest))

module _ (front : List Period) where
  grow_layout :
      (cur v : Period) (gap rest : List Period)
      → set (layout front cur gap rest) (length front) v ≡ layout front v gap rest
  grow_layout cur v gap rest = set-append cur v (gap ++ rest) front

  shift_layout :
      (cur p : Period) (gap rest : List Period)
      → layout front cur gap (p ∷ rest) ≡ layout front cur (gap ++ (p ∷ [])) rest
  shift_layout cur p gap rest = ap (λ t. front ++ (cur ∷ t)) (sym (append_assoc gap (p ∷ []) rest))

  read_layout :
      (cur p : Period) (gap rest : List Period)
      → get_elem? (layout front cur gap (p ∷ rest)) (suc (length front + length gap)) ≡ some p
  read_layout cur p gap rest =
      let i : suc (length front + length gap) ≡ length (front ++ (cur ∷ gap)) =
        omega (arith, length-append front (cur ∷ gap)) in
      let l : layout front cur gap (p ∷ rest) ≡ (front ++ (cur ∷ gap)) ++ (p ∷ rest) =
        sym (append_assoc front (cur ∷ gap) (p ∷ rest)) in
      rw (i, l) (get_elem?-append p p rest (front ++ (cur ∷ gap)))

  second : (cur : Period) → suc (length front) ≡ length (front ++ (cur ∷ []))
  second cur = omega (arith, length-append front (cur ∷ []))

  next_layout :
      (cur p : Period) (gap rest : List Period)
      → (gap' : List Period) × (length gap' ≡ length gap)
        × (set (layout front cur gap (p ∷ rest)) (suc (length front)) p
            ≡ layout (front ++ (cur ∷ [])) p gap' rest)
  next_layout cur p [] rest =
      let e = set-append p p rest (front ++ (cur ∷ [])) in
      ([], refl, rw (← append_assoc front (cur ∷ []) (p ∷ rest), second cur) e)
  next_layout cur p (g ∷ gap) rest =
      let e = set-append g p (gap ++ (p ∷ rest)) (front ++ (cur ∷ [])) in
      (
        gap ++ (p ∷ []),
        omega (arith, length-append gap (p ∷ [])),
        rw
            (
              append_assoc gap (p ∷ []) rest,
              ← append_assoc front (cur ∷ []) (g ∷ (gap ++ (p ∷ rest))),
              second cur,
            )
            e,
      )

overwrite_step :
    (rounds i last : ℕ) (result : List Period) (p q : Period)
    → get_elem? result i ≡ some p
    → get_elem? result last ≡ some q
    → overwrite (suc rounds) i last result
      ≡ overwrite rounds (suc i) (write_back p q last result).0 (write_back p q last result).1
unfolding overwrite
overwrite_step rounds i last result p q e f = rw (e, overwrite) (rw (f, overwrite) refl)

overwrite-zero : (i last : ℕ) (result : List Period) → overwrite zero i last result ≡ (last, result)
unfolding overwrite
overwrite-zero i last result = refl

overwrite_lem :
    (front gap rest : List Period) (cur : Period) (i last : ℕ) (result : List Period)
    → i ≡ suc (length front + length gap)
    → last ≡ length front
    → result ≡ layout front cur gap rest
    → prefix (overwrite (length rest) i last result) ≡ front ++ absorb cur rest
unfolding absorb write_back
overwrite_lem front gap [] cur i last result ei el er =
    rw (overwrite-zero i last result, el, er) (take-append cur cur (gap ++ []) front)
overwrite_lem front gap (p ∷ rest) cur i last result ei el er =
    let e : get_elem? result i ≡ some p = rw (ei, er) (read_layout front cur p gap rest) in
    let f : get_elem? result last ≡ some cur =
      rw (el, er) (get_elem?-append cur cur (gap ++ (p ∷ rest)) front) in
    let (gap', el', es) = next_layout front cur p gap rest in
    let next =
      overwrite_lem (front ++ (cur ∷ [])) gap' rest p (suc i) (suc last) (set result (suc last) p)
        (omega (arith, el', length-append front (cur ∷ [])))
        (omega (arith, length-append front (cur ∷ []))) (rw (el, er) es) in
    let grown =
      overwrite_lem front (gap ++ (p ∷ [])) rest (record cur { end = p.end }) (suc i) last
        (set result last (record cur { end = p.end })) (omega (arith, length-append gap (p ∷ [])))
        el
        (rw (el, er)
          (grow_layout front cur (record cur { end = p.end }) gap (p ∷ rest)
            ∙ shift_layout front (record cur { end = p.end }) p gap rest)) in
    let same =
      overwrite_lem front (gap ++ (p ∷ [])) rest cur (suc i) last result
        (omega (arith, length-append gap (p ∷ []))) el (er ∙ shift_layout front cur p gap rest) in
    rw (overwrite_step (length rest) i last result p cur e f)
      (ground (arith, next, grown, same, append_assoc front (cur ∷ []) (absorb p rest)))

-- The loop that overwrites its own slice computes the merge: no item is overwritten before it is
-- read.
pub merge_in_place-merge : (ps : List Period) → merge_in_place ps ≡ merge ps
unfolding merge_in_place merge merge_sorted
merge_in_place-merge ps = go (sort (non_empty ps))
  where
    go :
        (r : List Period)
        → (if ltb 0 (length r) then prefix (overwrite (length r - 1) 1 0 r) else [])
          ≡ merge_sorted r
    go [] = refl
    go (p ∷ r) = ground (arith, overwrite_lem [] [] r p 1 0 (p ∷ r) (omega arith) refl refl)

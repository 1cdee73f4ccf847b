-- ===== src/Vector/Whole/Copy.antt =====
-- `vector_set`, `vector_get`, `vector_copy` and `vector_is_same`.
use mathlib.Core.Path.{subst}
use native.Mathlib.Numerals.{add-one}
use nettlp_dpdk.Prelude.{
  ℕ, zero, suc, ◌+◌, ◌≤◌, ◌<◌, ◌^◌, ◌≡◌, refl, ap, ap₂, sym, ◌∙◌, Bool, true, false, inl, inr,
  Option, none, some, List, [], ◌∷◌, ◌++◌, arith, ◌==◌, leb, leb→le, leb→lt, le→leb, lt→leb,
  if◌then◌else◌, length, get_or, take, take_step, get_or-take, ◌↔◌, ==→eq, ==→ne, take_eq, take_all,
  length-set, take-suc-set, Bool-cases, not,
}
use nettlp_dpdk.Vector.{Vector, contents, create, expand, expand_to, reserve, store, put, get}
use nettlp_dpdk.Vector.Inv.{
  IsValid, length-contents, expand-IsValid, contents-expand, size-expand, limit-expand_granted,
}

-- The loop of `vector_copy`, with the rounds left. `grants index` is what realloc answers while
-- the element at `index` is set.
copy_loop : (ℕ → ℕ → Bool) → Vector → ℕ → ℕ → Vector → Vector
copy_loop grants v zero index w = w
copy_loop grants v (suc n) index w =
    copy_loop grants v n (index + 1) (put (grants index) w index (get v index))

pub copy : Bool → Bool → (ℕ → ℕ → Bool) → Vector → Option Vector
copy struct_granted array_granted grants v = elim (create struct_granted array_granted) [
  | none ↦ none
  | some w ↦ some (copy_loop grants v v.size 0 w)
]

-- The loop of `vector_is_same`.
same_from : List ℕ → List ℕ → Bool
same_from (x ∷ xs) (y ∷ ys) = if not (x == y) then false else same_from xs ys
same_from _ _ = true

pub is_same : Vector → Vector → Bool
is_same va vb = if not (va.size == vb.size) then false else same_from (contents va) (contents vb)

expand_to_stop :
    (index retry : ℕ) (grant : ℕ → Bool) (v : Vector)
    → index < v.limit
    → expand_to index retry grant v ≡ v
unfolding expand_to
expand_to_stop index zero grant v h = refl
expand_to_stop index (suc retry) grant v h = ground arith

expand_to_step :
    (index retry : ℕ) (grant : ℕ → Bool) (v : Vector)
    → v.limit ≤ index
    → expand_to index (suc retry) grant v ≡ expand_to index retry grant (expand (grant retry) v)
unfolding expand_to
expand_to_step index retry grant v h = ground arith

-- Room for the index behind the last element: the vector, doubled if it was full.
reserve_end :
    (grant : ℕ → Bool) (v : Vector)
    → grant 15 ≡ true
    → IsValid v
    → v.size ≤ 2 ^ 30
    → IsValid (reserve grant v v.size)
      × (v.size < (reserve grant v v.size).limit)
      × ((reserve grant v v.size).size ≡ v.size)
      × (contents (reserve grant v v.size) ≡ contents v)
unfolding reserve
reserve_end grant v served h small = elim (Bool-cases (leb v.limit v.size)) [
  | inr room ↦ rw room (h, leb→lt v.limit v.size room, refl, refl)
  | inl full ↦
      let le = leb→le v.limit v.size full in
      let double = limit-expand_granted h (omega (arith, h.within)) in
      rw
        (
          full,
          expand_to_step v.size 15 grant v le,
          served,
          expand_to_stop v.size 15 grant (expand true v)
              (omega (arith, double, h.within, h.nonempty)),
        )
        (
          expand-IsValid h (omega (arith, h.within)) true,
          omega (arith, double, h.within, h.nonempty),
          size-expand v true,
          contents-expand true h,
        )
]

-- Storing behind the last element, where there is room.
store_end :
    (v : Vector) (index x : ℕ)
    → IsValid v
    → index ≡ v.size
    → v.size < v.limit
    → IsValid (store v index x)
      × ((store v index x).size ≡ index + 1)
      × (contents (store v index x) ≡ contents v ++ (x ∷ []))
unfolding store
store_end v index x h e room =
    rw (lt→leb v.limit index (omega arith), le→leb v.size index (omega arith))
      (
        ground (arith, length-set v.array index x),
        refl,
        rw add-one (take-suc-set index v.array x (omega (arith, h.storage)))
            ∙ ap (λ l. l ++ (x ∷ [])) (take_eq index v.size v.array e),
      )

-- An element set behind the last one is appended, when realloc serves the first request.
put_end :
    (grant : ℕ → Bool) (v : Vector) (x : ℕ)
    → grant 15 ≡ true
    → IsValid v
    → v.size ≤ 2 ^ 30
    → IsValid (put grant v v.size x)
      × ((put grant v v.size x).size ≡ v.size + 1)
      × (contents (put grant v v.size x) ≡ contents v ++ (x ∷ []))
unfolding put
put_end grant v x served h small =
    let (valid, room, same, kept) = reserve_end grant v served h small in
    let (valid', grown, added) =
      store_end (reserve grant v v.size) v.size x valid (sym same) (omega (arith, same)) in
    (valid', grown, added ∙ ap (λ l. l ++ (x ∷ [])) kept)

put_at :
    (grant : ℕ → Bool) (v : Vector) (index x : ℕ)
    → index ≡ v.size
    → grant 15 ≡ true
    → IsValid v
    → v.size ≤ 2 ^ 30
    → IsValid (put grant v index x)
      × ((put grant v index x).size ≡ index + 1)
      × (contents (put grant v index x) ≡ contents v ++ (x ∷ []))
put_at grant v index x e served h small =
    subst
      (λ k.
        IsValid (put grant v k x)
        × ((put grant v k x).size ≡ k + 1)
        × (contents (put grant v k x) ≡ contents v ++ (x ∷ [])))
      (sym e) (put_end grant v x served h small)

get-contents : (v : Vector) (index : ℕ) → index < v.size → get v index ≡ get_or (contents v) index 0
unfolding get
get-contents v index h = rw (lt→leb v.size index h) (sym (get_or-take v.size index v.array 0 h))

module _ (grants : ℕ → ℕ → Bool) (served : (index : ℕ) → grants index 15 ≡ true) where
  -- The loop of `vector_copy` once the first `index` elements are copied.
  copy_loop-contents :
      (v : Vector) (n index : ℕ) (w : Vector)
      → IsValid v
      → v.size ≤ 2 ^ 30
      → index + n ≡ v.size
      → IsValid w
      → w.size ≡ index
      → contents w ≡ take index (contents v)
      → IsValid (copy_loop grants v n index w)
        × (contents (copy_loop grants v n index w) ≡ contents v)
  unfolding copy_loop
  copy_loop-contents v zero index w h small e hw ew same =
      (hw, same ∙ take_all index (contents v) (omega (arith, length-contents h)))
  copy_loop-contents v (suc n) index w h small e hw ew same =
      let (valid, grown, added) =
        put_at (grants index) w index (get v index) (sym ew) (served index) hw (omega arith) in
      copy_loop-contents v n (index + 1) (put (grants index) w index (get v index)) h small
        (omega arith) valid grown
        (added
          ∙ ap₂ (λ l y. l ++ (y ∷ [])) same (get-contents v index (omega arith))
          ∙ sym (take_step index (contents v) 0 (omega (arith, length-contents h)))
          ∙ take_eq (suc index) (index + 1) (contents v) (omega arith))

  -- When memory is always served, the copy of a valid vector of at most 2^30 elements is a valid
  -- vector with the same elements in the same places.
  pub copy-contents :
      (v : Vector)
      → IsValid v
      → v.size ≤ 2 ^ 30
      → (w : Vector) × (copy true true grants v ≡ some w) × IsValid w × (contents w ≡ contents v)
  unfolding copy create
  copy-contents v h small =
      let empty : Vector = record { array = 0 ∷ []; limit = 1; size = 0 } in
      let (valid, same) =
        copy_loop-contents v v.size 0 empty h small (omega arith) (omega arith) refl refl in
      (copy_loop grants v v.size 0 empty, refl, valid, same)

same_from-eq : (xs ys : List ℕ) → length xs ≡ length ys → (same_from xs ys ≡ true) ↔ (xs ≡ ys)
unfolding same_from
same_from-eq [] [] e = (λ _. refl, λ _. refl)
same_from-eq [] (y ∷ ys) e = absurd (omega arith)
same_from-eq (x ∷ xs) [] e = absurd (omega arith)
same_from-eq (x ∷ xs) (y ∷ ys) e =
    let ih = same_from-eq xs ys (omega arith) in
    (λ h. ground (arith, ih.0), λ h. ground (arith, ih.1))

-- Two valid vectors are the same for `vector_is_same` exactly when they have the same elements in
-- the same places, whatever room they have.
pub is_same_iff :
    (va vb : Vector)
    → IsValid va
    → IsValid vb
    → (is_same va vb ≡ true) ↔ (contents va ≡ contents vb)
unfolding is_same
is_same_iff va vb ha hb = elim (Bool-cases (va.size == vb.size)) [
  | inl same ↦ rw same (
      same_from-eq (contents va) (contents vb)
        (omega (arith, length-contents ha, length-contents hb, ==→eq va.size vb.size same)))
  | inr differ ↦ rw differ (
    λ h. cc,
    λ h. absurd (
        ==→ne va.size vb.size differ
          (omega (arith, ap (length {A = ℕ}) h, length-contents ha, length-contents hb))),
  )
]

-- ===== src/Vector/Remove.antt =====
-- `vector_remove` and `vector_remove_index`: what is left, and the slot that they leave behind.
use nettlp_dpdk.Prelude.{
  ℕ, zero, suc, ◌+◌, ◌-◌, ◌≤◌, ◌<◌, ◌≡◌, ◌≢◌, refl, sym, ap, ap₂, ◌∙◌, Bool, true, false, ◌⊎◌, inl,
  inr, List, [], ◌∷◌, ◌++◌, arith, ◌==◌, lt→ltb, le→ltb, get_or-set_ne, eq→==, ne→==, done, abort,
  if◌then◌else◌, length, get_or, length-set, length-append, length-drop, set, take, drop, delete,
  memmove_down, take-delete, take_eq, drop_eq, ◌&&◌, take_append, delete-take_last, length-delete,
  take-set_ge,
}
use native.Mathlib.Decide.{dec_lt}
use nettlp_dpdk.Vector.{
  Vector, contents, take_out, remove_at, remove, remove_index, assert_ok, all_set, all_clear,
}
use nettlp_dpdk.Vector.Inv.{IsValid, length-contents}
use nettlp_dpdk.Vector.Lookup.{contains, IsFirst, IsFirst-bound, lookup_index_cases}

-- The elements without the first one that is `x`.
pub erase : ℕ → List ℕ → List ℕ
erase x [] = []
erase x (y ∷ ys) = if y == x then ys else y ∷ erase x ys

delete-eq-erase : (x : ℕ) (ys : List ℕ) (k : ℕ) → IsFirst x ys k → delete ys k ≡ erase x ys
unfolding erase
delete-eq-erase x [] k h = elim h [ ]
delete-eq-erase x (y ∷ ys) zero h = rw (eq→== y x h)
delete-eq-erase x (y ∷ ys) (suc k) h =
    rw (ne→== y x h.0) (ap (λ l. y ∷ l) (delete-eq-erase x ys k h.1))

delete-set : (xs : List ℕ) (k v : ℕ) → delete (set xs k v) k ≡ delete xs k
delete-set [] k v = refl
delete-set (x ∷ xs) zero v = refl
delete-set (x ∷ xs) (suc k) v = ap (λ l. x ∷ l) (delete-set xs k v)

-- The array that `take_out` leaves: the others moved one place down, and the last place as it was.
array-take_out :
    (k : ℕ) {v : Vector}
    → IsValid v
    → k + 1 < v.limit
    → (take_out k v).array ≡ delete v.array k ++ drop (v.limit - 1) (set v.array k 0)
unfolding take_out
array-take_out k {v} h inside =
    rw (lt→ltb (k + 1) v.limit inside, ← h.storage, ← length-set v.array k 0)
      (memmove_down (set v.array k 0) k (omega (arith, length-set v.array k 0, h.storage))
        ∙ ap (λ l. l ++ drop (length (set v.array k 0) - 1) (set v.array k 0))
            (delete-set v.array k 0))

array-take_out_last :
    (k : ℕ) (v : Vector) → v.limit ≤ k + 1 → (take_out k v).array ≡ set v.array k 0
unfolding take_out
array-take_out_last k v last = rw (le→ltb (k + 1) v.limit last)

size-take_out : (k : ℕ) {v : Vector} → IsValid v → 0 < v.size → (take_out k v).size ≡ v.size - 1
unfolding take_out
size-take_out k h some' = omega (arith, h.within, h.small)

limit-take_out : (k : ℕ) (v : Vector) → (take_out k v).limit ≡ v.limit
unfolding take_out
limit-take_out k v = refl

-- `take_out` at an index in use: the elements without that one.
pub contents-take_out :
    (k : ℕ) (v : Vector) → IsValid v → k < v.size → contents (take_out k v) ≡ delete (contents v) k
contents-take_out k v h used = elim (dec_lt (k + 1) v.limit) [
  | yes inside ↦
      ap₂ take (size-take_out k h (omega arith)) (array-take_out k h inside)
      ∙ take_append (v.size - 1) (delete v.array k) (drop (v.limit - 1) (set v.array k 0)) (
          omega (
            arith,
            length-delete v.array k (omega (arith, h.storage, h.within)),
            h.storage,
            h.within,
          ))
      ∙ take-delete (v.size - 1) k v.array (omega arith)
      ∙ ap (λ l. delete l k) (take_eq (suc (v.size - 1)) v.size v.array (omega arith))
  | no last ↦
      ap₂ take (size-take_out k h (omega arith)) (array-take_out_last k v (omega arith))
      ∙ take_eq (v.size - 1) k (set v.array k 0) (omega (arith, h.within))
      ∙ take-set_ge k k v.array 0 (omega arith)
      ∙ sym (delete-take_last k v.array)
      ∙ ap (λ l. delete l k) (take_eq (suc k) v.size v.array (omega (arith, h.within)))
]

-- Removal keeps the representation valid.
pub take_out-IsValid : (k : ℕ) (v : Vector) → IsValid v → k < v.size → IsValid (take_out k v)
take_out-IsValid k v h used = record {
  storage = array_length ∙ h.storage ∙ sym (limit-take_out k v);
  within = omega (arith, size-take_out k h (omega arith), limit-take_out k v, h.within);
  nonempty = omega (arith, limit-take_out k v, h.nonempty);
  small = omega (arith, limit-take_out k v, h.small);
}
  where
    array_length : length (take_out k v).array ≡ length v.array
    array_length = elim (dec_lt (k + 1) v.limit) [
      | yes inside ↦ rw (array-take_out k h inside) (
          omega (
            arith,
            length-append (delete v.array k) (drop (v.limit - 1) (set v.array k 0)),
            length-delete v.array k (omega (arith, h.storage, h.within)),
            length-drop (v.limit - 1) (set v.array k 0),
            length-set v.array k 0,
            h.storage,
          ))
      | no last ↦ rw (array-take_out_last k v (omega arith)) (length-set v.array k 0)
    ]

-- An index in the array.
remove_at_in : (k : ℕ) (v : Vector) → k < length v.array → remove_at k v ≡ done (take_out k v)
unfolding remove_at
remove_at_in k v h = rw (lt→ltb k (length v.array) h) refl

-- `vector_remove` takes the first occurrence of the pointer out of the elements and keeps the
-- representation valid; it stops the process exactly when the pointer is not there.
pub remove-erase :
    (x : ℕ) (v : Vector)
    → IsValid v
    → ((contains x (contents v) ≡ false) × (remove x v ≡ abort))
      ⊎ ((contains x (contents v) ≡ true)
          × ((v' : Vector) × (remove x v ≡ done v')
              × IsValid v'
              × (v'.size + 1 ≡ v.size)
              × (contents v' ≡ erase x (contents v))))
unfolding remove
remove-erase x v h = elim (lookup_index_cases x v) [
  | inl (miss, absent) ↦ inl (absent, rw (miss, remove))
  | inr (k, hit, present, first) ↦
      let (b, e) = IsFirst-bound x (contents v) k first in
      let used : k < v.size = omega (arith, b, length-contents h) in
      inr (
        present,
        (
          take_out k v,
          rw (hit, remove) (remove_at_in k v (omega (arith, h.storage, h.within))),
          take_out-IsValid k v h used,
          omega (arith, size-take_out k h (omega arith)),
          contents-take_out k v h used ∙ delete-eq-erase x (contents v) k first,
        ),
      )
]

drop_last : (n : ℕ) (xs : List ℕ) → length xs ≡ suc n → drop n xs ≡ get_or xs n 0 ∷ []
drop_last n [] e = absurd (omega arith)
drop_last zero (x ∷ []) e = refl
drop_last zero (x ∷ y ∷ xs) e = absurd (omega arith)
drop_last (suc n) (x ∷ xs) e = drop_last n xs (omega arith)

drop_past : (xs ys : List ℕ) (n : ℕ) → length xs ≡ n → drop n (xs ++ ys) ≡ ys
drop_past [] ys zero e = refl
drop_past [] ys (suc n) e = absurd (omega arith)
drop_past (x ∷ xs) ys zero e = absurd (omega arith)
drop_past (x ∷ xs) ys (suc n) e = drop_past xs ys n (omega arith)

-- The slot behind the elements of a full vector, after one that is not the last was removed.
freed_slot :
    (k : ℕ) (v : Vector)
    → IsValid v
    → v.size ≡ v.limit
    → k + 1 < v.size
    → drop (v.size - 1) (take_out k v).array ≡ get_or v.array (v.size - 1) 0 ∷ []
freed_slot k v h full inside =
    ap (drop (v.size - 1)) (array-take_out k h (omega arith))
    ∙ drop_past (delete v.array k) (drop (v.limit - 1) (set v.array k 0)) (v.size - 1)
        (omega (arith, length-delete v.array k (omega (arith, h.storage)), h.storage))
    ∙ drop_last (v.limit - 1) (set v.array k 0) (omega (arith, length-set v.array k 0, h.storage))
    ∙ ap (λ y. y ∷ []) (get_or-set_ne v.array k (v.limit - 1) 0 0 (omega arith))
    ∙ ap (λ i. get_or v.array i 0 ∷ []) (omega arith)

and_false : (b : Bool) → (b && false) ≡ false
and_false true = refl
and_false false = refl

-- Removing a pointer that is not the last from a full vector leaves the last pointer behind in the
-- slot that was freed: `vector_assert`, which wants NULL there, stops the process.
pub remove_index-assert :
    (k : ℕ) (v : Vector)
    → IsValid v
    → v.size ≡ v.limit
    → k + 1 < v.size
    → get_or v.array (v.size - 1) 0 ≢ 0
    → (v' : Vector) × (remove_index k v ≡ done v') × (assert_ok v' ≡ false)
unfolding remove_index assert_ok all_clear
remove_index-assert k v h full inside ne = (
  take_out k v,
  remove_at_in k v (omega (arith, h.storage)),
  ap (λ b. all_set (contents (take_out k v)) && b)
        (ap all_clear slots ∙ ap (λ b. b && true) (ne→== (get_or v.array (v.size - 1) 0) 0 ne))
      ∙ and_false _,
)
  where
    size' : (take_out k v).size ≡ v.size - 1
    size' = size-take_out k h (omega arith)

    slots :
        take
          ((take_out k v).limit - (take_out k v).size)
          (drop (take_out k v).size (take_out k v).array)
        ≡ get_or v.array (v.size - 1) 0 ∷ []
    slots =
        ap₂ take {y = 1} (omega (arith, size', limit-take_out k v))
          (drop_eq _ _ (take_out k v).array size' ∙ freed_slot k v h full inside)

-- ===== src/Vector/Lookup.antt =====
-- `vector_lookup_index` and `vector_lookup` against membership in the contents.
use nettlp_dpdk.Prelude.{
  ℕ, zero, suc, ◌+◌, ◌<◌, ◌≡◌, ◌≢◌, refl, Bool, true, false, ◌||◌, none, some, List, [], ◌∷◌, arith,
  ◌==◌, if◌then◌else◌, length, get_or, get_or-take, take, length-take, sym, ==→eq, ==→ne, ap, ◌∙◌,
  ◌⊎◌, inl, inr, Bool-cases,
}
use nettlp_dpdk.Vector.{Vector, contents, find_index, lookup_index, lookup}

-- Whether a pointer is among the elements.
pub contains : ℕ → List ℕ → Bool
contains x [] = false
contains x (y ∷ ys) = y == x || contains x ys

-- The position of the first element that is `x`, counted from the front.
abbrev pub IsFirst : ℕ → List ℕ → ℕ → Type 0
IsFirst x [] k = ⊥
IsFirst x (y ∷ ys) zero = y ≡ x
IsFirst x (y ∷ ys) (suc k) = (y ≢ x) × IsFirst x ys k

pub IsFirst-bound :
    (x : ℕ) (ys : List ℕ) (k : ℕ) → IsFirst x ys k → (k < length ys) × (get_or ys k 0 ≡ x)
IsFirst-bound x [] k h = elim h [ ]
IsFirst-bound x (y ∷ ys) zero h = (omega arith, h)
IsFirst-bound x (y ∷ ys) (suc k) h = let (b, e) = IsFirst-bound x ys k h.1 in (omega arith, e)

-- What the scan from `index` on finds.
pub find_index_cases :
    (x : ℕ) (ys : List ℕ) (index : ℕ)
    → ((find_index x ys index ≡ none) × (contains x ys ≡ false))
      ⊎ ((k : ℕ) × (find_index x ys index ≡ some (index + k))
          × (contains x ys ≡ true)
          × IsFirst x ys k)
unfolding find_index contains
find_index_cases x [] index = inl (refl, refl)
find_index_cases x (y ∷ ys) index = elim (Bool-cases (y == x)) [
  | inl here ↦ inr (0, rw here (ap some (omega arith)), rw here, ==→eq y x here)
  | inr other ↦ elim (find_index_cases x ys (index + 1)) [
    | inl (miss, absent) ↦ inl (rw other miss, rw other absent)
    | inr (k, hit, present, first) ↦
        inr (
          suc k,
          rw other (hit ∙ ap some (omega arith)),
          rw other present,
          (==→ne y x other, first),
        )
  ]
]

take_zero : (n : ℕ) (xs : List ℕ) → n ≡ 0 → take n xs ≡ []
take_zero n xs e = rw e

lookup_index_lem : (x : ℕ) (v : Vector) → lookup_index x v ≡ find_index x (contents v) 0
unfolding lookup_index find_index
lookup_index_lem x v = elim (Bool-cases (v.size == 0)) [
  | inl none' ↦ rw (none', take_zero v.size v.array (==→eq v.size 0 none'))
  | inr more ↦ rw more
]

-- The lookup returns the first position of the pointer, and -1 exactly when it is not there.
pub lookup_index_cases :
    (x : ℕ) (v : Vector)
    → ((lookup_index x v ≡ none) × (contains x (contents v) ≡ false))
      ⊎ ((k : ℕ) × (lookup_index x v ≡ some k)
          × (contains x (contents v) ≡ true)
          × IsFirst x (contents v) k)
lookup_index_cases x v = elim (find_index_cases x (contents v) 0) [
  | inl (miss, absent) ↦ inl (lookup_index_lem x v ∙ miss, absent)
  | inr (k, hit, present, first) ↦
      inr (k, lookup_index_lem x v ∙ hit ∙ ap some (omega arith), present, first)
]

-- For a pointer that is not NULL, `vector_lookup` gives it back exactly when it is there.
pub lookup_lem :
    (x : ℕ) (v : Vector) → x ≢ 0 → lookup x v ≡ (if contains x (contents v) then x else 0)
unfolding lookup
lookup_lem x v ne = elim (lookup_index_cases x v) [
  | inl (miss, absent) ↦ rw (miss, lookup, absent)
  | inr (k, hit, present, first) ↦
      let (b, e) = IsFirst-bound x (contents v) k first in
      rw (hit, lookup, present)
        (sym (get_or-take v.size k v.array 0 (omega (arith, b, length-take v.size v.array))) ∙ e)
]

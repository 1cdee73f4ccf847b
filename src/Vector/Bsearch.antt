-- ===== src/Vector/Bsearch.antt =====
-- `vector_binsearch`, `vector_lookup_index_bsearch` and `vector_lookup_bsearch` of vector.c. A read
-- past the array gives `abort`, and so would a recursion deeper than its fuel, so both are shown
-- not to happen.
use nettlp_dpdk.Prelude.{
  ◌^◌, ℕ, zero, suc, ◌+◌, ◌/◌, ◌%◌, ◌≤◌, ◌<◌, ◌≡◌, ◌≢◌, refl, ap, true, false, Option, none, some,
  List, ◌⊎◌, inl, inr, arith, ◌==◌, leb, if◌then◌else◌, Run, done, abort, ◌>>=◌, length, get_elem?,
  get_elem?-eq-get_or, get_or, Bool-cases, ==→eq, ==→ne, le→leb, ne→==,
}
use mathlib.Core.Path.{subst}
use native.Mathlib.Decide.{dec_lt}
use nettlp_dpdk.Vector.{Vector}
use nettlp_dpdk.Vector.Inv.{IsValid}

-- The sign of what a `vector_cmp_t` returns.
pub data Sign : Type 0 where
  negative null positive : Sign

Sign-cases : (s : Sign) → (s ≡ null) ⊎ ((s ≡ negative) ⊎ (s ≡ positive))
Sign-cases null = inl refl
Sign-cases negative = inr (inl refl)
Sign-cases positive = inr (inr refl)

not_null : {s : Sign} → (s ≡ negative) ⊎ (s ≡ positive) → s ≢ null
not_null (inl e) h = cc
not_null (inr e) h = cc

module _ (cmp : ℕ → ℕ → Sign) (x : ℕ) where
  -- `size` is given by its 32 bits: of a negative one the first assert stops the process.
  pub binsearch : List ℕ → ℕ → ℕ → ℕ → Run (Option ℕ)
  binsearch a zero index size = abort
  binsearch a (suc fuel) index size =
      let middle = index + size / 2 in
      let shift = if size % 2 == 1 then 1 else 0 in
      elim (leb (2 ^ 31) size) [
        | true ↦ abort
        | false ↦ elim (get_elem? a middle) [
          | none ↦ abort
          | some y ↦ elim (cmp x y) [
            | null ↦ done (some middle)
            | negative ↦ elim (leb size 1) [
              | true ↦ done none
              | false ↦ binsearch a fuel index (size / 2)
            ]
            | positive ↦ elim (leb size 1) [
              | true ↦ done none
              | false ↦ binsearch a fuel (middle + shift) (size / 2)
            ]
          ]
        ]
      ]

  -- The comparison that `vector_lookup_index_bsearch` makes once more at the index found.
  pub confirm : Vector → Option ℕ → Option ℕ
  confirm v none = none
  confirm v (some index) = elim (cmp x (get_or v.array index 0)) [ null ↦ some index | _ ↦ none ]

  -- The fuel is the number of elements: each call halves the range.
  pub lookup_index_bsearch : Vector → Run (Option ℕ)
  lookup_index_bsearch v =
      if v.size == 0
      then done none
      else binsearch v.array v.size 0 v.size >>= λ found. done (confirm v found)

  pub lookup_bsearch : Vector → Run ℕ
  lookup_bsearch v = lookup_index_bsearch v >>= λ found.
      done (elim found [ none ↦ 0 | some index ↦ get_or v.array index 0 ])

  -- The first `n` elements in the order that the comparison with `x` sees: those before `x`, then
  -- those equal to it, then those behind it.
  pub record IsOrdered (a : List ℕ) (n : ℕ) : Type 0 where
    pub behind :
        (i j : ℕ)
        → i ≤ j
        → j < n
        → cmp x (get_or a i 0) ≡ negative
        → cmp x (get_or a j 0) ≡ negative
    pub before :
        (i j : ℕ)
        → i ≤ j
        → j < n
        → cmp x (get_or a j 0) ≡ positive
        → cmp x (get_or a i 0) ≡ positive

  -- What the search of a[index .. index + size) tells, at a position `i` of the range.
  abbrev pub Explains : List ℕ → ℕ → ℕ → ℕ → Run (Option ℕ) → Type 0
  Explains a index size i abort = ⊥
  Explains a index size i (done (some k)) = (k < index + size) × (cmp x (get_or a k 0) ≡ null)
  Explains a index size i (done none) = index ≤ i → i < index + size → cmp x (get_or a i 0) ≢ null

  -- From the lower half, when position `m` already is behind `x`.
  Explains-lower :
      {a : List ℕ} {n : ℕ}
      → IsOrdered a n
      → (i index size m : ℕ) → index + size ≤ n
      → m ≡ index + size / 2
      → cmp x (get_or a m 0) ≡ negative
      → (r : Run (Option ℕ)) → Explains a index (size / 2) i r
      → Explains a index size i r
  Explains-lower o i index size m inside em neg abort e = e
  Explains-lower o i index size m inside em neg (done (some k)) e = (omega (arith, e.0), e.1)
  Explains-lower o i index size m inside em neg (done none) e = λ lo hi hit. elim (dec_lt i m) [
    | yes p ↦ e lo (omega arith) hit
    | no p ↦ cc (o.behind m i (omega arith) (omega arith) neg)
  ]

  -- From the upper half, when position `m` still is before `x`.
  Explains-upper :
      {a : List ℕ} {n : ℕ}
      → IsOrdered a n
      → (i index size m next : ℕ) → index + size ≤ n
      → 0 < size
      → m ≡ index + size / 2
      → next ≡ m + size % 2
      → cmp x (get_or a m 0) ≡ positive
      → (r : Run (Option ℕ)) → Explains a next (size / 2) i r
      → Explains a index size i r
  Explains-upper o i index size m next inside pos em en pl abort e = e
  Explains-upper o i index size m next inside pos em en pl (done (some k)) e =
      (omega (arith, e.0), e.1)
  Explains-upper o i index size m next inside pos em en pl (done none) e = λ lo hi hit.
      elim (dec_lt m i) [
        | yes p ↦ e (omega arith) (omega arith) hit
        | no p ↦ cc (o.before i m (omega arith) (omega arith) pl)
      ]

  shift_lem : (size : ℕ) → (if size % 2 == 1 then 1 else 0) ≡ size % 2
  shift_lem size = ground arith

  -- One call, by the sign of the comparison in the middle.
  module _ (a : List ℕ) (fuel index size : ℕ) (int : size < 2 ^ 31)
      (inside : index + size / 2 < length a) where
    binsearch_null :
        cmp x (get_or a (index + size / 2) 0) ≡ null
        → binsearch a (suc fuel) index size ≡ done (some (index + size / 2))
    unfolding binsearch
    binsearch_null e = ground (arith, get_elem?-eq-get_or a (index + size / 2) 0)

    binsearch_single :
        size ≤ 1
        → cmp x (get_or a (index + size / 2) 0) ≢ null
        → binsearch a (suc fuel) index size ≡ done none
    unfolding binsearch
    binsearch_single one e = ground (arith, get_elem?-eq-get_or a (index + size / 2) 0)

    binsearch_negative :
        1 < size
        → cmp x (get_or a (index + size / 2) 0) ≡ negative
        → binsearch a (suc fuel) index size ≡ binsearch a fuel index (size / 2)
    unfolding binsearch
    binsearch_negative more e = ground (arith, get_elem?-eq-get_or a (index + size / 2) 0)

    binsearch_positive :
        1 < size
        → cmp x (get_or a (index + size / 2) 0) ≡ positive
        → binsearch a (suc fuel) index size
          ≡ binsearch a fuel (index + size / 2 + size % 2) (size / 2)
    unfolding binsearch
    binsearch_positive more e = ground (arith, get_elem?-eq-get_or a (index + size / 2) 0)

  binsearch-Explains :
      (a : List ℕ) (n : ℕ)
      → IsOrdered a n
      → n ≤ length a
      → n < 2 ^ 31
      → (i fuel index size : ℕ) → 0 < size
      → size ≤ fuel
      → index + size ≤ n
      → Explains a index size i (binsearch a fuel index size)
  unfolding binsearch
  binsearch-Explains a n o fits int i zero index size pos enough inside = absurd (omega arith)
  binsearch-Explains a n o fits int i (suc fuel) index size pos enough inside =
      elim (Sign-cases (cmp x (get_or a (index + size / 2) 0))) [
        | inl hit ↦ rw (binsearch_null a fuel index size (omega arith) here hit) (omega arith, hit)
        | inr miss ↦ elim (dec_lt 1 size) [
          | no one ↦
              rw
                (binsearch_single a fuel index size (omega arith) here (omega arith)
                  (not_null miss))
                (λ lo hi. subst (λ k. cmp x (get_or a k 0) ≢ null) (omega arith) (not_null miss))
          | yes more ↦ elim miss [
            | inl neg ↦ rw (binsearch_negative a fuel index size (omega arith) here more neg) (
                Explains-lower o i index size (index + size / 2) inside refl neg _ (
                  binsearch-Explains a n o fits int i fuel index (size / 2) (omega arith)
                    (omega arith) (omega arith)))
            | inr pl ↦ rw (binsearch_positive a fuel index size (omega arith) here more pl) (
                Explains-upper o i index size (index + size / 2) (index + size / 2 + size % 2)
                  inside pos refl refl pl _
                  (binsearch-Explains a n o fits int i fuel (index + size / 2 + size % 2) (size / 2)
                    (omega arith) (omega arith) (omega arith)))
          ]
        ]
      ]
    where
      here : index + size / 2 < length a
      here = omega arith

  confirm_hit :
      (v : Vector) (k : ℕ) → cmp x (get_or v.array k 0) ≡ null → confirm v (some k) ≡ some k
  unfolding confirm
  confirm_hit v k e = rw (e, confirm)

  -- The search of a vector whose size is an `int`.
  found_or_absent :
      (v : Vector)
      → IsValid v
      → IsOrdered v.array v.size
      → v.size < 2 ^ 31
      → ((k : ℕ) × (lookup_index_bsearch v ≡ done (some k))
          × (k < v.size)
          × (cmp x (get_or v.array k 0) ≡ null))
        ⊎ ((lookup_index_bsearch v ≡ done none)
            × ((i : ℕ) → i < v.size → cmp x (get_or v.array i 0) ≢ null))
  unfolding lookup_index_bsearch confirm
  found_or_absent v h o int = elim (Bool-cases (v.size == 0)) [
    | inl nothing ↦ inr (rw nothing, λ i lt. absurd (omega (arith, ==→eq v.size 0 nothing)))
    | inr more ↦ of_result more (binsearch v.array v.size 0 v.size) refl
  ]
    where
      explained :
          v.size == 0 ≡ false
          → (i : ℕ) → Explains v.array 0 v.size i (binsearch v.array v.size 0 v.size)
      explained more i =
          binsearch-Explains v.array v.size o (omega (arith, h.storage, h.within)) int i v.size 0
            v.size (omega (arith, ==→ne v.size 0 more)) (omega arith) (omega arith)

      of_result :
          v.size == 0 ≡ false
          → (r : Run (Option ℕ)) → binsearch v.array v.size 0 v.size ≡ r
          → ((k : ℕ) × (lookup_index_bsearch v ≡ done (some k))
              × (k < v.size)
              × (cmp x (get_or v.array k 0) ≡ null))
            ⊎ ((lookup_index_bsearch v ≡ done none)
                × ((i : ℕ) → i < v.size → cmp x (get_or v.array i 0) ≢ null))
      of_result more abort e = absurd (rw e at (explained more 0))
      of_result more (done none) e =
          inr (rw (more, e), λ i lt. (rw e at (explained more i)) (omega arith) (omega arith))
      of_result more (done (some k)) e =
          let found = rw e at (explained more 0) in
          inl (k, rw (more, e) (ap done (confirm_hit v k found.1)), omega (arith, found.0), found.1)

  -- A negative size.
  binsearch_int :
      (a : List ℕ) (fuel index size : ℕ) → 2 ^ 31 ≤ size → binsearch a fuel index size ≡ abort
  unfolding binsearch
  binsearch_int a zero index size big = refl
  binsearch_int a (suc fuel) index size big = rw (binsearch, le→leb (2 ^ 31) size big) refl

  -- On a valid vector whose elements are in order for the comparison with `x`, and whose size is
  -- below 2^31, the search returns, reads inside the array only, and its answer is right: an index in
  -- use where the comparison is 0, or -1 when it is 0 at no index in use. At a size of 2^31, the
  -- largest that a valid vector has and a negative `int`, it stops the process.
  pub lookup_index_bsearch-Finds :
      (v : Vector)
      → IsValid v
      → IsOrdered v.array v.size
      → ((v.size < 2 ^ 31)
          × (((k : ℕ) × (lookup_index_bsearch v ≡ done (some k))
                × (k < v.size)
                × (cmp x (get_or v.array k 0) ≡ null))
              ⊎ ((lookup_index_bsearch v ≡ done none)
                  × ((i : ℕ) → i < v.size → cmp x (get_or v.array i 0) ≢ null))))
        ⊎ ((v.size ≡ 2 ^ 31) × (lookup_index_bsearch v ≡ abort))
  unfolding lookup_index_bsearch
  lookup_index_bsearch-Finds v h o = elim (dec_lt v.size (2 ^ 31)) [
    | yes int ↦ inl (int, found_or_absent v h o int)
    | no big ↦ inr (
      omega (arith, h.within, h.small),
      rw
          (
            ne→== v.size 0 (λ e. omega (arith, e)),
            binsearch_int v.array v.size 0 v.size (omega arith),
          )
          refl,
    )
  ]

-- ===== src/Vector/Add.antt =====
-- `vector_add` and `vector_add_allow_dup`: what they append, and when they give up.
use nettlp_dpdk.Prelude.{
  ℕ, ◌+◌, ◌^◌, ◌≤◌, ◌<◌, ◌≡◌, ◌≢◌, ◌∙◌, Bool, true, false, ◌⊎◌, inl, inr, [], ◌∷◌, ◌++◌, arith,
  ◌==◌, ==→eq, ==→ne, eq→==, ne→==, Bool-cases, done, abort, if◌then◌else◌, length-set, set,
  take-suc-set, ap,
}
use native.Mathlib.Numerals.{add-one}
use nettlp_dpdk.Vector.{Vector, contents, vector_retry, expand, expand_full, add_allow_dup, add}
use nettlp_dpdk.Vector.Inv.{
  IsValid, expand-IsValid, contents-expand, expand_full_cases, expand_not_full,
}
use nettlp_dpdk.Vector.Lookup.{contains, lookup_lem}

-- v->array[v->size++] = data;
append : ℕ → Vector → Vector
append x v = record v { array = set v.array v.size x; size = v.size + 1 }

append-IsValid :
    (x : ℕ) {v : Vector}
    → IsValid v
    → v.size ≢ v.limit
    → IsValid (append x v) × (contents (append x v) ≡ contents v ++ (x ∷ []))
unfolding append
append-IsValid x {v} h room = (
  ground (arith, length-set v.array v.size x),
  rw add-one (take-suc-set v.size v.array x (omega (arith, h.storage, h.within))),
)

-- One element more, or a full vector left as it was because each request for memory was refused.
abbrev pub Appends : (ℕ → Bool) → ℕ → Vector → Vector → Type 0
Appends grant x v v' =
    (IsValid v' × (contents v' ≡ contents v ++ (x ∷ [])))
    ⊎ ((v' ≡ v) × (v.size ≡ v.limit) × ((k : ℕ) → k < vector_retry → grant k ≡ false))

add_full :
    (grant : ℕ → Bool) (x : ℕ) (v : Vector)
    → v.size ≡ v.limit
    → add_allow_dup grant x v ≡ (
        let v' = expand_full vector_retry grant v in
        if v'.size == v'.limit then v' else append x v')
unfolding add_allow_dup append
add_full grant x v full = ground arith

add_space :
    (grant : ℕ → Bool) (x : ℕ) (v : Vector)
    → v.size ≢ v.limit
    → add_allow_dup grant x v ≡ append x v
unfolding add_allow_dup append
add_space grant x v room = ground arith

add_gives_up :
    (grant : ℕ → Bool) (x : ℕ) (v : Vector)
    → v.size ≡ v.limit
    → expand_full vector_retry grant v ≡ v
    → add_allow_dup grant x v ≡ v
add_gives_up grant x v full e = add_full grant x v full ∙ rw (e, eq→== v.size v.limit full)

add_grows :
    (grant : ℕ → Bool) (x : ℕ) (v w : Vector)
    → v.size ≡ v.limit
    → expand_full vector_retry grant v ≡ w
    → w.size ≢ w.limit
    → add_allow_dup grant x v ≡ append x w
add_grows grant x v w full e room = add_full grant x v full ∙ rw (e, ne→== w.size w.limit room)

-- On a valid vector of at most 2^30 elements `vector_add_allow_dup` puts the pointer behind the
-- elements and keeps the representation valid, unless the vector is full and realloc fails each of
-- the 16 times: then nothing changes.
add_allow_dup-Appends :
    (grant : ℕ → Bool) (x : ℕ) (v : Vector)
    → IsValid v
    → v.size ≤ 2 ^ 30
    → Appends grant x v (add_allow_dup grant x v)
add_allow_dup-Appends grant x v h small = elim (Bool-cases (v.size == v.limit)) [
  | inr room ↦ rw (add_space grant x v (==→ne _ _ room)) (inl (append-IsValid x h (==→ne _ _ room)))
  | inl full ↦ when_full (==→eq _ _ full)
]
  where
    when_full : v.size ≡ v.limit → Appends grant x v (add_allow_dup grant x v)
    when_full full = elim (expand_full_cases vector_retry grant v h (omega arith) full) [
      | inl (same, refused) ↦ inr (add_gives_up grant x v full same, full, refused)
      | inr grown ↦
          let room = expand_not_full h (omega arith) full in
          let (valid, added) = append-IsValid x (expand-IsValid h (omega arith) true) room in
          rw (add_grows grant x v (expand true v) full grown room)
            (inl (valid, added ∙ ap (λ l. l ++ (x ∷ [])) (contents-expand true h)))
    ]

-- On a valid vector of at most 2^30 elements and a pointer that is not NULL `vector_add` stops the
-- process when the pointer is there already, and else does what `vector_add_allow_dup` does there: the
-- pointer is behind the elements of a valid vector, or the vector was full, memory was refused 16
-- times, and it stays as it was.
pub add-Appends :
    (grant : ℕ → Bool) (x : ℕ) (v : Vector)
    → IsValid v
    → v.size ≤ 2 ^ 30
    → x ≢ 0
    → ((contains x (contents v) ≡ true) × (add grant x v ≡ abort))
      ⊎ ((contains x (contents v) ≡ false)
          × ((v' : Vector) × (add grant x v ≡ done v') × Appends grant x v v'))
unfolding add
add-Appends grant x v h small ne = elim (Bool-cases (contains x (contents v))) [
  | inl present ↦ inl (present, rw (lookup_lem x v ne, add, present, ne→== x 0 ne))
  | inr absent ↦ inr (
    absent,
    (
      add_allow_dup grant x v,
      rw (lookup_lem x v ne, add, absent),
      add_allow_dup-Appends grant x v h small,
    ),
  )
]

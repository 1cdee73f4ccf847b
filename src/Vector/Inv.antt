-- ===== src/Vector/Inv.antt =====
-- The representation invariant of `struct vector`, and growing.
use nettlp_dpdk.Prelude.{
  ℕ, zero, suc, ◌*◌, ◌^◌, ◌≤◌, ◌<◌, ◌≡◌, ◌≢◌, refl, ap, ◌∙◌, Bool, true, false, ◌⊎◌, inl, inr,
  arith, Bool-cases, length, take, take_append, take_all, replicate, length-append, length-take,
  length-replicate,
}
use nettlp_dpdk.Vector.{Vector, contents, expand, expand_full}

-- The array has `limit` elements, of which `size` are in use, and `limit` was not doubled past
-- the `unsigned int`.
pub record IsValid (v : Vector) : Type 0 where
  pub storage : length v.array ≡ v.limit
  pub within : v.size ≤ v.limit
  pub nonempty : 0 < v.limit
  pub small : v.limit ≤ 2 ^ 31

pub length-contents : {v : Vector} → IsValid v → length (contents v) ≡ v.size
length-contents {v} h = omega (arith, length-take v.size v.array, h.storage, h.within)

module _ {v : Vector} (h : IsValid v) (room : v.limit ≤ 2 ^ 30) where
  pub expand-IsValid : (granted : Bool) → IsValid (expand granted v)
  unfolding expand
  expand-IsValid granted = ground (
    arith,
    length-append (take v.limit v.array) (replicate v.limit 0),
    length-take v.limit v.array,
    length-replicate {A = ℕ} v.limit 0,
  )

  pub limit-expand_granted : (expand true v).limit ≡ v.limit * 2
  unfolding expand
  limit-expand_granted = omega arith

pub contents-expand :
    {v : Vector} (granted : Bool) → IsValid v → contents (expand granted v) ≡ contents v
unfolding expand
contents-expand false h = refl
contents-expand {v} true h =
    take_append v.size (take v.limit v.array) (replicate v.limit 0)
      (omega (arith, length-take v.limit v.array, h.storage, h.within))
    ∙ ap (take v.size) (take_all v.limit v.array (omega (arith, h.storage)))

pub size-expand : (v : Vector) (granted : Bool) → (expand granted v).size ≡ v.size
unfolding expand
size-expand v true = refl
size-expand v false = refl

expand_refused : (v : Vector) → expand false v ≡ v
unfolding expand
expand_refused v = refl

expand_full_stop :
    (retry : ℕ) (grant : ℕ → Bool) (v : Vector) → v.size ≢ v.limit → expand_full retry grant v ≡ v
unfolding expand_full
expand_full_stop zero grant v h = refl
expand_full_stop (suc retry) grant v h = ground arith

expand_full_step :
    (retry : ℕ) (grant : ℕ → Bool) (v : Vector)
    → v.size ≡ v.limit
    → expand_full (suc retry) grant v ≡ expand_full retry grant (expand (grant retry) v)
unfolding expand_full
expand_full_step retry grant v h = ground arith

expand_full-zero : (grant : ℕ → Bool) (v : Vector) → expand_full zero grant v ≡ v
unfolding expand_full
expand_full-zero grant v = refl

pub expand_not_full :
    {v : Vector}
    → IsValid v
    → v.limit ≤ 2 ^ 30
    → v.size ≡ v.limit
    → (expand true v).size ≢ (expand true v).limit
expand_not_full {v} h room full =
    omega (arith, limit-expand_granted h room, size-expand v true, h.nonempty)

-- What the retry loop of a full vector leaves: the vector as it was when each request was refused,
-- else one that has doubled once.
pub expand_full_cases :
    (retry : ℕ) (grant : ℕ → Bool) (v : Vector)
    → IsValid v
    → v.limit ≤ 2 ^ 30
    → v.size ≡ v.limit
    → ((expand_full retry grant v ≡ v) × ((k : ℕ) → k < retry → grant k ≡ false))
      ⊎ (expand_full retry grant v ≡ expand true v)
expand_full_cases zero grant v h room full = inl (expand_full-zero grant v, λ k lt. elim lt [ ])
expand_full_cases (suc retry) grant v h room full = elim (Bool-cases (grant retry)) [
  | inl yes' ↦ inr (
      expand_full_step retry grant v full
      ∙ rw yes' (expand_full_stop retry grant (expand true v) (expand_not_full h room full)))
  | inr no' ↦ elim (expand_full_cases retry grant v h room full) [
    | inl (same, refused) ↦ inl (
      expand_full_step retry grant v full ∙ rw (no', expand_refused) same,
      λ k lt. ground (arith, refused k),
    )
    | inr grown ↦ inr (expand_full_step retry grant v full ∙ rw (no', expand_refused) grown)
  ]
]

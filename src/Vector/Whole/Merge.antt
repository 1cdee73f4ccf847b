-- ===== src/Vector/Whole/Merge.antt =====
-- `vector_catenate`, `vector_merge` and `vector_cap`: what is left in the vector that grows.
use nettlp_dpdk.Prelude.{
  ℕ, ◌≡◌, ◌≢◌, Bool, ◌&&◌, Option, none, some, List, [], ◌∷◌, ◌++◌, ◌==◌, if◌then◌else◌, Run, done,
  abort, ◌>>=◌, not,
}
use nettlp_dpdk.Vector.{Vector, contents, lookup, add, create}
use nettlp_dpdk.Vector.Inv.{IsValid}
use nettlp_dpdk.Vector.Lookup.{contains}
use nettlp_dpdk.Vector.Whole.Walk.{for_each}

-- `granted` is the answer of malloc for the node of the loop, `grants x` that of realloc while the
-- pointer `x` is added.
pub catenate : Bool → (ℕ → ℕ → Bool) → Vector → Vector → Run Vector
catenate granted grants va vb = for_each vb (λ x s. s >>= λ v. add (grants x) x v) granted (done va)

merge_one : (ℕ → ℕ → Bool) → ℕ → Run Vector → Run Vector
merge_one grants x s = s >>= λ v. if lookup x v == 0 then add (grants x) x v else done v

pub merge : Bool → (ℕ → ℕ → Bool) → Vector → Vector → Run Vector
merge granted grants dst src = for_each src (merge_one grants) granted (done dst)

cap_one : (ℕ → ℕ → Bool) → ℕ → ℕ → Run Vector → Run Vector
cap_one grants a b s = s >>= λ v. if not (a == 0) && a == b then add (grants a) a v else done v

-- `struct_granted` and `array_granted` are the answers in `vector_create`, without which the call
-- has no vector to fill, and `inner` those of malloc for the node of the inner loop.
pub cap : Bool → Bool → Bool → (ℕ → Bool) → (ℕ → ℕ → Bool) → Vector → Vector → Option (Run Vector)
cap struct_granted array_granted granted inner grants va vb =
    elim (create struct_granted array_granted) [
      | none ↦ none
      | some empty ↦
          some
            (for_each va (λ a s. for_each vb (cap_one grants a) (inner a) s) granted (done empty))
    ]

-- The elements of `xs`, then those of `ys` that are not among them, each once.
pub union : List ℕ → List ℕ → List ℕ
union xs [] = xs
union xs (y ∷ ys) = union (if contains y xs then xs else xs ++ (y ∷ [])) ys

-- Every pointer is other than NULL.
abbrev pub NonNull : List ℕ → Type 0
NonNull [] = Unit
NonNull (x ∷ xs) = (x ≢ 0) × NonNull xs

-- The run ends with a valid vector of these elements.
abbrev pub Holds : List ℕ → Run Vector → Type 0
Holds xs (done v) = IsValid v × (contents v ≡ xs)
Holds xs abort = ⊥

-- ===== src/Vector.antt =====
-- lib/zcmdsh/vector.c and vector.h: a growing array of pointers.
-- A pointer is a number and NULL is 0. A function that changes `*v` returns the new vector. What
-- malloc and realloc answer is an argument: whether the request is granted, which for the loop
-- around `vector_expand` depends on the retries left. `qsort` and the comparison function of a
-- caller are arguments too. Indices are those that fit the `unsigned int` of `limit` and `size`.
pub mod Inv
pub mod Lookup
pub mod Add
pub mod Remove
pub mod Bsearch
pub mod Whole
mod Tests
use nettlp_dpdk.Prelude.{
  length, ℕ, zero, suc, ◌+◌, ◌-◌, ◌*◌, ◌%◌, ◌^◌, Bool, true, false, Option, none, some, List, [],
  ◌∷◌, ◌++◌, not, ◌&&◌, ltb, leb, ◌==◌, if◌then◌else◌, Run, done, abort, ◌>>=◌, get_or, set, take,
  drop, replicate, memmove,
}

-- struct vector
pub record Vector : Type 0 where
  pub array : List ℕ
  pub limit : ℕ
  pub size : ℕ

-- VECTOR_DEFSIZ and VECTOR_RETRY
abbrev pub default_size : ℕ
default_size = 1

abbrev pub vector_retry : ℕ
vector_retry = 16

-- The answers of the two calls of malloc.
pub create : Bool → Bool → Option Vector
create struct_granted array_granted =
    if not struct_granted
    then none
    else if not array_granted
    then none
    else some (record { array = replicate default_size 0; limit = default_size; size = 0 })

-- The array's part in use, element by element.
abbrev pub contents : Vector → List ℕ
contents v = take v.size v.array

-- The loop of `vector_lookup_index` over the elements from `index` on.
pub find_index : ℕ → List ℕ → ℕ → Option ℕ
find_index x [] index = none
find_index x (y ∷ ys) index = if y == x then some index else find_index x ys (index + 1)

-- `none` is the result -1.
pub lookup_index : ℕ → Vector → Option ℕ
lookup_index x v = if v.size == 0 then none else find_index x (contents v) 0

pub lookup : ℕ → Vector → ℕ
lookup x v = elim (lookup_index x v) [ none ↦ 0 | some index ↦ get_or v.array index 0 ]

-- realloc keeps what the array holds, and memset clears the second half.
pub expand : Bool → Vector → Vector
expand granted v =
    if granted
    then record v {
      array = take v.limit v.array ++ replicate v.limit 0;
      limit = (v.limit * 2) % 2 ^ 32;
    }
    else v

-- while (retry-- && v->size == v->limit) vector_expand (v);
pub expand_full : ℕ → (ℕ → Bool) → Vector → Vector
expand_full zero grant v = v
expand_full (suc retry) grant v = elim (v.size == v.limit) [
  | true ↦ expand_full retry grant (expand (grant retry) v)
  | false ↦ v
]

pub add_allow_dup : (ℕ → Bool) → ℕ → Vector → Vector
add_allow_dup grant x v =
    let v' = if v.size == v.limit then expand_full vector_retry grant v else v in
    if v'.size == v'.limit
    then v'
    else record v' { array = set v'.array v'.size x; size = v'.size + 1 }

-- A pointer that is there already stops the process by `assert (0)`.
pub add : (ℕ → Bool) → ℕ → Vector → Run Vector
add grant x v = if lookup x v == 0 then done (add_allow_dup grant x v) else abort

-- qsort (v->array, v->size, sizeof (void *), cmp), as a function on the part in use
pub sort : (List ℕ → List ℕ) → Vector → Vector
sort qsort v = record v { array = qsort (contents v) ++ drop v.size v.array }

pub add_sort : (List ℕ → List ℕ) → (ℕ → Bool) → ℕ → Vector → Run Vector
add_sort qsort grant x v = add grant x v >>= λ v'. done (sort qsort v')

-- What both removals do to an index in the array.
pub take_out : ℕ → Vector → Vector
take_out index v =
    let cleared = set v.array index 0 in
    record v {
      array =
          if ltb (index + 1) v.limit
          then memmove cleared index (index + 1) (v.limit - index - 1)
          else cleared;
      size = (v.size + 2 ^ 32 - 1) % 2 ^ 32;
    }

-- The slot is written first: one past the array is a write out of bounds.
pub remove_at : ℕ → Vector → Run Vector
remove_at index v = if ltb index (length v.array) then done (take_out index v) else abort

pub remove : ℕ → Vector → Run Vector
remove x v = elim (lookup_index x v) [ none ↦ abort | some index ↦ remove_at index v ]

-- An `int` index, of which a negative one stops the process: only the others reach this function.
pub remove_index : ℕ → Vector → Run Vector
remove_index index v = remove_at index v

pub clear : Vector → Vector
clear v = record v { array = replicate v.limit 0; size = 0 }

-- while (retry-- && v->limit <= index) vector_expand (v);
pub expand_to : ℕ → ℕ → (ℕ → Bool) → Vector → Vector
expand_to index zero grant v = v
expand_to index (suc retry) grant v = elim (leb v.limit index) [
  | true ↦ expand_to index retry grant (expand (grant retry) v)
  | false ↦ v
]

-- The first half of `vector_set`: room for the index, if it can be had.
pub reserve : (ℕ → Bool) → Vector → ℕ → Vector
reserve grant v index = if leb v.limit index then expand_to index vector_retry grant v else v

-- Its second half.
pub store : Vector → ℕ → ℕ → Vector
store v index x = if leb v.limit index then v else record v {
  array = set v.array index x;
  size = if leb v.size index then index + 1 else v.size;
}

pub put : (ℕ → Bool) → Vector → ℕ → ℕ → Vector
put grant v index x = store (reserve grant v index) index x

pub get : Vector → ℕ → ℕ
get v index = if leb v.size index then 0 else get_or v.array index 0

pub is_empty : Vector → Bool
is_empty v = if v.size == 0 then true else false

-- vector_assert: whether the process survives it.
all_set : List ℕ → Bool
all_set [] = true
all_set (x ∷ xs) = not (x == 0) && all_set xs

all_clear : List ℕ → Bool
all_clear [] = true
all_clear (x ∷ xs) = x == 0 && all_clear xs

pub assert_ok : Vector → Bool
assert_ok v = all_set (contents v) && all_clear (take (v.limit - v.size) (drop v.size v.array))

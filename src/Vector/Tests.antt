-- ===== src/Vector/Tests.antt =====
-- Runs of the vector on small arrays, and its theorems at concrete vectors.
use nettlp_dpdk.Prelude.{
  ◌^◌, abort, ℕ, zero, suc, ◌+◌, ◌≤◌, ◌<◌, ◌≡◌, ◌≢◌, ◌↔◌, refl, ◌⊎◌, Bool, true, false, none, some,
  List, [], ◌∷◌, arith, done, abort, ltb, ◌==◌, get_or, if◌then◌else◌,
}
use nettlp_dpdk.Vector.{
  Vector, contents, add_allow_dup, add, remove, remove_index, remove_at, take_out, assert_ok,
  expand, expand_full,
}
use nettlp_dpdk.Vector.Inv.{IsValid}
use nettlp_dpdk.Vector.Lookup.{contains}
use nettlp_dpdk.Vector.Add.{Appends, add-Appends}
use nettlp_dpdk.Vector.Remove.{erase, remove-erase, remove_index-assert}
use nettlp_dpdk.Vector.Bsearch.{
  Sign, negative, null, positive, lookup_index_bsearch, IsOrdered, lookup_index_bsearch-Finds,
}
use nettlp_dpdk.Vector.Whole.{copy, copy-contents, is_same, is_same_iff}

abbrev two : Vector
two = record { array = 5 ∷ 7 ∷ []; limit = 2; size = 2 }

abbrev three : Vector
three = record { array = 9 ∷ 5 ∷ 8 ∷ 0 ∷ []; limit = 4; size = 3 }

two-IsValid : IsValid two
two-IsValid = record {
  storage = refl;
  within = omega arith;
  nonempty = omega arith;
  small = omega arith;
}

three-IsValid : IsValid three
three-IsValid = record {
  storage = refl;
  within = omega arith;
  nonempty = omega arith;
  small = omega arith;
}

abbrev always : ℕ → Bool
always retry = true

add_allow_dup-two : contents (add_allow_dup always 7 two) ≡ 5 ∷ 7 ∷ 7 ∷ []
unfolding add_allow_dup expand_full expand
add_allow_dup-two = refl

remove_two : remove_index 0 two ≡ done (record { array = 7 ∷ 7 ∷ []; limit = 2; size = 1 })
unfolding remove_index remove_at take_out
remove_two = refl

add-Appends_example :
    ((contains 8 (contents two) ≡ true) × (add always 8 two ≡ abort))
    ⊎ ((contains 8 (contents two) ≡ false)
        × ((v' : Vector) × (add always 8 two ≡ done v') × Appends always 8 two v'))
add-Appends_example = add-Appends always 8 two two-IsValid (omega arith) (λ e. omega arith)

remove-erase_example :
    ((contains 5 (contents two) ≡ false) × (remove 5 two ≡ abort))
    ⊎ ((contains 5 (contents two) ≡ true)
        × ((v' : Vector) × (remove 5 two ≡ done v')
            × IsValid v'
            × (v'.size + 1 ≡ 2)
            × (contents v' ≡ erase 5 (contents two))))
remove-erase_example = remove-erase 5 two two-IsValid

remove_index-assert_example :
    (v' : Vector) × (remove_index 0 two ≡ done v') × (assert_ok v' ≡ false)
remove_index-assert_example =
    remove_index-assert 0 two two-IsValid refl (omega arith) (λ e. omega arith)

abbrev by_number : ℕ → ℕ → Sign
by_number x y = if ltb x y then negative else if x == y then null else positive

two_behind :
    (i j : ℕ)
    → i ≤ j
    → j < 2
    → by_number 7 (get_or two.array i 0) ≡ negative
    → by_number 7 (get_or two.array j 0) ≡ negative
two_behind zero j h k e = cc
two_behind (suc zero) j h k e = cc
two_behind (suc (suc i)) j h k e = absurd (omega arith)

two_before :
    (i j : ℕ)
    → i ≤ j
    → j < 2
    → by_number 7 (get_or two.array j 0) ≡ positive
    → by_number 7 (get_or two.array i 0) ≡ positive
two_before zero j h k e = refl
two_before (suc i) zero h k e = absurd (omega arith)
two_before (suc i) (suc zero) h k e = cc
two_before (suc i) (suc (suc j)) h k e = absurd (omega arith)

two-IsOrdered : IsOrdered by_number 7 two.array two.size
two-IsOrdered = record { behind = two_behind; before = two_before }

lookup_index_bsearch-Finds_example :
    ((2 < 2 ^ 31)
      × (((k : ℕ) × (lookup_index_bsearch by_number 7 two ≡ done (some k))
            × (k < 2)
            × (by_number 7 (get_or two.array k 0) ≡ null))
          ⊎ ((lookup_index_bsearch by_number 7 two ≡ done none)
              × ((i : ℕ) → i < 2 → by_number 7 (get_or two.array i 0) ≢ null))))
    ⊎ ((2 ≡ 2 ^ 31) × (lookup_index_bsearch by_number 7 two ≡ abort))
lookup_index_bsearch-Finds_example =
    lookup_index_bsearch-Finds by_number 7 two two-IsValid two-IsOrdered

abbrev collect : ℕ → List ℕ → List ℕ
collect x xs = x ∷ xs

abbrev served : ℕ → ℕ → Bool
served index retry = true

copy-contents_example :
    (w : Vector) × (copy true true served three ≡ some w)
    × IsValid w
    × (contents w ≡ contents three)
copy-contents_example = copy-contents served (λ i. refl) three three-IsValid (omega arith)

is_same_iff_example : (is_same two three ≡ true) ↔ (contents two ≡ contents three)
is_same_iff_example = is_same_iff two three two-IsValid three-IsValid

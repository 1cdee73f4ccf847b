-- ===== src/Rib/Sorting.antt =====
-- sdplane/rib_manager.c: how often a list has a queue, and what the check relies on in qsort.
use nettlp_dpdk.Prelude.{
  ℕ, ◌+◌, ◌<◌, ◌≡◌, ◌≢◌, refl, Bool, true, false, ◌&&◌, List, [], ◌∷◌, ◌++◌, arith, ◌==◌,
}
use nettlp_dpdk.Rib.{PortQueue, greater, port_qconf_compare, Env}

abbrev pub one_if : Bool → ℕ
one_if true = 1
one_if false = 0

-- How often the list has queue `q` of port `p`.
abbrev pub copies : ℕ → ℕ → List PortQueue → ℕ
copies p q [] = 0
copies p q (x ∷ xs) = one_if (x.port_id == p && x.queue_id == q) + copies p q xs

-- No element of the list is before `x`.
abbrev pub AllAfter : PortQueue → List PortQueue → Type 0
AllAfter x [] = Unit
AllAfter x (y ∷ ys) = (port_qconf_compare x y ≢ greater) × AllAfter x ys

abbrev pub Sorted : List PortQueue → Type 0
Sorted [] = Unit
Sorted (x ∷ xs) = AllAfter x xs × Sorted xs

-- qsort with the comparison of the check: the same elements, in order.
pub record SortsRight (env : Env) : Type 0 where
  pub keeps :
      (p q : ℕ) (xs : List PortQueue) → copies p q (env.qsort port_qconf_compare xs) ≡ copies p q xs
  pub sorts : (xs : List PortQueue) → Sorted (env.qsort port_qconf_compare xs)

-- Behind a queue in a sorted list, its port has no smaller one.
pub copies_before :
    (x : PortQueue) (ys : List PortQueue) (q : ℕ)
    → AllAfter x ys
    → q < x.queue_id
    → copies x.port_id q ys ≡ 0
unfolding port_qconf_compare
copies_before x [] q h lt = refl
copies_before x (y ∷ ys) q h lt = ground (arith, copies_before x ys q)

pub copies-append :
    (p q : ℕ) (xs ys : List PortQueue) → copies p q (xs ++ ys) ≡ copies p q xs + copies p q ys
copies-append p q [] ys = omega arith
copies-append p q (x ∷ xs) ys = omega (arith, copies-append p q xs ys)

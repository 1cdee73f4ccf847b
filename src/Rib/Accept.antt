-- ===== src/Rib/Accept.antt =====
-- sdplane/rib_manager.c: the configurations that rib_check accepts.
use nettlp_dpdk.Prelude.{
  ℕ, ◌+◌, ◌≤◌, ◌<◌, ◌≡◌, ◌≢◌, refl, sym, ap, ◌∙◌, ◌⊎◌, inl, inr, ◌&&◌, none, some, List, [], ◌∷◌,
  arith, ltb, leb, ◌==◌, set, get_or, length, done, abort, Bool-cases, ==→eq, ==→ne, eq→==, ne→==,
  get_or-set_self, get_or-set_ne, length-set, get_elem?-eq-get_or, get_elem?_out, abort-ne-done,
  refused-ne-done, done-some_inj, ltb→le, ltb→lt,
}
use nettlp_dpdk.Rib.{PortQueue, count_rxqs}
use nettlp_dpdk.Rib.Sorting.{AllAfter, one_if, copies, Sorted, copies_before}

-- 1 where `q` is from `lo` up to below `hi`.
abbrev pub within : ℕ → ℕ → ℕ → ℕ
within lo hi q = one_if (leb lo q && ltb q hi)

pub count_step :
    (x : PortQueue) (xs : List PortQueue) (n : List ℕ)
    → x.port_id < length n
    → get_or n x.port_id 0 ≡ x.queue_id
    → count_rxqs (x ∷ xs) n ≡ count_rxqs xs (set n x.port_id (x.queue_id + 1))
unfolding count_rxqs
count_step x xs n lt e =
    rw (count_rxqs, get_elem?-eq-get_or n x.port_id 0 lt, e, eq→== x.queue_id x.queue_id refl) refl

pub count_stop :
    (x : PortQueue) (xs : List PortQueue) (n : List ℕ)
    → x.port_id < length n
    → get_or n x.port_id 0 ≢ x.queue_id
    → count_rxqs (x ∷ xs) n ≡ done none
unfolding count_rxqs
count_stop x xs n lt e =
    rw (count_rxqs, get_elem?-eq-get_or n x.port_id 0 lt, ne→== (get_or n x.port_id 0) x.queue_id e)
      refl

count_out :
    (x : PortQueue) (xs : List PortQueue) (n : List ℕ)
    → length n ≤ x.port_id
    → count_rxqs (x ∷ xs) n ≡ abort
unfolding count_rxqs
count_out x xs n ge = rw (count_rxqs, get_elem?_out n x.port_id ge) refl

-- The head of the list is the next queue of its port, or the count ends.
pub count_cases :
    (x : PortQueue) (xs : List PortQueue) (n n' : List ℕ)
    → count_rxqs (x ∷ xs) n ≡ done (some n')
    → (x.port_id < length n)
      × (get_or n x.port_id 0 ≡ x.queue_id)
      × (count_rxqs xs (set n x.port_id (x.queue_id + 1)) ≡ done (some n'))
count_cases x xs n n' h = elim (Bool-cases (ltb x.port_id (length n))) [
  | inr out ↦ absurd (abort-ne-done (sym (count_out x xs n (ltb→le _ _ out)) ∙ h))
  | inl lt ↦ elim (Bool-cases (get_or n x.port_id 0 == x.queue_id)) [
    | inl eq ↦
        (ltb→lt _ _ lt, ==→eq _ _ eq, sym (count_step x xs n (ltb→lt _ _ lt) (==→eq _ _ eq)) ∙ h)
    | inr ne ↦
        absurd (refused-ne-done refl (sym (count_stop x xs n (ltb→lt _ _ lt) (==→ne _ _ ne)) ∙ h))
  ]
]

-- The counts after the head of the list.
set_cases :
    (x : PortQueue) (n : List ℕ)
    → x.port_id < length n
    → get_or n x.port_id 0 ≡ x.queue_id
    → (p : ℕ)
    → ((x.port_id ≡ p)
        × (get_or n p 0 ≡ x.queue_id)
        × (get_or (set n x.port_id (x.queue_id + 1)) p 0 ≡ x.queue_id + 1))
      ⊎ ((x.port_id ≢ p) × (get_or (set n x.port_id (x.queue_id + 1)) p 0 ≡ get_or n p 0))
set_cases x n lt eq p = elim (Bool-cases (x.port_id == p)) [
  | inl same ↦
      let e = ==→eq _ _ same in
      inl (
        e,
        ap (λ k. get_or n k 0) (sym e) ∙ eq,
        ap (λ k. get_or (set n x.port_id (x.queue_id + 1)) k 0) (sym e)
            ∙ get_or-set_self n x.port_id (x.queue_id + 1) 0 lt,
      )
  | inr other ↦
      let ne = ==→ne _ _ other in inr (ne, get_or-set_ne n x.port_id p (x.queue_id + 1) 0 ne)
]

-- What the count gives is what the list has: from the count so far up to the new one, each queue once.
pub count-copies :
    (xs : List PortQueue) (n n' : List ℕ)
    → count_rxqs xs n ≡ done (some n')
    → (p q : ℕ)
    → (get_or n p 0 ≤ get_or n' p 0) × (copies p q xs ≡ within (get_or n p 0) (get_or n' p 0) q)
unfolding count_rxqs
count-copies [] n n' h p q =
    let e : get_or n p 0 ≡ get_or n' p 0 = ap (λ l. get_or l p 0) (done-some_inj h) in
    (omega (arith, e), rw e (ground arith))
count-copies (x ∷ xs) n n' h p q =
    let (lt, eq, rest) = count_cases x xs n n' h in
    let (le, count) = count-copies xs (set n x.port_id (x.queue_id + 1)) n' rest p q in
    elim (set_cases x n lt eq p) [
      | inl (same, here, next) ↦ (omega (arith, le), ground (arith, count, same, here, next, le))
      | inr (other, kept) ↦ (omega (arith, le, kept), ground (arith, count, other, kept))
    ]

-- The head of a sorted list that has each queue from the count on once is the next queue of its port.
head_next :
    (x : PortQueue) (xs : List PortQueue) (lo hi : ℕ)
    → AllAfter x xs
    → ((q : ℕ) → copies x.port_id q (x ∷ xs) ≡ within lo hi q)
    → (lo ≡ x.queue_id) × (x.queue_id < hi)
head_next x xs lo hi after count =
    let self = count x.queue_id in
    let first = count lo in
    elim (Bool-cases (ltb lo x.queue_id)) [
      | inl lt ↦ absurd (ground (arith, self, first, copies_before x xs lo after (ltb→lt _ _ lt)))
      | inr ge ↦ ground (arith, self, ge)
    ]

pub count-accepts :
    (xs : List PortQueue) (n : List ℕ) (e : ℕ → ℕ)
    → Sorted xs
    → ((p : ℕ) → length n ≤ p → e p ≡ 0)
    → ((p q : ℕ) → copies p q xs ≡ within (get_or n p 0) (e p) q)
    → (n' : List ℕ) × (count_rxqs xs n ≡ done (some n'))
unfolding count_rxqs
count-accepts [] n e sorted out count = (n, refl)
count-accepts (x ∷ xs) n e sorted out count =
    let (next, below) =
      head_next x xs (get_or n x.port_id 0) (e x.port_id) sorted.0 (count x.port_id) in
    let lt : x.port_id < length n = elim (Bool-cases (ltb x.port_id (length n))) [
      | inl lt ↦ ltb→lt _ _ lt
      | inr ge ↦ absurd (omega (arith, out x.port_id (ltb→le _ _ ge), below))
    ] in
    let n₁ : List ℕ = set n x.port_id (x.queue_id + 1) in
    let (n', rest) =
      count-accepts xs n₁ e sorted.1
        (λ p ge. out p (omega (arith, length-set n x.port_id (x.queue_id + 1))))
        (λ p q. elim (set_cases x n lt next p) [
          | inl (same, here, next) ↦ ground (arith, count p q, same, here, next, below)
          | inr (other, kept) ↦ ground (arith, count p q, other, kept)
        ]) in
    (n', count_step x xs n lt next ∙ rest)

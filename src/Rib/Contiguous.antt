-- ===== src/Rib/Contiguous.antt =====
-- sdplane/rib_manager.c: rib_check accepts the contiguous configurations and no other.
use nettlp_dpdk.Prelude.{
  ℕ, ◌+◌, ◌≤◌, ◌≡◌, refl, sym, ap, ◌∙◌, inl, inr, some, List, [], ◌∷◌, arith, ltb, length,
  replicate, done, set, get_or, done-some_inj, length-set, length-replicate, get_or-replicate,
  get_or_out, ◌↔◌, le→ltb, ltb→le, abort-ne-done, Bool-cases,
}
use nettlp_dpdk.Rib.{
  PortQueue, Info, Env, port_qconf_compare, count_rxqs, polled, check_queues, max_port_qconf,
}
use nettlp_dpdk.Rib.Sorting.{one_if, copies, SortsRight}
use nettlp_dpdk.Rib.Accept.{count_cases, count-copies, count-accepts}

-- There is a number of queues for each port, 0 for one beyond the table, such that the list has the
-- queues of a port below its number once each, and no other.
abbrev pub IsContiguous : ℕ → List PortQueue → Type 0
IsContiguous max_ports xs =
    (e : ℕ → ℕ) × ((p : ℕ) → max_ports ≤ p → e p ≡ 0)
    × ((p q : ℕ) → copies p q xs ≡ one_if (ltb q (e p)))

count-length :
    (xs : List PortQueue) (n n' : List ℕ) → count_rxqs xs n ≡ done (some n') → length n' ≡ length n
unfolding count_rxqs
count-length [] n n' h = ap length (sym (done-some_inj h))
count-length (x ∷ xs) n n' h =
    let (lt, eq, rest) = count_cases x xs n n' h in
    count-length xs (set n x.port_id (x.queue_id + 1)) n' rest
    ∙ length-set n x.port_id (x.queue_id + 1)

pub check_queues_small :
    (env : Env) (info : Info)
    → length (polled info) ≤ max_port_qconf
    → check_queues env info
      ≡ count_rxqs (env.qsort port_qconf_compare (polled info)) (replicate env.max_ports 0)
unfolding check_queues
check_queues_small env info le = rw (check_queues, le→ltb max_port_qconf _ le) refl

check_queues_large :
    (env : Env) (info : Info) (n : List ℕ)
    → check_queues env info ≡ done (some n)
    → length (polled info) ≤ max_port_qconf
unfolding check_queues
check_queues_large env info n h = elim (Bool-cases (ltb max_port_qconf (length (polled info)))) [
  | inr le ↦ ltb→le _ _ le
  | inl gt ↦ absurd (abort-ne-done (sym (rw (check_queues, gt) refl) ∙ h))
]

-- The numbers of queues that an accepting check gives are those of the lcores.
pub check_queues-counts :
    (env : Env) (info : Info) (n : List ℕ)
    → SortsRight env
    → check_queues env info ≡ done (some n)
    → ((p : ℕ) → env.max_ports ≤ p → get_or n p 0 ≡ 0)
      × ((p q : ℕ) → copies p q (polled info) ≡ one_if (ltb q (get_or n p 0)))
check_queues-counts env info n law h =
    let counted = sym (check_queues_small env info (check_queues_large env info n h)) ∙ h in
    let zeros : List ℕ = replicate env.max_ports 0 in
    let sorted : List PortQueue = env.qsort port_qconf_compare (polled info) in
    (
      λ p ge. get_or_out n p 0 (
          omega
            (arith, count-length sorted zeros n counted, length-replicate {A = ℕ} env.max_ports 0)),
      λ p q.
          let (le, same) = count-copies sorted zeros n counted p q in
          ground
            (arith, law.keeps p q (polled info), same, get_or-replicate {A = ℕ} env.max_ports p 0),
    )

-- rib_check accepts queues exactly where each port's are numbered from 0 on without a gap, each
-- polled by one lcore once, and the ports are those of the table: for a qsort that sorts, and at most
-- the 256 queues that its array holds.
pub check_queues-accepts :
    (env : Env) (info : Info)
    → SortsRight env
    → length (polled info) ≤ max_port_qconf
    → ((n : List ℕ) × (check_queues env info ≡ done (some n)))
      ↔ IsContiguous env.max_ports (polled info)
check_queues-accepts env info law le = (
  λ (n, h).
      let (out, count) = check_queues-counts env info n law h in (λ p. get_or n p 0, out, count),
  λ (e, out, count).
      let (n, h) =
        count-accepts (env.qsort port_qconf_compare (polled info)) (replicate env.max_ports 0) e
          (law.sorts (polled info))
          (λ p ge. out p (omega (arith, length-replicate {A = ℕ} env.max_ports 0)))
          (λ p q. ground (
            arith,
            law.keeps p q (polled info),
            count p q,
            get_or-replicate {A = ℕ} env.max_ports p 0,
          )) in
      (n, check_queues_small env info le ∙ h),
)

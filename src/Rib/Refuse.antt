-- ===== src/Rib/Refuse.antt =====
-- sdplane/rib_manager.c: a message that leaves a queue with two lcores.
use nettlp_dpdk.Prelude.{
  ℕ, zero, suc, ◌+◌, ◌%◌, ◌^◌, ◌≤◌, ◌<◌, ◌≡◌, ◌≢◌, refl, ap, ◌∙◌, inl, inr, Bool, Option, none,
  some, List, [], ◌∷◌, arith, ltb, ◌==◌, done, Bool-cases, take, length, replicate, get_or, set,
  ltb→lt, ltb→le, ==→eq, ==→ne, length-set, length-replicate, get_or-take,
}
use nettlp_dpdk.Rib.{
  PortQueue, LcoreQconf, Info, Env, Manager, port_qconf_compare, check, accept, check_queues,
  count_rxqs, collect_queues, polled, rxqs, max_port_qconf,
}
use nettlp_dpdk.Rib.Messages.{
  qconf, idle, create, copy_queues, copy_lcore, copy_lcores, set_qconf, publish_checked,
  process_message,
}
use nettlp_dpdk.Rib.Sorting.{copies, SortsRight, copies-append}
use nettlp_dpdk.Rib.Accept.{count_step, count_stop}
use nettlp_dpdk.Rib.Contiguous.{check_queues-counts, check_queues_small}

-- The count ends with an answer where no queue is of a port beyond the table.
count_rxqs-ends :
    (xs : List PortQueue) (n : List ℕ)
    → ((p q : ℕ) → length n ≤ p → copies p q xs ≡ 0)
    → (o : Option (List ℕ)) × (count_rxqs xs n ≡ done o)
unfolding count_rxqs
count_rxqs-ends [] n out = (some n, refl)
count_rxqs-ends (x ∷ xs) n out = elim (Bool-cases (ltb x.port_id (length n))) [
  | inr ge ↦ absurd (ground (arith, out x.port_id x.queue_id (ltb→le _ _ ge)))
  | inl lt ↦ elim (Bool-cases (get_or n x.port_id 0 == x.queue_id)) [
    | inr ne ↦ (none, count_stop x xs n (ltb→lt _ _ lt) (==→ne _ _ ne))
    | inl eq ↦
        let (o, h) = count_rxqs-ends xs (set n x.port_id (x.queue_id + 1)) (λ p q le.
          ground (arith, out p q (omega (arith, length-set n x.port_id (x.queue_id + 1))))) in
        (o, count_step x xs n (ltb→lt _ _ lt) (==→eq _ _ eq) ∙ h)
  ]
]

take-copy_queues :
    (n : ℕ) (src dst : List PortQueue)
    → n ≤ length src
    → n ≤ length dst
    → take n (copy_queues n src dst) ≡ take n src
unfolding copy_queues
take-copy_queues zero src dst hs hd = refl
take-copy_queues (suc n) [] dst hs hd = elim hs [ ]
take-copy_queues (suc n) (s ∷ src) [] hs hd = elim hd [ ]
take-copy_queues (suc n) (s ∷ src) (d ∷ dst) hs hd =
    ap (λ l. s ∷ l) (take-copy_queues n src dst (omega arith) (omega arith))

get_or-copy_lcores :
    (n i : ℕ) (src dst : List LcoreQconf)
    → i < n
    → i < length src
    → i < length dst
    → get_or (copy_lcores n src dst) i idle ≡ copy_lcore (get_or src i idle) (get_or dst i idle)
unfolding copy_lcores
get_or-copy_lcores zero i src dst h hs hd = elim h [ ]
get_or-copy_lcores (suc n) i [] dst h hs hd = elim hs [ ]
get_or-copy_lcores (suc n) i (s ∷ src) [] h hs hd = elim hd [ ]
get_or-copy_lcores (suc n) zero (s ∷ src) (d ∷ dst) h hs hd = refl
get_or-copy_lcores (suc n) (suc i) (s ∷ src) (d ∷ dst) h hs hd =
    get_or-copy_lcores n i src dst (omega arith) (omega arith) (omega arith)

-- The queues of one lcore are among those collected.
copies_one :
    (p q i : ℕ) (qs : List LcoreQconf)
    → copies p q (rxqs (get_or qs i idle)) ≤ copies p q (collect_queues qs)
unfolding collect_queues
copies_one p q i [] = omega arith
copies_one p q zero (c ∷ qs) = omega (arith, copies-append p q (rxqs c) (collect_queues qs))
copies_one p q (suc i) (c ∷ qs) =
    omega (arith, copies-append p q (rxqs c) (collect_queues qs), copies_one p q i qs)

-- The queues of two lcores are.
copies_two :
    (p q i k : ℕ) (qs : List LcoreQconf)
    → i ≢ k
    → copies p q (rxqs (get_or qs i idle)) + copies p q (rxqs (get_or qs k idle))
      ≤ copies p q (collect_queues qs)
unfolding collect_queues
copies_two p q i k [] ne = omega arith
copies_two p q zero zero (c ∷ qs) ne = absurd (ne refl)
copies_two p q zero (suc k) (c ∷ qs) ne =
    omega (arith, copies-append p q (rxqs c) (collect_queues qs), copies_one p q k qs)
copies_two p q (suc i) zero (c ∷ qs) ne =
    omega (arith, copies-append p q (rxqs c) (collect_queues qs), copies_one p q i qs)
copies_two p q (suc i) (suc k) (c ∷ qs) ne = omega (
  arith,
  copies-append p q (rxqs c) (collect_queues qs),
  copies_two p q i k qs (λ e. ne (ap suc e)),
)

-- A configuration with a queue twice is refused, and nothing changes.
check-refuses :
    (env : Env) (info : Info) (m : Manager) (p q : ℕ)
    → SortsRight env
    → length (polled info) ≤ max_port_qconf
    → ((p q : ℕ) → env.max_ports ≤ p → copies p q (polled info) ≡ 0)
    → 2 ≤ copies p q (polled info)
    → check env info m ≡ done none
unfolding check accept
check-refuses env info m p q law small ports twice =
    let sorted : List PortQueue = env.qsort port_qconf_compare (polled info) in
    let (o, h) = count_rxqs-ends sorted (replicate env.max_ports 0) (λ p q le.
      law.keeps p q (polled info)
      ∙ ports p q (omega (arith, length-replicate {A = ℕ} env.max_ports 0))) in
    from o (check_queues_small env info small ∙ h)
  where
    from : (o : Option (List ℕ)) → check_queues env info ≡ done o → check env info m ≡ done none
    from none h = rw (check, h) refl
    from (some n) h =
        let (out, count) = check_queues-counts env info n law h in
        absurd (ground (arith, count p q))

copy_lcore-kept : (src dst : LcoreQconf) → src.nrxq ≡ 0 → copy_lcore src dst ≡ dst
unfolding copy_lcore
copy_lcore-kept src dst e = rw (copy_lcore, e) refl

rxqs-copy_lcore :
    (p q : ℕ) (src dst : LcoreQconf)
    → 0 < copies p q (rxqs src)
    → src.nrxq ≤ length src.rx_queue_list
    → src.nrxq ≤ length dst.rx_queue_list
    → rxqs (copy_lcore src dst) ≡ rxqs src
unfolding copy_lcore
rxqs-copy_lcore p q src dst some_queue hs hd = elim (Bool-cases (src.nrxq == 0)) [
  | inl zero_queues ↦
      absurd
        (omega (arith, ap (λ n. copies p q (take n src.rx_queue_list)) (==→eq _ _ zero_queues)))
  | inr queues ↦
      rw (copy_lcore, queues) (take-copy_queues src.nrxq src.rx_queue_list dst.rx_queue_list hs hd)
]

-- A queue of an lcore that the message gives none, and of one that it gives that queue.
move-twice :
    (env : Env) (msg : List LcoreQconf) (info : Info) (p q i k : ℕ)
    → env.lcore_count ≤ 255
    → env.lcore_count ≤ length msg
    → env.lcore_count ≤ length info.lcore_qconf
    → i ≢ k
    → i < env.lcore_count
    → k < env.lcore_count
    → (get_or msg i idle).nrxq ≡ 0
    → 0 < copies p q (rxqs (get_or info.lcore_qconf i idle))
    → 0 < copies p q (rxqs (get_or msg k idle))
    → (get_or msg k idle).nrxq ≤ length (get_or msg k idle).rx_queue_list
    → (get_or msg k idle).nrxq ≤ length (get_or info.lcore_qconf k idle).rx_queue_list
    → 2 ≤ copies p q (polled (set_qconf env msg info))
unfolding set_qconf polled
move-twice env msg info p q i k few hm hi ne lti ltk cleared was now hs hd =
    let n : ℕ = env.lcore_count % 2 ^ 16 in
    let size : ℕ = env.lcore_count % 2 ^ 16 % 2 ^ 8 in
    let qs : List LcoreQconf = copy_lcores n msg info.lcore_qconf in
    let at_i : rxqs (get_or (take size qs) i idle) ≡ rxqs (get_or info.lcore_qconf i idle) =
      ap rxqs (
        get_or-take size i qs idle (omega arith)
        ∙ get_or-copy_lcores n i msg info.lcore_qconf (omega arith) (omega arith) (omega arith)
        ∙ copy_lcore-kept _ _ cleared) in
    let at_k : rxqs (get_or (take size qs) k idle) ≡ rxqs (get_or msg k idle) =
      ap rxqs (
        get_or-take size k qs idle (omega arith)
        ∙ get_or-copy_lcores n k msg info.lcore_qconf (omega arith) (omega arith) (omega arith))
      ∙ rxqs-copy_lcore p q _ _ now hs hd in
    omega (arith, copies_two p q i k (take size qs) ne, ap (copies p q) at_i, ap (copies p q) at_k)

-- A message that takes the last queue of an lcore away, and gives it to another lcore, is refused:
-- the manager keeps the queues of an lcore that the message gives none, so the queue has two lcores,
-- and everything is left as it was. qsort sorts; the machine has at most 255 lcores, which the arrays
-- hold; the lists hold the queues in use; the check's array holds all the queues, and their ports are
-- those of the table.
pub move-refused :
    (env : Env) (served : Bool) (msg : List LcoreQconf) (m : Manager) (info : Info) (p q i k : ℕ)
    → SortsRight env
    → m.rib ≡ some (some info)
    → env.lcore_count ≤ 255
    → env.lcore_count ≤ length msg
    → env.lcore_count ≤ length info.lcore_qconf
    → i ≢ k
    → i < env.lcore_count
    → k < env.lcore_count
    → (get_or msg i idle).nrxq ≡ 0
    → 0 < copies p q (rxqs (get_or info.lcore_qconf i idle))
    → 0 < copies p q (rxqs (get_or msg k idle))
    → (get_or msg k idle).nrxq ≤ length (get_or msg k idle).rx_queue_list
    → (get_or msg k idle).nrxq ≤ length (get_or info.lcore_qconf k idle).rx_queue_list
    → length (polled (set_qconf env msg info)) ≤ max_port_qconf
    → ((p q : ℕ) → env.max_ports ≤ p → copies p q (polled (set_qconf env msg info)) ≡ 0)
    → process_message env served (qconf msg) m ≡ done m
unfolding process_message publish_checked set_qconf create polled
move-refused env served msg m info p q i k law published few hm hi ne lti ltk cleared was now hs hd
      small ports =
    let refused : check env (set_qconf env msg (create env m.rib)) m ≡ done none =
      check-refuses env (set_qconf env msg (create env m.rib)) m p q law (rw published small)
        (rw published ports)
        (rw published
          (move-twice env msg info p q i k few hm hi ne lti ltk cleared was now hs hd)) in
    rw refused refl

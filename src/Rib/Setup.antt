-- ===== src/Rib/Setup.antt =====
-- sdplane/rib_manager.c: what an accepting rib_check did to the devices and the rings.
use nettlp_dpdk.Prelude.{
  ℕ, zero, suc, ◌+◌, ◌<◌, ◌≡◌, refl, sym, ap, ◌∙◌, ◌⊎◌, inl, inr, Bool, true, ◌&&◌, Option, none,
  some, List, [], ◌∷◌, ◌++◌, arith, ltb, leb, ◌==◌, done, Bool-cases, get_or, done_inj,
  done-some_inj, bind-done, abort-ne-done, refused-ne-done, take, ==→eq,
}
use nettlp_dpdk.Rib.{
  PortQueue, Info, Env, Manager, DevCall, dev_stop, dev_configure, rx_queue_setup, tx_queue_setup,
  buffer_init, dev_start, mark, rx_setups, tx_setups, configure_port, configure_ports, make_rings,
  max_rx_queue, desc, zero_port, apply, accept, check, check_queues, collect_queues, polled,
  max_lcore_of,
}
use nettlp_dpdk.Rib.Sorting.{one_if, copies, SortsRight}
use nettlp_dpdk.Rib.Contiguous.{check_queues-counts}

-- How often the calls set up the receive queue `q` of port `p`.
abbrev pub setups : ℕ → ℕ → List DevCall → ℕ
setups p q [] = 0
setups p q (rx_queue_setup i j d ∷ cs) = one_if (i == p && j == q) + setups p q cs
setups p q (dev_stop i ∷ cs) = setups p q cs
setups p q (dev_configure i n t ∷ cs) = setups p q cs
setups p q (tx_queue_setup i j d ∷ cs) = setups p q cs
setups p q (buffer_init i j ∷ cs) = setups p q cs
setups p q (dev_start i ∷ cs) = setups p q cs

setups-append :
    (p q : ℕ) (xs ys : List DevCall) → setups p q (xs ++ ys) ≡ setups p q xs + setups p q ys
setups-append p q [] ys = omega arith
setups-append p q (rx_queue_setup i j d ∷ cs) ys = omega (arith, setups-append p q cs ys)
setups-append p q (dev_stop i ∷ cs) ys = setups-append p q cs ys
setups-append p q (dev_configure i n t ∷ cs) ys = setups-append p q cs ys
setups-append p q (tx_queue_setup i j d ∷ cs) ys = setups-append p q cs ys
setups-append p q (buffer_init i j ∷ cs) ys = setups-append p q cs ys
setups-append p q (dev_start i ∷ cs) ys = setups-append p q cs ys

setups-rx_setups :
    (p q i d j left : ℕ)
    → setups p q (rx_setups i d j left) ≡ one_if (i == p && (leb j q && ltb q (j + left)))
unfolding rx_setups
setups-rx_setups p q i d j zero = ground arith
setups-rx_setups p q i d j (suc left) = ground (arith, setups-rx_setups p q i d (j + 1) left)

setups-tx_setups :
    (p q i d j left : ℕ) (b : ℕ → ℕ → Bool) → setups p q (tx_setups i d j left b).0 ≡ 0
unfolding tx_setups
setups-tx_setups p q i d j zero b = refl
setups-tx_setups p q i d j (suc left) b =
    let rest = setups-tx_setups p q i d (j + 1) left (mark b i j) in
    elim (Bool-cases (b i j)) [ inl h ↦ rw h rest | inr h ↦ rw h rest ]

setups-configure_port :
    (p q ntxq nrxq i : ℕ) (info : Info) (b : ℕ → ℕ → Bool)
    → setups p q (configure_port info ntxq nrxq i b).0 ≡ one_if (i == p && ltb q nrxq)
unfolding configure_port
setups-configure_port p q ntxq nrxq i info b =
    let conf = get_or info.port i zero_port in
    let rx = rx_setups i (desc conf.nb_rxd) 0 nrxq in
    let tx = (tx_setups i (desc conf.nb_txd) 0 ntxq b).0 in
    ground (
      arith,
      setups-append p q rx (tx ++ (dev_start i ∷ [])),
      setups-append p q tx (dev_start i ∷ []),
      setups-rx_setups p q i (desc conf.nb_rxd) 0 nrxq,
      setups-tx_setups p q i (desc conf.nb_txd) 0 ntxq b,
    )

setups-configure_ports :
    (p q ntxq : ℕ) (info : Info) (n : List ℕ) (i left : ℕ) (b : ℕ → ℕ → Bool)
    → setups p q (configure_ports info ntxq n i left b).0
      ≡ one_if ((leb i p && ltb p (i + left)) && ltb q (get_or n p 0))
unfolding configure_ports
setups-configure_ports p q ntxq info n i zero b = ground arith
setups-configure_ports p q ntxq info n i (suc left) b =
    let (calls, b') = configure_port info ntxq (get_or n i 0) i b in
    let rest = (configure_ports info ntxq n (i + 1) left b').0 in
    let head = setups-configure_port p q ntxq (get_or n i 0) i info b in
    let tail = setups-configure_ports p q ntxq info n (i + 1) left b' in
    let both = setups-append p q calls rest in
    elim (Bool-cases (i == p)) [
      | inl same ↦
          let e : get_or n i 0 ≡ get_or n p 0 = ap (λ k. get_or n k 0) (==→eq _ _ same) in
          both ∙ ground (arith, head, tail, e, same)
      | inr other ↦ both ∙ ground (arith, head, tail, other)
    ]

-- Every ring of the list is there afterwards, and none goes.
make_rings-made :
    (ports p q : ℕ) (xs : List PortQueue) (rings rings' : ℕ → ℕ → Bool)
    → make_rings ports xs rings ≡ done rings'
    → ((rings p q ≡ true) ⊎ (0 < copies p q xs))
    → rings' p q ≡ true
unfolding make_rings mark
make_rings-made ports p q [] rings rings' h (inl e) = ap (λ r. r p q) (sym (done_inj h)) ∙ e
make_rings-made ports p q [] rings rings' h (inr lt) = absurd (omega arith)
make_rings-made ports p q (x ∷ xs) rings rings' h known =
    elim (Bool-cases (ltb x.port_id ports && ltb x.queue_id max_rx_queue)) [
      | inl room ↦
          make_rings-made ports p q xs (mark rings x.port_id x.queue_id) rings'
            (sym (rw (make_rings, room) refl) ∙ h) (ground arith)
      | inr over ↦ absurd (abort-ne-done (sym (rw (make_rings, over) refl) ∙ h))
    ]

-- What applying a configuration leaves.
record Applied (env : Env) (info : Info) (m m' : Manager) (calls : List DevCall) : Type 0 where
  called : m'.calls ≡ m.calls ++ calls
  up : make_rings env.max_ports (collect_queues info.lcore_qconf) m.ring_up ≡ done m'.ring_up
  dn : make_rings env.max_ports (collect_queues info.lcore_qconf) m.ring_dn ≡ done m'.ring_dn
  same_rib : m'.rib ≡ m.rib
  same_count : m'.replaced ≡ m.replaced

apply_lem :
    (env : Env) (info : Info) (n : List ℕ) (m m' : Manager)
    → apply env info n m ≡ done m'
    → Applied env info m m'
        (configure_ports info
          (max_lcore_of (take info.lcore_size info.lcore_qconf) 0 0 + 1)
          n
          0
          env.nb_ports
          m.tx_buffer).0
unfolding apply
apply_lem env info n m m' h =
    let (up, made_up, h₁) =
      bind-done (make_rings env.max_ports (collect_queues info.lcore_qconf) m.ring_up) _ h in
    let (dn, made_dn, h₂) =
      bind-done (make_rings env.max_ports (collect_queues info.lcore_qconf) m.ring_dn) _ h₁ in
    let e = done_inj h₂ in
    record {
      called = ap (λ r. r.calls) (sym e);
      up = made_up ∙ ap (λ (r : Manager). done r.ring_up) e;
      dn = made_dn ∙ ap (λ (r : Manager). done r.ring_dn) e;
      same_rib = ap (λ r. r.rib) (sym e);
      same_count = ap (λ r. r.replaced) (sym e);
    }

-- An accepting check counted the queues and applied the counts.
pub check-some :
    (env : Env) (info : Info) (m m' : Manager)
    → check env info m ≡ done (some m')
    → (n : List ℕ) × (check_queues env info ≡ done (some n)) × (apply env info n m ≡ done m')
unfolding check accept
check-some env info m m' h =
    let (o, counted, h₁) = bind-done (check_queues env info) (accept env info m) h in
    from o counted h₁
  where
    from :
        (o : Option (List ℕ))
        → check_queues env info ≡ done o
        → accept env info m o ≡ done (some m')
        → (n : List ℕ) × (check_queues env info ≡ done (some n)) × (apply env info n m ≡ done m')
    from none counted h₁ = absurd (refused-ne-done refl h₁)
    from (some n) counted h₁ =
        let (m₁, applied, h₂) = bind-done (apply env info n m) _ h₁ in
        (n, counted, applied ∙ ap done (done-some_inj h₂))

-- An accepting rib_check sets up, for every port there is, the receive queues that the lcores poll,
-- each once, and no other. Afterwards each queue in the list of any lcore has its two rings. The
-- information base published and the number of replacements are as before. qsort sorts.
pub check-serves :
    (env : Env) (info : Info) (m m' : Manager)
    → SortsRight env
    → check env info m ≡ done (some m')
    → (calls : List DevCall) × (m'.calls ≡ m.calls ++ calls)
      × ((p q : ℕ) → p < env.nb_ports → setups p q calls ≡ copies p q (polled info))
      × ((p q : ℕ)
          → 0 < copies p q (collect_queues info.lcore_qconf)
          → (m'.ring_up p q ≡ true) × (m'.ring_dn p q ≡ true))
      × (m'.rib ≡ m.rib)
      × (m'.replaced ≡ m.replaced)
check-serves env info m m' law h =
    let (n, counted, applied) = check-some env info m m' h in
    let (out, count) = check_queues-counts env info n law counted in
    let ntxq : ℕ = max_lcore_of (take info.lcore_size info.lcore_qconf) 0 0 + 1 in
    let a = apply_lem env info n m m' applied in
    let queues = collect_queues info.lcore_qconf in
    (
      (configure_ports info ntxq n 0 env.nb_ports m.tx_buffer).0,
      a.called,
      λ p q lt.
          setups-configure_ports p q ntxq info n 0 env.nb_ports m.tx_buffer
          ∙ ground (arith, count p q),
      λ p q lt. (
        make_rings-made env.max_ports p q queues m.ring_up m'.ring_up a.up (inr lt),
        make_rings-made env.max_ports p q queues m.ring_dn m'.ring_dn a.dn (inr lt),
      ),
      a.same_rib,
      a.same_count,
    )

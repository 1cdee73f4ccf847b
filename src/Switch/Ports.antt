-- ===== src/Switch/Ports.antt =====
-- What vswitch_port_update makes of the ports.
use nettlp_dpdk.Prelude.{
  drop_all, ℕ, suc, ◌+◌, ◌-◌, ◌%◌, ◌^◌, ◌≡◌, refl, sym, ap, ap₂, ◌∙◌, inl, inr, arith, Bool, List,
  [], ◌∷◌, ◌++◌, ltb, if◌then◌else◌, length, take, Bool-cases, ltb→lt, ltb→le, append-nil, take-nil,
  length-append, take_all,
}
use mathlib.Core.List.{append_assoc}
use nettlp_dpdk.Rib.{PortQueue, LcoreQconf, Info}
use nettlp_dpdk.Switch.Removal.{kept, kept_append, kept_kept, remove_ports-kept}
use nettlp_dpdk.Switch.{
  Port, linux_tap, dpdk_lcore, Vswitch, add_port, add_queues, add_lcores, port_update, copied_down,
}

-- The queues of all threads in the order of the configuration, each with its thread.
abbrev pub lcore_queues : ℕ → List PortQueue → List (ℕ × PortQueue)
lcore_queues lcore_id [] = []
lcore_queues lcore_id (q ∷ qs) = (lcore_id, q) ∷ lcore_queues lcore_id qs

abbrev pub all_queues : ℕ → List LcoreQconf → List (ℕ × PortQueue)
all_queues lcore_id [] = []
all_queues lcore_id (l ∷ ls) =
    lcore_queues lcore_id (take l.nrxq l.rx_queue_list) ++ all_queues (lcore_id + 1) ls

-- Ports for these, numbered from `id` on.
abbrev pub numbered : ℕ → List (ℕ × PortQueue) → List Port
numbered id [] = []
numbered id ((l, q) ∷ xs) = dpdk_lcore (id % 2 ^ 8) l q ∷ numbered (suc id) xs

kept_numbered : (id : ℕ) (xs : List (ℕ × PortQueue)) → kept (numbered id xs) ≡ []
kept_numbered id [] = refl
kept_numbered id ((l, q) ∷ xs) = kept_numbered (suc id) xs

abbrev pub queues : List (ℕ × PortQueue) → List PortQueue
queues [] = []
queues ((l, q) ∷ xs) = q ∷ queues xs

copied_down-kept : (ps rest : List Port) → copied_down (kept ps ++ rest) ≡ copied_down rest
unfolding copied_down
copied_down-kept [] rest = refl
copied_down-kept (linux_tap id fd ∷ ps) rest = copied_down-kept ps rest
copied_down-kept (dpdk_lcore id l q ∷ ps) rest = copied_down-kept ps rest

copied_down-numbered :
    (id : ℕ) (xs : List (ℕ × PortQueue)) → copied_down (numbered id xs) ≡ queues xs
unfolding copied_down
copied_down-numbered id [] = refl
copied_down-numbered id ((l, q) ∷ xs) = ap (λ k. q ∷ k) (copied_down-numbered (suc id) xs)

module _ (ring_up : ℕ → ℕ → Bool) where
  -- Those of the queues that have a ring.
  abbrev pub with_ring : List (ℕ × PortQueue) → List (ℕ × PortQueue)
  with_ring [] = []
  with_ring ((l, q) ∷ xs) =
      if ring_up q.port_id q.queue_id then (l, q) ∷ with_ring xs else with_ring xs

  -- The loops as one.
  add_all : List (ℕ × PortQueue) → Vswitch → Vswitch
  add_all [] v = v
  add_all ((l, q) ∷ xs) v = add_all xs (add_port ring_up l q v)

  add_queues-all :
      (l : ℕ) (qs : List PortQueue) (rest : List (ℕ × PortQueue)) (v : Vswitch)
      → add_all (lcore_queues l qs ++ rest) v ≡ add_all rest (add_queues ring_up l qs v)
  unfolding add_all add_queues
  add_queues-all l [] rest v = refl
  add_queues-all l (q ∷ qs) rest v = add_queues-all l qs rest (add_port ring_up l q v)

  add_lcores-all :
      (l : ℕ) (ls : List LcoreQconf) (v : Vswitch)
      → add_lcores ring_up l ls v ≡ add_all (all_queues l ls) v
  unfolding add_all add_lcores
  add_lcores-all l [] v = refl
  add_lcores-all l (c ∷ ls) v =
      add_lcores-all (l + 1) ls (add_queues ring_up l (take c.nrxq c.rx_queue_list) v)
      ∙ sym (add_queues-all l (take c.nrxq c.rx_queue_list) (all_queues (l + 1) ls) v)

  abbrev with_ports : ℕ → List Port → List (ℕ × PortQueue) → Vswitch
  with_ports limit ps xs = record { limit = limit; port = ps ++ numbered (length ps) xs }

  add_all-numbered :
      (xs : List (ℕ × PortQueue)) (limit : ℕ) (ps : List Port)
      → add_all xs (record { limit = limit; port = ps }) ≡ record {
        limit = limit;
        port = ps ++ numbered (length ps) (take (limit - length ps) (with_ring xs));
      }
  unfolding add_all add_port
  add_all-numbered [] limit ps =
      ap (λ l. record { limit = limit; port = l })
        (sym
          (ap (λ l. ps ++ numbered (length ps) l) (take-nil (limit - length ps)) ∙ append-nil ps))
  add_all-numbered ((l, q) ∷ xs) limit ps = elim (Bool-cases (ring_up q.port_id q.queue_id)) [
    | inr e ↦ rw e (add_all-numbered xs limit ps)
    | inl e ↦
        let w = with_ring xs in
        let more : with_ring ((l, q) ∷ xs) ≡ (l, q) ∷ w = rw e refl in
        elim (Bool-cases (ltb (length ps) limit)) [
          | inr full ↦
              let none : limit - length ps ≡ 0 = omega (arith, ltb→le _ _ full) in
              ap (add_all xs) (rw (e, full) refl)
              ∙ add_all-numbered xs limit ps
              ∙ ap (with_ports limit ps) (ap (λ k. take k w) none)
              ∙ sym (ap (with_ports limit ps) (ap₂ take none more))
          | inl room ↦
              let lt = ltb→lt (length ps) limit room in
              let p : Port = dpdk_lcore (length ps % 2 ^ 8) l q in
              let grown = length-append ps (p ∷ []) in
              let next : length (ps ++ (p ∷ [])) ≡ suc (length ps) = omega (arith, grown) in
              let left : limit - length (ps ++ (p ∷ [])) ≡ limit - suc (length ps) =
                omega (arith, grown) in
              let one_more : limit - length ps ≡ suc (limit - suc (length ps)) =
                omega (arith, lt) in
              ap (add_all xs) (rw (e, room) refl)
              ∙ add_all-numbered xs limit (ps ++ (p ∷ []))
              ∙ ap (λ x. record { limit = limit; port = x })
                  (append_assoc ps (p ∷ []) _
                    ∙ ap₂ (λ n k. ps ++ (p ∷ numbered n (take k w))) next left)
              ∙ sym (ap (with_ports limit ps) (ap₂ take one_more more))
        ]
  ]

  -- An update of the switch keeps the ports of the TAP devices in their order and puts behind them,
  -- numbered on, a port for each queue of the configuration that has a ring, in the order of the
  -- threads and their queues, up to the limit; the old ports of DPDK are gone.
  pub port_update-ports :
      (info : Info) (v : Vswitch)
      → port_update ring_up info v ≡ record v {
        port =
            kept v.port
            ++ numbered
                (length (kept v.port))
                (take (v.limit - length (kept v.port)) (with_ring (all_queues 0 info.lcore_qconf)));
      }
  unfolding port_update
  port_update-ports info v =
      add_lcores-all 0 info.lcore_qconf _
      ∙ ap (λ ps. add_all (all_queues 0 info.lcore_qconf) (record v { port = ps }))
          (remove_ports-kept (length v.port) v.port (omega arith)
            ∙ ap₂ (λ a b. kept a ++ b) (take_all (length v.port) v.port (omega arith))
                (drop_all (length v.port) v.port (omega arith))
            ∙ append-nil (kept v.port))
      ∙ add_all-numbered (all_queues 0 info.lcore_qconf) v.limit (kept v.port)

  -- After an update of the switch a packet read from a TAP device is copied to one queue after the
  -- other of those that the configuration gives the threads and that have a ring, as many as the
  -- ports of the TAP devices leave places for, and to no other.
  pub port_update-copied_down :
      (info : Info) (v : Vswitch)
      → copied_down (port_update ring_up info v).port
        ≡ queues (take (v.limit - length (kept v.port)) (with_ring (all_queues 0 info.lcore_qconf)))
  port_update-copied_down info v =
      ap (λ w. copied_down w.port) (port_update-ports info v)
      ∙ copied_down-kept v.port (numbered (length (kept v.port)) _)
      ∙ copied_down-numbered (length (kept v.port)) _

module _ (ring_up : ℕ → ℕ → Bool) where
  -- What an update of the switch leaves depends on the configuration and the ports of the TAP
  -- devices alone: an update before it, by any configuration and with any rings, makes no difference.
  pub port_update-port_update :
      (before : ℕ → ℕ → Bool) (old new : Info) (v : Vswitch)
      → port_update ring_up new (port_update before old v) ≡ port_update ring_up new v
  port_update-port_update before old new v =
      let same : kept (port_update before old v).port ≡ kept v.port =
        ap (λ w. kept w.port) (port_update-ports before old v)
        ∙ kept_append (kept v.port) _
        ∙ ap₂ (λ a b. a ++ b) (kept_kept v.port)
            (kept_numbered (length (kept v.port)) (
              take (v.limit - length (kept v.port))
                (with_ring before (all_queues 0 old.lcore_qconf))))
        ∙ append-nil (kept v.port) in
      let limit : (port_update before old v).limit ≡ v.limit =
        ap (λ w. w.limit) (port_update-ports before old v) in
      port_update-ports ring_up new (port_update before old v)
      ∙ ap₂
          (λ n ps.
            with_ports ring_up n ps
              (take (n - length ps) (with_ring ring_up (all_queues 0 new.lcore_qconf))))
          limit same
      ∙ sym (port_update-ports ring_up new v)

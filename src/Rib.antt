-- ===== src/Rib.antt =====
-- sdplane/rib.h, rib_manager.h, rib_manager.c, queue_config.h and internal_message.h: the
-- information base that the manager publishes to the packet threads.
-- The numbers of DPDK (RTE_MAX_ETHPORTS, RTE_MAX_LCORE, the ports and lcores there are), what its
-- drivers answer, and qsort are the fields of an `Env`. A call that configures a device is a value,
-- and the manager keeps the calls made. malloc and the constructors of DPDK serve but where the code
-- asks. A pointer in a table is a Boolean: it is set. An array has its full length, and an access out
-- of an array that depends on a message is `abort`.
pub mod Sorting
pub mod Messages
pub mod Accept
pub mod Contiguous
pub mod Setup
pub mod Moves
pub mod Reach
pub mod Refuse
mod Tests
use nettlp_dpdk.Prelude.{
  ℕ, zero, suc, ◌+◌, ◌%◌, ◌^◌, Bool, true, false, ◌&&◌, ◌||◌, Option, none, some, List, [], ◌∷◌,
  ◌++◌, ltb, ◌==◌, if◌then◌else◌, set, take, replicate, length, get_elem?, get_or, Run, done, abort,
  ◌>>=◌,
}

-- MAX_RX_QUEUE_PER_LCORE
abbrev pub max_rx_queue : ℕ
max_rx_queue = 16

-- struct port_queue_conf
pub record PortQueue : Type 0 where
  pub port_id : ℕ
  pub queue_id : ℕ

-- struct lcore_qconf, and of struct sdplane_queue_conf the fields in use
pub record LcoreQconf : Type 0 where
  pub nrxq : ℕ
  pub rx_queue_list : List PortQueue

-- struct port_conf, with the structures of DPDK as one number each
pub record PortConf : Type 0 where
  pub nb_rxd : ℕ
  pub nb_txd : ℕ
  pub link : ℕ
  pub dev_info : ℕ

-- struct vswitch_conf, with each port's type and number
pub record VswitchConf : Type 0 where
  pub port_size : ℕ
  pub port : List (ℕ × ℕ)

-- struct rib_info
pub record Info : Type 0 where
  pub ver : ℕ
  pub tapif_size : ℕ
  pub vswitch_size : ℕ
  pub port_size : ℕ
  pub lcore_size : ℕ
  pub tapif : List ℕ
  pub vswitch : List VswitchConf
  pub port : List PortConf
  pub lcore_qconf : List LcoreQconf

-- What strcmp and the like answer: a negative number, 0 or a positive one.
pub data Order : Type 0 where
  less : Order
  equal : Order
  greater : Order

pub port_qconf_compare : PortQueue → PortQueue → Order
port_qconf_compare a b =
    if ltb a.port_id b.port_id
    then less
    else if ltb b.port_id a.port_id
    then greater
    else if ltb a.queue_id b.queue_id
    then less
    else if ltb b.queue_id a.queue_id
    then greater
    else equal

-- What the manager runs on: RTE_MAX_ETHPORTS, RTE_MAX_LCORE, rte_eth_dev_count_avail,
-- rte_lcore_count, rte_eth_dev_info_get, rte_eth_link_get_nowait and qsort.
pub record Env : Type 0 where
  pub max_ports : ℕ
  pub max_lcore : ℕ
  pub nb_ports : ℕ
  pub lcore_count : ℕ
  pub dev_info_get : ℕ → ℕ
  pub link_get : ℕ → ℕ
  pub qsort : (PortQueue → PortQueue → Order) → List PortQueue → List PortQueue

-- The calls of rib_check that configure a device, without the offload flags and memory pools. `buffer_init` is the pair of calls that allocates
-- and initializes a transmit buffer.
pub data DevCall : Type 0 where
  dev_stop : (port : ℕ) → DevCall
  dev_configure : (port nrxq ntxq : ℕ) → DevCall
  rx_queue_setup : (port queue nb_rxd : ℕ) → DevCall
  tx_queue_setup : (port queue nb_txd : ℕ) → DevCall
  buffer_init : (port queue : ℕ) → DevCall
  dev_start : (port : ℕ) → DevCall

-- The globals: rcu_global_ptr_rib, with `none` for NULL and `some none` for a struct rib whose
-- rib_info is NULL, rib_rcu_replace, tx_buffer_per_q, ring_up and ring_dn. `calls` are the calls made.
pub record Manager : Type 0 where
  pub rib : Option (Option Info)
  pub replaced : ℕ
  pub tx_buffer : ℕ → ℕ → Bool
  pub ring_up : ℕ → ℕ → Bool
  pub ring_dn : ℕ → ℕ → Bool
  pub calls : List DevCall

-- The queues that an lcore polls.
abbrev pub rxqs : LcoreQconf → List PortQueue
rxqs q = take q.nrxq q.rx_queue_list

-- The first loop of the check: the queues of the lcores, in the order of the lcores.
pub collect_queues : List LcoreQconf → List PortQueue
collect_queues [] = []
collect_queues (q ∷ qs) = rxqs q ++ collect_queues qs

-- The greatest lcore with a queue, in the same loop, from lcore `lcore` on.
pub max_lcore_of : List LcoreQconf → ℕ → ℕ → ℕ
max_lcore_of [] lcore m = m
max_lcore_of (q ∷ qs) lcore m =
    max_lcore_of qs (lcore + 1) (if ltb 0 q.nrxq && ltb m lcore then lcore else m)

-- The second loop: port_nrxq of each port, `none` for -1.
pub count_rxqs : List PortQueue → List ℕ → Run (Option (List ℕ))
count_rxqs [] port_nrxq = done (some port_nrxq)
count_rxqs (q ∷ qs) port_nrxq = elim (get_elem? port_nrxq q.port_id) [
  | none ↦ abort
  | some n ↦ if n == q.queue_id then count_rxqs qs (set port_nrxq q.port_id (n + 1)) else done none
]

-- The lcores that the check looks at.
pub polled : Info → List PortQueue
polled info = collect_queues (take info.lcore_size info.lcore_qconf)

-- MAX_PORT_QCONF
abbrev pub max_port_qconf : ℕ
max_port_qconf = 256

-- rib_check up to the first call of a device
pub check_queues : Env → Info → Run (Option (List ℕ))
check_queues env info =
    if ltb max_port_qconf (length (polled info))
    then abort
    else count_rxqs (env.qsort port_qconf_compare (polled info)) (replicate env.max_ports 0)

abbrev pub desc : ℕ → ℕ
desc n = if n == 0 then 1024 else n

pub mark : (ℕ → ℕ → Bool) → ℕ → ℕ → ℕ → ℕ → Bool
mark t p q i j = t i j || (i == p && j == q)

-- The loop over the receive queues of port `i` from queue `j` on, `left` of them.
pub rx_setups : ℕ → ℕ → ℕ → ℕ → List DevCall
rx_setups i nb_rxd j zero = []
rx_setups i nb_rxd j (suc left) = rx_queue_setup i j nb_rxd ∷ rx_setups i nb_rxd (j + 1) left

-- The loop over its transmit queues.
pub tx_setups : ℕ → ℕ → ℕ → ℕ → (ℕ → ℕ → Bool) → List DevCall × (ℕ → ℕ → Bool)
tx_setups i nb_txd j zero buffers = ([], buffers)
tx_setups i nb_txd j (suc left) buffers =
    let (calls, buffers') = tx_setups i nb_txd (j + 1) left (mark buffers i j) in
    let made : List DevCall = if buffers i j then [] else buffer_init i j ∷ [] in
    (tx_queue_setup i j nb_txd ∷ (made ++ calls), buffers')

-- A port that is not in the array of the information base.
abbrev pub zero_port : PortConf
zero_port = record { nb_rxd = 0; nb_txd = 0; link = 0; dev_info = 0 }

-- The body of the loop over the ports.
pub configure_port : Info → ℕ → ℕ → ℕ → (ℕ → ℕ → Bool) → List DevCall × (ℕ → ℕ → Bool)
configure_port info ntxq nrxq i buffers =
    let conf = get_or info.port i zero_port in
    let (txs, buffers') = tx_setups i (desc conf.nb_txd) 0 ntxq buffers in
    (
      dev_stop i
          ∷ dev_configure i nrxq ntxq
          ∷ (rx_setups i (desc conf.nb_rxd) 0 nrxq ++ (txs ++ (dev_start i ∷ []))),
      buffers',
    )

pub configure_ports : Info → ℕ → List ℕ → ℕ → ℕ → (ℕ → ℕ → Bool) → List DevCall × (ℕ → ℕ → Bool)
configure_ports info ntxq port_nrxq i zero buffers = ([], buffers)
configure_ports info ntxq port_nrxq i (suc left) buffers =
    let (calls, buffers₁) = configure_port info ntxq (get_or port_nrxq i 0) i buffers in
    let (rest, buffers₂) = configure_ports info ntxq port_nrxq (i + 1) left buffers₁ in
    (calls ++ rest, buffers₂)

-- The last loop of the check, for one of the two tables of rings.
pub make_rings : ℕ → List PortQueue → (ℕ → ℕ → Bool) → Run (ℕ → ℕ → Bool)
make_rings max_ports [] rings = done rings
make_rings max_ports (q ∷ qs) rings =
    if ltb q.port_id max_ports && ltb q.queue_id max_rx_queue
    then make_rings max_ports qs (mark rings q.port_id q.queue_id)
    else abort

-- rib_check from there on: every device configured, every ring made.
pub apply : Env → Info → List ℕ → Manager → Run Manager
apply env info port_nrxq m =
    let ntxq : ℕ = max_lcore_of (take info.lcore_size info.lcore_qconf) 0 0 + 1 in
    let (calls, buffers) = configure_ports info ntxq port_nrxq 0 env.nb_ports m.tx_buffer in
    make_rings env.max_ports (collect_queues info.lcore_qconf) m.ring_up >>= λ up.
    make_rings env.max_ports (collect_queues info.lcore_qconf) m.ring_dn >>= λ dn.
    done (record m { tx_buffer = buffers; ring_up = up; ring_dn = dn; calls = m.calls ++ calls })

accept : Env → Info → Manager → Option (List ℕ) → Run (Option Manager)
accept env info m none = done none
accept env info m (some port_nrxq) = apply env info port_nrxq m >>= λ m'. done (some m')

-- rib_check: `none` for -1, which leaves the globals as they were.
pub check : Env → Info → Manager → Run (Option Manager)
check env info m = check_queues env info >>= accept env info m

-- ===== src/Rib/Messages.antt =====
-- sdplane/rib_manager.c and internal_message.h: what a message changes, and what is published.
-- A check that refuses leaves the message and the new information base allocated, which the model
-- does not show.
use nettlp_dpdk.Prelude.{
  ℕ, zero, suc, ◌+◌, ◌%◌, ◌^◌, Bool, Option, none, some, List, [], ◌∷◌, ltb, ◌==◌, if◌then◌else◌,
  set, replicate, get_or, Run, done, abort, ◌>>=◌,
}
use nettlp_dpdk.Rib.{
  PortQueue, LcoreQconf, PortConf, Info, Env, Manager, zero_port, check, max_rx_queue,
}

-- The messages by INTERNAL_MSG_TYPE; `unknown` is any type that the manager does not handle.
pub data Message : Type 0 where
  port_status : Message
  eth_link : Message
  qconf : List LcoreQconf → Message
  qconf2 : Message
  txrx_desc : (portid nb_rxd nb_txd : ℕ) → Message
  unknown : Message

abbrev pub no_queue : PortQueue
no_queue = record { port_id = 0; queue_id = 0 }

abbrev pub idle : LcoreQconf
idle = record { nrxq = 0; rx_queue_list = replicate max_rx_queue no_queue }

-- memset (new, 0, sizeof (struct rib_info))
abbrev pub zero_info : Env → Info
zero_info env = record {
  ver = 0;
  tapif_size = 0;
  vswitch_size = 0;
  port_size = 0;
  lcore_size = 0;
  tapif = replicate 16 0;
  vswitch = replicate 4 (record { port_size = 0; port = replicate 4 (0, 0) });
  port = replicate env.max_ports zero_port;
  lcore_qconf = replicate env.max_lcore idle;
}

-- The old information that rib_create finds, or zeros.
abbrev pub base_info : Env → Option (Option Info) → Info
base_info env (some (some info)) = info
base_info env (some none) = zero_info env
base_info env none = zero_info env

-- rib_info_create
abbrev pub next_version : Info → Info
next_version info = record info { ver = (info.ver + 1) % 2 ^ 32 }

-- rib_create
unfoldable pub create : Env → Option (Option Info) → Info
create env old = next_version (base_info env old)

-- rib_replace
unfoldable pub replace : Option Info → Manager → Manager
replace new m = record m { rib = some new; replaced = (m.replaced + 1) % 2 ^ 64 }

-- The loop of update_port_status from port `i` on, `left` of them.
unfoldable pub refresh_ports : Env → ℕ → ℕ → List PortConf → List PortConf
refresh_ports env i zero ports = ports
refresh_ports env i (suc left) ports = refresh_ports env (i + 1) left (
    set ports i
      (record (get_or ports i zero_port) { link = env.link_get i; dev_info = env.dev_info_get i }))

unfoldable pub update_port_status : Env → Info → Info
update_port_status env info = record info {
  port_size = env.nb_ports % 2 ^ 16 % 2 ^ 8;
  lcore_size = env.lcore_count % 2 ^ 16 % 2 ^ 8;
  port = refresh_ports env 0 (env.nb_ports % 2 ^ 16) info.port;
}

-- The copy of the first `n` queues of an lcore.
unfoldable pub copy_queues : ℕ → List PortQueue → List PortQueue → List PortQueue
copy_queues zero src dst = dst
copy_queues (suc n) (s ∷ src) (d ∷ dst) = s ∷ copy_queues n src dst
copy_queues (suc n) [] (d ∷ dst) = d ∷ dst
copy_queues (suc n) src [] = []

-- One lcore: a message that gives it no queue leaves it as it is.
unfoldable pub copy_lcore : LcoreQconf → LcoreQconf → LcoreQconf
copy_lcore src dst = if src.nrxq == 0 then dst else record {
  nrxq = src.nrxq;
  rx_queue_list = copy_queues src.nrxq src.rx_queue_list dst.rx_queue_list;
}

-- The loop over the first `n` lcores.
unfoldable pub copy_lcores : ℕ → List LcoreQconf → List LcoreQconf → List LcoreQconf
copy_lcores zero src dst = dst
copy_lcores (suc n) (s ∷ src) (d ∷ dst) = copy_lcore s d ∷ copy_lcores n src dst
copy_lcores (suc n) [] (d ∷ dst) = d ∷ dst
copy_lcores (suc n) src [] = []

unfoldable pub set_qconf : Env → List LcoreQconf → Info → Info
set_qconf env msg info = record info {
  lcore_size = env.lcore_count % 2 ^ 16 % 2 ^ 8;
  lcore_qconf = copy_lcores (env.lcore_count % 2 ^ 16) msg info.lcore_qconf;
}

abbrev pub zero_nrxq : ℕ → List LcoreQconf → List LcoreQconf
zero_nrxq i qs = set qs i (record (get_or qs i idle) { nrxq = 0 })

-- The assignments to a fixed configuration, of the lcores 0, 1 and 2.
unfoldable pub set_qconf2 : Env → Info → Info
set_qconf2 env info =
    let qs : List LcoreQconf = info.lcore_qconf in
    let two = get_or qs 2 idle in
    let list : List PortQueue =
      set (set two.rx_queue_list 0 no_queue) 1 (record { port_id = 1; queue_id = 0 }) in
    record info {
      lcore_size = env.lcore_count % 2 ^ 8;
      lcore_qconf =
          set (zero_nrxq 1 (zero_nrxq 0 qs)) 2 (record { nrxq = 2; rx_queue_list = list });
    }

-- The tail of the two cases that change queues: the check, then the empty struct rib in between,
-- where its malloc serves, and the new one.
unfoldable pub publish_checked : Env → Bool → Info → Manager → Run Manager
publish_checked env served info m = check env info m >>= λ o. elim o [
  | none ↦ done m
  | some m' ↦ done (replace (some info) (if served then replace none m' else m'))
]

-- The two assignments of the case of the descriptors.
unfoldable pub set_desc : ℕ → ℕ → ℕ → Info → Info
set_desc portid nb_rxd nb_txd info = record info {
  port =
      set info.port portid
        (record (get_or info.port portid zero_port) { nb_rxd = nb_rxd; nb_txd = nb_txd });
}

-- rib_manager_process_message
unfoldable pub process_message : Env → Bool → Message → Manager → Run Manager
process_message env served port_status m =
    done (replace (some (update_port_status env (create env m.rib))) m)
process_message env served eth_link m = done (replace (some (create env m.rib)) m)
process_message env served (qconf msg) m =
    publish_checked env served (set_qconf env msg (create env m.rib)) m
process_message env served qconf2 m =
    publish_checked env served (set_qconf2 env (create env m.rib)) m
process_message env served (txrx_desc portid nb_rxd nb_txd) m =
    if ltb portid env.max_ports
    then done (replace (some (set_desc portid nb_rxd nb_txd (create env m.rib))) m)
    else abort
process_message env served unknown m = done (replace (some (create env m.rib)) m)

-- The loop of rib_manager over the messages of its queue, each with the answer of malloc.
unfoldable pub rib_manager : Env → List (Bool × Message) → Manager → Run Manager
rib_manager env [] m = done m
rib_manager env ((served, msg) ∷ msgs) m =
    process_message env served msg m >>= λ m'. rib_manager env msgs m'

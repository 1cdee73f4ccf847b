-- ===== src/Switch/Tests.antt =====
-- Theorems of the switch at a concrete configuration and packet.
use nettlp_dpdk.Prelude.{ℕ, ◌≡◌, arith, Bool, true, ◌==◌, some, List, [], ◌∷◌}
use nettlp_dpdk.Rib.{Info}
use nettlp_dpdk.Switch.{
  linux_tap, dpdk_lcore, Vswitch, FdbEntry, port_update, copied_down, register_fdb,
}
use nettlp_dpdk.Switch.Ports.{port_update-ports, port_update-copied_down, port_update-port_update}
use nettlp_dpdk.Switch.Learning.{port_of, register_fdb-port_of}

-- Two threads that serve queue 0 and 1 of port 0.
abbrev two_threads : Info
two_threads = record {
  ver = 1;
  tapif_size = 0;
  vswitch_size = 0;
  port_size = 2;
  lcore_size = 2;
  tapif = [];
  vswitch = [];
  port = [];
  lcore_qconf =
      record { nrxq = 1; rx_queue_list = record { port_id = 0; queue_id = 0 } ∷ [] }
      ∷ record { nrxq = 1; rx_queue_list = record { port_id = 0; queue_id = 1 } ∷ [] }
      ∷ [];
}

abbrev all_rings : ℕ → ℕ → Bool
all_rings p q = true

abbrev first_ring : ℕ → ℕ → Bool
first_ring p q = q == 0

-- A port of a TAP device between two of DPDK.
abbrev three_ports : Vswitch
three_ports = record {
  limit = 16;
  port =
      dpdk_lcore 0 2 (record { port_id = 1; queue_id = 0 })
      ∷ linux_tap 1 0
      ∷ dpdk_lcore 2 2 (record { port_id = 1; queue_id = 1 })
      ∷ [];
}

port_update-ports_example : port_update all_rings two_threads three_ports ≡ record three_ports {
  port =
      linux_tap 1 0
      ∷ dpdk_lcore 1 0 (record { port_id = 0; queue_id = 0 })
      ∷ dpdk_lcore 2 1 (record { port_id = 0; queue_id = 1 })
      ∷ [];
}
port_update-ports_example = port_update-ports all_rings two_threads three_ports

port_update-copied_down_example :
    copied_down (port_update all_rings two_threads three_ports).port
    ≡ record { port_id = 0; queue_id = 0 } ∷ record { port_id = 0; queue_id = 1 } ∷ []
port_update-copied_down_example = port_update-copied_down all_rings two_threads three_ports

port_update-port_update_example :
    port_update all_rings two_threads (port_update first_ring two_threads three_ports)
    ≡ port_update all_rings two_threads three_ports
port_update-port_update_example =
    port_update-port_update all_rings first_ring two_threads two_threads three_ports

-- An entry in use and a free one.
abbrev one_known : List FdbEntry
one_known = record { l2addr = 7; port = 1 } ∷ record { l2addr = 0; port = 0 } ∷ []

register_fdb-port_of_example : port_of (register_fdb 9 2 one_known) 9 ≡ some 2
register_fdb-port_of_example = register_fdb-port_of 9 2 9 one_known (λ e. absurd (omega (arith, e)))

-- ===== src/Repeater/Tests.antt =====
-- Theorems of the repeater with three ports.
use nettlp_dpdk.Prelude.{◌≡◌, true, ◌==◌, [], ◌∷◌}
use nettlp_dpdk.Rib.{Info}
use nettlp_dpdk.Repeater.{Env, repeat}
use nettlp_dpdk.Repeater.Fanout.{copies_of, repeat-copies_of}

abbrev three_up : Info
three_up = record {
  ver = 1;
  tapif_size = 0;
  vswitch_size = 0;
  port_size = 3;
  lcore_size = 1;
  tapif = [];
  vswitch = [];
  port =
      record { nb_rxd = 8; nb_txd = 8; link = 1; dev_info = 1 }
      ∷ record { nb_rxd = 8; nb_txd = 8; link = 0; dev_info = 1 }
      ∷ record { nb_rxd = 8; nb_txd = 8; link = 1; dev_info = 1 }
      ∷ [];
  lcore_qconf = [];
}

abbrev machine : Env
machine = record {
  nb_ports = 3;
  buffer = λ p. true;
  copied = λ m p. true;
  ring_takes = λ p q m. true;
  link_status = λ l. l == 1;
  nb_rx_queues = λ d. d;
  received = λ p q. 42 ∷ [];
  waiting = λ p q. [];
}

repeat-copies_of_example :
    copies_of 42 2 (repeat machine three_up 42 0 (record { failures = 0; events = [] })).events ≡ 1
repeat-copies_of_example =
    repeat-copies_of machine three_up 42 0 2 (record { failures = 0; events = [] })

-- ===== src/Repeater.antt =====
-- sdplane/l2_repeater.c: the thread that hands each packet it receives to the TAP ring of its queue
-- and a copy of it to the other ports. A packet is a number, what the thread does a list of events.
-- The link and the device of a port are read by link_status and nb_rx_queues, since they are
-- structures of DPDK. A copy for a TAP ring is served.
pub mod Fanout
mod Tests
use nettlp_dpdk.Prelude.{
  ℕ, zero, suc, ◌+◌, Bool, true, false, ◌==◌, not, Option, none, some, List, [], ◌∷◌, ◌++◌, ltb,
  if◌then◌else◌, take, get_or,
}
use nettlp_dpdk.Rib.{PortQueue, LcoreQconf, PortConf, Info, zero_port}

pub data Event : Type 0 where
  tap_up : ℕ → ℕ → ℕ → Event
  tx_buffered : ℕ → ℕ → Event
  flushed : ℕ → Event
  tx_burst : ℕ → List ℕ → Event

-- The ports there are, the transmit buffers of the thread, what rte_pktmbuf_copy and the rings
-- answer, and the packets that wait in the queues and in ring_dn, MAX_PKT_BURST at most.
pub record Env : Type 0 where
  pub nb_ports : ℕ
  pub buffer : ℕ → Bool
  pub copied : ℕ → ℕ → Bool
  pub ring_takes : ℕ → ℕ → ℕ → Bool
  pub link_status : ℕ → Bool
  pub nb_rx_queues : ℕ → ℕ
  pub received : ℕ → ℕ → List ℕ
  pub waiting : ℕ → ℕ → List ℕ

-- What is done, and l2_repeat_pkt_copy_failure.
pub record Done : Type 0 where
  pub failures : ℕ
  pub events : List Event

abbrev pub port_conf : Info → ℕ → PortConf
port_conf info p = get_or info.port p zero_port

module _ (env : Env) where
  pub repeater_tap_up : ℕ → ℕ → ℕ → Done → Done
  repeater_tap_up m p q d =
      if env.ring_takes p q m then record d { events = d.events ++ (tap_up p q m ∷ []) } else d

  -- A round of l2_repeat.
  unfoldable pub repeat_to : Info → ℕ → ℕ → ℕ → Done → Done
  repeat_to info m rx tx d =
      if rx == tx
      then d
      else if not (env.link_status (port_conf info tx).link)
      then d
      else if not (env.buffer tx)
      then d
      else if env.copied m tx
      then record d { events = d.events ++ (tx_buffered tx m ∷ []) }
      else record d { failures = d.failures + 1 }

  unfoldable pub repeat_from : ℕ → Info → ℕ → ℕ → ℕ → Done → Done
  repeat_from zero info m rx tx d = d
  repeat_from (suc more) info m rx tx d =
      repeat_from more info m rx (tx + 1) (repeat_to info m rx tx d)

  -- l2_repeat
  unfoldable pub repeat : Info → ℕ → ℕ → Done → Done
  repeat info m rx d = repeat_from env.nb_ports info m rx 0 d

  flush_from : ℕ → ℕ → Done → Done
  flush_from zero tx d = d
  flush_from (suc more) tx d =
      flush_from more (tx + 1)
        (if env.buffer tx then record d { events = d.events ++ (flushed tx ∷ []) } else d)

  pub tx_flush : Done → Done
  tx_flush d = flush_from env.nb_ports 0 d

  unfoldable pub serve : Info → PortQueue → List ℕ → Done → Done
  serve info q [] d = d
  serve info q (m ∷ ms) d =
      serve info q ms (repeat info m q.port_id (repeater_tap_up m q.port_id q.queue_id d))

  unfoldable pub rx_queues : Info → List PortQueue → Done → Done
  rx_queues info [] d = d
  rx_queues info (q ∷ qs) d = rx_queues info qs (
      if ltb q.queue_id (env.nb_rx_queues (port_conf info q.port_id).dev_info)
      then serve info q (env.received q.port_id q.queue_id) d
      else d)

  tx_queues : List PortQueue → Done → Done
  tx_queues [] d = d
  tx_queues (q ∷ qs) d = tx_queues qs (elim (env.waiting q.port_id q.queue_id) [
    | [] ↦ d
    | m ∷ ms ↦ record d { events = d.events ++ (tx_burst q.port_id (m ∷ ms) ∷ []) }
  ])

  abbrev no_queues : LcoreQconf
  no_queues = record { nrxq = 0; rx_queue_list = [] }

  abbrev pub served_queues : Info → ℕ → List PortQueue
  served_queues info lcore_id =
      let l = get_or info.lcore_qconf lcore_id no_queues in take l.nrxq l.rx_queue_list

  -- l2_repeater_rx_burst
  pub rx_burst : Option (Option Info) → ℕ → Done → Done
  rx_burst (some (some info)) lcore_id d = rx_queues info (served_queues info lcore_id) d
  rx_burst (some none) lcore_id d = d
  rx_burst none lcore_id d = d

  -- l2_repeater_tx_burst
  pub repeater_tx_burst : Option (Option Info) → ℕ → Done → Done
  repeater_tx_burst (some (some info)) lcore_id d = tx_queues (served_queues info lcore_id) d
  repeater_tx_burst (some none) lcore_id d = d
  repeater_tx_burst none lcore_id d = d

  -- A turn of the main loop, in which the time to drain has come or not.
  pub turn : Bool → Option (Option Info) → ℕ → Done → Done
  turn drain rib lcore_id d =
      repeater_tx_burst rib lcore_id (rx_burst rib lcore_id (if drain then tx_flush d else d))

-- ===== src/Switch.antt =====
-- sdplane/tap_handler.c, the software switch between the TAP devices and the queues of DPDK: its
-- ports, of which the array is the list as far as `size` goes, and the forwarding table fdb. A port
-- has the fields that the code sets for its type; its name is left out. A ring is given by its port
-- and queue.
pub mod Ports
pub mod Removal
pub mod Learning
mod Tests
use nettlp_dpdk.Prelude.{
  ℕ, zero, suc, ◌+◌, ◌%◌, ◌^◌, Bool, true, false, ◌&&◌, ◌==◌, Option, none, some, List, [], ◌∷◌,
  ◌++◌, ltb, if◌then◌else◌, length, take, drop, get_or,
}
use nettlp_dpdk.Rib.{PortQueue, LcoreQconf, Info}

-- struct vswitch_port: its id, and the socket's port, or the thread and the queue.
pub data Port : Type 0 where
  linux_tap : ℕ → ℕ → Port
  dpdk_lcore : ℕ → ℕ → PortQueue → Port

pub record Vswitch : Type 0 where
  pub limit : ℕ
  pub port : List Port

abbrev pub is_dpdk : Port → Bool
is_dpdk (linux_tap id fd) = false
is_dpdk (dpdk_lcore id lcore q) = true

-- The loop that makes a TAP device of each port, from port `port_id` on.
unfoldable pub create_taps : ℕ → ℕ → Vswitch → Vswitch
create_taps zero port_id v = v
create_taps (suc more) port_id v = create_taps more (port_id + 1) (
    if ltb (length v.port) v.limit
    then record v { port = v.port ++ (linux_tap (length v.port % 2 ^ 8) port_id ∷ []) }
    else v)

-- The switch as tap_handler starts.
pub start : ℕ → Vswitch
start nb_ports = create_taps nb_ports 0 (record { limit = 16; port = [] })

-- The memmove of the ports behind the one at `i`.
abbrev pub remove_port : ℕ → List Port → List Port
remove_port i ps = take i ps ++ drop (suc i) ps

-- The loop that removes the ports of DPDK, over the indices below `n` from the last on.
unfoldable pub remove_ports : ℕ → List Port → List Port
remove_ports zero ps = ps
remove_ports (suc i) ps =
    remove_ports i (if is_dpdk (get_or ps i (linux_tap 0 0)) then remove_port i ps else ps)

module _ (ring_up : ℕ → ℕ → Bool) where
  unfoldable pub add_port : ℕ → PortQueue → Vswitch → Vswitch
  add_port lcore_id q v =
      if ring_up q.port_id q.queue_id && ltb (length v.port) v.limit
      then record v { port = v.port ++ (dpdk_lcore (length v.port % 2 ^ 8) lcore_id q ∷ []) }
      else v

  unfoldable pub add_queues : ℕ → List PortQueue → Vswitch → Vswitch
  add_queues lcore_id [] v = v
  add_queues lcore_id (q ∷ qs) v = add_queues lcore_id qs (add_port lcore_id q v)

  unfoldable pub add_lcores : ℕ → List LcoreQconf → Vswitch → Vswitch
  add_lcores lcore_id [] v = v
  add_lcores lcore_id (l ∷ ls) v =
      add_lcores (lcore_id + 1) ls (add_queues lcore_id (take l.nrxq l.rx_queue_list) v)

  -- vswitch_port_update, where there is a rib. Its table of threads has RTE_MAX_LCORE entries.
  unfoldable pub port_update : Info → Vswitch → Vswitch
  port_update info v =
      add_lcores 0 info.lcore_qconf (record v { port = remove_ports (length v.port) v.port })

-- The last loop of tap_handler_handle_packet_down: the rings ring_dn that get a copy of what was
-- read from a TAP device, in order.
unfoldable pub copied_down : List Port → List PortQueue
copied_down [] = []
copied_down (p ∷ ps) = elim p [
  | linux_tap id fd ↦ copied_down ps
  | dpdk_lcore id lcore_id q ↦ q ∷ copied_down ps
]

pub record FdbEntry : Type 0 where
  pub l2addr : ℕ
  pub port : ℕ

-- tap_handler_register_fdb, of a packet's source and port. The address of all zeros is 0.
unfoldable pub register_fdb : ℕ → ℕ → List FdbEntry → List FdbEntry
register_fdb src port [] = []
register_fdb src port (e ∷ es) =
    if e.l2addr == 0
    then record { l2addr = src; port = port } ∷ es
    else if e.l2addr == src
    then record e { port = port } ∷ es
    else e ∷ register_fdb src port es

-- A packet in a TAP ring: its source, and the port that it came in by.
pub record Frame : Type 0 where
  pub src_addr : ℕ
  pub in_port : ℕ

pub data Write : Type 0 where
  to_capture : Frame → Write
  to_port : ℕ → Frame → Write

-- Whether the capture device is open, the ports there are, and which of them have a TAP device.
pub record Taps : Type 0 where
  pub capture : Bool
  pub nb_ports : ℕ
  pub has_fd : ℕ → Bool

pub record Handled : Type 0 where
  pub fdb : List FdbEntry
  pub written : List Write

module _ (t : Taps) where
  -- tap_handler_write_port_all
  write_ports : ℕ → ℕ → Frame → List Write
  write_ports zero port_id m = []
  write_ports (suc more) port_id m =
      (if t.has_fd port_id then to_port port_id m ∷ [] else []) ++ write_ports more (port_id + 1) m

  -- tap_handler_write_peek
  write_peek : Frame → List Write
  write_peek m = if t.capture then to_capture m ∷ [] else []

  pub handle_frames : List (Option Frame) → Handled → Handled
  handle_frames [] h = h
  handle_frames (none ∷ ms) h = handle_frames ms h
  handle_frames (some m ∷ ms) h = handle_frames ms (record {
    fdb = register_fdb m.src_addr m.in_port h.fdb;
    written = h.written ++ (write_peek m ++ write_ports t.nb_ports 0 m);
  })

  -- tap_handler_handle_packet_up, with the packets, or NULL, that each ring ring_up has.
  pub handle_packet_up : (PortQueue → List (Option Frame)) → List Port → Handled → Handled
  handle_packet_up dequeued [] h = h
  handle_packet_up dequeued (p ∷ ps) h =
      handle_packet_up dequeued ps
        (elim p [ linux_tap id fd ↦ h | dpdk_lcore id lcore_id q ↦ handle_frames (dequeued q) h ])

-- ===== src/Dma.antt =====
-- sdplane/nettlp.c, the sender of DMA requests and the pseudo memory that serves them.
-- A packet is the record of the header fields that the code sets. Fields it leaves as they were in
-- the buffer (sequence number and time stamp of the NetTLP header, IP identification, time to live
-- and checksum) are not modelled. The buffer from rte_pktmbuf_alloc is served. A packet longer than the
-- data room, which rte_pktmbuf_append refuses without the code asking, is written past it: the senders
-- leave `abort`.
pub mod Pads
pub mod Psmem
pub mod Read
pub mod Write
mod Tests
use nettlp_dpdk.Prelude.{
  ℕ, zero, suc, ◌+◌, ◌-◌, ◌*◌, ◌/◌, ◌%◌, ◌^◌, Bool, true, false, ◌&&◌, ◌||◌, not, Option, none,
  some, List, [], ◌∷◌, ◌++◌, ltb, leb, ◌==◌, if◌then◌else◌, Run, done, abort, length, take, drop,
  replicate,
}
use nettlp_dpdk.Tlp.ByteOrder.{Net}
use nettlp_dpdk.Tlp.{
  Header, MrHeader, word, fmt_3dw, fmt_4dw, fmt_w_data, fmt_wo_data, type_mwr, type_mrd, set_fmt,
  set_type, is_partial, clear_at, calculate_fstdw, calculate_lstdw, calculate_length, set_length,
  mr_addr, mr_data_length, mwr_data,
}

-- The global variables that describe the requests and the peer. `payload` is payload_string.
pub record Config : Type 0 where
  pub rx_portid : Option ℕ
  pub rx_queueid : Option ℕ
  pub tx_portid : ℕ
  pub local_ether : ℕ
  pub remote_ether : ℕ
  pub local_addr : ℕ
  pub remote_addr : ℕ
  pub src_port : ℕ
  pub dst_port : ℕ
  pub pci_tag : ℕ
  pub memory_addr : ℕ
  pub payload_size : ℕ
  pub payload : List ℕ
  pub read_payload_size : ℕ
  pub requester : ℕ

-- What the sender reads of `rib->rib_info`.
pub record Ports : Type 0 where
  pub port_size : ℕ
  pub nb_tx_queues : ℕ → ℕ

pub record Packet : Type 0 where
  pub eth_dst : ℕ
  pub eth_src : ℕ
  pub ether_type : ℕ
  pub version_ihl : ℕ
  pub total_length : ℕ
  pub src_addr : ℕ
  pub dst_addr : ℕ
  pub next_proto_id : ℕ
  pub src_port : ℕ
  pub dst_port : ℕ
  pub dgram_len : ℕ
  pub mh : MrHeader
  -- the address behind the header, with its width in bytes
  pub addr_width : ℕ
  pub addr_field : ℕ
  pub body : List ℕ

-- A copy to the TAP ring of a port and queue, or a packet to a port's transmit queue.
pub data Event : Type 0 where
  tap_up : ℕ → ℕ → Packet → Event
  tx : ℕ → ℕ → Packet → Event

-- sizeof of struct nettlp_hdr, tlp_mr_hdr, rte_udp_hdr and rte_ipv4_hdr
abbrev pub nettlp_hdr_size : ℕ
nettlp_hdr_size = 6

abbrev pub mr_hdr_size : ℕ
mr_hdr_size = 8

abbrev pub udp_hdr_size : ℕ
udp_hdr_size = 8

abbrev pub ipv4_hdr_size : ℕ
ipv4_hdr_size = 20

-- The loops that count the bytes to pad before and behind the payload: bits 0 to 2 of the first
-- byte enable, bits 3 to 1 of the last.
pub front_pad : ℕ → ℕ
front_pad be = if is_partial be then clear_at be 0 + clear_at be 1 + clear_at be 2 else 0

pub back_pad : ℕ → ℕ
back_pad be = if is_partial be then clear_at be 3 + clear_at be 2 + clear_at be 1 else 0

-- `memory_addr < UINT32_MAX`
abbrev pub is_32bit : ℕ → Bool
is_32bit addr = ltb addr (2 ^ 32 - 1)

-- What a ring takes, whether a port has a transmit buffer for the thread or can be given one, and the
-- room that an mbuf has behind its headroom.
pub record Env : Type 0 where
  pub ring_accepts : ℕ → ℕ → Bool
  pub tx_buffer : ℕ → ℕ → Bool
  pub zmalloc : Bool
  pub data_room : ℕ

module _ (net : Net) where
  -- The request header: the fields of `fresh`, the memory of the new buffer, but those set here.
  pub build_header : MrHeader → Config → ℕ → ℕ → ℕ → MrHeader
  build_header fresh c size type data_fmt =
      let dw = if is_32bit c.memory_addr then fmt_3dw else fmt_4dw in
      record {
        tlp = record fresh.tlp {
          fmt_type = set_fmt (set_type fresh.tlp.fmt_type type) dw data_fmt;
          falen = set_length net fresh.tlp.falen (calculate_length c.memory_addr size);
        };
        requester = net.hton16 c.requester;
        tag = c.pci_tag;
        lstdw = calculate_lstdw c.memory_addr size;
        fstdw = calculate_fstdw c.memory_addr size;
      }

  -- The address field, and its width.
  pub build_addr : Config → ℕ × ℕ
  build_addr c =
      if is_32bit c.memory_addr
      then (4, net.hton32 (c.memory_addr / 4 * 4))
      else (8, net.hton64 (c.memory_addr / 4 * 4))

  -- The UDP, IPv4 and Ethernet headers put before the request, of a packet that the data room holds:
  -- `send` tests that.
  pub encapsulate : Config → MrHeader → ℕ × ℕ → List ℕ → Packet
  encapsulate c mh (width, field) body =
      let request = nettlp_hdr_size + mr_hdr_size + width + length body in
      let udp_length = (udp_hdr_size + request) % 2 ^ 16 in
      let ip_length = (ipv4_hdr_size + udp_hdr_size + request) % 2 ^ 16 in
      record {
        eth_dst = c.remote_ether;
        eth_src = c.local_ether;
        ether_type = net.hton16 0x0800;
        version_ihl = 0x45;
        total_length = net.hton16 ip_length;
        src_addr = c.local_addr;
        dst_addr = c.remote_addr;
        next_proto_id = 17;
        src_port = net.hton16 c.src_port;
        dst_port = net.hton16 c.dst_port;
        dgram_len = net.hton16 udp_length;
        mh = mh;
        addr_width = width;
        addr_field = field;
        body = body;
      }

  pub write_packet : MrHeader → Config → Packet
  write_packet fresh c =
      let mh = build_header fresh c c.payload_size type_mwr fmt_w_data in
      encapsulate c mh (build_addr c) (
        replicate (front_pad mh.fstdw) 0
        ++ (take c.payload_size c.payload ++ replicate (back_pad mh.lstdw) 0))

  pub read_packet : MrHeader → Config → Packet
  read_packet fresh c =
      let mh = build_header fresh c c.read_payload_size type_mrd fmt_wo_data in
      encapsulate c mh (build_addr c) []

  -- nettlp_send_packet_tap_up, and the test before its call: a copy to the ring, if it is taken.
  pub tap_copy : Config → Env → Packet → List Event
  tap_copy c env p = elim c.rx_portid [
    | none ↦ []
    | some port ↦ elim c.rx_queueid [
      | none ↦ []
      | some queue ↦ if env.ring_accepts port queue then tap_up port queue p ∷ [] else []
    ]
  ]

  -- The transmit buffer made where there is none.
  pub prepare : Config → Env → ℕ → Env
  prepare c env queue = record env {
    tx_buffer = λ p q.
        if p == c.tx_portid && q == queue
        then env.tx_buffer p q || env.zmalloc
        else env.tx_buffer p q;
  }

  -- The end of both senders: the copy, the transmit buffer, and the packet if there is one.
  pub transmit : Config → Env → ℕ → Packet → Env × List Event
  transmit c env queue p =
      let env' = prepare c env queue in
      (
        env',
        tap_copy c env p
            ++ (if env'.tx_buffer c.tx_portid queue then tx c.tx_portid queue p ∷ [] else []),
      )

  -- The tests that both senders begin with.
  pub is_ready : Config → Option Ports → ℕ → Bool
  is_ready c none queue = false
  is_ready c (some ports) queue =
      not (leb ports.port_size c.tx_portid || leb (ports.nb_tx_queues c.tx_portid) queue)

  -- What the senders append to the empty buffer stays within its data room.
  pub fits_room : Env → Packet → Bool
  fits_room env p = leb (nettlp_hdr_size + mr_hdr_size + p.addr_width + length p.body) env.data_room

  pub send : Config → Option Ports → Env → ℕ → Packet → Run (Env × List Event)
  send c ports env lcore_id p =
      if not (is_ready c ports lcore_id)
      then done (env, [])
      else if fits_room env p
      then done (transmit c env lcore_id p)
      else abort

  -- nettlp_send_dma_write, on the thread of `lcore_id`
  pub send_dma_write : MrHeader → Config → Option Ports → Env → ℕ → Run (Env × List Event)
  send_dma_write fresh c ports env lcore_id = send c ports env lcore_id (write_packet fresh c)

  -- nettlp_send_dma_read
  pub send_dma_read : MrHeader → Config → Option Ports → Env → ℕ → Run (Env × List Event)
  send_dma_read fresh c ports env lcore_id = send c ports env lcore_id (read_packet fresh c)

-- ===== src/Dma/Read.antt =====
-- From nettlp_send_dma_read to nettlp_psmem_receive: what a read is answered with.
use nettlp_dpdk.Prelude.{
  ℕ, ◌+◌, ◌-◌, ◌*◌, ◌/◌, ◌%◌, ◌^◌, ◌≤◌, ◌<◌, ◌≡◌, refl, sym, ap, ◌∙◌, inl, inr, true, false, arith,
  List, if◌then◌else◌, some, done, length, take, drop, Bool-cases, drop-plus, take-drop-take, ◌==◌,
}
use nettlp_dpdk.Tlp.ByteOrder.{Net}
use nettlp_dpdk.Tlp.{MrHeader, word, is_3dw, calculate_length}
use nettlp_dpdk.Tlp.Enable.{calculate_length-dw}
use nettlp_dpdk.Tlp.Format.{request-is_3dw}
use nettlp_dpdk.Tlp.Length.{Describes, tlp_length-set_length}
use nettlp_dpdk.Dma.{Config, Packet, is_32bit, build_header, build_addr, encapsulate, read_packet}
use nettlp_dpdk.Dma.Psmem.{Psmem}
use nettlp_dpdk.Dma.Psmem.Reply.{Completion, Received, psmem_mrd, psmem_receive}
use nettlp_dpdk.Dma.Psmem.Rounds.{all_bytes, AllWithin, psmem_mrd-answers}
use nettlp_dpdk.Dma.Write.{sent-is_mwr_mrd}

-- A packet at the other end, with the bytes behind its header.
abbrev pub arrival : Packet → (ℕ → ℕ) → Received
arrival k bytes = record {
  ether_type = k.ether_type;
  next_proto_id = k.next_proto_id;
  mh = k.mh;
  field = k.addr_field;
  payload = bytes;
}

module _ (net : Net) (fresh : MrHeader) (c : Config) where
  read_packet-is_3dw : is_3dw (read_packet net fresh c).mh.tlp.fmt_type ≡ is_32bit c.memory_addr
  unfolding read_packet encapsulate build_header
  read_packet-is_3dw = request-is_3dw fresh.tlp.fmt_type (is_32bit c.memory_addr) false

  read_packet-Describes :
      calculate_length c.memory_addr c.read_payload_size < 2 ^ 10
      → Describes net (read_packet net fresh c).mh c.memory_addr c.read_payload_size
  unfolding read_packet encapsulate build_header
  read_packet-Describes h = record {
    fst = refl;
    lst = refl;
    dws =
        (tlp_length-set_length net fresh.tlp.falen
          (calculate_length c.memory_addr c.read_payload_size) h).0;
  }

  read_packet-addr_field :
      c.memory_addr < word
      → (if is_3dw (read_packet net fresh c).mh.tlp.fmt_type
          then net.ntoh32 (read_packet net fresh c).addr_field
          else net.ntoh64 (read_packet net fresh c).addr_field)
        ≡ c.memory_addr / 4 * 4
  unfolding read_packet encapsulate build_addr
  read_packet-addr_field h = elim (Bool-cases (is_32bit c.memory_addr)) [
    | inl e ↦ rw (read_packet-is_3dw, e) (net.ntoh32-hton32 _ (ground arith))
    | inr e ↦ rw (read_packet-is_3dw, e) (net.ntoh64-hton64 _ (ground arith))
  ]

  read_packet-ether : (net.ntoh16 (read_packet net fresh c).ether_type == 0x0800) ≡ true
  unfolding read_packet encapsulate
  read_packet-ether = ap (λ n. n == 0x0800) (net.ntoh16-hton16 0x0800 (omega arith))

  read_packet-proto : ((read_packet net fresh c).next_proto_id == 17) ≡ true
  unfolding read_packet encapsulate
  read_packet-proto = refl

  -- A read that is received is handed to nettlp_psmem_mrd.
  read_taken :
      (fuel requester : ℕ) (p : Psmem) (bytes : ℕ → ℕ) (cs : List Completion)
      → psmem_mrd net fuel p
          (read_packet net fresh c).mh
          requester
          (read_packet net fresh c).addr_field
        ≡ done (some cs)
      → psmem_receive net fuel p requester (arrival (read_packet net fresh c) bytes)
        ≡ done (some (record { psmem = p; replies = cs; freed = true }))
  unfolding psmem_receive
  read_taken fuel requester p bytes cs ran =
      rw (psmem_receive, read_packet-ether, read_packet-proto, (sent-is_mwr_mrd net fresh c).3, ran)
        refl

  -- A DMA read of at least one and fewer than 2^30 bytes, which end 4 bytes or more before the
  -- address space does, that is sent and received leaves the pseudo memory as it is and is answered
  -- with completions of at most 256 bytes each; in their bytes together, behind as many as the address
  -- is past its DW, are the bytes of the memory that it asks for. The number of its DWs is below 2^10;
  -- its first DW begins in the region, and the unaligned address and as many bytes behind it as the
  -- DWs have end in the region, which ends in the address space and which the memory holds. There are
  -- as many rounds as the DWs have bytes.
  pub read_packet-answered :
      (p : Psmem) (fuel requester : ℕ) (bytes : ℕ → ℕ)
      → 0 < c.read_payload_size
      → calculate_length c.memory_addr c.read_payload_size < 2 ^ 10
      → c.read_payload_size < 2 ^ 30
      → c.memory_addr + c.read_payload_size + 4 ≤ word
      → p.base ≤ c.memory_addr / 4 * 4
      → c.memory_addr + calculate_length c.memory_addr c.read_payload_size * 4 ≤ p.base + p.size
      → p.base + p.size < word
      → p.size ≤ length p.memory
      → calculate_length c.memory_addr c.read_payload_size * 4 ≤ fuel
      → (cs : List Completion) × (psmem_receive net fuel p requester
            (arrival (read_packet net fresh c) bytes)
          ≡ done (some (record { psmem = p; replies = cs; freed = true })))
        × (take c.read_payload_size (drop (c.memory_addr % 4) (all_bytes cs))
            ≡ take c.read_payload_size (drop (c.memory_addr - p.base) p.memory))
        × AllWithin cs
  read_packet-answered p fuel requester bytes pos dws small fits low high whole room enough =
      let a : ℕ = c.memory_addr in
      let n : ℕ = c.read_payload_size in
      let len : ℕ = calculate_length a n * 4 in
      let d = read_packet-Describes dws in
      let (cs, ran, got, all) =
        psmem_mrd-answers net p (read_packet net fresh c).mh requester fuel a
          (read_packet net fresh c).addr_field low (omega (arith, d.dws)) whole room
          (omega (arith, d.dws)) n pos small fits d (read_packet-addr_field (omega arith)) in
      (
        cs,
        read_taken fuel requester p bytes cs ran,
        ap (λ l. take n (drop (a % 4) l)) got
            ∙ take-drop-take n (a % 4) len (drop (a / 4 * 4 - p.base) p.memory)
                (omega (arith, calculate_length-dw a n pos fits (omega arith)))
            ∙ ap (take n)
                (sym (drop-plus (a / 4 * 4 - p.base) (a % 4) (a - p.base) p.memory (omega arith))),
        all,
      )

-- ===== src/Dma/Tests.antt =====
-- Theorems of the DMA requests at a concrete configuration and memory.
use nettlp_dpdk.Prelude.{
  ℕ, ◌+◌, ◌-◌, ◌*◌, ◌%◌, ◌∙◌, ◌/◌, ◌≤◌, ◌<◌, ◌≡◌, ◌↔◌, refl, ap, arith, ◌⊎◌, true, [], ◌∷◌, none,
  done, abort, replicate, take, drop, some, List, get_or,
}
use nettlp_dpdk.Tlp.{
  MrHeader, word, calculate_fstdw, calculate_lstdw, calculate_length, mwr_data, mr_data_length,
}
use nettlp_dpdk.Tlp.Enable.{skip}
use nettlp_dpdk.Tlp.Tests.{
  big_endian, four_bytes, four_bytes-addr, four_bytes-length, ten_dws, one_dw, ten_bytes,
  ten_bytes-Describes, three_dws, ten_bytes-field, two_dws,
}
use nettlp_dpdk.Dma.{
  Config, front_pad, back_pad, build_addr, encapsulate, write_packet, read_packet,
}
use nettlp_dpdk.Dma.Pads.{front_pad-skip_iff, pads-length}
use nettlp_dpdk.Dma.Psmem.{Psmem, write_at, bytes_from, psmem_mwr, sign_extend}
use nettlp_dpdk.Dma.Psmem.Access.{sign_extend_small, psmem_mwr-safe, psmem_mwr-wrap}
use nettlp_dpdk.Dma.Psmem.Reply.{Completion, psmem_mrd, psmem_receive}
use nettlp_dpdk.Dma.Psmem.Rounds.{all_bytes, AllWithin, psmem_mrd-answers, psmem_mrd-endless}
use nettlp_dpdk.Dma.Read.{arrival, read_packet-answered}
use nettlp_dpdk.Dma.Write.{write_packet-received}

abbrev fresh : MrHeader
fresh = record {
  tlp = record { fmt_type = 0xff; tclass = 0; falen = 0xffff };
  requester = 0;
  tag = 0;
  fstdw = 0;
  lstdw = 0;
}

abbrev config : Config
config = record {
  rx_portid = none;
  rx_queueid = none;
  tx_portid = 0;
  local_ether = 1;
  remote_ether = 2;
  local_addr = 3;
  remote_addr = 4;
  src_port = 12288;
  dst_port = 12288;
  pci_tag = 1;
  memory_addr = 0x1002;
  payload_size = 10;
  payload = 1 ∷ 2 ∷ 3 ∷ 4 ∷ 5 ∷ 6 ∷ 7 ∷ 8 ∷ 9 ∷ 10 ∷ [];
  read_payload_size = 4;
  requester = 0x100;
}

abbrev region : Psmem
region = record { base = 0x1000; size = 16; memory = replicate 16 0 }

front_pad-skip_iff_example :
    (front_pad (calculate_fstdw 0x1002 10) ≡ skip (calculate_fstdw 0x1002 10))
    ↔ (3 ≤ 0x1002 % 4 + 10)
front_pad-skip_iff_example = front_pad-skip_iff 0x1002 10 (omega arith)

pads-length_example :
    front_pad (calculate_fstdw 0x1002 10) + 10 + back_pad (calculate_lstdw 0x1002 10)
    ≡ calculate_length 0x1002 10 * 4
pads-length_example = pads-length 0x1002 10 (omega arith) (omega arith) (omega arith) (omega arith)

abbrev wire : ℕ → ℕ
wire k = get_or (write_packet big_endian fresh config).body (k - 4) 0

wire_carries :
    (i : ℕ)
    → wire ((write_packet big_endian fresh config).addr_width + i)
      ≡ get_or (write_packet big_endian fresh config).body i 0
unfolding write_packet encapsulate build_addr
wire_carries i = ap (λ k. get_or (write_packet big_endian fresh config).body k 0) (omega arith)

write_packet-received_example :
    psmem_mwr big_endian region
      (write_packet big_endian fresh config).mh
      (write_packet big_endian fresh config).addr_field
      wire
    ≡ done (record region { memory = write_at region.memory 2 config.payload })
write_packet-received_example =
    write_packet-received big_endian fresh config region wire (omega arith) (omega arith)
      (omega arith) (omega (arith, ten_dws)) (omega arith) (omega arith) (omega arith) (omega arith)
      (omega arith) (omega arith) wire_carries

abbrev zeros : ℕ → ℕ
zeros k = 0

psmem_mwr-safe_example :
    ((psmem_mwr big_endian region four_bytes 0x1004 zeros ≡ done region)
      × ((0x1004 < 0x1000) ⊎ (0x1000 + 16 < 0x1004 + 4)))
    ⊎ ((psmem_mwr big_endian region four_bytes 0x1004 zeros
          ≡ done (record region {
            memory = write_at region.memory 4 (bytes_from zeros (mwr_data big_endian four_bytes) 4);
          }))
        × (0x1000 ≤ 0x1004)
        × (0x1004 + 4 ≤ 0x1000 + 16))
psmem_mwr-safe_example =
    psmem_mwr-safe big_endian region four_bytes 0x1004 zeros (omega arith) 0x1004 4
      (four_bytes-addr 0x1004) four_bytes-length (omega arith) (omega arith) (omega arith)

psmem_mwr-wrap_example : psmem_mwr big_endian region four_bytes (word - 4) zeros ≡ abort
psmem_mwr-wrap_example =
    psmem_mwr-wrap big_endian region four_bytes (word - 4) zeros (omega arith) (word - 4) 4
      (four_bytes-addr (word - 4)) four_bytes-length (omega arith) (omega arith) (omega arith)
      (omega arith) refl

psmem_mrd-answers_example :
    (cs : List Completion) × (psmem_mrd big_endian 12 region ten_bytes 0x100 0x1000
      ≡ done (some cs))
    × (all_bytes cs
        ≡ take (calculate_length 0x1002 10 * 4) (drop (0x1002 / 4 * 4 - region.base) region.memory))
    × AllWithin cs
psmem_mrd-answers_example =
    psmem_mrd-answers big_endian region ten_bytes 0x100 12 0x1002 0x1000 (omega arith)
      (omega (arith, three_dws)) (omega arith) (omega arith) (omega (arith, three_dws)) 10
      (omega arith) (omega arith) (omega arith) ten_bytes-Describes ten_bytes-field

four_bytes-asked : sign_extend (mr_data_length big_endian four_bytes) ≡ 4
four_bytes-asked = ap sign_extend four_bytes-length ∙ sign_extend_small 4 (omega arith)

-- The flag bits of the address field, which the header of a request of a whole DW leaves set.
psmem_mrd-endless_example : psmem_mrd big_endian 1000 region four_bytes 0x100 0x1001 ≡ done none
psmem_mrd-endless_example =
    psmem_mrd-endless big_endian region four_bytes 0x100 1000 0x1001 0x1001 (omega arith)
      (omega (arith, one_dw)) (omega arith) (omega arith) (omega (arith, one_dw))
      (four_bytes-addr 0x1001) (omega (arith, four_bytes-asked))
      (omega (arith, one_dw, four_bytes-asked))

read_packet-answered_example :
    (cs : List Completion) × (psmem_receive big_endian 8 region 0x100
        (arrival (read_packet big_endian fresh config) zeros)
      ≡ done (some (record { psmem = region; replies = cs; freed = true })))
    × (take 4 (drop (0x1002 % 4) (all_bytes cs)) ≡ take 4 (drop (0x1002 - 0x1000) region.memory))
    × AllWithin cs
read_packet-answered_example =
    read_packet-answered big_endian fresh config region 8 0x100 zeros (omega arith)
      (omega (arith, two_dws)) (omega arith) (omega arith) (omega arith) (omega (arith, two_dws))
      (omega arith) (omega arith) (omega (arith, two_dws))

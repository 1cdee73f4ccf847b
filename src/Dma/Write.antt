-- ===== src/Dma/Write.antt =====
-- From nettlp_send_dma_write to nettlp_psmem_mwr: the payload arrives at its address.
use nettlp_dpdk.Prelude.{
  ℕ, zero, ◌+◌, ◌-◌, ◌*◌, ◌/◌, ◌%◌, ◌^◌, ◌≤◌, ◌<◌, ◌≡◌, refl, ap, ◌∙◌, inl, inr, true, false, arith,
  List, ◌++◌, if◌then◌else◌, done, length, take, replicate, get_or, length-replicate, length-take,
  get_or-append_left, get_or-append_right, Bool-cases,
}
use nettlp_dpdk.Tlp.ByteOrder.{Net}
use nettlp_dpdk.Tlp.{
  MrHeader, word, is_3dw, is_mwr, is_mrd, calculate_fstdw, calculate_lstdw, calculate_length,
  mwr_data,
}
use nettlp_dpdk.Tlp.Format.{request-is_3dw, request-is_mwr, request-is_mrd}
use nettlp_dpdk.Tlp.Length.{
  Describes, tlp_length-set_length, mr_addr-addr, mr_data_length-count, mwr_data-skip,
}
use nettlp_dpdk.Dma.{
  Config, is_32bit, front_pad, back_pad, build_header, build_addr, encapsulate, write_packet,
  read_packet,
}
use nettlp_dpdk.Dma.Pads.{front_pad-fstdw}
use nettlp_dpdk.Dma.Psmem.{Psmem, bytes_from, write_at, psmem_mwr}
use nettlp_dpdk.Dma.Psmem.Access.{bytes_from-list, psmem_mwr-inside}

get_or_eq : (xs : List ℕ) (i j : ℕ) → i ≡ j → get_or xs i 0 ≡ get_or xs j 0
get_or_eq xs i j e = ap (λ k. get_or xs k 0) e

module _ (net : Net) (fresh : MrHeader) (c : Config) where
  -- The requests that are sent pass the test of their kind and no other, whatever the header's
  -- memory held before.
  pub sent-is_mwr_mrd :
      (is_mwr (write_packet net fresh c).mh.tlp.fmt_type ≡ true)
      × (is_mrd (write_packet net fresh c).mh.tlp.fmt_type ≡ false)
      × (is_mwr (read_packet net fresh c).mh.tlp.fmt_type ≡ false)
      × (is_mrd (read_packet net fresh c).mh.tlp.fmt_type ≡ true)
  unfolding write_packet read_packet encapsulate build_header
  sent-is_mwr_mrd = (
    request-is_mwr fresh.tlp.fmt_type (is_32bit c.memory_addr) true,
    request-is_mrd fresh.tlp.fmt_type (is_32bit c.memory_addr) true,
    request-is_mwr fresh.tlp.fmt_type (is_32bit c.memory_addr) false,
    request-is_mrd fresh.tlp.fmt_type (is_32bit c.memory_addr) false,
  )

  write_packet-is_3dw : is_3dw (write_packet net fresh c).mh.tlp.fmt_type ≡ is_32bit c.memory_addr
  unfolding write_packet encapsulate build_header
  write_packet-is_3dw = request-is_3dw fresh.tlp.fmt_type (is_32bit c.memory_addr) true

  write_packet-Describes :
      calculate_length c.memory_addr c.payload_size < 2 ^ 10
      → Describes net (write_packet net fresh c).mh c.memory_addr c.payload_size
  unfolding write_packet encapsulate build_header
  write_packet-Describes h = record {
    fst = refl;
    lst = refl;
    dws =
        (tlp_length-set_length net fresh.tlp.falen (calculate_length c.memory_addr c.payload_size)
          h).0;
  }

  write_packet-addr_width :
      (write_packet net fresh c).addr_width ≡ (if is_32bit c.memory_addr then 4 else 8)
  unfolding write_packet encapsulate build_addr
  write_packet-addr_width = elim (Bool-cases (is_32bit c.memory_addr)) [
    | inl e ↦ rw e refl
    | inr e ↦ rw e refl
  ]

  abbrev front : ℕ
  front = front_pad (calculate_fstdw c.memory_addr c.payload_size)

  abbrev sent : List ℕ
  sent = take c.payload_size c.payload

  abbrev zeros : List ℕ
  zeros = replicate front 0

  length-zeros : length zeros ≡ front
  length-zeros = length-replicate front (zero)

  abbrev behind : List ℕ
  behind = replicate (back_pad (calculate_lstdw c.memory_addr c.payload_size)) 0

  -- Behind the front padding, the body of a write is the payload.
  write_packet-body :
      (i : ℕ)
      → i < c.payload_size
      → c.payload_size ≤ length c.payload
      → get_or (write_packet net fresh c).body (front + i) 0 ≡ get_or sent i 0
  unfolding write_packet encapsulate build_header
  write_packet-body i lt enough =
      get_or-append_right zeros (sent ++ behind) (front + i) 0 (omega (arith, length-zeros))
      ∙ get_or_eq (sent ++ behind) (front + i - length zeros) i (omega (arith, length-zeros))
      ∙ get_or-append_left sent behind i 0 (omega (arith, length-take c.payload_size c.payload))

  write_packet-addr_field :
      c.memory_addr < word
      → (if is_3dw (write_packet net fresh c).mh.tlp.fmt_type
          then net.ntoh32 (write_packet net fresh c).addr_field
          else net.ntoh64 (write_packet net fresh c).addr_field)
        ≡ c.memory_addr / 4 * 4
  unfolding write_packet encapsulate build_addr
  write_packet-addr_field h = elim (Bool-cases (is_32bit c.memory_addr)) [
    | inl e ↦ rw (write_packet-is_3dw, e) (net.ntoh32-hton32 _ (ground arith))
    | inr e ↦ rw (write_packet-is_3dw, e) (net.ntoh64-hton64 _ (ground arith))
  ]

  -- What the receiver takes out of a write is the payload.
  write_packet-bytes :
      (bytes : ℕ → ℕ)
      → calculate_length c.memory_addr c.payload_size < 2 ^ 10
      → 0 < c.payload_size
      → c.memory_addr + c.payload_size + 4 ≤ word
      → 3 ≤ c.memory_addr % 4 + c.payload_size
      → c.payload_size ≤ length c.payload
      → ((i : ℕ)
          → bytes ((write_packet net fresh c).addr_width + i)
            ≡ get_or (write_packet net fresh c).body i 0)
      → bytes_from bytes (mwr_data net (write_packet net fresh c).mh) c.payload_size ≡ sent
  write_packet-bytes bytes dws pos fits third enough carried =
      ap (λ n. bytes_from bytes (mwr_data net (write_packet net fresh c).mh) n)
        (omega (arith, length-take c.payload_size c.payload))
      ∙ bytes_from-list bytes (mwr_data net (write_packet net fresh c).mh) sent (λ i lt.
        ap bytes (offset i)
        ∙ carried (front + i)
        ∙ write_packet-body i (omega (arith, length-take c.payload_size c.payload)) enough)
    where
      offset :
          (i : ℕ)
          → mwr_data net (write_packet net fresh c).mh + i
            ≡ (write_packet net fresh c).addr_width + (front + i)
      offset i = ground (
        arith,
        mwr_data-skip net c.memory_addr c.payload_size pos fits (write_packet net fresh c).mh
            (write_packet-Describes dws),
        write_packet-is_3dw,
        write_packet-addr_width,
        front_pad-fstdw c.memory_addr c.payload_size pos,
      )

  -- A DMA write that is sent and received puts the payload at its address in the pseudo memory and
  -- changes nothing else, where the payload string is long enough, the transfer lies in the region,
  -- reaches the third byte of its first DW and is not longer than the length field can say.
  pub write_packet-received :
      (p : Psmem) (bytes : ℕ → ℕ)
      → 0 < c.payload_size
      → c.payload_size ≤ length c.payload
      → 3 ≤ c.memory_addr % 4 + c.payload_size
      → calculate_length c.memory_addr c.payload_size < 2 ^ 10
      → c.payload_size < 2 ^ 30
      → c.memory_addr + c.payload_size + 4 ≤ word
      → p.base ≤ c.memory_addr
      → c.memory_addr + c.payload_size ≤ p.base + p.size
      → p.base + p.size < word
      → p.size ≤ length p.memory
      → ((i : ℕ)
          → bytes ((write_packet net fresh c).addr_width + i)
            ≡ get_or (write_packet net fresh c).body i 0)
      → psmem_mwr net p (write_packet net fresh c).mh (write_packet net fresh c).addr_field bytes
        ≡ done (record p { memory = write_at p.memory (c.memory_addr - p.base) sent })
  write_packet-received p bytes pos enough third dws small fits low high whole room carried =
      psmem_mwr-inside net p (write_packet net fresh c).mh (write_packet net fresh c).addr_field
        bytes whole c.memory_addr c.payload_size
        (mr_addr-addr net c.memory_addr c.payload_size pos fits (write_packet net fresh c).mh
          (write_packet net fresh c).addr_field (write_packet-Describes dws)
          (write_packet-addr_field (omega arith)))
        (mr_data_length-count net c.memory_addr c.payload_size pos fits
          (write_packet net fresh c).mh small (write_packet-Describes dws))
        (omega arith) low high room
      ∙ ap (λ l. done (record p { memory = write_at p.memory (c.memory_addr - p.base) l }))
          (write_packet-bytes bytes dws pos fits third enough carried)

-- ===== src/Tlp/Length.antt =====
-- The length field, and the length and address that a receiver reads back from a memory request.
use nettlp_dpdk.Prelude.{
  ℕ, ◌+◌, ◌-◌, ◌*◌, ◌/◌, ◌%◌, ◌^◌, ◌≤◌, ◌<◌, ◌≡◌, ap, ◌∙◌, arith, if◌then◌else◌,
}
use nettlp_dpdk.Tlp.ByteOrder.{Net}
use nettlp_dpdk.Tlp.Bits.{bit_or-add}
use nettlp_dpdk.Tlp.{
  MrHeader, word, calculate_fstdw, calculate_lstdw, calculate_length, tlp_length, set_length,
  mr_data_length, mr_addr, mwr_data, is_3dw,
}
use nettlp_dpdk.Tlp.Enable.{
  lost, skip, trail, calculate_fstdw-skip, calculate_fstdw-lost, calculate_lstdw-trail,
  calculate_length-dw,
}

module _ (net : Net) where
  ntoh16-set_length :
      (falen v : ℕ)
      → v < 2 ^ 10
      → net.ntoh16 (set_length net falen v) ≡ net.ntoh16 falen / 2 ^ 10 * 2 ^ 10 + v
  unfolding set_length
  ntoh16-set_length falen v h =
      ap (λ b. net.ntoh16 (net.hton16 (b % 2 ^ 16))) (bit_or-add 10 (net.ntoh16 falen / 2 ^ 10) v h)
      ∙ net.ntoh16-hton16 ((net.ntoh16 falen / 2 ^ 10 * 2 ^ 10 + v) % 2 ^ 16) (omega arith)
      ∙ omega (arith, net.ntoh16-lt falen)

  -- A length below 2^10 is read back from the field that it was put into, whatever flags the field
  -- has, and the flags stay.
  pub tlp_length-set_length :
      (falen v : ℕ)
      → v < 2 ^ 10
      → (tlp_length net (set_length net falen v) ≡ v)
        × (net.ntoh16 (set_length net falen v) / 2 ^ 10 ≡ net.ntoh16 falen / 2 ^ 10)
  unfolding tlp_length
  tlp_length-set_length falen v h =
      (omega (arith, ntoh16-set_length falen v h), omega (arith, ntoh16-set_length falen v h))

  mr_data_length_lem :
      (mh : MrHeader)
      → mr_data_length net mh
        ≡ ((tlp_length net mh.tlp.falen * 4 + 2 ^ 32 - lost mh.fstdw) % 2 ^ 32
            + 2 ^ 32
            - trail mh.lstdw)
          % 2 ^ 32
  unfolding mr_data_length lost trail tlp_length
  mr_data_length_lem mh = ground arith

  mr_addr_lem :
      (mh : MrHeader) (field addr : ℕ)
      → (if is_3dw mh.tlp.fmt_type then net.ntoh32 field else net.ntoh64 field) ≡ addr
      → addr + skip mh.fstdw < word
      → mr_addr net mh field ≡ addr + skip mh.fstdw
  unfolding mr_addr skip
  mr_addr_lem mh field addr e fits = ground arith

  mwr_data_lem :
      (mh : MrHeader) → mwr_data net mh ≡ (if is_3dw mh.tlp.fmt_type then 4 else 8) + skip mh.fstdw
  unfolding mwr_data skip
  mwr_data_lem mh = ground arith

  -- The header of a transfer of `count` bytes at `addr`, as the senders fill it in.
  pub record Describes (mh : MrHeader) (addr count : ℕ) : Type 0 where
    pub fst : mh.fstdw ≡ calculate_fstdw addr count
    pub lst : mh.lstdw ≡ calculate_lstdw addr count
    pub dws : tlp_length net mh.tlp.falen ≡ calculate_length addr count

  module _ (addr count : ℕ) (pos : 0 < count) (fits : addr + count + 4 ≤ word) where
    -- From a header with the byte enables and the length computed for at least one and fewer than
    -- 2^30 bytes at an address, which end 4 bytes or more before the address space does, the
    -- receiver computes the number of bytes.
    pub mr_data_length-count :
        (mh : MrHeader) → count < 2 ^ 30 → Describes mh addr count → mr_data_length net mh ≡ count
    mr_data_length-count mh small d =
        mr_data_length_lem mh
        ∙ ground (
          arith,
          d.fst,
          ap lost d.fst,
          ap trail d.lst,
          d.dws,
          calculate_length-dw addr count pos fits (omega arith),
          calculate_fstdw-lost addr count pos,
          calculate_lstdw-trail addr count pos fits,
        )

    -- From such a header, and the address of the first DW behind it, the receiver computes the
    -- address of the first byte.
    pub mr_addr-addr :
        (mh : MrHeader) (field : ℕ)
        → Describes mh addr count
        → (if is_3dw mh.tlp.fmt_type then net.ntoh32 field else net.ntoh64 field) ≡ addr / 4 * 4
        → mr_addr net mh field ≡ addr
    mr_addr-addr mh field d e =
        let s = ap skip d.fst ∙ calculate_fstdw-skip addr count pos in
        mr_addr_lem mh field (addr / 4 * 4) e (omega (arith, s)) ∙ omega (arith, s)

    -- With a header that has the byte enables computed for at least one byte at an address, the
    -- receiver looks for the payload behind the address field, as many bytes further as the first DW
    -- has below the address.
    pub mwr_data-skip :
        (mh : MrHeader)
        → Describes mh addr count
        → mwr_data net mh ≡ (if is_3dw mh.tlp.fmt_type then 4 else 8) + addr % 4
    mwr_data-skip mh d =
        mwr_data_lem mh
        ∙ ap (λ k. (if is_3dw mh.tlp.fmt_type then 4 else 8) + k)
            (ap skip d.fst ∙ calculate_fstdw-skip addr count pos)

-- ===== src/Dma/Pads.antt =====
-- The padding of a DMA write against what the receiver skips.
use mathlib.Core.Path.{subst}
use native.Mathlib.Decide.{dec_lt}
use nettlp_dpdk.Prelude.{
  ℕ, ◌+◌, ◌-◌, ◌*◌, ◌%◌, ◌^◌, ◌≤◌, ◌<◌, ◌≡◌, ◌↔◌, refl, inl, inr, Bool, true, arith, ◌==◌, ltb, leb,
  if◌then◌else◌, all_below, all_below→holds, ==→eq,
}
use nettlp_dpdk.Tlp.{word, low_ones, calculate_fstdw, calculate_lstdw, calculate_length}
use nettlp_dpdk.Tlp.Enable.{
  first_be, first_be_long, calculate_fstdw_lem, calculate_lstdw_cases, calculate_length-dw,
  last_bytes, skip, calculate_fstdw-skip,
}
use nettlp_dpdk.Dma.{front_pad, back_pad}

abbrev front_ok : ℕ → ℕ → Bool
front_ok r c = front_pad (first_be r (c + 1)) == (if ltb 1 (r + c) then r else 2 - c)

front_table : all_below 4 (λ r. all_below 4 (front_ok r)) ≡ true
unfolding first_be front_pad
front_table = refl

front_entry :
    (r c : ℕ)
    → r < 4
    → c < 4
    → front_pad (first_be r (c + 1)) ≡ (if ltb 1 (r + c) then r else 2 - c)
front_entry r c hr hc = ==→eq _ _ (
    all_below→holds 4 (front_ok r) c
      (all_below→holds 4 (λ q. all_below 4 (front_ok q)) r front_table hr) hc)

front_entry_of :
    (r count : ℕ)
    → r < 4
    → 0 < count
    → front_pad (first_be r count) ≡ (if leb 3 (r + count) then r else 3 - count)
front_entry_of r count hr pos = elim (dec_lt count 4) [
  | yes short ↦
      subst (λ k. front_pad (first_be r k) ≡ (if leb 3 (r + count) then r else 3 - count))
        count_back (ground (arith, front_entry r (count - 1) hr (omega arith)))
  | no long ↦
      rw (first_be_long r count (omega arith)) (ground (arith, front_entry r 3 hr (omega arith)))
]
  where
    count_back : count - 1 + 1 ≡ count
    count_back = omega arith

-- The bytes that the sender puts before the payload.
pub front_pad-fstdw :
    (addr count : ℕ)
    → 0 < count
    → front_pad (calculate_fstdw addr count)
      ≡ (if leb 3 (addr % 4 + count) then addr % 4 else 3 - count)
front_pad-fstdw addr count pos =
    rw calculate_fstdw_lem (front_entry_of (addr % 4) count (omega arith) pos)

-- The sender of a DMA write puts its payload where the receiver looks for it exactly when the
-- transfer reaches the third byte of its first DW. A shorter one is shifted.
pub front_pad-skip_iff :
    (addr count : ℕ)
    → 0 < count
    → (front_pad (calculate_fstdw addr count) ≡ skip (calculate_fstdw addr count))
      ↔ (3 ≤ addr % 4 + count)
front_pad-skip_iff addr count pos = (
  λ e. ground (arith, front_pad-fstdw addr count pos, calculate_fstdw-skip addr count pos),
  λ long. ground (arith, front_pad-fstdw addr count pos, calculate_fstdw-skip addr count pos),
)

abbrev back_ok : ℕ → Bool
back_ok m = back_pad (low_ones (m + 1)) == 3 - m

back_table : all_below 4 back_ok ≡ true
unfolding back_pad
back_table = refl

back_pad-low_ones : (m : ℕ) → m < 4 → back_pad (low_ones (m + 1)) ≡ 3 - m
back_pad-low_ones m h = ==→eq _ _ (all_below→holds 4 back_ok m back_table h)

back_pad_zero : back_pad 0 ≡ 0
unfolding back_pad
back_pad_zero = refl

pub back_pad-lstdw :
    (addr count : ℕ)
    → 0 < count
    → addr + count + 4 ≤ word
    → back_pad (calculate_lstdw addr count)
      ≡ (if leb (addr % 4 + count) 4 then 0 else 4 - last_bytes addr count)
back_pad-lstdw addr count pos fits = elim (calculate_lstdw_cases addr count pos fits) [
  | inl (one, e) ↦ rw e (ground (arith, back_pad_zero))
  | inr (more, e) ↦
      rw e (ground (arith, back_pad-low_ones ((addr % 4 + count - 1) % 4) (omega arith)))
]

-- The padded payload of a DMA write that touches several DWs, of fewer than 2^32 bytes which end 4
-- bytes or more before the address space does, fills exactly as many DWs as tlp_calculate_length
-- computes for it, whether or not the length field of the header has room for their number.
pub pads-length :
    (addr count : ℕ)
    → 0 < count
    → count < 2 ^ 32
    → addr + count + 4 ≤ word
    → 4 < addr % 4 + count
    → front_pad (calculate_fstdw addr count) + count + back_pad (calculate_lstdw addr count)
      ≡ calculate_length addr count * 4
pads-length addr count pos small fits several = ground (
  arith,
  front_pad-fstdw addr count pos,
  back_pad-lstdw addr count pos fits,
  calculate_length-dw addr count pos fits small,
)

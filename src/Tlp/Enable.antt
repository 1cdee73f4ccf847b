-- ===== src/Tlp/Enable.antt =====
-- The byte enables that `tlp_calculate_fstdw` and `tlp_calculate_lstdw` compute.
use nettlp_dpdk.Prelude.{
  ℕ, ◌+◌, ◌-◌, ◌*◌, ◌/◌, ◌%◌, ◌^◌, ◌≤◌, ◌<◌, ◌≡◌, refl, ap, ◌⊎◌, inl, inr, Bool, true, arith, ◌==◌,
  ltb, leb, if◌then◌else◌, Bool-cases, le→ltb, all_below, all_below→holds, ◌&&◌, ==→eq,
}
use mathlib.Core.Path.{subst}
use native.Mathlib.Decide.{dec_lt}
use nettlp_dpdk.Tlp.{
  word, low_ones, calculate_end_start, calculate_lstdw, calculate_fstdw, calculate_length,
  is_partial, clear_low, clear_high, clear_all,
}

-- The last of the DWs that the bytes addr .. addr + count - 1 touch, counted from the first.
abbrev pub last_dw : ℕ → ℕ → ℕ
last_dw addr count = (addr % 4 + count - 1) / 4

-- In the last DW, how many bytes are touched.
abbrev pub last_bytes : ℕ → ℕ → ℕ
last_bytes addr count = (addr % 4 + count - 1) % 4 + 1

low_ones_zero : (k : ℕ) → k ≡ 0 → low_ones k ≡ 0
low_ones_zero k e = rw e

module _ (addr count : ℕ) (pos : 0 < count) (fits : addr + count + 4 ≤ word) where
  -- The length computed for fewer than 2^32 bytes, at least one, that end 4 bytes or more before
  -- the address space does, is the number of DWs from that of the first byte to that of the last.
  pub calculate_length-dw : count < 2 ^ 32 → calculate_length addr count ≡ last_dw addr count + 1
  unfolding calculate_length
  calculate_length-dw small = ground arith

  end_start_single : last_dw addr count ≡ 0 → calculate_end_start addr count ≡ addr + 4
  unfolding calculate_end_start
  end_start_single one = ground arith

  end_start_more :
      0 < last_dw addr count → calculate_end_start addr count + last_bytes addr count ≡ addr + count
  unfolding calculate_end_start
  end_start_more more = ground arith

  lstdw_single : last_dw addr count ≡ 0 → calculate_lstdw addr count ≡ 0
  unfolding calculate_lstdw
  lstdw_single one =
      elim (Bool-cases (ltb ((addr + count) % word) (calculate_end_start addr count))) [
        | inl short ↦ rw short
        | inr full ↦ rw full (low_ones_zero _ (omega (arith, end_start_single one)))
      ]

  lstdw_more :
      0 < last_dw addr count → calculate_lstdw addr count ≡ low_ones (last_bytes addr count)
  unfolding calculate_lstdw
  lstdw_more more =
      rw
        (le→ltb ((addr + count) % word) (calculate_end_start addr count)
          (omega (arith, end_start_more more)))
        (ap low_ones (omega (arith, end_start_more more)))

  -- For at least one byte, the last of them 4 bytes or more before the end of the address space,
  -- the last DW byte enable is 0 where the bytes lie in one DW, and else has a one for each byte of
  -- the last DW that is touched.
  pub calculate_lstdw_cases :
      ((last_dw addr count ≡ 0) × (calculate_lstdw addr count ≡ 0))
      ⊎ ((0 < last_dw addr count) × (calculate_lstdw addr count ≡ low_ones (last_bytes addr count)))
  calculate_lstdw_cases = elim (dec_lt 0 (last_dw addr count)) [
    | yes more ↦ inr (more, lstdw_more more)
    | no one ↦ inl (omega arith, lstdw_single (omega arith))
  ]

-- What the byte enables take from the length and add to the address: the clear bits, the clear
-- bits below the first one set, and those above the last one set.
unfoldable pub lost : ℕ → ℕ
lost be = if is_partial be then clear_all be else 0

unfoldable pub skip : ℕ → ℕ
skip be = if is_partial be then clear_low be else 0

unfoldable pub trail : ℕ → ℕ
trail be = if is_partial be then clear_high be else 0

-- `tlp_calculate_fstdw` by the offset in the DW.
unfoldable pub first_be : ℕ → ℕ → ℕ
first_be r count = ((if ltb count 4 then low_ones count else 15) * 2 ^ r) % 16

pub calculate_fstdw_lem : (addr count : ℕ) → calculate_fstdw addr count ≡ first_be (addr % 4) count
unfolding calculate_fstdw first_be
calculate_fstdw_lem addr count = refl

pub first_be_long : (r count : ℕ) → 4 ≤ count → first_be r count ≡ first_be r 4
unfolding first_be
first_be_long r count long = rw (le→ltb count 4 long)

abbrev first_ok : ℕ → ℕ → Bool
first_ok r c =
    skip (first_be r (c + 1)) == r
    && lost (first_be r (c + 1)) == (if ltb (r + c) 4 then 3 - c else r)

-- All offsets and the counts 1 to 4, of which the last stands for all that are longer.
first_table : all_below 4 (λ r. all_below 4 (first_ok r)) ≡ true
unfolding first_be skip lost clear_low clear_all
first_table = refl

pub and_true : (a b : Bool) → (a && b) ≡ true → (a ≡ true) × (b ≡ true)
and_true a b h = ground arith

first_entry :
    (r c : ℕ)
    → r < 4
    → c < 4
    → (skip (first_be r (c + 1)) ≡ r)
      × (lost (first_be r (c + 1)) ≡ (if ltb (r + c) 4 then 3 - c else r))
first_entry r c hr hc =
    let (a, b) = and_true _ _ (
      all_below→holds 4 (first_ok r) c
        (all_below→holds 4 (λ q. all_below 4 (first_ok q)) r first_table hr) hc) in
    (==→eq _ _ a, ==→eq _ _ b)

first_entry_of :
    (r count : ℕ)
    → r < 4
    → 0 < count
    → (skip (first_be r count) ≡ r)
      × (lost (first_be r count) ≡ (if leb (r + count) 4 then 4 - count else r))
first_entry_of r count hr pos = elim (dec_lt count 4) [
  | yes short ↦
      subst
        (λ k.
          (skip (first_be r k) ≡ r)
          × (lost (first_be r k) ≡ (if leb (r + count) 4 then 4 - count else r)))
        (count_back) (ground (arith, first_entry r (count - 1) hr (omega arith)))
  | no long ↦
      rw (first_be_long r count (omega arith)) (ground (arith, first_entry r 3 hr (omega arith)))
]
  where
    count_back : count - 1 + 1 ≡ count
    count_back = omega arith

-- The first DW byte enable skips the bytes below the address, and leaves out those and, in a
-- transfer within one DW, those behind its end.
pub calculate_fstdw-skip :
    (addr count : ℕ) → 0 < count → skip (calculate_fstdw addr count) ≡ addr % 4
calculate_fstdw-skip addr count pos =
    rw calculate_fstdw_lem (first_entry_of (addr % 4) count (omega arith) pos).0

pub calculate_fstdw-lost :
    (addr count : ℕ)
    → 0 < count
    → lost (calculate_fstdw addr count) ≡ (if leb (addr % 4 + count) 4 then 4 - count else addr % 4)
calculate_fstdw-lost addr count pos =
    rw calculate_fstdw_lem (first_entry_of (addr % 4) count (omega arith) pos).1

abbrev trail_ok : ℕ → Bool
trail_ok m = trail (low_ones (m + 1)) == 3 - m

trail_table : all_below 4 trail_ok ≡ true
unfolding trail clear_high
trail_table = refl

pub trail-low_ones : (m : ℕ) → m < 4 → trail (low_ones (m + 1)) ≡ 3 - m
trail-low_ones m h = ==→eq _ _ (all_below→holds 4 trail_ok m trail_table h)

trail_zero : trail 0 ≡ 0
unfolding trail
trail_zero = refl

-- The last DW byte enable leaves out the bytes behind the end of a transfer of several DWs.
pub calculate_lstdw-trail :
    (addr count : ℕ)
    → 0 < count
    → addr + count + 4 ≤ word
    → trail (calculate_lstdw addr count)
      ≡ (if leb (addr % 4 + count) 4 then 0 else 4 - last_bytes addr count)
calculate_lstdw-trail addr count pos fits = elim (calculate_lstdw_cases addr count pos fits) [
  | inl (one, e) ↦ rw e (ground (arith, trail_zero))
  | inr (more, e) ↦ rw e (ground (arith, trail-low_ones ((addr % 4 + count - 1) % 4) (omega arith)))
]

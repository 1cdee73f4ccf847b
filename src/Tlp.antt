-- ===== src/Tlp.antt =====
-- sdplane/tlp.h and sdplane/nettlp_support.c: PCIe transaction layer packet headers.
-- The fields are numbers below 2^8 or 2^16. Where the source masks with k ones the model takes the
-- remainder by 2^k, and `~` of such a mask what is left; `1 << n` is 2^n and a test of bit n is one
-- of the quotient by 2^n. A field of 16, 32 or 64 bits is in network order: the conversions are the
-- argument `net`.
pub mod ByteOrder
pub mod Bits
pub mod Enable
pub mod Format
pub mod Length
pub mod Tests
use ByteOrder.{Net}
use Prim.Native.Nat.{bit_or}
use nettlp_dpdk.Prelude.{
  ℕ, zero, suc, ◌+◌, ◌-◌, ◌*◌, ◌/◌, ◌%◌, ◌^◌, Bool, true, false, ◌&&◌, not, ltb, leb, ◌==◌,
  if◌then◌else◌,
}

-- TLP_FMT_DW_MASK and TLP_FMT_DATA_MASK, of one bit each: the two bits above the type
abbrev pub fmt_3dw : ℕ
fmt_3dw = 0x00

abbrev pub fmt_4dw : ℕ
fmt_4dw = 0x20

abbrev pub fmt_wo_data : ℕ
fmt_wo_data = 0x00

abbrev pub fmt_w_data : ℕ
fmt_w_data = 0x40

abbrev pub type_mrd : ℕ
type_mrd = 0x00

abbrev pub type_mwr : ℕ
type_mwr = 0x00

abbrev pub type_cpl : ℕ
type_cpl = 0x0a

-- tlp_fmt_dw, tlp_fmt_data and tlp_type
abbrev pub fmt_dw : ℕ → ℕ
fmt_dw ft = ft / 32 % 2 * 32

abbrev pub fmt_data : ℕ → ℕ
fmt_data ft = ft / 64 % 2 * 64

abbrev pub type_of : ℕ → ℕ
type_of ft = ft % 32

pub is_3dw : ℕ → Bool
is_3dw ft = fmt_dw ft == fmt_3dw

pub is_4dw : ℕ → Bool
is_4dw ft = fmt_dw ft == fmt_4dw

pub is_wo_data : ℕ → Bool
is_wo_data ft = fmt_data ft == fmt_wo_data

pub is_w_data : ℕ → Bool
is_w_data ft = fmt_data ft == fmt_w_data

pub is_mrd : ℕ → Bool
is_mrd ft = type_of ft == type_mrd && is_wo_data ft

pub is_mwr : ℕ → Bool
is_mwr ft = type_of ft == type_mwr && is_w_data ft

pub is_cpl : ℕ → Bool
is_cpl ft = type_of ft == type_cpl

-- The bits of the two masks, which overlap no other, are put in their places by addition.
pub set_fmt : ℕ → ℕ → ℕ → ℕ
set_fmt ft dw wd = ft - fmt_dw ft - fmt_data ft + fmt_dw dw + fmt_data wd

pub set_type : ℕ → ℕ → ℕ
set_type ft v = ft - type_of ft + type_of v

-- struct tlp_hdr and struct tlp_mr_hdr
pub record Header : Type 0 where
  pub fmt_type : ℕ
  pub tclass : ℕ
  pub falen : ℕ

pub record MrHeader : Type 0 where
  pub tlp : Header
  pub requester : ℕ
  pub tag : ℕ
  pub fstdw : ℕ
  pub lstdw : ℕ

-- struct tlp_cpl_hdr
pub record CplHeader : Type 0 where
  pub tlp : Header
  pub completer : ℕ
  pub stcnt : ℕ
  pub requester : ℕ
  pub tag : ℕ
  pub lowaddr : ℕ

abbrev pub word : ℕ
word = 2 ^ 64

-- `~(0xF << k) & 0xF`
abbrev pub low_ones : ℕ → ℕ
low_ones k = 15 - (15 * 2 ^ k) % 16

-- The sums are those of `uintptr_t`.
pub calculate_end_start : ℕ → ℕ → ℕ
calculate_end_start addr count =
    let start = addr / 4 * 4 in
    let end = (addr + count) % word in
    let aligned = if end % 4 == 0 then (end + word - 4) % word else end / 4 * 4 in
    if leb aligned start then (addr + 4) % word else aligned

pub calculate_lstdw : ℕ → ℕ → ℕ
calculate_lstdw addr count =
    let end = (addr + count) % word in
    let end_start = calculate_end_start addr count in
    if ltb end end_start then 0 else low_ones (end - end_start)

pub calculate_fstdw : ℕ → ℕ → ℕ
calculate_fstdw addr count =
    let be = if ltb count 4 then low_ones count else 15 in (be * 2 ^ (addr % 4)) % 16

-- The `int` that is returned holds the low 32 bits of the length.
pub calculate_length : ℕ → ℕ → ℕ
calculate_length addr count =
    let start = addr / 4 * 4 in
    let end = (addr + count) % word in
    let span = (end + word - start) % word in
    let len = span / 4 in (if not (span % 4 == 0) then len + 1 else len) % 2 ^ 32

-- Whether bit `n` of a byte enable is clear.
abbrev pub bit_clear : ℕ → ℕ → Bool
bit_clear be n = be / 2 ^ n % 2 == 0

-- The four rounds of the loops over the bits of a byte enable. Those that stop with `break` count
-- the clear bits up to the first one that is set: from the lowest on, or from the highest on.
pub clear_low : ℕ → ℕ
clear_low be =
    if not (bit_clear be 0)
    then 0
    else if not (bit_clear be 1)
    then 1
    else if not (bit_clear be 2)
    then 2
    else if not (bit_clear be 3)
    then 3
    else 4

pub clear_high : ℕ → ℕ
clear_high be =
    if not (bit_clear be 3)
    then 0
    else if not (bit_clear be 2)
    then 1
    else if not (bit_clear be 1)
    then 2
    else if not (bit_clear be 0)
    then 3
    else 4

abbrev pub clear_at : ℕ → ℕ → ℕ
clear_at be n = if bit_clear be n then 1 else 0

-- The loop without `break`.
pub clear_all : ℕ → ℕ
clear_all be = clear_at be 0 + clear_at be 1 + clear_at be 2 + clear_at be 3

-- `be && be != 0xF`
abbrev pub is_partial : ℕ → Bool
is_partial be = not (be == 0) && not (be == 15)

module _ (net : Net) where
  -- tlp_length and tlp_set_length
  pub tlp_length : ℕ → ℕ
  tlp_length falen = net.ntoh16 falen % 2 ^ 10

  pub set_length : ℕ → ℕ → ℕ
  set_length falen v = net.hton16 (bit_or (net.ntoh16 falen / 2 ^ 10 * 2 ^ 10) v % 2 ^ 16)

  -- `field` is what follows the header: the address, of 32 or of 64 bits by the format.
  pub mr_addr : MrHeader → ℕ → ℕ
  mr_addr mh field =
      let addr = if is_3dw mh.tlp.fmt_type then net.ntoh32 field else net.ntoh64 field in
      if is_partial mh.fstdw then (addr + clear_low mh.fstdw) % word else addr

  -- `len` is a `uint32_t`.
  pub mr_data_length : MrHeader → ℕ
  mr_data_length mh =
      let len = tlp_length mh.tlp.falen * 4 in
      let len' =
        if is_partial mh.fstdw then (len + 2 ^ 32 - clear_all mh.fstdw) % 2 ^ 32 else len in
      if is_partial mh.lstdw then (len' + 2 ^ 32 - clear_high mh.lstdw) % 2 ^ 32 else len'

  -- The offset of the payload from the end of the header.
  pub mwr_data : MrHeader → ℕ
  mwr_data mh =
      let p = if is_3dw mh.tlp.fmt_type then 4 else 8 in
      if is_partial mh.fstdw then p + clear_low mh.fstdw else p

  -- tlp_cpl_bcnt
  pub cpl_bcnt : ℕ → ℕ
  cpl_bcnt stcnt = net.ntoh16 stcnt % 2 ^ 12

  -- An `int`, given by its 32 bits.
  pub cpld_data_length : CplHeader → ℕ
  cpld_data_length ch =
      if tlp_length ch.tlp.falen == (ch.lowaddr % 4 + cpl_bcnt ch.stcnt + 3) / 4
      then cpl_bcnt ch.stcnt
      else (tlp_length ch.tlp.falen * 4 + 2 ^ 32 - ch.lowaddr % 4) % 2 ^ 32

  pub cpld_data : CplHeader → ℕ
  cpld_data ch = (if is_3dw ch.tlp.fmt_type then 4 else 8) + ch.lowaddr % 4

-- ===== src/Tlp/Tests.antt =====
-- Runs of the header functions, and their theorems at a header in network order of a machine whose
-- own order it is.
use nettlp_dpdk.Prelude.{ℕ, ◌*◌, ◌/◌, ◌%◌, ◌^◌, ◌≡◌, refl, arith, if◌then◌else◌}
use nettlp_dpdk.Tlp.ByteOrder.{Net}
use nettlp_dpdk.Tlp.{
  MrHeader, calculate_fstdw, calculate_lstdw, calculate_length, calculate_end_start, tlp_length,
  mr_addr, mr_data_length, is_3dw,
}
use nettlp_dpdk.Tlp.Length.{Describes, mr_data_length-count}

-- A machine whose own byte order is the network's.
abbrev pub big_endian : Net
big_endian = record {
  hton16 = λ x. x % 2 ^ 16;
  ntoh16 = λ x. x % 2 ^ 16;
  hton32 = λ x. x % 2 ^ 32;
  ntoh32 = λ x. x % 2 ^ 32;
  hton64 = λ x. x % 2 ^ 64;
  ntoh64 = λ x. x % 2 ^ 64;
  ntoh16-hton16 = λ x h. omega arith;
  ntoh32-hton32 = λ x h. omega arith;
  ntoh64-hton64 = λ x h. omega arith;
  ntoh16-lt = λ x. omega arith;
}

-- 10 bytes from 0x1002 on
abbrev header : MrHeader
header = record {
  tlp = record { fmt_type = 0x40; tclass = 0; falen = 3 };
  requester = 0;
  tag = 0;
  fstdw = 0xc;
  lstdw = 0xf;
}

header-Describes : Describes big_endian header 0x1002 10
unfolding calculate_fstdw calculate_lstdw calculate_end_start calculate_length tlp_length
header-Describes = record { fst = refl; lst = refl; dws = refl }

mr_data_length-count_example : mr_data_length big_endian header ≡ 10
mr_data_length-count_example =
    mr_data_length-count big_endian 0x1002 10 (omega arith) (omega arith) header (omega arith)
      header-Describes

header_field :
    (if is_3dw header.tlp.fmt_type then 0x1000 % 2 ^ 32 else 0x1000 % 2 ^ 64) ≡ 0x1002 / 4 * 4
unfolding is_3dw
header_field = refl

-- 4 bytes from the given first DW on
abbrev pub four_bytes : MrHeader
four_bytes = record {
  tlp = record { fmt_type = 0x60; tclass = 0; falen = 1 };
  requester = 0;
  tag = 0;
  fstdw = 15;
  lstdw = 0;
}

pub four_bytes-addr : (field : ℕ) → mr_addr big_endian four_bytes field ≡ field % 2 ^ 64
unfolding mr_addr is_3dw
four_bytes-addr field = refl

pub four_bytes-length : mr_data_length big_endian four_bytes ≡ 4
unfolding mr_data_length tlp_length
four_bytes-length = refl

pub ten_dws : calculate_length 0x1002 10 ≡ 3
unfolding calculate_length
ten_dws = refl

pub one_dw : tlp_length big_endian four_bytes.tlp.falen ≡ 1
unfolding tlp_length
one_dw = refl

-- A read of 10 bytes at 0x1002, of 3 DWs.
abbrev pub ten_bytes : MrHeader
ten_bytes = record {
  tlp = record { fmt_type = 0x20; tclass = 0; falen = 3 };
  requester = 0;
  tag = 0;
  fstdw = calculate_fstdw 0x1002 10;
  lstdw = calculate_lstdw 0x1002 10;
}

pub ten_bytes-Describes : Describes big_endian ten_bytes 0x1002 10
unfolding tlp_length calculate_length
ten_bytes-Describes = record { fst = refl; lst = refl; dws = refl }

pub three_dws : tlp_length big_endian ten_bytes.tlp.falen ≡ 3
unfolding tlp_length
three_dws = refl

pub ten_bytes-field :
    (if is_3dw ten_bytes.tlp.fmt_type then big_endian.ntoh32 0x1000 else big_endian.ntoh64 0x1000)
    ≡ 0x1002 / 4 * 4
unfolding is_3dw
ten_bytes-field = refl

pub two_dws : calculate_length 0x1002 4 ≡ 2
unfolding calculate_length
two_dws = refl

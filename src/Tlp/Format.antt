-- ===== src/Tlp/Format.antt =====
-- What tlp_set_type and tlp_set_fmt leave of a format and type byte.
use nettlp_dpdk.Prelude.{ℕ, ◌≡◌, Bool, true, false, arith, if◌then◌else◌}
use nettlp_dpdk.Tlp.{
  fmt_3dw, fmt_4dw, fmt_w_data, fmt_wo_data, type_mwr, type_mrd, set_fmt, set_type, is_3dw, is_mwr,
  is_mrd, is_w_data, is_wo_data,
}

-- The format and type byte of a request, made out of whatever the byte held before.
abbrev pub request : ℕ → Bool → Bool → ℕ
request ft wide write =
    set_fmt (set_type ft (if write then type_mwr else type_mrd)) (if wide then fmt_3dw else fmt_4dw)
      (if write then fmt_w_data else fmt_wo_data)

pub request-is_3dw : (ft : ℕ) (wide write : Bool) → is_3dw (request ft wide write) ≡ wide
unfolding is_3dw set_fmt set_type
request-is_3dw ft true true = ground arith
request-is_3dw ft true false = ground arith
request-is_3dw ft false true = ground arith
request-is_3dw ft false false = ground arith

pub request-is_mwr : (ft : ℕ) (wide write : Bool) → is_mwr (request ft wide write) ≡ write
unfolding is_mwr is_w_data set_fmt set_type
request-is_mwr ft true true = ground arith
request-is_mwr ft true false = ground arith
request-is_mwr ft false true = ground arith
request-is_mwr ft false false = ground arith

pub request-is_mrd :
    (ft : ℕ) (wide write : Bool) → is_mrd (request ft wide write) ≡ (if write then false else true)
unfolding is_mrd is_wo_data set_fmt set_type
request-is_mrd ft true true = ground arith
request-is_mrd ft true false = ground arith
request-is_mrd ft false true = ground arith
request-is_mrd ft false false = ground arith

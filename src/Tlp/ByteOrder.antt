-- ===== src/Tlp/ByteOrder.antt =====
-- The byte order conversions of the C library and of DPDK, with what their manuals say of them:
-- converting a value of the field's width and back gives it again.
use nettlp_dpdk.Prelude.{ℕ, ◌<◌, ◌^◌, ◌≡◌}

pub record Net : Type 0 where
  pub hton16 : ℕ → ℕ
  pub ntoh16 : ℕ → ℕ
  pub hton32 : ℕ → ℕ
  pub ntoh32 : ℕ → ℕ
  pub hton64 : ℕ → ℕ
  pub ntoh64 : ℕ → ℕ
  pub ntoh16-hton16 : (x : ℕ) → x < 2 ^ 16 → ntoh16 (hton16 x) ≡ x
  pub ntoh32-hton32 : (x : ℕ) → x < 2 ^ 32 → ntoh32 (hton32 x) ≡ x
  pub ntoh64-hton64 : (x : ℕ) → x < 2 ^ 64 → ntoh64 (hton64 x) ≡ x
  pub ntoh16-lt : (x : ℕ) → ntoh16 x < 2 ^ 16

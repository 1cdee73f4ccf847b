-- ===== src/Telnet/Report.antt =====
-- The text of vty_shell_keyfunc_sb_end against its 64 bytes, and the subnegotiation buffer.
use nettlp_dpdk.Prelude.{
  ℕ, zero, suc, ◌+◌, ◌*◌, ◌^◌, ◌≤◌, ◌<◌, ◌≡◌, ◌↔◌, refl, ap, ◌∙◌, List, [], ◌∷◌, ◌++◌, arith, ltb,
  leb, abort, map, take, length, length-set, take-set_ge, min, Bool-cases, inl, inr, leb→le, leb→lt,
}
use nettlp_dpdk.Telnet.{
  Host, Session, hex_width, digits, fits, all_fit, report_fits, end_subnego, add_subnego,
}

-- The characters of a text in several parts.
abbrev pub total : List ℕ → ℕ
total [] = 0
total (n ∷ ns) = n + total ns

fits_iff : (p width : ℕ) → p + width < 2 ^ 63 → fits p width ≡ leb p 63
unfolding fits
fits_iff p width h = ground arith

all_fit_iff :
    (p last : ℕ) (widths : List ℕ)
    → p + total widths + last < 2 ^ 63
    → all_fit p (widths ++ (last ∷ [])) ≡ leb (p + total widths) 63
unfolding all_fit
all_fit_iff p last [] h = ground (arith, fits_iff p last (omega arith))
all_fit_iff p last (w ∷ widths) h =
    rw (fits_iff p w (omega arith), all_fit_iff (p + w) last widths (omega arith)) (ground arith)

hex_width-le : (x : ℕ) → hex_width x ≤ 5
unfolding hex_width
hex_width-le x = ground arith

pub total-hex : (xs : List ℕ) → total (map hex_width xs) ≤ 5 * length xs
total-hex [] = omega arith
total-hex (x ∷ xs) = omega (arith, total-hex xs, hex_width-le x)

digits-le : (n : ℕ) → digits n ≤ 3
unfolding digits
digits-le n = ground arith

length-take-le : (n : ℕ) (xs : List ℕ) → length (take n xs) ≤ n
length-take-le zero xs = omega arith
length-take-le (suc n) [] = omega arith
length-take-le (suc n) (x ∷ xs) = omega (arith, length-take-le n xs)

-- The text before the closing bracket.
abbrev pub reported : Session → ℕ
reported t = 7 + digits t.subnego_size + total (map hex_width (take t.subnego_size t.subnego_buf))

pub report_fits_iff : (t : Session) → t.subnego_size ≤ 256 → report_fits t ≡ leb (reported t) 63
unfolding report_fits
report_fits_iff t h =
    all_fit_iff 0 1
      ((7 + digits t.subnego_size) ∷ map hex_width (take t.subnego_size t.subnego_buf))
      (omega (
        arith,
        total-hex (take t.subnego_size t.subnego_buf),
        digits-le t.subnego_size,
        length-take-le t.subnego_size t.subnego_buf,
      ))
    ∙ ap (λ k. leb k 63) (omega arith)

-- The end of a subnegotiation of at most 256 bytes writes past the 64 bytes of its text exactly
-- when the text is longer than 63 characters before the closing bracket.
pub end_subnego-abort_iff :
    (host : Host) (ch : ℕ) (t : Session)
    → t.subnego_size ≤ 256
    → (end_subnego host ch t ≡ abort) ↔ (63 < reported t)
unfolding end_subnego
end_subnego-abort_iff host ch t h = elim (Bool-cases (leb (reported t) 63)) [
  | inl short ↦
      rw (report_fits_iff t h, short) (λ e. cc, λ long. absurd (omega (arith, leb→le _ _ short)))
  | inr long ↦ rw (report_fits_iff t h, long) (λ e. leb→lt _ _ long, λ e. refl)
]

-- A byte of a subnegotiation is kept within the 256 bytes of the buffer, behind those before it,
-- and dropped once the buffer is full.
add_subnego-bound :
    (ch : ℕ) (t : Session)
    → length t.subnego_buf ≡ 256
    → t.subnego_size ≤ 256
    → (length (add_subnego ch t).subnego_buf ≡ 256)
      × ((add_subnego ch t).subnego_size ≡ min (t.subnego_size + 1) 256)
      × (take t.subnego_size (add_subnego ch t).subnego_buf ≡ take t.subnego_size t.subnego_buf)
unfolding add_subnego
add_subnego-bound ch t full h = elim (Bool-cases (ltb t.subnego_size 256)) [
  | inl room ↦ rw room (
    length-set t.subnego_buf t.subnego_size ch ∙ full,
    ground arith,
    take-set_ge t.subnego_size t.subnego_size t.subnego_buf ch (omega arith),
  )
  | inr none_left ↦ rw none_left (full, ground arith, refl)
]

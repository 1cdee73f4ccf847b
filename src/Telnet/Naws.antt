-- ===== src/Telnet/Naws.antt =====
-- A window size negotiation (RFC 1073), byte by byte through the keymaps.
use nettlp_dpdk.Prelude.{
  ltb, ◌-◌, ◌^◌, ◌%◌, if◌then◌else◌, ℕ, ◌+◌, ◌*◌, ◌<◌, ◌≡◌, refl, ap, ap₂, ◌∙◌, true, false, List,
  [], ◌∷◌, arith, done, ◌>>=◌, take, length-take, set, le→leb, lt→ltb, ne→==,
}
use nettlp_dpdk.Shell.{refresh}
use nettlp_dpdk.Telnet.{
  Host, say, say_winsize, sb_line, se_line, subnego_line, winsize_line, Session, iac, sb, se,
  telopt_naws, by_normal, by_iac_1, by_subnego, digits, report_fits, two_chars, set_winsize,
  end_subnego, add_subnego, lookup, normal_table, iac_table, subnego_table, run, input, input_all,
  clear_escape,
}
use nettlp_dpdk.Telnet.Report.{total-hex, reported, report_fits_iff}

-- The number that is taken over for two bytes: 256 too small, in 16 bits, for a low byte from 128 on.
abbrev pub taken : ℕ → ℕ → ℕ
taken hi lo = if ltb lo 128 then hi * 256 + lo else (hi * 256 + lo + (2 ^ 16 - 256)) % 2 ^ 16

two_chars-taken : (hi lo : ℕ) → hi < iac → lo < iac → two_chars hi lo ≡ taken hi lo
unfolding two_chars
two_chars-taken hi lo h l = ground arith

-- The lines of debug output of a negotiation.
abbrev pub told : Host → ℕ → ℕ → ℕ → ℕ → Session → Session
told host w1 w2 h1 h2 t = say host (winsize_line (taken w1 w2) (taken h1 h2)) (
    say host (subnego_line (telopt_naws ∷ w1 ∷ w2 ∷ h1 ∷ h2 ∷ []))
      (say host (se_line se) (say host (sb_line sb) t)))

module _ (host : Host) where
  input_step :
      (ch : ℕ) (chs : List ℕ) (t t' : Session)
      → input host ch t ≡ done t'
      → input_all host (ch ∷ chs) t ≡ input_all host chs t'
  unfolding input_all
  input_step ch chs t t' e = ap (λ r. r >>= λ u. input_all host chs u) e

  module _ (t : Session) (plain : t.shell.escaped ≡ false) where
    input-iac :
        t.keymap ≡ by_normal → input host iac t ≡ done (record t { keymap = by_iac_1; cmd = 0 })
    unfolding input lookup normal_table run clear_escape
    input-iac e = rw (e, plain) refl

    -- The session within a subnegotiation.
    abbrev within : List ℕ → ℕ → Session
    within buf n = record t { keymap = by_subnego; cmd = 0; subnego_size = n; subnego_buf = buf }

    input-sb :
        input host sb (record t { keymap = by_iac_1; cmd = 0 })
        ≡ done (say host (sb_line sb) (within t.subnego_buf 0))
    unfolding input lookup iac_table run clear_escape say
    input-sb = rw plain refl

    input_data :
        (ch n : ℕ) (buf : List ℕ)
        → ch < iac
        → n < 256
        → input host ch (within buf n) ≡ done (within (set buf n ch) (n + 1))
    unfolding input lookup subnego_table run add_subnego clear_escape
    input_data ch n buf small room =
        rw (ne→== ch iac (λ q. omega arith), lt→ltb n 256 room, plain) refl

    input-iac_again :
        (buf : List ℕ)
        → input host iac (within buf 5)
          ≡ done (record t { keymap = by_iac_1; cmd = 0; subnego_size = 5; subnego_buf = buf })
    unfolding input lookup subnego_table run clear_escape
    input-iac_again buf = rw plain refl

    -- The session once the five bytes of a window size are in the buffer.
    abbrev filled : List ℕ → Session
    filled buf = record t { keymap = by_iac_1; cmd = 0; subnego_size = 5; subnego_buf = buf }

    report_short : (buf : List ℕ) → report_fits (filled buf) ≡ true
    unfolding digits
    report_short buf =
        report_fits_iff (filled buf) (omega arith)
        ∙ le→leb (reported (filled buf)) 63
            (omega (arith, total-hex (take 5 buf), length-take 5 buf))

    input-se :
        (w1 w2 h1 h2 : ℕ) (rest : List ℕ)
        → input host se (filled (telopt_naws ∷ w1 ∷ w2 ∷ h1 ∷ h2 ∷ rest))
          ≡ done (record t {
            shell =
                refresh
                  (say host (winsize_line (two_chars w1 w2) (two_chars h1 h2)) (
                    say host
                      (subnego_line (telopt_naws ∷ w1 ∷ w2 ∷ h1 ∷ h2 ∷ []))
                      (say host (se_line se) t))).shell;
            keymap = by_normal;
            cmd = 0;
            subnego_size = 5;
            subnego_buf = telopt_naws ∷ w1 ∷ w2 ∷ h1 ∷ h2 ∷ rest;
            ws_row = two_chars h1 h2;
            ws_col = two_chars w1 w2;
          })
    unfolding input lookup iac_table run clear_escape end_subnego set_winsize say say_winsize
    input-se w1 w2 h1 h2 rest =
        rw (report_short (telopt_naws ∷ w1 ∷ w2 ∷ h1 ∷ h2 ∷ rest), plain) refl

  -- A session outside of any escape sequence, with a buffer of five bytes or more, that reads IAC SB
  -- NAWS, a width and a height of two bytes each, none of them IAC, and IAC SE, ends in the keymap that
  -- it began with, has the bytes in its buffer, prints its four lines of debug output where these are on, and shows its line again.
  -- The size that it has taken over is the one sent where the low byte is below 128; for a low byte
  -- from 128 on it is 256 less than that, in 16 bits.
  pub input_all-naws :
      (t : Session) (w1 w2 h1 h2 b0 b1 b2 b3 b4 : ℕ) (rest : List ℕ)
      → t.shell.escaped ≡ false
      → t.keymap ≡ by_normal
      → t.subnego_buf ≡ b0 ∷ b1 ∷ b2 ∷ b3 ∷ b4 ∷ rest
      → w1 < iac
      → w2 < iac
      → h1 < iac
      → h2 < iac
      → input_all host (iac ∷ sb ∷ telopt_naws ∷ w1 ∷ w2 ∷ h1 ∷ h2 ∷ iac ∷ se ∷ []) t
        ≡ done (record t {
          shell = refresh (told host w1 w2 h1 h2 t).shell;
          keymap = by_normal;
          cmd = 0;
          subnego_size = 5;
          subnego_buf = telopt_naws ∷ w1 ∷ w2 ∷ h1 ∷ h2 ∷ rest;
          ws_row = taken h1 h2;
          ws_col = taken w1 w2;
        })
  unfolding input_all say
  input_all-naws t w1 w2 h1 h2 b0 b1 b2 b3 b4 rest plain km buf lw1 lw2 lh1 lh2 =
      let u : Session = say host (sb_line sb) t in
      input_step iac (sb ∷ telopt_naws ∷ w1 ∷ w2 ∷ h1 ∷ h2 ∷ iac ∷ se ∷ []) t _
        (input-iac t plain km)
      ∙ input_step sb (telopt_naws ∷ w1 ∷ w2 ∷ h1 ∷ h2 ∷ iac ∷ se ∷ []) _ _ (input-sb t plain)
      ∙ ap
          (λ l.
            input_all host (telopt_naws ∷ w1 ∷ w2 ∷ h1 ∷ h2 ∷ iac ∷ se ∷ []) (within u plain l 0))
          buf
      ∙ input_step telopt_naws (w1 ∷ w2 ∷ h1 ∷ h2 ∷ iac ∷ se ∷ []) _ _ (
          input_data u plain telopt_naws 0 (b0 ∷ b1 ∷ b2 ∷ b3 ∷ b4 ∷ rest) (omega arith)
            (omega arith))
      ∙ input_step w1 (w2 ∷ h1 ∷ h2 ∷ iac ∷ se ∷ []) _ _
          (input_data u plain w1 1 (telopt_naws ∷ b1 ∷ b2 ∷ b3 ∷ b4 ∷ rest) lw1 (omega arith))
      ∙ input_step w2 (h1 ∷ h2 ∷ iac ∷ se ∷ []) _ _
          (input_data u plain w2 2 (telopt_naws ∷ w1 ∷ b2 ∷ b3 ∷ b4 ∷ rest) lw2 (omega arith))
      ∙ input_step h1 (h2 ∷ iac ∷ se ∷ []) _ _
          (input_data u plain h1 3 (telopt_naws ∷ w1 ∷ w2 ∷ b3 ∷ b4 ∷ rest) lh1 (omega arith))
      ∙ input_step h2 (iac ∷ se ∷ []) _ _
          (input_data u plain h2 4 (telopt_naws ∷ w1 ∷ w2 ∷ h1 ∷ b4 ∷ rest) lh2 (omega arith))
      ∙ input_step iac (se ∷ []) _ _
          (input-iac_again u plain (telopt_naws ∷ w1 ∷ w2 ∷ h1 ∷ h2 ∷ rest))
      ∙ input_step se [] _ _ (input-se u plain w1 w2 h1 h2 rest)
      ∙ ap done (
          ap₂
            (λ r c. record t {
              shell =
                  refresh
                    (say host (winsize_line c r) (
                      say host (subnego_line (telopt_naws ∷ w1 ∷ w2 ∷ h1 ∷ h2 ∷ []))
                        (say host (se_line se) u))).shell;
              keymap = by_normal;
              cmd = 0;
              subnego_size = 5;
              subnego_buf = telopt_naws ∷ w1 ∷ w2 ∷ h1 ∷ h2 ∷ rest;
              ws_row = r;
              ws_col = c;
            })
            (two_chars-taken h1 h2 lh1 lh2) (two_chars-taken w1 w2 lw1 lw2))

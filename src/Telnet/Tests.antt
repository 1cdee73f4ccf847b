-- ===== src/Telnet/Tests.antt =====
-- The telnet theorems at concrete sessions.
use nettlp_dpdk.Prelude.{
  ◌<◌, ◌≡◌, ◌↔◌, refl, arith, true, false, none, [], ◌∷◌, ◌++◌, done, abort, replicate,
}
use nettlp_dpdk.Shell.{refresh}
use nettlp_dpdk.Telnet.{
  Host, say, Session, by_normal, by_subnego, iac, sb, se, telopt_naws, end_subnego, input_all,
  digits, hex_width,
}
use nettlp_dpdk.Telnet.Report.{reported, end_subnego-abort_iff}
use nettlp_dpdk.Shell.Held.{Holds, Edits}
use nettlp_dpdk.Telnet.Typing.{input_all-typed}
use nettlp_dpdk.Telnet.Naws.{input_all-naws}

abbrev start : Session
start = record {
  shell = record {
    command_line = replicate 32 0;
    cursor = 0;
    end = 0;
    size = 32;
    cut_buffer = none;
    prompt = 62 ∷ [];
    nl = 10 ∷ [];
    writable = true;
    interactive = true;
    escaped = false;
    out = [];
    printed = [];
  };
  debugging = true;
  keymap = by_normal;
  cmd = 0;
  opt = 0;
  subnego_size = 0;
  subnego_buf = 0 ∷ 0 ∷ 0 ∷ 0 ∷ 0 ∷ replicate 251 0;
  ws_row = 24;
  ws_col = 80;
}

-- Lines of one character, and commands that do nothing.
abbrev host : Host
host = record {
  memory = record { malloc = true; realloc = λ k. true };
  text = λ line. 42 ∷ [];
  command = λ key t. done t;
}

-- A subnegotiation of twelve bytes from 16 on.
abbrev long : Session
long = record start {
  keymap = by_subnego;
  subnego_size = 12;
  subnego_buf = replicate 12 100 ++ replicate 244 0;
}

end_subnego-abort_iff_example : (end_subnego host se long ≡ abort) ↔ (63 < reported long)
end_subnego-abort_iff_example = end_subnego-abort_iff host se long (omega arith)

long_overflows : 63 < reported long
unfolding digits hex_width
long_overflows = omega arith

-- A window of 200 columns and 40 rows.
input_all-naws_example :
    input_all host (iac ∷ sb ∷ telopt_naws ∷ 0 ∷ 200 ∷ 0 ∷ 40 ∷ iac ∷ se ∷ []) start
    ≡ done (record start {
      shell = refresh (record start.shell { printed = 42 ∷ 42 ∷ 42 ∷ 42 ∷ [] });
      keymap = by_normal;
      cmd = 0;
      subnego_size = 5;
      subnego_buf = telopt_naws ∷ 0 ∷ 200 ∷ 0 ∷ 40 ∷ replicate 251 0;
      ws_row = 40;
      ws_col = 65480;
    })
unfolding say
input_all-naws_example =
    input_all-naws host start 0 200 0 40 0 0 0 0 0 (replicate 251 0) refl refl refl (omega arith)
      (omega arith) (omega arith) (omega arith)

start-Holds : Holds start.shell [] []
start-Holds = record { rest = replicate 31 0; is_view = refl; before = tt; behind = tt }

input_all-typed_example :
    (t' : Session) × (input_all host (115 ∷ 104 ∷ []) start ≡ done t')
    × (t'.keymap ≡ by_normal)
    × Edits start.shell t'.shell [] [] (115 ∷ 104 ∷ []) []
input_all-typed_example =
    input_all-typed host (115 ∷ 104 ∷ []) start [] [] (λ k. refl)
      (
        omega arith,
        omega arith,
        (λ e. absurd (omega (arith, e))),
        (omega arith, omega arith, (λ e. absurd (omega (arith, e))), tt),
      )
      refl start-Holds

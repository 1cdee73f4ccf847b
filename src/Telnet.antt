-- ===== src/Telnet.antt =====
-- lib/zcmdsh/shell_telnet.c, the keymaps of shell_keyfunc.c's escape sequences and shell_input of
-- shell.c: a telnet session as vty_shell of sdplane/vty_shell.c sets it up, which reads bytes, each by
-- the keymap in force.
-- The constants are those of arpa/telnet.h. `char` is signed. Of the debug output, the flag for telnet,
-- which vty_shell sets, prints to the session; what goes to the log is left out. Writing past the 64
-- bytes of the text that vty_shell_keyfunc_sb_end makes gives `abort`.
pub mod Report
pub mod Naws
pub mod Typing
mod Tests
use nettlp_dpdk.Prelude.{
  ℕ, zero, suc, ◌+◌, ◌-◌, ◌*◌, ◌/◌, ◌%◌, ◌^◌, Bool, true, false, ◌&&◌, ◌||◌, not, Option, none,
  some, List, [], ◌∷◌, ◌++◌, ltb, leb, ◌==◌, if◌then◌else◌, Run, done, abort, ◌>>=◌, get_or, set,
  take, map, min,
}
use nettlp_dpdk.Shell.{Shell, refresh}
use nettlp_dpdk.Shell.Keys.{
  KeyFunc, normal, word_backward, word_forward, delete_word_normal, escape_1, escape_2, iac_start,
  telnet_opt, telnet_cmd, subnego, sb_start, sb_end, clear_terminal, delete_char_advanced,
  execute_line, complete_line, ls_candidate, history_prev, history_next, default_keymap, run_key,
  Memory,
}

-- SE, SB, WILL, WONT, DO, DONT, IAC and TELOPT_NAWS
abbrev pub se : ℕ
se = 240

abbrev pub sb : ℕ
sb = 250

abbrev pub will : ℕ
will = 251

abbrev pub wont : ℕ
wont = 252

abbrev pub do_ : ℕ
do_ = 253

abbrev pub dont : ℕ
dont = 254

abbrev pub iac : ℕ
iac = 255

abbrev pub telopt_naws : ℕ
telopt_naws = 31

-- keymap_normal, key_func_escape_1, key_func_escape_2, key_func_iac_1, key_func_iac_2 and
-- key_func_subnego
pub data Keymap : Type 0 where
  by_normal by_escape_1 by_escape_2 by_iac_1 by_iac_2 by_subnego : Keymap

-- `debugging` is the flag DEBUG_TYPE (ZCMDSH, TELNET) of debug_zcmdsh.
pub record Session : Type 0 where
  pub shell : Shell
  pub debugging : Bool
  pub keymap : Keymap
  pub cmd : ℕ
  pub opt : ℕ
  pub subnego_size : ℕ
  pub subnego_buf : List ℕ
  pub ws_row : ℕ
  pub ws_col : ℕ

-- The lines of debug output, with what each is made of: a command and an option, the byte that starts
-- or ends a subnegotiation, its bytes, and the columns and rows of a window.
pub data DebugLine : Type 0 where
  opt_line : ℕ → ℕ → DebugLine
  sb_line se_line : ℕ → DebugLine
  subnego_line : List ℕ → DebugLine
  winsize_line : ℕ → ℕ → DebugLine

-- What is around the keys: the memory, what fprintf makes of a line of debug output in the locale in
-- force, and what the key functions of command_shell.c do to the session.
pub record Host : Type 0 where
  pub memory : Memory
  pub text : DebugLine → List ℕ
  pub command : KeyFunc → Session → Run Session

-- The tables once shell_escape_keyfunc_init and shell_telnet_keyfunc_init filled them.
pub escape_table : ℕ → KeyFunc
escape_table key =
    if key == 98
    then word_backward
    else if key == 102
    then word_forward
    else if key == 8 || key == 127
    then delete_word_normal
    else if key == 91
    then escape_2
    else normal

pub iac_table : ℕ → KeyFunc
iac_table key =
    if key == sb
    then sb_start
    else if key == se
    then sb_end
    else if key == do_ || key == will || key == dont || key == wont
    then telnet_cmd
    else telnet_opt

pub subnego_table : ℕ → KeyFunc
subnego_table key = if key == iac then iac_start else subnego

-- The default keymap with the keys that command_shell_create installs.
pub command_keymap : ℕ → Option KeyFunc
command_keymap key =
    if key == 10 || key == 13
    then some execute_line
    else if key == 9
    then some complete_line
    else if key == 63
    then some ls_candidate
    else if key == 16
    then some history_prev
    else if key == 14
    then some history_next
    else default_keymap key

-- The keymap that vty_shell makes of it: with the escape and IAC, and the keys for the screen and for
-- 0x7f.
pub normal_table : ℕ → Option KeyFunc
normal_table key =
    if key == iac
    then some iac_start
    else if key == 27
    then some escape_1
    else if key == 12
    then some clear_terminal
    else if key == 127
    then some delete_char_advanced
    else command_keymap key

pub lookup : Keymap → ℕ → Option KeyFunc
lookup by_normal key = normal_table key
lookup by_escape_1 key = some (escape_table key)
lookup by_escape_2 key = some normal
lookup by_iac_1 key = some (iac_table key)
lookup by_iac_2 key = some telnet_opt
lookup by_subnego key = some (subnego_table key)

-- How many characters " %#hhx" makes of a byte, and "%d" of a number below 1000.
pub hex_width : ℕ → ℕ
hex_width x = if x == 0 then 2 else if ltb x 16 then 4 else 5

pub digits : ℕ → ℕ
digits n = if ltb n 10 then 1 else if ltb n 100 then 2 else 3

-- snprintf (p, end - p, ...) of so many characters, `p` that far into the 64 bytes and `end` at the
-- last: whether what is written stays within them. The size given is that of `size_t`.
pub fits : ℕ → ℕ → Bool
fits p width =
    let room = (63 + 2 ^ 64 - p) % 2 ^ 64 in
    let written = if room == 0 then 0 else min (width + 1) room in
    written == 0 || leb (p + written) 64

-- The calls one behind another, each where the one before says that its text ends.
pub all_fit : ℕ → List ℕ → Bool
all_fit p [] = true
all_fit p (width ∷ widths) = fits p width && all_fit (p + width) widths

pub report_fits : Session → Bool
report_fits t =
    all_fit 0 (
      (7 + digits t.subnego_size) ∷ (map hex_width (take t.subnego_size t.subnego_buf) ++ (1 ∷ [])))

-- ((u_short) hi << 8) + lo, of two `char`s, as an `unsigned short`
pub two_chars : ℕ → ℕ → ℕ
two_chars hi lo = (hi * 256 + (if ltb lo 128 then lo else lo + (2 ^ 16 - 256))) % 2 ^ 16

pub set_winsize : Session → Session
set_winsize t =
    if t.subnego_size == 5 && get_or t.subnego_buf 0 0 == telopt_naws
    then record t {
      ws_row = two_chars (get_or t.subnego_buf 3 0) (get_or t.subnego_buf 4 0);
      ws_col = two_chars (get_or t.subnego_buf 1 0) (get_or t.subnego_buf 2 0);
    }
    else t

-- fprintf of a line of debug output, where the flag is set.
unfoldable pub say : Host → DebugLine → Session → Session
say host line t = record t {
  shell = record t.shell {
    printed = if t.debugging then t.shell.printed ++ host.text line else t.shell.printed;
  };
}

-- The line that tells of a window size taken over.
pub say_winsize : Host → Session → Session
say_winsize host t =
    if t.subnego_size == 5 && get_or t.subnego_buf 0 0 == telopt_naws
    then say host (winsize_line t.ws_col t.ws_row) t
    else t

-- vty_shell_keyfunc_sb_end, for the byte typed
pub end_subnego : Host → ℕ → Session → Run Session
end_subnego host ch t =
    let t' =
      say host (subnego_line (take t.subnego_size t.subnego_buf))
        (say host (se_line ch) (record t { keymap = by_normal })) in
    let t'' = say_winsize host (set_winsize t') in
    if report_fits t then done (record t'' { shell = refresh t''.shell }) else abort

pub add_subnego : ℕ → Session → Session
add_subnego ch t =
    if ltb t.subnego_size 256
    then record t {
      subnego_buf = set t.subnego_buf t.subnego_size ch;
      subnego_size = t.subnego_size + 1;
    }
    else t

pub on_shell : (Shell → Run Shell) → Session → Run Session
on_shell f t = f t.shell >>= λ s. done (record t { shell = s })

-- A key function on the session, for the byte typed.
pub run : Host → KeyFunc → ℕ → Session → Run Session
run host normal ch t = done (record t { keymap = by_normal })
run host escape_1 ch t = done (record t { keymap = by_escape_1 })
run host escape_2 ch t = done (record t { keymap = by_escape_2 })
run host word_backward ch t = on_shell (run_key host.memory word_backward ch) t >>= λ t'.
    done (record t' { keymap = by_normal })
run host word_forward ch t = on_shell (run_key host.memory word_forward ch) t >>= λ t'.
    done (record t' { keymap = by_normal })
run host delete_word_normal ch t = on_shell (run_key host.memory delete_word_normal ch) t >>= λ t'.
    done (record t' { keymap = by_normal })
run host iac_start ch t = done (record t { keymap = by_iac_1; cmd = 0 })
run host telnet_opt ch t =
    done (say host (opt_line t.cmd ch) (record t { keymap = by_normal; opt = ch }))
run host telnet_cmd ch t = done (record t { keymap = by_iac_2; cmd = ch })
run host subnego ch t = done (add_subnego ch t)
run host sb_start ch t =
    done (say host (sb_line ch) (record t { keymap = by_subnego; subnego_size = 0 }))
run host sb_end ch t = end_subnego host ch t
run host execute_line ch t = host.command execute_line t
run host complete_line ch t = host.command complete_line t
run host ls_candidate ch t = host.command ls_candidate t
run host history_prev ch t = host.command history_prev t
run host history_next ch t = host.command history_next t
run host key ch t = on_shell (run_key host.memory key ch) t

clear_escape : Bool → Session → Session
clear_escape escaped t =
    if escaped then record t { shell = record t.shell { escaped = false } } else t

-- shell_input
pub input : Host → ℕ → Session → Run Session
input host ch t =
    let acted : Run Session = elim (lookup t.keymap ch) [
      | none ↦ done t
      | some key ↦ run host key ch t
    ] in
    acted >>= λ t'. done (clear_escape t.shell.escaped t')

-- The loop of shell_read over the bytes that `read` returned.
pub input_all : Host → List ℕ → Session → Run Session
input_all host [] t = done t
input_all host (ch ∷ chs) t = input host ch t >>= λ t'. input_all host chs t'

-- ===== src/Shell/Keys.antt =====
-- lib/zcmdsh/shell_keyfunc.c: what the keys do. NULL in a keymap is `none`.
pub mod Yank
pub mod Typed
use nettlp_dpdk.Prelude.{
  ℕ, zero, suc, ◌+◌, ◌-◌, Bool, true, false, ◌&&◌, ◌||◌, Option, none, some, List, [], ◌∷◌, ◌++◌,
  ltb, leb, ◌==◌, if◌then◌else◌, Run, done, abort, ◌>>=◌,
}
use nettlp_dpdk.Shell.{
  Shell, insert, insert_char, delete_string, cut, forward, backward, format, linefeed, clear,
  show_prompt, refresh,
}
use nettlp_dpdk.Shell.Words.{delete_word_backward, move_word_backward, move_word_forward}

-- The functions of the keymaps of shell.c and shell_keyfunc.c, of shell_telnet.c, of vty_shell.c, and
-- those that command_shell_create installs.
pub data KeyFunc : Type 0 where
  move_to_begin backward_char delete_char move_to_end forward_char backspace : KeyFunc
  insert_tab empty_enter kill_line clear_screen refresh_line kill_all : KeyFunc
  delete_word yank escape input_char delete_char_advanced : KeyFunc
  normal word_backward word_forward delete_word_normal escape_1 escape_2 : KeyFunc
  iac_start telnet_opt telnet_cmd subnego sb_start sb_end : KeyFunc
  clear_terminal execute_line complete_line ls_candidate history_prev history_next : KeyFunc

-- default_keymap
pub default_keymap : ℕ → Option KeyFunc
default_keymap key =
    if key == 1
    then some move_to_begin
    else if key == 2
    then some backward_char
    else if key == 4
    then some delete_char
    else if key == 5
    then some move_to_end
    else if key == 6
    then some forward_char
    else if key == 8
    then some backspace
    else if key == 9
    then some insert_tab
    else if key == 10 || key == 13
    then some empty_enter
    else if key == 11
    then some kill_line
    else if key == 12
    then some clear_screen
    else if key == 18
    then some refresh_line
    else if key == 21
    then some kill_all
    else if key == 23
    then some delete_word
    else if key == 25
    then some yank
    else if key == 27
    then some escape
    else if leb 32 key && ltb key 127
    then some input_char
    else if key == 127
    then some delete_char_advanced
    else none

-- What malloc answers where the line is reformatted or a cut is kept, and realloc in each round of
-- an insertion.
pub record Memory : Type 0 where
  pub malloc : Bool
  pub realloc : ℕ → Bool

pub delete_char_at : Shell → Run Shell
delete_char_at s = if ltb s.cursor s.end then delete_string s.cursor (s.cursor + 1) s else done s

pub delete_advanced : Shell → Run Shell
delete_advanced s =
    if ltb s.cursor s.end
    then delete_string s.cursor (s.cursor + 1) s
    else if ltb 0 s.end
    then delete_string (s.end - 1) s.end s
    else done s

pub back_over : Memory → Shell → Run Shell
back_over memory s =
    let back = backward 1 s in
    if leb s.cursor 0
    then done s
    else if s.escaped
    then delete_word_backward memory.malloc s
    else delete_string back.cursor (back.cursor + 1) back

pub kill_whole : Memory → Shell → Run Shell
kill_whole memory s = let back = backward s.cursor s in cut memory.malloc 0 back.end back

-- The two sequences that clear the screen and move to its corner.
clear_sequence : Shell → Shell
clear_sequence s = record s {
  printed = s.printed ++ (27 ∷ 91 ∷ 50 ∷ 74 ∷ 27 ∷ 91 ∷ 49 ∷ 59 ∷ 49 ∷ 72 ∷ []);
}

pub clear_and_show : Bool → Shell → Shell
clear_and_show granted s = refresh (format granted (clear_sequence s))

pub enter_empty : Shell → Shell
enter_empty s = show_prompt (clear (linefeed s))

-- The key functions that work on the line alone, for the byte typed. The others, which do nothing
-- here, are those of the session: of telnet, and of the commands.
pub run_key : Memory → KeyFunc → ℕ → Shell → Run Shell
run_key memory move_to_begin ch s = done (backward s.cursor s)
run_key memory backward_char ch s = done (backward 1 s)
run_key memory delete_char ch s = delete_char_at s
run_key memory move_to_end ch s = done (forward (s.end - s.cursor) s)
run_key memory forward_char ch s = done (forward 1 s)
run_key memory backspace ch s = back_over memory s
run_key memory insert_tab ch s = insert memory.realloc (60 ∷ 116 ∷ 97 ∷ 98 ∷ 62 ∷ []) s
run_key memory empty_enter ch s = done (enter_empty s)
run_key memory kill_line ch s = cut memory.malloc s.cursor s.end s
run_key memory clear_screen ch s = done (clear_and_show memory.malloc s)
run_key memory refresh_line ch s = done (refresh (linefeed (format memory.malloc s)))
run_key memory kill_all ch s = kill_whole memory s
run_key memory delete_word ch s = delete_word_backward memory.malloc s
run_key memory yank ch s = elim s.cut_buffer [
  | none ↦ done s
  | some str ↦ insert memory.realloc str s
]
run_key memory escape ch s = done (record s { escaped = true })
run_key memory input_char ch s = insert_char memory.realloc ch s
run_key memory delete_char_advanced ch s = delete_advanced s
run_key memory word_backward ch s = move_word_backward s
run_key memory word_forward ch s = move_word_forward s
run_key memory delete_word_normal ch s = delete_word_backward memory.malloc s
run_key memory clear_terminal ch s = done (refresh (clear_sequence s))
run_key memory _ ch s = done s

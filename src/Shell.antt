-- ===== src/Shell.antt =====
-- lib/zcmdsh/shell.c and shell.h: the line editor of the shell.
-- A line is the list of the bytes of `command_line`, a character a byte. `out` is what `write` put
-- on `writefd`, which is open or not, and `printed` what went to the stdio stream `terminal`; how
-- the two mix is not modelled. Debug output is off, lines are shorter than 2^30 and cursor and end
-- are never negative. `assert` gives `abort`. A write out of bounds changes nothing here: that there
-- is none is shown of every operation, by the invariant.
pub mod Screen
pub mod Held
pub mod Move
pub mod Splice
pub mod Insert
pub mod Close
pub mod Delete
pub mod Words
pub mod Format
pub mod Keys
mod Tests
use nettlp_dpdk.Prelude.{
  ℕ, zero, suc, ◌+◌, ◌-◌, ◌*◌, ◌/◌, Bool, true, false, ◌&&◌, ◌||◌, not, Option, none, some, List,
  [], ◌∷◌, ◌++◌, ltb, leb, ◌==◌, if◌then◌else◌, Run, done, abort, ◌>>=◌, length, get_or, set, take,
  drop, replicate,
}

-- The fields of struct shell that the editor uses. `escaped` and `interactive` are the flags
-- SHELL_FLAG_ESCAPE and SHELL_FLAG_INTERACTIVE.
pub record Shell : Type 0 where
  pub command_line : List ℕ
  pub cursor : ℕ
  pub end : ℕ
  pub size : ℕ
  pub cut_buffer : Option (List ℕ)
  pub prompt : List ℕ
  pub nl : List ℕ
  pub writable : Bool
  pub interactive : Bool
  pub escaped : Bool
  pub out : List ℕ
  pub printed : List ℕ

-- ' ' and CONTROL ('H')
abbrev pub space : ℕ
space = 32

abbrev pub bs : ℕ
bs = 8

-- The bytes of the C string that an array begins with.
pub c_string : List ℕ → List ℕ
c_string [] = []
c_string (zero ∷ xs) = []
c_string (suc x ∷ xs) = suc x ∷ c_string xs

-- write (shell->writefd, bytes, length bytes), and writec for one byte
pub write : List ℕ → Shell → Shell
write bytes s = if s.writable then record s { out = s.out ++ bytes } else s

pub terminate : Shell → Shell
terminate s = if leb s.size s.end then s else record s { command_line = set s.command_line s.end 0 }

pub linefeed : Shell → Shell
linefeed s = record s { printed = s.printed ++ s.nl }

pub clear : Shell → Shell
clear s = terminate (record s { cursor = 0; end = 0 })

pub show_prompt : Shell → Shell
show_prompt s =
    if not s.writable then s else write s.prompt (if s.interactive then write (13 ∷ []) s else s)

-- The loop of `shell_format` from index `i` on: the bytes kept, and how many of them come from
-- before the cursor.
pub squeeze : List ℕ → ℕ → ℕ → ℕ → List ℕ × ℕ
squeeze [] i count cursor = ([], 0)
squeeze (x ∷ xs) i count cursor =
    let count' = if x == space then count + 1 else count in
    let (kept, before) = squeeze xs (i + 1) (if x == space then count' else 0) cursor in
    if x == space && (ltb 1 count' || i == 0)
    then (kept, before)
    else (x ∷ kept, if ltb i cursor then before + 1 else before)

-- `granted` is the answer of malloc.
pub format : Bool → Shell → Shell
format granted s =
    let (kept, before) = squeeze (take s.end s.command_line) 0 0 s.cursor in
    if not granted
    then s
    else record (write
        (replicate s.cursor bs
          ++ (c_string kept
              ++ (replicate (s.end - length kept) space ++ replicate (s.end - before) bs)))
        s) {
          command_line = kept ++ replicate (s.size - length kept) 0;
          cursor = before;
          end = length kept;
        }

-- The loop of `shell_insert` that doubles the buffer. `grant` says for each round whether one of
-- the three calls of realloc is served; none served stops the process.
pub expand : ℕ → (ℕ → Bool) → ℕ → Shell → Run Shell
expand zero grant need s = done s
expand (suc rounds) grant need s = elim (ltb s.size need) [
  | true ↦
      if grant rounds
      then expand rounds grant need
          (record s { command_line = s.command_line ++ replicate s.size 0; size = s.size * 2 })
      else abort
  | false ↦ done s
]

-- The two copies of `shell_insert`, behind the loop.
pub splice : List ℕ → Shell → Shell
splice str s = terminate (record s {
  command_line =
      take s.cursor s.command_line
      ++ (str
          ++ (take (s.end - s.cursor) (drop s.cursor s.command_line)
              ++ drop (s.end + length str) s.command_line));
  end = s.end + length str;
})

-- What `shell_insert` writes, and the cursor that it moves only where it can write.
pub echo : List ℕ → Shell → Shell
echo str s =
    if s.writable
    then record (write
        (c_string (drop s.cursor s.command_line) ++ replicate (s.end - (s.cursor + length str)) bs)
        s) { cursor = s.cursor + length str }
    else s

-- The number of rounds is that of the bytes needed: each doubles the buffer.
pub insert : (ℕ → Bool) → List ℕ → Shell → Run Shell
insert grant str s = expand (s.end + length str + 1) grant (s.end + length str + 1) s >>= λ s'.
    done (echo str (splice str s'))

-- shell_input_char and shell_insert_char: the string of one byte, which is empty for NUL.
pub insert_char : (ℕ → Bool) → ℕ → Shell → Run Shell
insert_char grant ch s = insert grant (c_string (ch ∷ [])) s

-- The array once `shell_delete_string` moved the tail and blanked what is no longer needed.
pub closed_up : ℕ → ℕ → Shell → List ℕ
closed_up start stop s =
    take start s.command_line
    ++ (take (s.end - stop) (drop stop s.command_line)
        ++ (replicate (stop - start) space ++ drop s.end s.command_line))

pub delete_string : ℕ → ℕ → Shell → Run Shell
delete_string start stop s =
    if not (leb start stop && leb stop s.end)
    then abort
    else let moved = terminate (record s { command_line = closed_up start stop s }) in
      let drawn =
        write
          (replicate (s.cursor - start) bs
            ++ (c_string (drop start moved.command_line) ++ replicate (s.end - start) bs))
          moved in
      done (terminate (record drawn { cursor = start; end = s.end - (stop - start) }))

-- `granted` is the answer of malloc for the cut buffer.
pub cut : Bool → ℕ → ℕ → Shell → Run Shell
cut granted start stop s =
    if not (leb start stop && leb stop s.end)
    then abort
    else if stop == start
    then done (record s { cut_buffer = none })
    else delete_string start stop (record s {
      cut_buffer =
          if granted
          then some (c_string (take (stop - start) (drop start s.command_line)))
          else none;
    })

pub forward : ℕ → Shell → Shell
forward num s =
    if ltb s.end (s.cursor + num)
    then s
    else record (write (take num (drop s.cursor s.command_line)) s) { cursor = s.cursor + num }

pub backward : ℕ → Shell → Shell
backward num s =
    if ltb s.cursor num then s else write (replicate num bs) (record s { cursor = s.cursor - num })

pub moveto : ℕ → Shell → Run Shell
moveto index s =
    if ltb s.end index
    then abort
    else done (
        if ltb s.cursor index
        then forward (index - s.cursor) s
        else if ltb index s.cursor
        then backward (s.cursor - index) s
        else s)

pub refresh : Shell → Shell
refresh s =
    let shown = terminate (show_prompt s) in
    write (c_string shown.command_line ++ replicate (s.end - s.cursor) bs) shown

-- shell_create, with both requests for memory served
pub create : Shell
create = record {
  command_line = replicate 32 0;
  cursor = 0;
  end = 0;
  size = 32;
  cut_buffer = none;
  prompt = 112 ∷ 114 ∷ 111 ∷ 109 ∷ 112 ∷ 116 ∷ 62 ∷ 32 ∷ [];
  nl = 10 ∷ [];
  writable = false;
  interactive = true;
  escaped = false;
  out = [];
  printed = [];
}

-- ===== src/Command/Tree.antt =====
-- lib/zcmdsh/command.c: the nodes of the command tree, the match of a word below a node, installation
-- and execution.
-- The nodes stand in a list, a node's pointer is its place, and the root is at 0. A vector is the
-- list of its elements, as Vector has it where memory is served, and what qsort makes of it is `sort`.
-- The memory that a node keeps to be freed is left out.
pub mod Matching
pub mod Growing
pub mod Adding
pub mod Installing
pub mod Running
pub mod Alternatives
pub mod Completion
pub mod Common
mod Tests
use nettlp_dpdk.Prelude.{
  ℕ, zero, suc, ◌+◌, Bool, true, false, not, ◌&&◌, ◌||◌, Option, none, some, List, [], ◌∷◌, ◌++◌,
  ltb, ◌==◌, if◌then◌else◌, length, get_or, set, Run, done, abort, ◌>>=◌,
}
use nettlp_dpdk.Command.Specs.{
  Text, Libc, same, is_command_match_regular, is_command_match_variable, varmatch_pri, line_spec,
  file_spec, file_replace, split_at, is_empty_text,
}

-- struct command_node; a func of 0 is NULL.
pub record Node : Type 0 where
  pub cmdstr : Text
  pub helpstr : Option Text
  pub func : ℕ
  pub cmdvec : List ℕ

abbrev pub no_node : Node
no_node = record { cmdstr = []; helpstr = none; func = 0; cmdvec = [] }

abbrev pub node_at : List Node → ℕ → Node
node_at nodes p = get_or nodes p no_node

abbrev pub text : List Node → ℕ → Text
text nodes c = (node_at nodes c).cmdstr

abbrev pub kids : List Node → ℕ → List ℕ
kids nodes p = (node_at nodes p).cmdvec

-- The loop of command_match_exact, with the match so far: the last one.
pub find_exact : List Node → Text → List ℕ → Option ℕ → Option ℕ
find_exact nodes word [] match = match
find_exact nodes word (c ∷ cs) match =
    find_exact nodes word cs (if same (text nodes c) word then some c else match)

pub command_match_exact : List Node → ℕ → Text → Option ℕ
command_match_exact nodes parent word = find_exact nodes word (kids nodes parent) none

-- The locals of command_match_unique.
pub record Matches : Type 0 where
  pub match : Option ℕ
  pub varmatch : Option ℕ
  pub match_count : ℕ
  pub varmatch_count : ℕ

-- varmatch after a variable match of node `c`.
pub better : Libc → List Node → ℕ → Option ℕ → Option ℕ
better libc nodes c none = some c
better libc nodes c (some v) =
    if ltb (varmatch_pri libc (text nodes v)) (varmatch_pri libc (text nodes c))
    then some c
    else some v

-- The two tests of a round of its loop.
abbrev pub count_variable : Libc → List Node → Text → ℕ → Matches → Matches
count_variable libc nodes word c m =
    if is_command_match_variable libc (text nodes c) word
    then record {
      match = some c;
      varmatch = better libc nodes c m.varmatch;
      match_count = m.match_count + 1;
      varmatch_count = m.varmatch_count + 1;
    }
    else m

abbrev pub count_regular : List Node → Text → ℕ → Matches → Matches
count_regular nodes word c m =
    if is_command_match_regular (text nodes c) word
    then record m { match = some c; match_count = m.match_count + 1 }
    else m

pub count_matches : Libc → List Node → Text → List ℕ → Matches → Matches
count_matches libc nodes word [] m = m
count_matches libc nodes word (c ∷ cs) m =
    count_matches libc nodes word cs
      (count_regular nodes word c (count_variable libc nodes word c m))

abbrev pub no_matches : Matches
no_matches = record { match = none; varmatch = none; match_count = 0; varmatch_count = 0 }

pub choose_match : Matches → Option ℕ
choose_match m = elim m.match [
  | none ↦ none
  | some c ↦
      if m.varmatch_count == m.match_count
      then m.varmatch
      else if m.match_count == 1
      then some c
      else none
]

pub command_match_unique : Libc → List Node → ℕ → Text → Option ℕ
command_match_unique libc nodes parent word =
    choose_match (count_matches libc nodes word (kids nodes parent) no_matches)

pub command_match_unique_exact : Libc → List Node → ℕ → Text → Option ℕ
command_match_unique_exact libc nodes parent word =
    elim (command_match_unique libc nodes parent word) [
      | some c ↦ some c
      | none ↦ command_match_exact nodes parent word
    ]

-- strsep with one delimiter until it gives NULL: the words, empty ones too.
pub split : ℕ → Text → List Text
split c [] = [] ∷ []
split c (x ∷ xs) = elim (split c xs) [
  | [] ↦ []
  | w ∷ ws ↦ if x == c then [] ∷ w ∷ ws else (x ∷ w) ∷ ws
]

-- strstr: the text from the first place of `word` on.
pub strstr : Text → Text → Text
strstr [] word = []
strstr (x ∷ xs) word =
    let rest = strstr xs word in if is_command_match_regular (x ∷ xs) word then x ∷ xs else rest

pub command_replace : Libc → Text → Text → Text
command_replace libc spec word = if file_spec spec then file_replace libc word else word

-- The loop of command_execute, with `match` and the arguments so far; `argv` grows as it needs.
pub walk : Libc → List Node → Text → ℕ → List Text → Option ℕ → List Text → Option ℕ × List Text
walk libc nodes line parent [] match argv = (match, argv)
walk libc nodes line parent (w ∷ ws) match argv =
    if is_empty_text w
    then (match, argv)
    else elim (command_match_unique_exact libc nodes parent w) [
      | none ↦ (none, argv)
      | some c ↦
          let spec = text nodes c in
          let rest =
            walk libc nodes line c ws (some c) (argv ++ (command_replace libc spec w ∷ [])) in
          if line_spec spec || file_spec spec then (some c, argv ++ (strstr line w ∷ [])) else rest
    ]

call : List Node → Option ℕ → List Text → Option (ℕ × List Text)
call nodes none argv = none
call nodes (some c) argv =
    if (node_at nodes c).func == 0 then none else some ((node_at nodes c).func, argv)

-- command_execute: the function called and its arguments, `none` for -1.
pub command_execute : Libc → List Node → Text → Option (ℕ × List Text)
command_execute libc nodes line =
    let (match, argv) = walk libc nodes line 0 (split 32 line) none [] in call nodes match argv

pub has_child : ℕ → List ℕ → Bool
has_child c [] = false
has_child c (x ∷ xs) = (x == c) || has_child c xs

-- A new node below `parent`, with vector_add and vector_sort.
pub add_node : (List ℕ → List ℕ) → List Node → ℕ → Text → Option Text → Run (List Node × ℕ)
add_node sort nodes parent word help =
    let id = length nodes in
    let node : Node = record { cmdstr = word; helpstr = help; func = 0; cmdvec = [] } in
    let above : Node = record (node_at nodes parent) {
      cmdvec = sort (kids nodes parent ++ (id ∷ []));
    } in
    if has_child id (kids nodes parent)
    then abort
    else done (set nodes parent above ++ (node ∷ []), id)

-- What strsep gives for the help of the next word, NULL at the end, and the rest.
abbrev pub next_help : List Text → Option Text × List Text
next_help [] = (none, [])
next_help (h ∷ hs) = (some h, hs)

-- The loop of command_install: the nodes and the node of the last word.
pub install_words : (List ℕ → List ℕ) → List Node → ℕ → List Text → List Text → Run (List Node × ℕ)
install_words sort nodes parent [] helps = done (nodes, parent)
install_words sort nodes parent (w ∷ ws) helps = elim (command_match_exact nodes parent w) [
  | some c ↦ install_words sort nodes c ws (next_help helps).1
  | none ↦ add_node sort nodes parent w (next_help helps).0 >>= λ r.
      install_words sort r.0 r.1 ws (next_help helps).1
]

abbrev pub set_func : List Node → ℕ → ℕ → List Node
set_func nodes c f = set nodes c (record (node_at nodes c) { func = f })

pub command_install : (List ℕ → List ℕ) → List Node → Text → Text → ℕ → Run (List Node)
command_install sort nodes line help func =
    install_words sort nodes 0 (split 32 line) (split 10 help) >>= λ r. done (set_func r.0 r.1 func)

-- command_set_create
abbrev pub command_set_create : List Node
command_set_create = no_node ∷ []

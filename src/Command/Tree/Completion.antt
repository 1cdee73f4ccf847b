-- ===== src/Command/Tree/Completion.antt =====
-- lib/zcmdsh/command.c: the completion of a word, and the node that a line leads to.
-- The buffers hold 64 bytes: a keyword that fills one without its NUL is `abort`.
use nettlp_dpdk.Prelude.{
  ℕ, Bool, not, ◌||◌, Option, none, some, List, [], ◌∷◌, ◌++◌, ltb, leb, ◌==◌, if◌then◌else◌,
  length, take, drop, Run, done, abort, ◌>>=◌,
}
use nettlp_dpdk.Command.Specs.{
  Text, Libc, is_command_match_regular, ipv4_spec, range_spec, double_spec, file_spec, line_spec,
  var_spec, is_empty_text,
}
use nettlp_dpdk.Command.Tree.{Node, text, kids, command_match_unique_exact, split}

-- strcommon: `dest` up to the first byte where it differs from `src`.
unfoldable pub strcommon : Text → Text → Text
strcommon [] src = []
strcommon (d ∷ dest) [] = []
strcommon (d ∷ dest) (s ∷ src) = let rest = strcommon dest src in if d == s then d ∷ rest else []

-- is_command_node_variable
unfoldable pub is_node_variable : Libc → Text → Bool
is_node_variable libc spec =
    ipv4_spec spec
    || (range_spec libc spec
        || (double_spec spec || (file_spec spec || (line_spec spec || var_spec spec))))

-- The loop of command_complete_common, with `common` where a child matched: the first that fills the
-- buffer leaves no NUL.
unfoldable pub common_from : Libc → List Node → Text → List ℕ → Option Text → Run (Option Text)
common_from libc nodes word [] common = done common
common_from libc nodes word (c ∷ cs) common =
    if is_node_variable libc (text nodes c)
    then common_from libc nodes word cs common
    else if is_command_match_regular (text nodes c) word
    then elim common [
      | some t ↦ common_from libc nodes word cs (some (strcommon t (text nodes c)))
      | none ↦
          if leb 64 (length (text nodes c))
          then abort
          else common_from libc nodes word cs (some (text nodes c))
    ]
    else common_from libc nodes word cs common

-- What stands in the buffer behind as many bytes as the word has.
unfoldable pub behind_word : Text → Option Text → Run Text
behind_word word none = if leb 64 (length word) then abort else done []
behind_word word (some t) = done (drop (length word) t)

unfoldable pub command_complete_common : Libc → List Node → ℕ → Text → Run Text
command_complete_common libc nodes parent word =
    common_from libc nodes word (kids nodes parent) none >>= behind_word word

-- The loops of command_complete and command_match_node over the words: the parent, the match and the
-- last word tried. The second stops at an empty word, and at a line or a file.
pub match_words : Libc → List Node → ℕ → List Text → Option ℕ → Text → ℕ × Option ℕ × Text
match_words libc nodes parent [] match word = (parent, match, word)
match_words libc nodes parent (w ∷ ws) match word =
    elim (command_match_unique_exact libc nodes parent w) [
      | none ↦ (parent, none, w)
      | some c ↦ match_words libc nodes c ws (some c) w
    ]

pub match_node_words : Libc → List Node → ℕ → List Text → Option ℕ → Option ℕ
match_node_words libc nodes parent [] match = match
match_node_words libc nodes parent (w ∷ ws) match =
    if is_empty_text w then match else elim (command_match_unique_exact libc nodes parent w) [
      | none ↦ none
      | some c ↦
          let rest = match_node_words libc nodes c ws (some c) in
          if line_spec (text nodes c) || file_spec (text nodes c) then some c else rest
    ]

pub command_match_node : Libc → List Node → Text → Option ℕ
command_match_node libc nodes line = match_node_words libc nodes 0 (split 32 line) (some 0)

-- command_complete, which writes at most 63 bytes and gives what file_complete does with a file.
pub command_complete : Libc → (Text → Option Text) → List Node → Text → ℕ → Run Text
command_complete libc file_complete nodes line point =
    let (parent, match, word) = match_words libc nodes 0 (split 32 (take point line)) none [] in
    elim match [
      | none ↦ command_complete_common libc nodes parent word >>= λ t. done (take 63 t)
      | some c ↦
          let spec = text nodes c in
          if not (is_node_variable libc spec)
          then if ltb (length spec) (length word)
            then abort
            else done (take 63 (drop (length word) spec ++ (32 ∷ [])))
          else if file_spec spec
          then done (elim (file_complete word) [ none ↦ [] | some t ↦ take 63 t ])
          else done []
    ]

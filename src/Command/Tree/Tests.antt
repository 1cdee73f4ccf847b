-- ===== src/Command/Tree/Tests.antt =====
-- A libc without numbers, files and addresses, and small command trees.
use mathlib.Core.Path.{subst}
use nettlp_dpdk.Prelude.{
  ℕ, zero, suc, ◌<◌, inl, inr, ◌++◌, ◌≡◌, refl, true, false, none, some, List, [], ◌∷◌, arith, ltb,
  length, done,
}
use nettlp_dpdk.Command.Specs.{
  ipv4_spec, range_spec, double_spec, var_spec, range_texts, is_command_match_regular, Text, Libc,
  missing, same, is_empty_text, line_spec, file_spec,
}
use nettlp_dpdk.Command.Tree.{
  text, Node, kids, command_match_unique, split, command_install, command_execute,
  command_set_create, has_child,
}
use nettlp_dpdk.Command.Tree.Matching.{
  has_child_cases, Decides, regulars, variables, command_match_unique_cases, has_child_none,
}
use nettlp_dpdk.Command.Tree.Growing.{IsTree, IsGrown}
use nettlp_dpdk.Command.Tree.Adding.{Keeps}
use nettlp_dpdk.Command.Tree.Completion.{is_node_variable, command_complete_common}
use nettlp_dpdk.Command.Tree.Common.{IsPrefix, candidates, command_complete_common-longest}
use nettlp_dpdk.Command.Tree.Running.{AllPlain, command_install-execute}

abbrev plain_libc : Libc
plain_libc = record {
  Double = ℕ;
  strtod = λ t. (0, t);
  less = ltb;
  strtoul = λ t. (0, t);
  strtol = λ t. (0, t);
  inet_pton = λ t. false;
  stat = λ t. missing;
  strftime = λ t. none;
}

-- "show"
abbrev show : Text
show = 115 ∷ 104 ∷ 111 ∷ 119 ∷ []

-- "show version"
abbrev show_version : Text
show_version = 115 ∷ 104 ∷ 111 ∷ 119 ∷ 32 ∷ 118 ∷ 101 ∷ 114 ∷ 115 ∷ 105 ∷ 111 ∷ 110 ∷ []

abbrev version : Text
version = 118 ∷ 101 ∷ 114 ∷ 115 ∷ 105 ∷ 111 ∷ 110 ∷ []

abbrev keyword : Text → Node
keyword t = record { cmdstr = t; helpstr = none; func = 0; cmdvec = [] }

-- The keywords "show" and "showing", and a node that takes any word.
abbrev keywords : List Node
keywords =
    record { cmdstr = []; helpstr = none; func = 0; cmdvec = 1 ∷ 2 ∷ 3 ∷ [] }
    ∷ keyword show
    ∷ keyword (115 ∷ 104 ∷ 111 ∷ 119 ∷ 105 ∷ 110 ∷ 103 ∷ [])
    ∷ keyword (60 ∷ 87 ∷ 79 ∷ 82 ∷ 68 ∷ 62 ∷ [])
    ∷ []

command_match_unique_cases_example :
    Decides plain_libc keywords
      (variables plain_libc keywords show (kids keywords 0))
      (regulars keywords show (kids keywords 0))
      (command_match_unique plain_libc keywords 0 show)
command_match_unique_cases_example = command_match_unique_cases plain_libc keywords 0 show

keywords_short : (c : ℕ) → has_child c (kids keywords 0) ≡ true → length (text keywords c) < 64
keywords_short c h = elim (has_child_cases c 1 (2 ∷ 3 ∷ []) h) [
  | inl e ↦ subst (λ k. length (text keywords k) < 64) e (omega arith)
  | inr h₂ ↦ elim (has_child_cases c 2 (3 ∷ []) h₂) [
    | inl e ↦ subst (λ k. length (text keywords k) < 64) e (omega arith)
    | inr h₃ ↦ elim (has_child_cases c 3 [] h₃) [
      | inl e ↦ subst (λ k. length (text keywords k) < 64) e (omega arith)
      | inr h₄ ↦ absurd (has_child_none c h₄)
    ]
  ]
]

-- "sh"
abbrev short_word : Text
short_word = 115 ∷ 104 ∷ []

show_takes_part : has_child 1 (candidates plain_libc keywords short_word (kids keywords 0)) ≡ true
unfolding has_child is_node_variable ipv4_spec range_spec double_spec file_spec line_spec var_spec
    same range_texts is_command_match_regular
show_takes_part = refl

command_complete_common-longest_example :
    (r : Text) × (command_complete_common plain_libc keywords 0 short_word ≡ done r)
    × ((c : ℕ)
        → has_child c (candidates plain_libc keywords short_word (kids keywords 0)) ≡ true
        → IsPrefix (short_word ++ r) (text keywords c))
    × ((u : Text)
        → ((c : ℕ)
            → has_child c (candidates plain_libc keywords short_word (kids keywords 0)) ≡ true
            → IsPrefix u (text keywords c))
        → IsPrefix u (short_word ++ r))
command_complete_common-longest_example =
    command_complete_common-longest plain_libc keywords 0 short_word 1 keywords_short
      show_takes_part

unsorted : List ℕ → List ℕ
unsorted cs = cs

unsorted-Keeps : Keeps unsorted
unfolding Keeps unsorted
unsorted-Keeps c cs = refl

command_set_create-none : (p c : ℕ) → has_child c (kids command_set_create p) ≡ true → ⊥
command_set_create-none zero c h = has_child_none c h
command_set_create-none (suc p) c h = has_child_none c h

command_set_create-IsTree : IsTree command_set_create
command_set_create-IsTree = record {
  ids = λ p c h. absurd (command_set_create-none p c h);
  distinct = λ p c d h k e. absurd (command_set_create-none p c h);
}

show_version-AllPlain : AllPlain (split 32 show_version)
unfolding split is_empty_text line_spec file_spec same
show_version-AllPlain = (refl, refl, refl, (refl, refl, refl, tt))

command_install-execute_example :
    (nodes' : List Node) × (command_install unsorted command_set_create show_version [] 7
      ≡ done nodes')
    × IsTree nodes'
    × IsGrown command_set_create nodes'
    × (command_execute plain_libc nodes' show_version ≡ some (7, split 32 show_version))
command_install-execute_example =
    command_install-execute plain_libc unsorted command_set_create show_version [] 7 unsorted-Keeps
      command_set_create-IsTree (omega arith) (λ e. cc) show_version-AllPlain

show_version_words : split 32 show_version ≡ show ∷ version ∷ []
unfolding split
show_version_words = refl

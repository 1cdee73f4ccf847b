-- ===== src/Command/Tree/Alternatives.antt =====
-- lib/zcmdsh/command.c: command_install2, whose words give alternatives, as in `(in|out|)`.
-- The strings are not NULL. vector_add stops the process on a node that is there already.
use nettlp_dpdk.Prelude.{
  ℕ, Option, none, some, List, [], ◌∷◌, ◌++◌, if◌then◌else◌, Run, done, abort, ◌>>=◌,
}
use nettlp_dpdk.Command.Specs.{Text, split_at, is_empty_text}
use nettlp_dpdk.Command.Tree.{
  Node, command_match_exact, has_child, add_node, next_help, set_func, split,
}

-- What stands between the first `(` and the first `)` behind it, where they are there.
pub inner : Text → Text
inner word =
    let behind : Text = elim (split_at 40 word) [ none ↦ word | some (a, b) ↦ b ] in
    elim (split_at 41 behind) [ none ↦ behind | some (a, b) ↦ a ]

pub vector_add : ℕ → List ℕ → Run (List ℕ)
vector_add c cs = if has_child c cs then abort else done (cs ++ (c ∷ []))

-- The node of a word below a parent, made where it is missing.
pub child_for : (List ℕ → List ℕ) → List Node → ℕ → Text → Option Text → Run (List Node × ℕ)
child_for sort nodes parent word help = elim (command_match_exact nodes parent word) [
  | some c ↦ done (nodes, c)
  | none ↦ add_node sort nodes parent word help
]

-- The loop over the parents for one subword; an empty one lets the level be left out.
pub add_below :
    (List ℕ → List ℕ) → List Node → Text → Option Text → List ℕ → List ℕ → Run (List Node × List ℕ)
add_below sort nodes sub help [] next = done (nodes, next)
add_below sort nodes sub help (p ∷ ps) next =
    (if is_empty_text sub then done (nodes, p) else child_for sort nodes p sub help) >>= λ r.
    vector_add r.1 next >>= λ next'. add_below sort r.0 sub help ps next'

-- The loop over the subwords: the nodes, the next parents and the help that is left.
pub add_subwords :
    (List ℕ → List ℕ)
    → List Node
    → List ℕ
    → List Text
    → List Text
    → List ℕ
    → Run (List Node × List ℕ × List Text)
add_subwords sort nodes parents [] helps next = done (nodes, next, helps)
add_subwords sort nodes parents (sub ∷ subs) helps next =
    let (help, rest) = if is_empty_text sub then (none, helps) else next_help helps in
    add_below sort nodes sub help parents next >>= λ r. add_subwords sort r.0 parents subs rest r.1

pub add_words :
    (List ℕ → List ℕ) → List Node → List ℕ → List Text → List Text → Run (List Node × List ℕ)
add_words sort nodes parents [] helps = done (nodes, parents)
add_words sort nodes parents (w ∷ ws) helps =
    add_subwords sort nodes parents (split 124 (inner w)) helps [] >>= λ r.
    add_words sort r.0 r.1 ws r.2

-- The function is set at every node that the last word leads to.
pub set_funcs : List Node → ℕ → List ℕ → List Node
set_funcs nodes func [] = nodes
set_funcs nodes func (c ∷ cs) = set_funcs (set_func nodes c func) func cs

pub command_install2 : (List ℕ → List ℕ) → List Node → Text → Text → ℕ → Run (List Node)
command_install2 sort nodes line help func =
    add_words sort nodes (0 ∷ []) (split 32 line) (split 10 help) >>= λ r.
    done (set_funcs r.0 func r.1)

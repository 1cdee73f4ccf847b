-- ===== src/Command/Tree/Matching.antt =====
-- lib/zcmdsh/command.c: which child command_match_unique finds, by the children that match.
use mathlib.Core.Path.{subst}
use nettlp_dpdk.Prelude.{
  ℕ, ◌+◌, ◌≤◌, ◌<◌, ◌≡◌, ◌≢◌, refl, ap, ◌∙◌, ◌⊎◌, inl, inr, Bool, true, false, Option, none, some,
  List, [], ◌∷◌, arith, ltb, if◌then◌else◌, length, Bool-cases, ltb→lt, ltb→le, eq→==, ne→==,
}
use nettlp_dpdk.Command.Specs.{
  Text, Libc, is_command_match_regular, is_command_match_variable, varmatch_pri,
}
use nettlp_dpdk.Command.Tree.{
  Node, Matches, text, kids, better, count_matches, no_matches, choose_match, command_match_unique,
  has_child,
}

abbrev pub filter : (ℕ → Bool) → List ℕ → List ℕ
filter test [] = []
filter test (c ∷ cs) = let rest = filter test cs in if test c then c ∷ rest else rest

-- The children whose keyword begins with the word, and those whose spec takes it.
abbrev pub regulars : List Node → Text → List ℕ → List ℕ
regulars nodes word = filter (λ c. is_command_match_regular (text nodes c) word)

abbrev pub variables : Libc → List Node → Text → List ℕ → List ℕ
variables libc nodes word = filter (λ c. is_command_match_variable libc (text nodes c) word)

abbrev best : Libc → List Node → Option ℕ → List ℕ → Option ℕ
best libc nodes o [] = o
best libc nodes o (v ∷ vs) = best libc nodes (better libc nodes v o) vs

abbrev last : Option ℕ → List ℕ → Option ℕ
last o [] = o
last o (c ∷ cs) = last (some c) cs

-- What the loop leaves, by the children that match.
record Counted (libc : Libc) (nodes : List Node) (vs rs : List ℕ) (m m' : Matches) : Type 0 where
  all : m'.match_count ≡ m.match_count + (length vs + length rs)
  vars : m'.varmatch_count ≡ m.varmatch_count + length vs
  chosen : m'.varmatch ≡ best libc nodes m.varmatch vs
  keyword : length vs ≡ 0 → m'.match ≡ last m.match rs
  nothing : length vs + length rs ≡ 0 → m'.match ≡ m.match
  something :
      (0 < length vs + length rs) ⊎ ((c : ℕ) × (m.match ≡ some c)) → (c : ℕ) × (m'.match ≡ some c)

abbrev with_variable : Libc → List Node → Bool → ℕ → Matches → Matches
with_variable libc nodes b c m =
    if b
    then record {
      match = some c;
      varmatch = better libc nodes c m.varmatch;
      match_count = m.match_count + 1;
      varmatch_count = m.varmatch_count + 1;
    }
    else m

abbrev with_regular : Bool → ℕ → Matches → Matches
with_regular b c m = if b then record m { match = some c; match_count = m.match_count + 1 } else m

abbrev maybe : Bool → ℕ → List ℕ → List ℕ
maybe b c cs = if b then c ∷ cs else cs

Counted-step :
    (libc : Libc) (nodes : List Node) (v r : Bool) (c : ℕ) (vs rs : List ℕ) (m m' : Matches)
    → Counted libc nodes vs rs (with_regular r c (with_variable libc nodes v c m)) m'
    → Counted libc nodes (maybe v c vs) (maybe r c rs) m m'
Counted-step libc nodes true true c vs rs m m' ih = record {
  all = omega (arith, ih.all);
  vars = omega (arith, ih.vars);
  chosen = ih.chosen;
  keyword = λ e. absurd (omega arith);
  nothing = λ e. absurd (omega arith);
  something = λ h. ih.something (inr (c, refl));
}
Counted-step libc nodes true false c vs rs m m' ih = record {
  all = omega (arith, ih.all);
  vars = omega (arith, ih.vars);
  chosen = ih.chosen;
  keyword = λ e. absurd (omega arith);
  nothing = λ e. absurd (omega arith);
  something = λ h. ih.something (inr (c, refl));
}
Counted-step libc nodes false true c vs rs m m' ih = record {
  all = omega (arith, ih.all);
  vars = omega (arith, ih.vars);
  chosen = ih.chosen;
  keyword = ih.keyword;
  nothing = λ e. absurd (omega arith);
  something = λ h. ih.something (inr (c, refl));
}
Counted-step libc nodes false false c vs rs m m' ih = ih

count_lem :
    (libc : Libc) (nodes : List Node) (word : Text) (cs : List ℕ) (m : Matches)
    → Counted libc nodes
        (variables libc nodes word cs)
        (regulars nodes word cs)
        m
        (count_matches libc nodes word cs m)
unfolding count_matches
count_lem libc nodes word [] m = record {
  all = omega arith;
  vars = omega arith;
  chosen = refl;
  keyword = λ e. refl;
  nothing = λ e. refl;
  something = λ h. elim h [ inl lt ↦ absurd (omega arith) | inr s ↦ s ];
}
count_lem libc nodes word (c ∷ cs) m =
    Counted-step libc nodes (is_command_match_variable libc (text nodes c) word)
      (is_command_match_regular (text nodes c) word) c (variables libc nodes word cs)
      (regulars nodes word cs) m _ (count_lem libc nodes word cs _)

pub has_child_here : (c : ℕ) (cs : List ℕ) → has_child c (c ∷ cs) ≡ true
unfolding has_child
has_child_here c cs = ground arith

pub has_child_there : (c x : ℕ) (cs : List ℕ) → has_child c cs ≡ true → has_child c (x ∷ cs) ≡ true
unfolding has_child
has_child_there c x cs h = ground arith

pub has_child_cases :
    (c x : ℕ) (cs : List ℕ) → has_child c (x ∷ cs) ≡ true → (x ≡ c) ⊎ (has_child c cs ≡ true)
unfolding has_child
has_child_cases c x cs h = ground arith

pub has_child_none : (c : ℕ) → has_child c [] ≡ true → ⊥
unfolding has_child
has_child_none c h = cc

-- The choice among the variables: one of them, none of a higher priority.
best_cases :
    (libc : Libc) (nodes : List Node) (v : ℕ) (vs : List ℕ)
    → (b : ℕ) × (best libc nodes (some v) vs ≡ some b)
      × (has_child b (v ∷ vs) ≡ true)
      × ((u : ℕ)
          → has_child u (v ∷ vs) ≡ true
          → varmatch_pri libc (text nodes u) ≤ varmatch_pri libc (text nodes b))
unfolding better
best_cases libc nodes v [] = (
  v,
  refl,
  has_child_here v [],
  λ u h. elim (has_child_cases u v [] h) [
    | inl e ↦ omega (arith, ap (λ k. varmatch_pri libc (text nodes k)) e)
    | inr n ↦ absurd (has_child_none u n)
  ],
)
best_cases libc nodes v (w ∷ vs) =
    let pri = λ (k : ℕ). varmatch_pri libc (text nodes k) in
    elim (Bool-cases (ltb (pri v) (pri w))) [
      | inl up ↦
          let (b, e, among, top) = best_cases libc nodes w vs in
          (
            b,
            rw (better, up) e,
            has_child_there b v (w ∷ vs) among,
            λ u h. elim (has_child_cases u v (w ∷ vs) h) [
              | inl eq ↦ omega (arith, ap pri eq, ltb→lt _ _ up, top w (has_child_here w vs))
              | inr there ↦ top u there
            ],
          )
      | inr keep ↦
          let (b, e, among, top) = best_cases libc nodes v vs in
          (
            b,
            rw (better, keep) e,
            elim (has_child_cases b v vs among) [
              | inl eq ↦ subst (λ k. has_child k (v ∷ w ∷ vs) ≡ true) eq (has_child_here v (w ∷ vs))
              | inr there ↦ has_child_there b v (w ∷ vs) (has_child_there b w vs there)
            ],
            λ u h. elim (has_child_cases u v (w ∷ vs) h) [
              | inl eq ↦ top u (subst (λ k. has_child k (v ∷ vs) ≡ true) eq (has_child_here v vs))
              | inr there ↦ elim (has_child_cases u w vs there) [
                | inl eq ↦ omega (arith, ap pri eq, ltb→le _ _ keep, top v (has_child_here v vs))
                | inr behind ↦ top u (has_child_there u v vs behind)
              ]
            ],
          )
    ]

-- command_match_unique, by the children whose keyword begins with the word (`rs`) and those whose
-- spec takes it (`vs`).
unfoldable pub Decides : Libc → List Node → List ℕ → List ℕ → Option ℕ → Type 0
Decides libc nodes vs [] result =
    ((vs ≡ []) × (result ≡ none))
    ⊎ ((b : ℕ) × (result ≡ some b)
        × (has_child b vs ≡ true)
        × ((u : ℕ)
            → has_child u vs ≡ true
            → varmatch_pri libc (text nodes u) ≤ varmatch_pri libc (text nodes b)))
Decides libc nodes [] (c ∷ []) result = result ≡ some c
Decides libc nodes (v ∷ vs) (c ∷ []) result = result ≡ none
Decides libc nodes vs (c ∷ d ∷ rs) result = result ≡ none

undecided :
    (m : Matches) (k : ℕ)
    → m.match ≡ some k
    → m.varmatch_count ≢ m.match_count
    → m.match_count ≢ 1
    → choose_match m ≡ none
unfolding choose_match
undecided m k e ne one =
    rw (choose_match, e, ne→== m.varmatch_count m.match_count ne, ne→== m.match_count 1 one) refl

chosen-Decides :
    (libc : Libc) (nodes : List Node) (vs rs : List ℕ) (m : Matches)
    → Counted libc nodes vs rs no_matches m
    → Decides libc nodes vs rs (choose_match m)
unfolding Decides choose_match better
chosen-Decides libc nodes [] [] m h = inl (refl, rw (choose_match, h.nothing (omega arith)) refl)
chosen-Decides libc nodes (v ∷ vs) [] m h =
    let (c, e) = h.something (inl (omega arith)) in
    let (b, best, among, top) = best_cases libc nodes v vs in
    inr (
      b,
      rw (choose_match, e, eq→== m.varmatch_count m.match_count (omega (arith, h.all, h.vars)))
          (h.chosen ∙ best),
      among,
      top,
    )
chosen-Decides libc nodes [] (c ∷ []) m h =
    rw
      (
        choose_match,
        h.keyword refl,
        ne→== m.varmatch_count m.match_count (λ e. omega (arith, e, h.all, h.vars)),
        eq→== m.match_count 1 (omega (arith, h.all)),
      )
      refl
chosen-Decides libc nodes (v ∷ vs) (c ∷ []) m h =
    let (k, e) = h.something (inl (omega arith)) in
    undecided m k e (λ e. omega (arith, e, h.all, h.vars)) (λ e. omega (arith, e, h.all))
chosen-Decides libc nodes vs (c ∷ d ∷ rs) m h =
    let (k, e) = h.something (inl (omega arith)) in
    undecided m k e (λ e. omega (arith, e, h.all, h.vars)) (λ e. omega (arith, e, h.all))

-- The match of a word below a node is decided by the children whose keyword begins with the word and
-- those whose spec takes it. Where only specs do, it is the one of the highest priority; where one
-- keyword does and no spec, it is that child; else there is none.
pub command_match_unique_cases :
    (libc : Libc) (nodes : List Node) (parent : ℕ) (word : Text)
    → Decides libc nodes
        (variables libc nodes word (kids nodes parent))
        (regulars nodes word (kids nodes parent))
        (command_match_unique libc nodes parent word)
unfolding command_match_unique
command_match_unique_cases libc nodes parent word =
    chosen-Decides libc nodes _ _ _ (count_lem libc nodes word (kids nodes parent) no_matches)

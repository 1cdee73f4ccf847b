-- ===== src/Command/Tree/Running.antt =====
-- lib/zcmdsh/command.c: a command that is installed is found, and executed with its words.
use mathlib.Core.Path.{subst}
use mathlib.Core.List.{append_assoc}
use nettlp_dpdk.Prelude.{
  ℕ, ◌<◌, ◌≡◌, ◌≢◌, refl, sym, ap, ◌∙◌, ◌⊎◌, inl, inr, Bool, true, false, Option, none, some, List,
  [], ◌∷◌, ◌++◌, arith, ◌==◌, length, done, Bool-cases, ==→eq, ==→ne, eq→==, ne→==, length-set,
  get_or-set_self, get_or-set_ne,
}
use nettlp_dpdk.Command.Specs.{
  Text, Libc, same, is_command_match_regular, line_spec, file_spec, is_empty_text,
}
use nettlp_dpdk.Command.Tree.{
  Node, no_node, node_at, text, kids, command_match_exact, command_match_unique,
  command_match_unique_exact, has_child, set_func, command_install, split, command_replace, walk,
  call, command_execute,
}
use nettlp_dpdk.Command.Tree.Matching.{
  Decides, filter, regulars, command_match_unique_cases, has_child_here, has_child_there,
  has_child_cases, has_child_none,
}
use nettlp_dpdk.Command.Tree.Growing.{IsTree, IsGrown, IsGrown-trans, command_match_exact_sound}
use nettlp_dpdk.Command.Tree.Adding.{Keeps}
use nettlp_dpdk.Command.Tree.Installing.{follow, follow-grown, follow_step, install_words_lem}

pub is_command_match_regular_refl : (w : Text) → is_command_match_regular w w ≡ true
unfolding is_command_match_regular
is_command_match_regular_refl [] = refl
is_command_match_regular_refl (x ∷ xs) = rw (eq→== x x refl) (is_command_match_regular_refl xs)

filter-has :
    (test : ℕ → Bool) (c : ℕ) (cs : List ℕ)
    → has_child c cs ≡ true
    → test c ≡ true
    → has_child c (filter test cs) ≡ true
filter-has test c [] h e = h
filter-has test c (x ∷ cs) h e = elim (has_child_cases c x cs h) [
  | inl here ↦ rw (ap test here ∙ e) (
      subst (λ k. has_child k (x ∷ filter test cs) ≡ true) here (has_child_here x (filter test cs)))
  | inr there ↦ elim (Bool-cases (test x)) [
    | inl passes ↦ rw passes (has_child_there c x (filter test cs) (filter-has test c cs there e))
    | inr fails ↦ rw fails (filter-has test c cs there e)
  ]
]

-- Where a keyword begins with the word, the decision is that child or none.
Decides-has :
    (libc : Libc) (nodes : List Node) (vs rs : List ℕ) (result : Option ℕ) (c : ℕ)
    → Decides libc nodes vs rs result
    → has_child c rs ≡ true
    → (result ≡ none) ⊎ (result ≡ some c)
unfolding Decides
Decides-has libc nodes vs [] result c d h = absurd (has_child_none c h)
Decides-has libc nodes [] (x ∷ []) result c d h = elim (has_child_cases c x [] h) [
  | inl e ↦ inr (d ∙ ap some e)
  | inr n ↦ absurd (has_child_none c n)
]
Decides-has libc nodes (v ∷ vs) (x ∷ []) result c d h = inl d
Decides-has libc nodes vs (x ∷ y ∷ rs) result c d h = inl d

unique_exact_cases :
    (libc : Libc) (nodes : List Node) (p : ℕ) (w : Text) (c : ℕ)
    → (command_match_unique libc nodes p w ≡ none) ⊎ (command_match_unique libc nodes p w ≡ some c)
    → command_match_exact nodes p w ≡ some c
    → command_match_unique_exact libc nodes p w ≡ some c
unfolding command_match_unique_exact
unique_exact_cases libc nodes p w c (inl u) e = rw (command_match_unique_exact, u) e
unique_exact_cases libc nodes p w c (inr u) e = rw (command_match_unique_exact, u) refl

-- A word that is the whole keyword of a child is matched by that child, whatever other keywords begin
-- with it and whatever variables take it.
pub command_match_unique_exact-exact :
    (libc : Libc) (nodes : List Node) (p : ℕ) (w : Text) (c : ℕ)
    → command_match_exact nodes p w ≡ some c
    → command_match_unique_exact libc nodes p w ≡ some c
command_match_unique_exact-exact libc nodes p w c e =
    let (has, word) = command_match_exact_sound nodes p w c e in
    unique_exact_cases libc nodes p w c
      (Decides-has libc nodes _ (regulars nodes w (kids nodes p)) _ c
        (command_match_unique_cases libc nodes p w)
        (filter-has (λ k. is_command_match_regular (text nodes k) w) c (kids nodes p) has
          (ap (λ l. is_command_match_regular l w) word ∙ is_command_match_regular_refl w)))
      e

-- Words that are not empty and do not stand for a line or a file.
abbrev pub AllPlain : List Text → Type 0
AllPlain [] = Unit
AllPlain (w ∷ ws) =
    (is_empty_text w ≡ false) × (line_spec w ≡ false) × (file_spec w ≡ false) × AllPlain ws

walk_step :
    (libc : Libc) (nodes : List Node) (line : Text) (p c : ℕ) (w : Text) (ws : List Text)
    (m : Option ℕ) (argv : List Text)
    → command_match_exact nodes p w ≡ some c
    → is_empty_text w ≡ false
    → line_spec w ≡ false
    → file_spec w ≡ false
    → walk libc nodes line p (w ∷ ws) m argv ≡ walk libc nodes line c ws (some c) (argv ++ (w ∷ []))
unfolding walk command_replace
walk_step libc nodes line p c w ws m argv e full not_line not_file =
    let (has, word) = command_match_exact_sound nodes p w c e in
    rw (walk, full, command_match_unique_exact-exact libc nodes p w c e, word, not_line, not_file)
      refl

walk-follow :
    (libc : Libc) (nodes : List Node) (line : Text) (p last : ℕ) (w : Text) (ws : List Text)
    (m : Option ℕ) (argv : List Text)
    → AllPlain (w ∷ ws)
    → follow nodes p (w ∷ ws) ≡ some last
    → walk libc nodes line p (w ∷ ws) m argv ≡ (some last, argv ++ (w ∷ ws))
unfolding walk follow
walk-follow libc nodes line p last w [] m argv (full, l, f, rest) h =
    let (c, e, there) = follow_step nodes p w [] last h in
    walk_step libc nodes line p c w [] m argv e full l f ∙ ap (λ o. (o, argv ++ (w ∷ []))) there
walk-follow libc nodes line p last w (x ∷ ws) m argv (full, l, f, rest) h =
    let (c, e, there) = follow_step nodes p w (x ∷ ws) last h in
    walk_step libc nodes line p c w (x ∷ ws) m argv e full l f
    ∙ walk-follow libc nodes line c last x ws (some c) (argv ++ (w ∷ [])) rest there
    ∙ ap (λ a. (some last, a)) (append_assoc argv (w ∷ []) (x ∷ ws))

split-cons : (c : ℕ) (xs : Text) → (w : Text) × (ws : List Text) × (split c xs ≡ w ∷ ws)
unfolding split
split-cons c [] = ([], [], refl)
split-cons c (x ∷ xs) =
    let (w, ws, e) = split-cons c xs in
    elim (Bool-cases (x == c)) [
      | inl here ↦ ([], w ∷ ws, rw (split, e, here) refl)
      | inr else_ ↦ (x ∷ w, ws, rw (split, e, else_) refl)
    ]

set_func_cases :
    (nodes : List Node) (c f p : ℕ)
    → c < length nodes
    → (node_at (set_func nodes c f) p ≡ node_at nodes p)
      ⊎ ((p ≡ c) × (node_at (set_func nodes c f) p ≡ record (node_at nodes c) { func = f }))
set_func_cases nodes c f p lt = elim (Bool-cases (p == c)) [
  | inr ne ↦ inl (get_or-set_ne nodes c p _ no_node (λ e. ==→ne p c ne (sym e)))
  | inl e ↦ inr (
    ==→eq p c e,
    ap (λ k. node_at (set_func nodes c f) k) (==→eq p c e) ∙ get_or-set_self nodes c _ no_node lt,
  )
]

set_func-kids :
    (nodes : List Node) (c f p : ℕ)
    → c < length nodes
    → (kids (set_func nodes c f) p ≡ kids nodes p) × (text (set_func nodes c f) p ≡ text nodes p)
set_func-kids nodes c f p lt = elim (set_func_cases nodes c f p lt) [
  | inl same ↦ (ap (λ n. n.cmdvec) same, ap (λ n. n.cmdstr) same)
  | inr (e, at) ↦ (
    ap (λ n. n.cmdvec) at ∙ ap (kids nodes) (sym e),
    ap (λ n. n.cmdstr) at ∙ ap (text nodes) (sym e),
  )
]

set_func-IsGrown :
    (nodes : List Node) (c f : ℕ) → c < length nodes → IsGrown nodes (set_func nodes c f)
set_func-IsGrown nodes c f lt = record {
  longer = omega (arith, length-set nodes c (record (node_at nodes c) { func = f }));
  kept = λ p k h. ap (has_child k) (set_func-kids nodes c f p lt).0 ∙ h;
  texts = λ p in_nodes. (set_func-kids nodes c f p lt).1;
}

set_func-IsTree :
    (nodes : List Node) (c f : ℕ) → c < length nodes → IsTree nodes → IsTree (set_func nodes c f)
set_func-IsTree nodes c f lt t =
    let old = λ (p k : ℕ) (h : has_child k (kids (set_func nodes c f) p) ≡ true).
      sym (ap (has_child k) (set_func-kids nodes c f p lt).0) ∙ h in
    record {
      ids = λ p k h. omega (
        arith,
        t.ids p k (old p k h),
        length-set nodes c (record (node_at nodes c) { func = f }),
      );
      distinct = λ p k l hk hl e.
          t.distinct p k l (old p k hk) (old p l hl)
            (sym (set_func-kids nodes c f k lt).1 ∙ e ∙ (set_func-kids nodes c f l lt).1);
    }

called :
    (nodes : List Node) (c f : ℕ) (argv : List Text)
    → c < length nodes
    → f ≢ 0
    → call (set_func nodes c f) (some c) argv ≡ some (f, argv)
unfolding call
called nodes c f argv lt real =
    let at : node_at (set_func nodes c f) c ≡ record (node_at nodes c) { func = f } =
      get_or-set_self nodes c _ no_node lt in
    rw (call, at, ne→== f 0 real) refl

-- A command line that is installed with a function calls it when it is executed, with its words as
-- arguments, whatever abbreviations and variables the other commands have. The tree stays one, and
-- each node keeps its text and the nodes below it. None of the words is empty or stands for a line or
-- a file, the function is not NULL, and qsort keeps the elements.
pub command_install-execute :
    (libc : Libc) (sort : List ℕ → List ℕ) (nodes : List Node) (line help : Text) (func : ℕ)
    → Keeps sort
    → IsTree nodes
    → 0 < length nodes
    → func ≢ 0
    → AllPlain (split 32 line)
    → (nodes' : List Node) × (command_install sort nodes line help func ≡ done nodes')
      × IsTree nodes'
      × IsGrown nodes nodes'
      × (command_execute libc nodes' line ≡ some (func, split 32 line))
unfolding command_install command_execute
command_install-execute libc sort nodes line help func keeps t root real plain =
    let (nodes₁, last, ran, t₁, g, lt, found) =
      install_words_lem sort nodes 0 (split 32 line) (split 10 help) keeps t root in
    let nodes' = set_func nodes₁ last func in
    let t' = set_func-IsTree nodes₁ last func lt t₁ in
    let g' = set_func-IsGrown nodes₁ last func lt in
    let (w, ws, e) = split-cons 32 line in
    let walked : walk libc nodes' line 0 (split 32 line) none [] ≡ (some last, split 32 line) =
      ap (λ l. walk libc nodes' line 0 l none []) e
      ∙ walk-follow libc nodes' line 0 last w ws none [] (subst AllPlain e plain) (
          follow-grown nodes₁ nodes' 0 (w ∷ ws) last t₁ t' g'
            (subst (λ l. follow nodes₁ 0 l ≡ some last) e found))
      ∙ ap (λ l. (some last, l)) (sym e) in
    (
      nodes',
      rw ran refl,
      t',
      IsGrown-trans nodes nodes₁ nodes' g g',
      ap (λ r. call nodes' r.0 r.1) walked ∙ called nodes₁ last func (split 32 line) lt real,
    )

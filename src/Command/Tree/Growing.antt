-- ===== src/Command/Tree/Growing.antt =====
-- lib/zcmdsh/command.c: the tree keeps its children apart by their words, and what is found in it is
-- found after it has grown.
use mathlib.Core.Path.{subst}
use nettlp_dpdk.Prelude.{
  ℕ, ◌≤◌, ◌<◌, ◌≡◌, refl, sym, ap, ap₂, ◌∙◌, ◌⊎◌, inl, inr, true, false, Option, none, some, List,
  [], ◌∷◌, arith, ◌==◌, if◌then◌else◌, length, Bool-cases, ==→eq, eq→==,
}
use nettlp_dpdk.Command.Specs.{Text, same}
use nettlp_dpdk.Command.Tree.{Node, text, kids, find_exact, command_match_exact, has_child}
use nettlp_dpdk.Command.Tree.Matching.{
  has_child_here, has_child_there, has_child_cases, has_child_none,
}

pub same→eq : (a b : Text) → same a b ≡ true → a ≡ b
unfolding same
same→eq [] [] h = refl
same→eq [] (b ∷ bs) h = cc
same→eq (a ∷ as') [] h = cc
same→eq (a ∷ as') (b ∷ bs) h = elim (Bool-cases (a == b)) [
  | inl e ↦ ap₂ ◌∷◌ (==→eq a b e) (same→eq as' bs (sym (rw e refl) ∙ h))
  | inr e ↦ absurd (false-ne-true (sym (rw e refl) ∙ h))
]
  where
    false-ne-true : false ≡ true → ⊥
    false-ne-true h = cc

pub same_refl : (a : Text) → same a a ≡ true
unfolding same
same_refl [] = refl
same_refl (a ∷ as') = rw (eq→== a a refl) (same_refl as')

-- The children of a node are nodes, and no two of them have the same word.
pub record IsTree (nodes : List Node) : Type 0 where
  pub ids : (p c : ℕ) → has_child c (kids nodes p) ≡ true → c < length nodes
  pub distinct :
      (p c d : ℕ)
      → has_child c (kids nodes p) ≡ true
      → has_child d (kids nodes p) ≡ true
      → text nodes c ≡ text nodes d
      → c ≡ d

find_exact_sound :
    (nodes : List Node) (w : Text) (cs : List ℕ) (m : Option ℕ) (c : ℕ)
    → find_exact nodes w cs m ≡ some c
    → (m ≡ some c) ⊎ ((has_child c cs ≡ true) × (text nodes c ≡ w))
unfolding find_exact
find_exact_sound nodes w [] m c h = inl h
find_exact_sound nodes w (x ∷ cs) m c h =
    elim (find_exact_sound nodes w cs (if same (text nodes x) w then some x else m) c h) [
      | inr (there, e) ↦ inr (has_child_there c x cs there, e)
      | inl before ↦ elim (Bool-cases (same (text nodes x) w)) [
        | inr miss ↦ inl (sym (rw miss refl) ∙ before)
        | inl hit ↦
            let e : x ≡ c = some_inj (sym (rw hit refl) ∙ before) in
            inr (
              subst (λ k. has_child k (x ∷ cs) ≡ true) e (has_child_here x cs),
              subst (λ k. text nodes k ≡ w) e (same→eq (text nodes x) w hit),
            )
      ]
    ]
  where
    some_inj : {a b : ℕ} → some a ≡ some b → a ≡ b
    some_inj h = cc

find_exact-some :
    (nodes : List Node) (w : Text) (cs : List ℕ) (m : Option ℕ)
    → ((d : ℕ) × (m ≡ some d)) ⊎ ((c : ℕ) × (has_child c cs ≡ true) × (text nodes c ≡ w))
    → (d : ℕ) × (find_exact nodes w cs m ≡ some d)
unfolding find_exact
find_exact-some nodes w [] m (inl d) = d
find_exact-some nodes w [] m (inr (c, h, e)) = absurd (has_child_none c h)
find_exact-some nodes w (x ∷ cs) m (inl (d, e)) = find_exact-some nodes w cs _ (
    inl (elim (Bool-cases (same (text nodes x) w)) [
      | inl hit ↦ (x, rw hit refl)
      | inr miss ↦ (d, rw miss e)
    ]))
find_exact-some nodes w (x ∷ cs) m (inr (c, h, e)) = elim (has_child_cases c x cs h) [
  | inr there ↦ find_exact-some nodes w cs _ (inr (c, there, e))
  | inl here ↦
      find_exact-some nodes w cs _ (inl (x, rw (ap (text nodes) here, e, same_refl w) refl))
]

pub command_match_exact_sound :
    (nodes : List Node) (p : ℕ) (w : Text) (c : ℕ)
    → command_match_exact nodes p w ≡ some c
    → (has_child c (kids nodes p) ≡ true) × (text nodes c ≡ w)
unfolding command_match_exact
command_match_exact_sound nodes p w c h = elim (find_exact_sound nodes w (kids nodes p) none c h) [
  | inl e ↦ absurd (no e)
  | inr s ↦ s
]
  where
    no : none ≡ some c → ⊥
    no e = cc

-- In such a tree, the child with a word is the one found.
pub command_match_exact-found :
    (nodes : List Node) (p : ℕ) (w : Text) (c : ℕ)
    → IsTree nodes
    → has_child c (kids nodes p) ≡ true
    → text nodes c ≡ w
    → command_match_exact nodes p w ≡ some c
unfolding command_match_exact
command_match_exact-found nodes p w c t h e =
    let (d, f) = find_exact-some nodes w (kids nodes p) none (inr (c, h, e)) in
    let (h', e') = command_match_exact_sound nodes p w d f in
    f ∙ ap some (t.distinct p d c h' h (e' ∙ sym e))

-- A tree that has grown: the nodes are there, with their words and their children.
pub record IsGrown (nodes nodes' : List Node) : Type 0 where
  pub longer : length nodes ≤ length nodes'
  pub kept : (p c : ℕ) → has_child c (kids nodes p) ≡ true → has_child c (kids nodes' p) ≡ true
  pub texts : (c : ℕ) → c < length nodes → text nodes' c ≡ text nodes c

pub IsGrown-refl : (nodes : List Node) → IsGrown nodes nodes
IsGrown-refl nodes = record { longer = omega arith; kept = λ p c h. h; texts = λ c lt. refl }

pub IsGrown-trans : (a b c : List Node) → IsGrown a b → IsGrown b c → IsGrown a c
IsGrown-trans a b c g h = record {
  longer = omega (arith, g.longer, h.longer);
  kept = λ p k has. h.kept p k (g.kept p k has);
  texts = λ k lt. h.texts k (omega (arith, g.longer)) ∙ g.texts k lt;
}

pub command_match_exact-grown :
    (nodes nodes' : List Node) (p : ℕ) (w : Text) (c : ℕ)
    → IsTree nodes
    → IsTree nodes'
    → IsGrown nodes nodes'
    → command_match_exact nodes p w ≡ some c
    → command_match_exact nodes' p w ≡ some c
command_match_exact-grown nodes nodes' p w c t t' g h =
    let (has, e) = command_match_exact_sound nodes p w c h in
    command_match_exact-found nodes' p w c t' (g.kept p c has) (g.texts c (t.ids p c has) ∙ e)

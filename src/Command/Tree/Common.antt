-- ===== src/Command/Tree/Common.antt =====
-- lib/zcmdsh/command.c: what a word is completed to where several keywords begin with it.
use mathlib.Core.Path.{subst}
use nettlp_dpdk.Prelude.{
  ℕ, ◌<◌, ◌≡◌, refl, sym, ap₂, ◌∙◌, inl, inr, Bool, true, false, not, ◌&&◌, Option, none, some,
  List, [], ◌∷◌, ◌++◌, ◌==◌, length, drop, done, Bool-cases, ==→eq, eq→==, lt→leb,
}
use nettlp_dpdk.Command.Specs.{Text, Libc, is_command_match_regular}
use nettlp_dpdk.Command.Tree.{Node, text, kids, has_child}
use nettlp_dpdk.Command.Tree.Matching.{
  filter, has_child_here, has_child_there, has_child_cases, has_child_none,
}
use nettlp_dpdk.Command.Tree.Completion.{
  strcommon, is_node_variable, common_from, behind_word, command_complete_common,
}

-- `a` is the beginning of `b`.
abbrev pub IsPrefix : Text → Text → Type 0
IsPrefix a b = is_command_match_regular b a ≡ true

false-ne-true : false ≡ true → ⊥
false-ne-true h = cc

IsPrefix-cons : (x y : ℕ) (a b : Text) → IsPrefix (x ∷ a) (y ∷ b) → (y ≡ x) × IsPrefix a b
unfolding is_command_match_regular
IsPrefix-cons x y a b h = elim (Bool-cases (y == x)) [
  | inl e ↦ (==→eq y x e, sym (rw e refl) ∙ h)
  | inr e ↦ absurd (false-ne-true (sym (rw e refl) ∙ h))
]

cons-IsPrefix : (x y : ℕ) (a b : Text) → y ≡ x → IsPrefix a b → IsPrefix (x ∷ a) (y ∷ b)
unfolding is_command_match_regular
cons-IsPrefix x y a b e h = rw (eq→== y x e) h

IsPrefix-trans : (a b c : Text) → IsPrefix a b → IsPrefix b c → IsPrefix a c
unfolding is_command_match_regular
IsPrefix-trans [] b c h k = refl
IsPrefix-trans (x ∷ a) [] c h k = absurd (false-ne-true h)
IsPrefix-trans (x ∷ a) (y ∷ b) [] h k = absurd (false-ne-true k)
IsPrefix-trans (x ∷ a) (y ∷ b) (z ∷ c) h k =
    let (e, h') = IsPrefix-cons x y a b h in
    let (e', k') = IsPrefix-cons y z b c k in
    cons-IsPrefix x z a c (e' ∙ e) (IsPrefix-trans a b c h' k')

IsPrefix-refl : (a : Text) → IsPrefix a a
unfolding is_command_match_regular
IsPrefix-refl [] = refl
IsPrefix-refl (x ∷ a) = cons-IsPrefix x x a a refl (IsPrefix-refl a)

strcommon-left : (d s : Text) → IsPrefix (strcommon d s) d
unfolding strcommon is_command_match_regular
strcommon-left [] s = refl
strcommon-left (x ∷ d) [] = refl
strcommon-left (x ∷ d) (y ∷ s) = elim (Bool-cases (x == y)) [
  | inl e ↦ rw (strcommon, e) (cons-IsPrefix x x (strcommon d s) d refl (strcommon-left d s))
  | inr e ↦ rw (strcommon, e) refl
]

strcommon-right : (d s : Text) → IsPrefix (strcommon d s) s
unfolding strcommon is_command_match_regular
strcommon-right [] s = refl
strcommon-right (x ∷ d) [] = refl
strcommon-right (x ∷ d) (y ∷ s) = elim (Bool-cases (x == y)) [
  | inl e ↦
      rw (strcommon, e)
        (cons-IsPrefix x y (strcommon d s) s (sym (==→eq x y e)) (strcommon-right d s))
  | inr e ↦ rw (strcommon, e) refl
]

strcommon-greatest : (t d s : Text) → IsPrefix t d → IsPrefix t s → IsPrefix t (strcommon d s)
unfolding strcommon is_command_match_regular
strcommon-greatest [] d s h k = refl
strcommon-greatest (x ∷ t) [] s h k = absurd (false-ne-true h)
strcommon-greatest (x ∷ t) (y ∷ d) [] h k = absurd (false-ne-true k)
strcommon-greatest (x ∷ t) (y ∷ d) (z ∷ s) h k =
    let (e, h') = IsPrefix-cons x y t d h in
    let (e', k') = IsPrefix-cons x z t s k in
    rw (strcommon, eq→== y z (e ∙ sym e'))
      (cons-IsPrefix x y t (strcommon d s) e (strcommon-greatest t d s h' k'))

append-drop : (w t : Text) → IsPrefix w t → w ++ drop (length w) t ≡ t
unfolding is_command_match_regular
append-drop [] t h = refl
append-drop (x ∷ w) [] h = absurd (false-ne-true h)
append-drop (x ∷ w) (y ∷ t) h =
    let (e, h') = IsPrefix-cons x y w t h in ap₂ ◌∷◌ (sym e) (append-drop w t h')

-- The children that take part: not a variable, and their keyword begins with the word.
abbrev pub candidates : Libc → List Node → Text → List ℕ → List ℕ
candidates libc nodes word = filter (λ c.
    not (is_node_variable libc (text nodes c)) && is_command_match_regular (text nodes c) word)

and_right : (a b : Bool) → (a && b) ≡ true → b ≡ true
and_right true b h = h
and_right false b h = absurd (false-ne-true h)

candidates-IsPrefix :
    (libc : Libc) (nodes : List Node) (word : Text) (c : ℕ) (cs : List ℕ)
    → has_child c (candidates libc nodes word cs) ≡ true
    → IsPrefix word (text nodes c)
candidates-IsPrefix libc nodes word c [] h = absurd (has_child_none c h)
candidates-IsPrefix libc nodes word c (x ∷ cs) h =
    elim (Bool-cases (
      not (is_node_variable libc (text nodes x)) && is_command_match_regular (text nodes x) word)) [
        | inr out ↦ candidates-IsPrefix libc nodes word c cs (rw out at h)
        | inl part ↦ elim (has_child_cases c x (candidates libc nodes word cs) (rw part at h)) [
          | inr there ↦ candidates-IsPrefix libc nodes word c cs there
          | inl e ↦ subst (λ k. IsPrefix word (text nodes k)) e (and_right _ _ part)
        ]
      ]

-- `t` is the longest common beginning of a text, where there is one, and the children's keywords.
record IsCommon (nodes : List Node) (first : Option Text) (cs : List ℕ) (t : Text) : Type 0 where
  of_first : (f : Text) → first ≡ some f → IsPrefix t f
  of_all : (c : ℕ) → has_child c cs ≡ true → IsPrefix t (text nodes c)
  longest :
      (u : Text)
      → ((f : Text) → first ≡ some f → IsPrefix u f)
      → ((c : ℕ) → has_child c cs ≡ true → IsPrefix u (text nodes c))
      → IsPrefix u t

some_inj : {a b : Text} → some a ≡ some b → a ≡ b
some_inj h = cc

IsCommon-next :
    (nodes : List Node) (f t : Text) (c : ℕ) (ks : List ℕ)
    → IsCommon nodes (some (strcommon f (text nodes c))) ks t
    → IsCommon nodes (some f) (c ∷ ks) t
IsCommon-next nodes f t c ks h = record {
  of_first = λ g e. subst (IsPrefix t) (some_inj e) (
      IsPrefix-trans t (strcommon f (text nodes c)) f (h.of_first _ refl)
        (strcommon-left f (text nodes c)));
  of_all = λ k has. elim (has_child_cases k c ks has) [
    | inl e ↦
        subst (λ n. IsPrefix t (text nodes n)) e
          (IsPrefix-trans t (strcommon f (text nodes c)) (text nodes c) (h.of_first _ refl)
            (strcommon-right f (text nodes c)))
    | inr there ↦ h.of_all k there
  ];
  longest = λ u hf hk.
      h.longest u
        (λ g e.
          subst (IsPrefix u) (some_inj e)
            (strcommon-greatest u f (text nodes c) (hf f refl) (hk c (has_child_here c ks))))
        (λ k has. hk k (has_child_there k c ks has));
}

IsCommon-start :
    (nodes : List Node) (t : Text) (c : ℕ) (ks : List ℕ)
    → IsCommon nodes (some (text nodes c)) ks t
    → IsCommon nodes none (c ∷ ks) t
IsCommon-start nodes t c ks h = record {
  of_first = λ g e. cc;
  of_all = λ k has. elim (has_child_cases k c ks has) [
    | inl e ↦ subst (λ n. IsPrefix t (text nodes n)) e (h.of_first _ refl)
    | inr there ↦ h.of_all k there
  ];
  longest = λ u hf hk.
      h.longest u (λ g e. subst (IsPrefix u) (some_inj e) (hk c (has_child_here c ks)))
        (λ k has. hk k (has_child_there k c ks has));
}

-- The loop with a text.
IsCommon-some :
    (libc : Libc) (nodes : List Node) (word : Text) (cs : List ℕ) (f : Text)
    → (t : Text) × (common_from libc nodes word cs (some f) ≡ done (some t))
      × IsCommon nodes (some f) (candidates libc nodes word cs) t
unfolding common_from
IsCommon-some libc nodes word [] f = (
  f,
  refl,
  record {
    of_first = λ g e. subst (IsPrefix f) (some_inj e) (IsPrefix-refl f);
    of_all = λ c h. absurd (has_child_none c h);
    longest = λ u h k. h f refl;
  },
)
IsCommon-some libc nodes word (c ∷ cs) f =
    elim (Bool-cases (is_node_variable libc (text nodes c))) [
      | inl v ↦ rw v (IsCommon-some libc nodes word cs f)
      | inr v ↦ elim (Bool-cases (is_command_match_regular (text nodes c) word)) [
        | inr r ↦ rw (v, r) (IsCommon-some libc nodes word cs f)
        | inl r ↦
            let (t, e, h) = IsCommon-some libc nodes word cs (strcommon f (text nodes c)) in
            rw (v, r) ((t, e, IsCommon-next nodes f t c (candidates libc nodes word cs) h))
      ]
    ]

-- The loop from the start, where a child takes part.
IsCommon-none :
    (libc : Libc) (nodes : List Node) (word : Text) (cs : List ℕ) (first : ℕ)
    → ((c : ℕ) → has_child c cs ≡ true → length (text nodes c) < 64)
    → has_child first (candidates libc nodes word cs) ≡ true
    → (t : Text) × (common_from libc nodes word cs none ≡ done (some t))
      × IsCommon nodes none (candidates libc nodes word cs) t
unfolding common_from
IsCommon-none libc nodes word [] first short has = absurd (has_child_none first has)
IsCommon-none libc nodes word (c ∷ cs) first short has =
    let short' = λ (k : ℕ) (h : has_child k cs ≡ true). short k (has_child_there k c cs h) in
    elim (Bool-cases (is_node_variable libc (text nodes c))) [
      | inl v ↦ rw v (IsCommon-none libc nodes word cs first short' (rw v at has))
      | inr v ↦ elim (Bool-cases (is_command_match_regular (text nodes c) word)) [
        | inr r ↦ rw (v, r) (IsCommon-none libc nodes word cs first short' (rw (v, r) at has))
        | inl r ↦
            let (t, e, h) = IsCommon-some libc nodes word cs (text nodes c) in
            rw (v, r, lt→leb 64 (length (text nodes c)) (short c (has_child_here c cs)))
              ((t, e, IsCommon-start nodes t c (candidates libc nodes word cs) h))
      ]
    ]

-- Where the text of some node below a node begins with the word, and is_command_node_variable does
-- not take the node for a variable, the completion puts behind the word what is common to all such
-- nodes, and all of it: the word with the completion begins the text of each of them, and whatever
-- begins each of these begins the word with the completion. The texts of all nodes below are shorter
-- than the 64 bytes of the buffer. Nodes for <WORD> and A.B.C.D/M are among those that take part.
pub command_complete_common-longest :
    (libc : Libc) (nodes : List Node) (parent : ℕ) (word : Text) (first : ℕ)
    → ((c : ℕ) → has_child c (kids nodes parent) ≡ true → length (text nodes c) < 64)
    → has_child first (candidates libc nodes word (kids nodes parent)) ≡ true
    → (r : Text) × (command_complete_common libc nodes parent word ≡ done r)
      × ((c : ℕ)
          → has_child c (candidates libc nodes word (kids nodes parent)) ≡ true
          → IsPrefix (word ++ r) (text nodes c))
      × ((u : Text)
          → ((c : ℕ)
              → has_child c (candidates libc nodes word (kids nodes parent)) ≡ true
              → IsPrefix u (text nodes c))
          → IsPrefix u (word ++ r))
unfolding command_complete_common behind_word
command_complete_common-longest libc nodes parent word first short has =
    let (t, e, h) = IsCommon-none libc nodes word (kids nodes parent) first short has in
    let begins : IsPrefix word t =
      h.longest word (λ f e. cc)
        (λ c in_cs. candidates-IsPrefix libc nodes word c (kids nodes parent) in_cs) in
    let whole = append-drop word t begins in
    (
      drop (length word) t,
      rw e refl,
      λ c in_cs. subst (λ l. IsPrefix l (text nodes c)) (sym whole) (h.of_all c in_cs),
      λ u all. subst (IsPrefix u) (sym whole) (h.longest u (λ f e. cc) all),
    )

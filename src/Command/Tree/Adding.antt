-- ===== src/Command/Tree/Adding.antt =====
-- lib/zcmdsh/command.c: a node added below its parent, and the words of a command installed.
use mathlib.Core.Path.{subst}
use nettlp_dpdk.Prelude.{
  ℕ, ◌+◌, ◌-◌, ◌≤◌, ◌<◌, ◌≡◌, ◌≢◌, refl, sym, ap, ◌∙◌, ◌⊎◌, inl, inr, true, false, Option, none,
  some, List, [], ◌∷◌, ◌++◌, arith, ltb, ◌==◌, length, get_or, set, done, Bool-cases, ltb→lt,
  ltb→le, ==→eq, ==→ne, length-append, length-set, get_or-set_self, get_or-set_ne,
  get_or-append_left, get_or-append_right, get_or_out,
}
use nettlp_dpdk.Command.Specs.{Text}
use nettlp_dpdk.Command.Tree.{
  Node, no_node, node_at, text, kids, command_match_exact, has_child, add_node,
}
use nettlp_dpdk.Command.Tree.Matching.{
  has_child_here, has_child_there, has_child_cases, has_child_none,
}
use nettlp_dpdk.Command.Tree.Growing.{IsTree, IsGrown, command_match_exact-found}

-- qsort keeps the elements.
unfoldable pub Keeps : (List ℕ → List ℕ) → Type 0
Keeps sort = (c : ℕ) (cs : List ℕ) → has_child c (sort cs) ≡ has_child c cs

has_child-append :
    (c x : ℕ) (cs : List ℕ)
    → has_child c (cs ++ (x ∷ [])) ≡ true
    → (c ≡ x) ⊎ (has_child c cs ≡ true)
has_child-append c x [] h = elim (has_child_cases c x [] h) [ inl e ↦ inl (sym e) | inr n ↦ inr n ]
has_child-append c x (y ∷ cs) h = elim (has_child_cases c y (cs ++ (x ∷ [])) h) [
  | inl e ↦ inr (subst (λ k. has_child k (y ∷ cs) ≡ true) e (has_child_here y cs))
  | inr there ↦ elim (has_child-append c x cs there) [
    | inl e ↦ inl e
    | inr in_cs ↦ inr (has_child_there c y cs in_cs)
  ]
]

has_child-append_left :
    (c x : ℕ) (cs : List ℕ) → has_child c cs ≡ true → has_child c (cs ++ (x ∷ [])) ≡ true
has_child-append_left c x [] h = absurd (has_child_none c h)
has_child-append_left c x (y ∷ cs) h = elim (has_child_cases c y cs h) [
  | inl e ↦
      subst (λ k. has_child k (y ∷ (cs ++ (x ∷ []))) ≡ true) e (has_child_here y (cs ++ (x ∷ [])))
  | inr there ↦ has_child_there c y (cs ++ (x ∷ [])) (has_child-append_left c x cs there)
]

has_child-append_last : (x : ℕ) (cs : List ℕ) → has_child x (cs ++ (x ∷ [])) ≡ true
has_child-append_last x [] = has_child_here x []
has_child-append_last x (y ∷ cs) = has_child_there x y (cs ++ (x ∷ [])) (has_child-append_last x cs)

-- The nodes with `above` in the place of `parent` and `new` behind all.
abbrev grown : List Node → ℕ → Node → Node → List Node
grown nodes parent above new = set nodes parent above ++ (new ∷ [])

node_cases :
    (nodes : List Node) (parent : ℕ) (above new : Node) (p : ℕ)
    → parent < length nodes
    → ((p ≡ parent) × (node_at (grown nodes parent above new) p ≡ above))
      ⊎ (((p ≢ parent)
            × (p < length nodes)
            × (node_at (grown nodes parent above new) p ≡ node_at nodes p))
          ⊎ (((p ≡ length nodes) × (node_at (grown nodes parent above new) p ≡ new))
              ⊎ ((length nodes < p) × (node_at (grown nodes parent above new) p ≡ no_node))))
node_cases nodes parent above new p lt =
    let len = length-set nodes parent above in
    elim (Bool-cases (ltb p (length nodes))) [
      | inl in_nodes ↦
          let left =
            get_or-append_left (set nodes parent above) (new ∷ []) p no_node
              (omega (arith, len, ltb→lt p (length nodes) in_nodes)) in
          elim (Bool-cases (p == parent)) [
            | inl e ↦ inl (
              ==→eq p parent e,
              left
                  ∙ ap (λ k. get_or (set nodes parent above) k no_node) (==→eq p parent e)
                  ∙ get_or-set_self nodes parent above no_node lt,
            )
            | inr ne ↦ inr (
                inl (
                  ==→ne p parent ne,
                  ltb→lt p (length nodes) in_nodes,
                  left
                      ∙ get_or-set_ne nodes parent p above no_node (λ e. ==→ne p parent ne (sym e)),
                ))
          ]
      | inr past ↦
          let right =
            get_or-append_right (set nodes parent above) (new ∷ []) p no_node
              (omega (arith, len, ltb→le p (length nodes) past)) in
          elim (Bool-cases (p == length nodes)) [
            | inl e ↦ inr (
                inr (
                  inl (
                    ==→eq p (length nodes) e,
                    right
                        ∙ at_zero (p - length (set nodes parent above))
                            (omega (arith, len, ==→eq p (length nodes) e)),
                  )))
            | inr ne ↦
                let gt : length nodes < p =
                  omega (arith, ltb→le p (length nodes) past, ==→ne p (length nodes) ne) in
                inr
                  (inr (inr (gt, right ∙ get_or_out (new ∷ []) _ no_node (omega (arith, len, gt)))))
          ]
    ]
  where
    at_zero : (k : ℕ) → k ≡ 0 → get_or (new ∷ []) k no_node ≡ new
    at_zero k e = rw e refl

module _ (nodes : List Node) (parent : ℕ) (lt : parent < length nodes) (word : Text)
    (help : Option Text) (cs : List ℕ) where
  abbrev new_node : Node
  new_node = record { cmdstr = word; helpstr = help; func = 0; cmdvec = [] }

  abbrev above_node : Node
  above_node = record (node_at nodes parent) { cmdvec = cs }

  abbrev more : List Node
  more = grown nodes parent above_node new_node

  kids_cases :
      (p c : ℕ)
      → has_child c (kids more p) ≡ true
      → ((p ≡ parent) × (has_child c cs ≡ true)) ⊎ (has_child c (kids nodes p) ≡ true)
  kids_cases p c h = elim (node_cases nodes parent above_node new_node p lt) [
    | inl (e, at) ↦ inl (e, sym (ap (λ n. has_child c n.cmdvec) at) ∙ h)
    | inr (inl (ne, in_nodes, at)) ↦ inr (sym (ap (λ n. has_child c n.cmdvec) at) ∙ h)
    | inr (inr (inl (e, at))) ↦
        absurd (has_child_none c (sym (ap (λ n. has_child c n.cmdvec) at) ∙ h))
    | inr (inr (inr (past, at))) ↦
        absurd (has_child_none c (sym (ap (λ n. has_child c n.cmdvec) at) ∙ h))
  ]

  kids_kept :
      ((c : ℕ) → has_child c (kids nodes parent) ≡ true → has_child c cs ≡ true)
      → (p c : ℕ) → has_child c (kids nodes p) ≡ true
      → has_child c (kids more p) ≡ true
  kids_kept all p c h = elim (node_cases nodes parent above_node new_node p lt) [
    | inl (e, at) ↦
        ap (λ n. has_child c n.cmdvec) at
        ∙ all c (subst (λ k. has_child c (kids nodes k) ≡ true) e h)
    | inr (inl (ne, in_nodes, at)) ↦ ap (λ n. has_child c n.cmdvec) at ∙ h
    | inr (inr (inl (e, at))) ↦ absurd (outside p c (omega (arith, e)) h)
    | inr (inr (inr (past, at))) ↦ absurd (outside p c (omega arith) h)
  ]
    where
      outside : (p c : ℕ) → length nodes ≤ p → has_child c (kids nodes p) ≡ true → ⊥
      outside p c le h =
          has_child_none c
            (sym (ap (λ n. has_child c n.cmdvec) (get_or_out nodes p no_node le)) ∙ h)

  text_kept : (c : ℕ) → c < length nodes → text more c ≡ text nodes c
  text_kept c in_nodes = elim (node_cases nodes parent above_node new_node c lt) [
    | inl (e, at) ↦ ap (λ n. n.cmdstr) at ∙ ap (text nodes) (sym e)
    | inr (inl (ne, l, at)) ↦ ap (λ n. n.cmdstr) at
    | inr (inr (inl (e, at))) ↦ absurd (omega (arith, e))
    | inr (inr (inr (past, at))) ↦ absurd (omega arith)
  ]

  text_new : text more (length nodes) ≡ word
  text_new = elim (node_cases nodes parent above_node new_node (length nodes) lt) [
    | inl (e, at) ↦ absurd (omega (arith, e))
    | inr (inl (ne, l, at)) ↦ absurd (omega arith)
    | inr (inr (inl (e, at))) ↦ ap (λ n. n.cmdstr) at
    | inr (inr (inr (past, at))) ↦ absurd (omega arith)
  ]

  kids_parent : (c : ℕ) → has_child c cs ≡ true → has_child c (kids more parent) ≡ true
  kids_parent c h = elim (node_cases nodes parent above_node new_node parent lt) [
    | inl (e, at) ↦ ap (λ n. has_child c n.cmdvec) at ∙ h
    | inr (inl (ne, l, at)) ↦ absurd (ne refl)
    | inr (inr (inl (e, at))) ↦ absurd (omega (arith, e))
    | inr (inr (inr (past, at))) ↦ absurd (omega arith)
  ]

  length-more : length more ≡ length nodes + 1
  length-more =
      length-append (set nodes parent above_node) (new_node ∷ [])
      ∙ omega (arith, length-set nodes parent above_node)

-- The tree with the new node, where the parent's new children are its old ones and that node.
grown-IsTree :
    (nodes : List Node) (parent : ℕ) (lt : parent < length nodes) (word : Text) (help : Option Text)
    (cs : List ℕ)
    → IsTree nodes
    → command_match_exact nodes parent word ≡ none
    → ((c : ℕ)
        → has_child c cs ≡ true
        → (c ≡ length nodes) ⊎ (has_child c (kids nodes parent) ≡ true))
    → IsTree (more nodes parent lt word help cs)
grown-IsTree nodes parent lt word help cs t miss old_or_new = record {
  ids = λ p c h. elim (origin p c h) [
    | inl (e, new) ↦ omega (arith, new, length-more nodes parent lt word help cs)
    | inr old ↦ omega (arith, t.ids p c old, length-more nodes parent lt word help cs)
  ];
  distinct = λ p c d hc hd e. elim (origin p c hc) [
    | inl (ep, nc) ↦ elim (origin p d hd) [
      | inl (eq, nd) ↦ nc ∙ sym nd
      | inr old ↦ absurd (clash p d c ep old nc (sym e))
    ]
    | inr old_c ↦ elim (origin p d hd) [
      | inl (ep, nd) ↦ absurd (clash p c d ep old_c nd e)
      | inr old_d ↦ t.distinct p c d old_c old_d (
          sym (text_kept nodes parent lt word help cs c (t.ids p c old_c))
          ∙ e
          ∙ text_kept nodes parent lt word help cs d (t.ids p d old_d))
    ]
  ];
}
  where
    origin :
        (p c : ℕ)
        → has_child c (kids (more nodes parent lt word help cs) p) ≡ true
        → ((p ≡ parent) × (c ≡ length nodes)) ⊎ (has_child c (kids nodes p) ≡ true)
    origin p c h = elim (kids_cases nodes parent lt word help cs p c h) [
      | inr old ↦ inr old
      | inl (e, in_cs) ↦ elim (old_or_new c in_cs) [
        | inl new ↦ inl (e, new)
        | inr old ↦ inr (subst (λ k. has_child c (kids nodes k) ≡ true) (sym e) old)
      ]
    ]

    none-ne-some : {c : ℕ} → none ≡ some c → ⊥
    none-ne-some h = cc

    clash :
        (p c d : ℕ)
        → p ≡ parent
        → has_child c (kids nodes p) ≡ true
        → d ≡ length nodes
        → text (more nodes parent lt word help cs) c ≡ text (more nodes parent lt word help cs) d
        → ⊥
    clash p c d ep old new e = none-ne-some (
        sym miss
        ∙ command_match_exact-found nodes parent word c t
            (subst (λ k. has_child c (kids nodes k) ≡ true) ep old)
            (sym (text_kept nodes parent lt word help cs c (t.ids p c old))
              ∙ e
              ∙ ap (text (more nodes parent lt word help cs)) new
              ∙ text_new nodes parent lt word help cs))

-- A node added for a word that no child has.
pub add_node_lem :
    (sort : List ℕ → List ℕ) (nodes : List Node) (parent : ℕ) (word : Text) (help : Option Text)
    → Keeps sort
    → IsTree nodes
    → parent < length nodes
    → command_match_exact nodes parent word ≡ none
    → (nodes' : List Node) × (add_node sort nodes parent word help ≡ done (nodes', length nodes))
      × IsTree nodes'
      × IsGrown nodes nodes'
      × (length nodes < length nodes')
      × (command_match_exact nodes' parent word ≡ some (length nodes))
unfolding add_node Keeps
add_node_lem sort nodes parent word help keeps t lt miss =
    let id : ℕ = length nodes in
    let cs : List ℕ = sort (kids nodes parent ++ (id ∷ [])) in
    let nodes' =
      grown nodes parent (above_node nodes parent lt word help cs)
        (new_node nodes parent lt word help cs) in
    let fresh : has_child id (kids nodes parent) ≡ false =
      elim (Bool-cases (has_child id (kids nodes parent))) [
        | inl has ↦ absurd (omega (arith, t.ids parent id has))
        | inr absent ↦ absent
      ] in
    let old_or_new = λ (c : ℕ) (h : has_child c cs ≡ true).
      has_child-append c id (kids nodes parent)
        (sym (keeps c (kids nodes parent ++ (id ∷ []))) ∙ h) in
    let tree : IsTree nodes' = grown-IsTree nodes parent lt word help cs t miss old_or_new in
    let here : has_child id (kids nodes' parent) ≡ true =
      kids_parent nodes parent lt word help cs id (
        keeps id (kids nodes parent ++ (id ∷ [])) ∙ has_child-append_last id (kids nodes parent)) in
    (
      nodes',
      rw (add_node, fresh) refl,
      tree,
      record {
        longer = omega (arith, length-more nodes parent lt word help cs);
        kept = kids_kept nodes parent lt word help cs (λ c h.
            keeps c (kids nodes parent ++ (id ∷ []))
            ∙ has_child-append_left c id (kids nodes parent) h);
        texts = text_kept nodes parent lt word help cs;
      },
      omega (arith, length-more nodes parent lt word help cs),
      command_match_exact-found nodes' parent word id tree here
          (text_new nodes parent lt word help cs),
    )

-- ===== src/Command/Tree/Installing.antt =====
-- lib/zcmdsh/command.c: the words of a command that is installed lead to its node.
use nettlp_dpdk.Prelude.{
  ℕ, ◌<◌, ◌≡◌, refl, sym, ◌∙◌, inl, inr, Option, none, some, List, [], ◌∷◌, length, done,
  Option-cases,
}
use nettlp_dpdk.Command.Specs.{Text}
use nettlp_dpdk.Command.Tree.{Node, command_match_exact, next_help, install_words}
use nettlp_dpdk.Command.Tree.Growing.{
  IsTree, IsGrown, IsGrown-refl, IsGrown-trans, command_match_exact_sound,
  command_match_exact-grown,
}
use nettlp_dpdk.Command.Tree.Adding.{Keeps, add_node_lem}

-- The node that a list of words leads to by whole keywords.
unfoldable pub follow : List Node → ℕ → List Text → Option ℕ
follow nodes p [] = some p
follow nodes p (w ∷ ws) = elim (command_match_exact nodes p w) [
  | none ↦ none
  | some c ↦ follow nodes c ws
]

follow-some :
    (nodes : List Node) (p c : ℕ) (w : Text) (ws : List Text)
    → command_match_exact nodes p w ≡ some c
    → follow nodes p (w ∷ ws) ≡ follow nodes c ws
unfolding follow
follow-some nodes p c w ws e = rw (follow, e) refl

follow-none :
    (nodes : List Node) (p : ℕ) (w : Text) (ws : List Text)
    → command_match_exact nodes p w ≡ none
    → follow nodes p (w ∷ ws) ≡ none
unfolding follow
follow-none nodes p w ws e = rw (follow, e) refl

none-ne-some : {c : ℕ} → none ≡ some c → ⊥
none-ne-some h = cc

pub follow_step :
    (nodes : List Node) (p : ℕ) (w : Text) (ws : List Text) (last : ℕ)
    → follow nodes p (w ∷ ws) ≡ some last
    → (c : ℕ) × (command_match_exact nodes p w ≡ some c) × (follow nodes c ws ≡ some last)
follow_step nodes p w ws last h = elim (Option-cases (command_match_exact nodes p w)) [
  | inl e ↦ absurd (none-ne-some (sym (follow-none nodes p w ws e) ∙ h))
  | inr (c, e) ↦ (c, e, sym (follow-some nodes p c w ws e) ∙ h)
]

pub follow-grown :
    (nodes nodes' : List Node) (p : ℕ) (ws : List Text) (last : ℕ)
    → IsTree nodes
    → IsTree nodes'
    → IsGrown nodes nodes'
    → follow nodes p ws ≡ some last
    → follow nodes' p ws ≡ some last
unfolding follow
follow-grown nodes nodes' p [] last t t' g h = h
follow-grown nodes nodes' p (w ∷ ws) last t t' g h =
    let (c, e, rest) = follow_step nodes p w ws last h in
    follow-some nodes' p c w ws (command_match_exact-grown nodes nodes' p w c t t' g e)
    ∙ follow-grown nodes nodes' c ws last t t' g rest

pub install_words_lem :
    (sort : List ℕ → List ℕ) (nodes : List Node) (parent : ℕ) (ws helps : List Text)
    → Keeps sort
    → IsTree nodes
    → parent < length nodes
    → (nodes' : List Node) × (last : ℕ) × (install_words sort nodes parent ws helps
        ≡ done (nodes', last))
      × IsTree nodes'
      × IsGrown nodes nodes'
      × (last < length nodes')
      × (follow nodes' parent ws ≡ some last)
unfolding install_words
install_words_lem sort nodes parent [] helps keeps t lt =
    (nodes, parent, refl, t, IsGrown-refl nodes, lt, unfold follow in refl)
install_words_lem sort nodes parent (w ∷ ws) helps keeps t lt =
    elim (Option-cases (command_match_exact nodes parent w)) [
      | inr (c, e) ↦
          let (has, word) = command_match_exact_sound nodes parent w c e in
          let (nodes', last, ran, t', g, lt', found) =
            install_words_lem sort nodes c ws (next_help helps).1 keeps t (t.ids parent c has) in
          (
            nodes',
            last,
            rw (install_words, e) ran,
            t',
            g,
            lt',
            follow-some nodes' parent c w ws
                  (command_match_exact-grown nodes nodes' parent w c t t' g e)
                ∙ found,
          )
      | inl miss ↦
          let (nodes₁, added, t₁, g₁, longer, there) =
            add_node_lem sort nodes parent w (next_help helps).0 keeps t lt miss in
          let (nodes', last, ran, t', g, lt', found) =
            install_words_lem sort nodes₁ (length nodes) ws (next_help helps).1 keeps t₁ longer in
          (
            nodes',
            last,
            rw (install_words, miss, added) ran,
            t',
            IsGrown-trans nodes nodes₁ nodes' g₁ g,
            lt',
            follow-some nodes' parent (length nodes) w ws
                  (command_match_exact-grown nodes₁ nodes' parent w (length nodes) t₁ t' g there)
                ∙ found,
          )
    ]

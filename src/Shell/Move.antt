-- ===== src/Shell/Move.antt =====
-- shell_forward, shell_backward and shell_moveto, on the line and on the terminal.
use nettlp_dpdk.Prelude.{
  ℕ, ◌+◌, ◌≡◌, refl, sym, ap, ◌∙◌, List, ◌∷◌, ◌++◌, arith, length, take, drop, replicate,
  length-append, le→ltb,
}
use mathlib.Core.List.{append_assoc}
use mathlib.Core.Path.{subst}
use nettlp_dpdk.Shell.{Shell, space, bs, write, forward, backward}
use nettlp_dpdk.Shell.Screen.{
  IsPrintable, IsPrintable-append, IsPrintable-left, IsPrintable-right, feed, feed-backspaces,
  feed-visible, shown, take-length, drop-length,
}
use nettlp_dpdk.Shell.Held.{view, Holds, Edits, view-Edits, screen_eq, fields_eq}

module _ (s : Shell) (a m b rest : List ℕ) where
  line_eq : (a ++ m) ++ (b ++ (0 ∷ rest)) ≡ a ++ ((m ++ b) ++ (0 ∷ rest))
  line_eq =
      append_assoc a m (b ++ (0 ∷ rest)) ∙ ap (λ l. a ++ l) (sym (append_assoc m b (0 ∷ rest)))

  end_eq : length (a ++ m) + length b ≡ length a + length (m ++ b)
  end_eq = omega (arith, length-append a m, length-append m b)

  backward-view :
      backward (length m) (view s (a ++ m) b rest)
      ≡ record (view s a (m ++ b) rest) { out = s.out ++ replicate (length m) bs }
  unfolding backward write
  backward-view = rw (le→ltb (length (a ++ m)) (length m) (omega (arith, length-append a m))) (
      fields_eq s _ _ _ _ _ _ _ _ _ _ line_eq (omega (arith, length-append a m)) end_eq
        (ap (λ k. k + 1 + length rest) end_eq) refl)

  taken : take (length m) (drop (length a) (a ++ ((m ++ b) ++ (0 ∷ rest)))) ≡ m
  taken =
      ap (take (length m)) (drop-length a ((m ++ b) ++ (0 ∷ rest)) ∙ append_assoc m b (0 ∷ rest))
      ∙ take-length m (b ++ (0 ∷ rest))

  forward-view :
      forward (length m) (view s a (m ++ b) rest)
      ≡ record (view s (a ++ m) b rest) { out = s.out ++ m }
  unfolding forward write
  forward-view =
      rw
        (le→ltb (length a + length (m ++ b)) (length a + length m)
          (omega (arith, length-append m b)))
        (fields_eq s _ _ _ _ _ _ _ _ _ _ (sym line_eq) (omega (arith, length-append a m))
          (sym end_eq) (ap (λ k. k + 1 + length rest) (sym end_eq)) (ap (λ l. s.out ++ l) taken))

  backward_keeps :
      (k : ℕ)
      → feed (replicate (length m) bs) (shown ((a ++ m) ++ b) (length (a ++ m)) k)
        ≡ shown (a ++ (m ++ b)) (length a) k
  backward_keeps k =
      feed-backspaces (length m) (shown ((a ++ m) ++ b) (length (a ++ m)) k)
      ∙ screen_eq _ _ _ _ (ap (λ l. l ++ replicate k space) (append_assoc a m b))
          (omega (arith, length-append a m))

  forward_keeps :
      IsPrintable m
      → (k : ℕ)
      → feed m (shown (a ++ (m ++ b)) (length a) k) ≡ shown ((a ++ m) ++ b) (length (a ++ m)) k
  forward_keeps p k =
      ap (feed m)
        (screen_eq _ _ (length a) (length a) (append_assoc a (m ++ b) (replicate k space)) refl)
      ∙ feed-visible m a ((m ++ b) ++ replicate k space) p
      ∙ screen_eq _ _ _ _ cells_eq (omega (arith, length-append a m))
    where
      cells_eq :
          a ++ (m ++ drop (length m) ((m ++ b) ++ replicate k space))
          ≡ ((a ++ m) ++ b) ++ replicate k space
      cells_eq =
          ap (λ l. a ++ (m ++ l))
            (ap (drop (length m)) (append_assoc m b (replicate k space))
              ∙ drop-length m (b ++ replicate k space))
          ∙ sym (append_assoc a m (b ++ replicate k space))
          ∙ sym (append_assoc (a ++ m) b (replicate k space))

-- On a shell that can write, moving back over the part `m` before the cursor puts the cursor in
-- front of it, in a line that stays as it is, and the terminal's cursor follows.
pub backward-Edits :
    (s : Shell) (a m b : List ℕ)
    → Holds s (a ++ m) b
    → Edits s (backward (length m) s) (a ++ m) b a (m ++ b)
backward-Edits s a m b h =
    subst (λ x. Edits x (backward (length m) x) (a ++ m) b a (m ++ b)) (sym h.is_view)
      (subst (λ y. Edits (view s (a ++ m) b h.rest) y (a ++ m) b a (m ++ b))
        (sym (backward-view s a m b h.rest))
        (view-Edits s (a ++ m) b h.rest a (m ++ b) h.rest (replicate (length m) bs)
          (IsPrintable-left a m h.before)
          (IsPrintable-append m b (IsPrintable-right a m h.before) h.behind)
          (λ k. (k, backward_keeps s a m b h.rest k))))

-- On a shell that can write, moving forward over the part `m` behind the cursor writes it again and
-- puts the cursor behind it, in a line that stays as it is, and the terminal shows both.
pub forward-Edits :
    (s : Shell) (a m b : List ℕ)
    → Holds s a (m ++ b)
    → Edits s (forward (length m) s) a (m ++ b) (a ++ m) b
forward-Edits s a m b h =
    subst (λ x. Edits x (forward (length m) x) a (m ++ b) (a ++ m) b) (sym h.is_view)
      (subst (λ y. Edits (view s a (m ++ b) h.rest) y a (m ++ b) (a ++ m) b)
        (sym (forward-view s a m b h.rest))
        (view-Edits s a (m ++ b) h.rest (a ++ m) b h.rest m
          (IsPrintable-append a m h.before (IsPrintable-left m b h.behind))
          (IsPrintable-right m b h.behind)
          (λ k. (k, forward_keeps s a m b h.rest (IsPrintable-left m b h.behind) k))))

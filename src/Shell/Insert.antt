-- ===== src/Shell/Insert.antt =====
-- shell_insert, on the line, on the buffer and on the terminal.
use nettlp_dpdk.Prelude.{
  ℕ, ◌+◌, ◌-◌, ◌≤◌, ◌≡◌, refl, sym, ap, ◌∙◌, Bool, true, List, ◌++◌, arith, length, drop, replicate,
  length-append, done, ◌>>=◌, drop_eq,
}
use mathlib.Core.List.{append_assoc}
use mathlib.Core.Path.{subst}
use nettlp_dpdk.Shell.{Shell, space, bs, splice, echo, insert}
use nettlp_dpdk.Shell.Screen.{
  IsPrintable, IsPrintable-append, feed, feed-append, feed-backspaces, feed-visible, shown,
  drop-add-length, drop-replicate,
}
use nettlp_dpdk.Shell.Held.{view, Holds, Edits, Yields, view-Edits, screen_eq}
use nettlp_dpdk.Shell.Splice.{expand-view, echo-view}

module _ (str a b : List ℕ) where
  insert_keeps :
      IsPrintable str
      → IsPrintable b
      → (k : ℕ)
      → feed ((str ++ b) ++ replicate (length b) bs) (shown (a ++ b) (length a) k)
        ≡ shown ((a ++ str) ++ b) (length (a ++ str)) (k - length str)
  insert_keeps p q k =
      feed-append (str ++ b) (replicate (length b) bs) _
      ∙ ap (feed (replicate (length b) bs)) (
          ap (feed (str ++ b))
            (screen_eq _ _ (length a) (length a) (append_assoc a b (replicate k space)) refl)
          ∙ feed-visible (str ++ b) a (b ++ replicate k space) (IsPrintable-append str b p q))
      ∙ feed-backspaces (length b) _
      ∙ screen_eq _ _ _ _ cells_eq (omega (arith, length-append a str, length-append str b))
    where
      over : drop (length (str ++ b)) (b ++ replicate k space) ≡ replicate (k - length str) space
      over =
          drop_eq _ (length b + length str) _ (omega (arith, length-append str b))
          ∙ drop-add-length b (replicate k space) (length str)
          ∙ drop-replicate (length str) k

      cells_eq :
          a ++ ((str ++ b) ++ drop (length (str ++ b)) (b ++ replicate k space))
          ≡ ((a ++ str) ++ b) ++ replicate (k - length str) space
      cells_eq =
          ap (λ l. a ++ ((str ++ b) ++ l)) over
          ∙ sym (append_assoc a (str ++ b) (replicate (k - length str) space))
          ∙ ap (λ l. l ++ replicate (k - length str) space) (sym (append_assoc a str b))

-- On a shell that can write and where memory is served, inserting a printable string puts it before the cursor, whatever room
-- the buffer had: the buffer grows to hold the line and its NUL, and the terminal shows the line.
pub insert-Edits :
    (grant : ℕ → Bool) (str : List ℕ) (s : Shell) (a b : List ℕ)
    → ((k : ℕ) → grant k ≡ true)
    → IsPrintable str
    → Holds s a b
    → Yields (insert grant str s) s a b (a ++ str) b
unfolding insert
insert-Edits grant str s a b served p h =
    subst (λ x. Yields (insert grant str x) x a b (a ++ str) b) (sym h.is_view) of_view
  where
    of_fields :
        (rest' : List ℕ)
        → Edits
            (view s a b h.rest)
            (record (view s (a ++ str) b (drop (length str) rest')) {
              out = s.out ++ ((str ++ b) ++ replicate (length b) bs);
            })
            a
            b
            (a ++ str)
            b
    of_fields rest' =
        view-Edits s a b h.rest (a ++ str) b (drop (length str) rest')
          ((str ++ b) ++ replicate (length b) bs) (IsPrintable-append a str h.before p) h.behind
          (λ k. (k - length str, insert_keeps str a b p h.behind k))

    of_view : Yields (insert grant str (view s a b h.rest)) (view s a b h.rest) a b (a ++ str) b
    of_view =
        let (rest', e, room) =
          expand-view s a b (length a + length b + length str + 1)
            (length a + length b + length str + 1) grant h.rest served (omega arith) in
        let enough : length str ≤ length rest' = omega arith in
        (
          echo str (splice str (view s a b rest')),
          ap (λ r. r >>= λ s'. done (echo str (splice str s'))) e,
          subst (λ y. Edits (view s a b h.rest) y a b (a ++ str) b)
              (sym (echo-view s str a b rest' enough p h.behind)) (of_fields rest'),
        )

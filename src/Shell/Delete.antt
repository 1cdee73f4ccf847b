-- ===== src/Shell/Delete.antt =====
-- shell_delete_string and shell_cut, on the line, on the buffer and on the terminal.
use nettlp_dpdk.Prelude.{
  ℕ, ◌+◌, ◌-◌, ◌≡◌, refl, sym, ap, ap₂, ◌∙◌, List, ◌∷◌, ◌++◌, arith, length, drop, set, replicate,
  length-append, le→leb, lt→leb, done,
}
use mathlib.Core.List.{append_assoc}
use mathlib.Core.Path.{subst}
use nettlp_dpdk.Shell.{Shell, bs, write, c_string, terminate, closed_up, delete_string}
use nettlp_dpdk.Shell.Screen.{
  IsPrintable, IsPrintable-append, IsPrintable-left, IsPrintable-right, IsPrintable-replicate, feed,
  shown, drop-length,
}
use nettlp_dpdk.Shell.Held.{view, Holds, Yields, view-Edits, fields_eq, c_string-append}
use nettlp_dpdk.Shell.Close.{
  blanks, length-left, left, redraw, closed, closed_eq, terminated_old, terminated_new,
  delete_keeps,
}

module _ (s : Shell) (a m b rest : List ℕ) where
  -- The line with the cursor at any place.
  abbrev pub at : ℕ → Shell
  at c = record (view s a (m ++ b) rest) { cursor = c }

  abbrev done_at : ℕ → Shell
  done_at c = record (view s a b (left m rest)) { out = s.out ++ redraw a m b c }

  moved_at :
      (c : ℕ)
      → terminate
          (record (at c) { command_line = closed_up (length a) (length a + length m) (at c) })
        ≡ record (at c) { command_line = closed a m b rest }
  unfolding terminate closed_up
  moved_at c =
      rw
        (lt→leb (length a + length (m ++ b) + 1 + length rest) (length a + length (m ++ b))
          (omega arith))
        (fields_eq s _ _ _ _ _ _ _ _ _ _
          (ap (λ l. set l (length a + length (m ++ b)) 0) (closed_eq a m b rest)
            ∙ terminated_old a m b rest)
          refl refl refl refl)

  sent_eq :
      (c : ℕ)
      → IsPrintable b
      → replicate (c - length a) bs
          ++ (c_string (drop (length a) (closed a m b rest))
              ++ replicate (length a + length (m ++ b) - length a) bs)
        ≡ redraw a m b c
  sent_eq c p =
      ap (λ l. replicate (c - length a) bs ++ l)
        (ap₂ ◌++◌
          (ap c_string (
              drop-length a (b ++ (blanks m ++ (0 ∷ rest)))
              ∙ sym (append_assoc b (blanks m) (0 ∷ rest)))
            ∙ c_string-append (b ++ blanks m) rest
                (IsPrintable-append b (blanks m) p (IsPrintable-replicate (length m))))
          (ap (λ k. replicate k bs) end_eq))
    where
      end_eq : length a + length (m ++ b) - length a ≡ length m + length b
      end_eq = omega (arith, length-append m b)

  -- The part of the function behind the first `shell_terminate`.
  abbrev finish : ℕ → Shell → Shell
  finish c x =
      terminate
        (record (write
          (replicate (c - length a) bs
            ++ (c_string (drop (length a) x.command_line)
                ++ replicate (length a + length (m ++ b) - length a) bs))
          x) {
            cursor = length a;
            end = length a + length (m ++ b) - (length a + length m - length a);
          })

  finish_view :
      (c : ℕ)
      → IsPrintable b
      → finish c (record (at c) { command_line = closed a m b rest }) ≡ done_at c
  unfolding terminate write
  finish_view c p =
      rw
        (lt→leb (length a + length (m ++ b) + 1 + length rest)
          (length a + length (m ++ b) - (length a + length m - length a)) (omega arith))
        (fields_eq s _ _ _ _ _ _ _ _ _ _ (terminated_new a m b rest) refl
          (omega (arith, length-append m b)) (omega (arith, length-append m b, length-left m rest))
          (ap (λ l. s.out ++ l) (sent_eq c p)))

  pub delete-view :
      (c : ℕ)
      → IsPrintable b
      → delete_string (length a) (length a + length m) (at c) ≡ done (done_at c)
  unfolding delete_string
  delete-view c p =
      rw
        (
          le→leb (length a) (length a + length m) (omega arith),
          le→leb (length a + length m) (length a + length (m ++ b))
              (omega (arith, length-append m b)),
        )
        (ap done (ap (finish c) (moved_at c) ∙ finish_view c p))

module _ (s : Shell) (a m b : List ℕ) where
  behind_start :
      Holds s a (m ++ b)
      → Yields (delete_string (length a) (length a + length m) s) s a (m ++ b) a b
  behind_start h =
      subst (λ x. Yields (delete_string (length a) (length a + length m) x) x a (m ++ b) a b)
        (sym h.is_view)
        (
          done_at s a m b h.rest (length a),
          delete-view s a m b h.rest (length a) (IsPrintable-right m b h.behind),
          view-Edits s a (m ++ b) h.rest a b (left m h.rest) (redraw a m b (length a)) h.before
              (IsPrintable-right m b h.behind)
              (λ k. (
                length m + k,
                delete_keeps a m b h.rest (length a) k (omega arith)
                    (IsPrintable-right m b h.behind),
              )),
        )

  at_stop : (rest : List ℕ) → view s (a ++ m) b rest ≡ at s a m b rest (length (a ++ m))
  at_stop rest =
      fields_eq s _ _ _ _ _ _ _ _ _ _
        (append_assoc a m (b ++ (0 ∷ rest)) ∙ ap (λ l. a ++ l) (sym (append_assoc m b (0 ∷ rest))))
        refl (omega (arith, length-append a m, length-append m b))
        (omega (arith, length-append a m, length-append m b)) refl

  behind_stop :
      Holds s (a ++ m) b
      → Yields (delete_string (length a) (length a + length m) s) s (a ++ m) b a b
  behind_stop h =
      subst (λ x. Yields (delete_string (length a) (length a + length m) x) x (a ++ m) b a b)
        (sym h.is_view)
        (
          done_at s a m b h.rest (length (a ++ m)),
          ap (delete_string (length a) (length a + length m)) (at_stop h.rest)
              ∙ delete-view s a m b h.rest (length (a ++ m)) h.behind,
          view-Edits s (a ++ m) b h.rest a b (left m h.rest) (redraw a m b (length (a ++ m)))
              (IsPrintable-left a m h.before) h.behind
              (λ k. (
                length m + k,
                ap (feed (redraw a m b (length (a ++ m))))
                      (ap (λ l. shown l (length (a ++ m)) k) (append_assoc a m b))
                    ∙ delete_keeps a m b h.rest (length (a ++ m)) k
                        (omega (arith, length-append a m)) h.behind,
              )),
        )

-- On a shell that can write, deleting `m`, with the cursor at its start or at its end, passes the asserts, takes `m` out of
-- the line, leaves the cursor where it was, and the terminal shows the line, blanks in place of
-- what it lost.
pub delete_string-Edits :
    (s : Shell) (a m b : List ℕ)
    → (Holds s a (m ++ b)
        → Yields (delete_string (length a) (length a + length m) s) s a (m ++ b) a b)
      × (Holds s (a ++ m) b
          → Yields (delete_string (length a) (length a + length m) s) s (a ++ m) b a b)
delete_string-Edits s a m b = (behind_start s a m b, behind_stop s a m b)

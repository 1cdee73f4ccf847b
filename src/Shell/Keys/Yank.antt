-- ===== src/Shell/Keys/Yank.antt =====
-- shell_cut and the yank key: what is cut out of a line comes back.
use nettlp_dpdk.Prelude.{
  ℕ, zero, suc, ◌+◌, ◌-◌, ◌≡◌, ◌≢◌, refl, sym, ap, ap₂, ◌∙◌, true, some, List, [], ◌∷◌, ◌++◌, arith,
  length, take, drop, length-append, le→leb, ne→==, done, ◌>>=◌,
}
use mathlib.Core.List.{append_assoc}
use mathlib.Core.Path.{subst}
use nettlp_dpdk.Shell.{Shell, c_string, delete_string, cut, insert}
use nettlp_dpdk.Shell.Screen.{
  IsPrintable, IsPrintable-left, IsPrintable-right, take-length, drop-length,
}
use nettlp_dpdk.Shell.Held.{view, Holds, Edits, Edits-then, Yields}
use nettlp_dpdk.Shell.Insert.{insert-Edits}
use nettlp_dpdk.Shell.Close.{left, redraw, delete_keeps}
use nettlp_dpdk.Shell.Delete.{delete-view}
use nettlp_dpdk.Shell.Keys.{Memory, run_key, yank}

c_string-printable : (xs : List ℕ) → IsPrintable xs → c_string xs ≡ xs
unfolding c_string
c_string-printable [] p = refl
c_string-printable (zero ∷ xs) p = absurd (omega (arith, p.0))
c_string-printable (suc x ∷ xs) p = ap (λ l. suc x ∷ l) (c_string-printable xs p.1)

module _ (s : Shell) (a m b rest : List ℕ) (some_ : length m ≢ 0) (pm : IsPrintable m) where
  abbrev kept : Shell
  kept = record s { cut_buffer = some m }

  buffered :
      c_string
        (take (length a + length m - length a) (drop (length a) (a ++ ((m ++ b) ++ (0 ∷ rest)))))
      ≡ m
  buffered =
      ap c_string (
        ap₂ take {y = length m} (omega arith)
          (drop-length a ((m ++ b) ++ (0 ∷ rest)) ∙ append_assoc m b (0 ∷ rest))
        ∙ take-length m (b ++ (0 ∷ rest)))
      ∙ c_string-printable m pm

  cut-view :
      cut true (length a) (length a + length m) (view s a (m ++ b) rest)
      ≡ delete_string (length a) (length a + length m) (view kept a (m ++ b) rest)
  unfolding cut
  cut-view =
      rw
        (
          le→leb (length a) (length a + length m) (omega arith),
          le→leb (length a + length m) (length a + length (m ++ b))
              (omega (arith, length-append m b)),
          ne→== (length a + length m) (length a) (λ e. some_ (omega arith)),
          buffered,
        )
        refl

  abbrev after : Shell
  after = record (view kept a b (left m rest)) { out = s.out ++ redraw a m b (length a) }

  cut_done :
      IsPrintable b
      → cut true (length a) (length a + length m) (view s a (m ++ b) rest) ≡ done after
  cut_done p = cut-view ∙ delete-view kept a m b rest (length a) p

  yank_after :
      (memory : Memory) (ch : ℕ) → run_key memory yank ch after ≡ insert memory.realloc m after
  unfolding run_key
  yank_after memory ch = refl

-- Cutting a part of the line that is not empty, from the cursor on, and yanking it gives the line
-- back, with the cursor behind the part, where memory is served. The terminal shows that line.
pub cut-yank :
    (memory : Memory) (ch : ℕ) (s : Shell) (a m b : List ℕ)
    → ((k : ℕ) → memory.realloc k ≡ true)
    → length m ≢ 0
    → Holds s a (m ++ b)
    → Yields
        (cut true (length a) (length a + length m) s >>= run_key memory yank ch)
        s
        a
        (m ++ b)
        (a ++ m)
        b
cut-yank memory ch s a m b served some_ h =
    subst
      (λ x.
        Yields (cut true (length a) (length a + length m) x >>= run_key memory yank ch) x a (m ++ b)
          (a ++ m) b)
      (sym h.is_view) of_view
  where
    pm : IsPrintable m
    pm = IsPrintable-left m b h.behind

    pb : IsPrintable b
    pb = IsPrintable-right m b h.behind

    first : Edits (view s a (m ++ b) h.rest) (after s a m b h.rest some_ pm) a (m ++ b) a b
    first = record {
      holds = record { rest = left m h.rest; is_view = refl; before = h.before; behind = pb };
      echoes = record {
        sent = redraw a m b (length a);
        written = refl;
        keeps = λ k. (length m + k, delete_keeps a m b h.rest (length a) k (omega arith) pb);
      };
    }

    of_view :
        Yields
          (cut true (length a) (length a + length m) (view s a (m ++ b) h.rest)
            >>= run_key memory yank ch)
          (view s a (m ++ b) h.rest)
          a
          (m ++ b)
          (a ++ m)
          b
    of_view =
        let (s', e, second) =
          insert-Edits memory.realloc m (after s a m b h.rest some_ pm) a b served pm first.holds in
        (
          s',
          ap (λ r. r >>= run_key memory yank ch) (cut_done s a m b h.rest some_ pm pb)
              ∙ yank_after s a m b h.rest some_ pm memory ch
              ∙ e,
          Edits-then first second,
        )

-- ===== src/Shell/Close.antt =====
-- The buffer and the bytes written when a part of the line is deleted.
use nettlp_dpdk.Prelude.{
  ℕ, ◌+◌, ◌-◌, ◌≤◌, ◌≡◌, refl, sym, ap, ap₂, ◌∙◌, List, [], ◌∷◌, ◌++◌, arith, length, take, drop,
  set, replicate, length-append, length-replicate, length-drop, drop_eq,
}
use mathlib.Core.List.{append_assoc}
use nettlp_dpdk.Shell.{space, bs}
use nettlp_dpdk.Shell.Screen.{
  IsPrintable, IsPrintable-append, IsPrintable-replicate, feed, feed-append, feed-backspaces,
  feed-visible, shown, take-length, drop-length, drop-add-length, replicate-add,
}
use nettlp_dpdk.Shell.Held.{screen_eq}
use nettlp_dpdk.Shell.Splice.{set-append}

abbrev pub blanks : List ℕ → List ℕ
blanks m = replicate (length m) space

length-blanks : (m : List ℕ) → length (blanks m) ≡ length m
length-blanks m = length-replicate (length m) space

set_first :
    (m rest : List ℕ) → set (blanks m ++ (0 ∷ rest)) 0 0 ≡ 0 ∷ drop 1 (blanks m ++ (0 ∷ rest))
set_first [] rest = refl
set_first (x ∷ m) rest = refl

-- What is left behind the line when `m` is deleted out of it.
abbrev pub left : List ℕ → List ℕ → List ℕ
left m rest = drop 1 (blanks m ++ (0 ∷ rest))

pub length-left : (m rest : List ℕ) → length (left m rest) ≡ length m + length rest
length-left m rest = omega (
  arith,
  length-drop 1 (blanks m ++ (0 ∷ rest)),
  length-append (blanks m) (0 ∷ rest),
  length-blanks m,
)

-- What is written, with the cursor `c` places from the line's start.
abbrev pub redraw : List ℕ → List ℕ → List ℕ → ℕ → List ℕ
redraw a m b c =
    replicate (c - length a) bs ++ ((b ++ blanks m) ++ replicate (length m + length b) bs)

module _ (a m b rest : List ℕ) where
  abbrev pub line : List ℕ
  line = a ++ ((m ++ b) ++ (0 ∷ rest))

  abbrev pub closed : List ℕ
  closed = a ++ (b ++ (blanks m ++ (0 ∷ rest)))

  pub closed_eq :
      take (length a) line
        ++ (take
              (length a + length (m ++ b) - (length a + length m))
              (drop (length a + length m) line)
            ++ (replicate (length a + length m - length a) space
                ++ drop (length a + length (m ++ b)) line))
      ≡ closed
  closed_eq =
      ap₂ ◌++◌ (take-length a ((m ++ b) ++ (0 ∷ rest))) (ap₂ ◌++◌ kept (ap₂ ◌++◌ blanked behind))
    where
      off : (x y : ℕ) → x + y - x ≡ y
      off x y = omega arith

      kept :
          take
            (length a + length (m ++ b) - (length a + length m))
            (drop (length a + length m) line)
          ≡ b
      kept =
          ap₂ take {y = length b} (omega (arith, length-append m b)) (
            drop-add-length a ((m ++ b) ++ (0 ∷ rest)) (length m)
            ∙ ap (drop (length m)) (append_assoc m b (0 ∷ rest))
            ∙ drop-length m (b ++ (0 ∷ rest)))
          ∙ take-length b (0 ∷ rest)

      blanked : replicate (length a + length m - length a) space ≡ blanks m
      blanked = ap (λ k. replicate k space) (off (length a) (length m))

      behind : drop (length a + length (m ++ b)) line ≡ 0 ∷ rest
      behind =
          drop-add-length a ((m ++ b) ++ (0 ∷ rest)) (length (m ++ b))
          ∙ drop-length (m ++ b) (0 ∷ rest)

  -- The NUL at the old end is there already.
  pub terminated_old : set closed (length a + length (m ++ b)) 0 ≡ closed
  terminated_old =
      ap (λ k. set closed k 0) end_eq
      ∙ set-append a (b ++ (blanks m ++ (0 ∷ rest))) (length b + (length (blanks m) + 0)) 0
      ∙ ap (λ l. a ++ l)
          (set-append b (blanks m ++ (0 ∷ rest)) (length (blanks m) + 0) 0
            ∙ ap (λ l. b ++ l) (set-append (blanks m) (0 ∷ rest) 0 0))
    where
      end_eq : length a + length (m ++ b) ≡ length a + (length b + (length (blanks m) + 0))
      end_eq = omega (arith, length-append m b, length-blanks m)

  pub terminated_new :
      set closed (length a + length (m ++ b) - (length a + length m - length a)) 0
      ≡ a ++ (b ++ (0 ∷ left m rest))
  terminated_new =
      ap (λ k. set closed k 0) end_eq
      ∙ set-append a (b ++ (blanks m ++ (0 ∷ rest))) (length b + 0) 0
      ∙ ap (λ l. a ++ l)
          (set-append b (blanks m ++ (0 ∷ rest)) 0 0 ∙ ap (λ l. b ++ l) (set_first m rest))
    where
      end_eq :
          length a + length (m ++ b) - (length a + length m - length a) ≡ length a + (length b + 0)
      end_eq = omega (arith, length-append m b)

  pub delete_keeps :
      (c k : ℕ)
      → length a ≤ c
      → IsPrintable b
      → feed (redraw a m b c) (shown (a ++ (m ++ b)) c k) ≡ shown (a ++ b) (length a) (length m + k)
  delete_keeps c k reached p =
      feed-append (replicate (c - length a) bs)
        ((b ++ blanks m) ++ replicate (length m + length b) bs) _
      ∙ ap (feed ((b ++ blanks m) ++ replicate (length m + length b) bs)) (
          feed-backspaces (c - length a) _
          ∙ screen_eq _ _ _ _ (append_assoc a (m ++ b) (replicate k space)) (back c reached))
      ∙ feed-append (b ++ blanks m) (replicate (length m + length b) bs) _
      ∙ ap (feed (replicate (length m + length b) bs)) (
          feed-visible (b ++ blanks m) a ((m ++ b) ++ replicate k space)
            (IsPrintable-append b (blanks m) p (IsPrintable-replicate (length m))))
      ∙ feed-backspaces (length m + length b) _
      ∙ screen_eq _ _ _ _ cells_eq (omega (arith, length-append b (blanks m), length-blanks m))
    where
      back : (c : ℕ) → length a ≤ c → c - (c - length a) ≡ length a
      back c h = omega arith

      over : drop (length (b ++ blanks m)) ((m ++ b) ++ replicate k space) ≡ replicate k space
      over =
          drop_eq _ (length (m ++ b)) _
            (omega (arith, length-append b (blanks m), length-blanks m, length-append m b))
          ∙ drop-length (m ++ b) (replicate k space)

      cells_eq :
          a ++ ((b ++ blanks m) ++ drop (length (b ++ blanks m)) ((m ++ b) ++ replicate k space))
          ≡ (a ++ b) ++ replicate (length m + k) space
      cells_eq =
          ap (λ l. a ++ ((b ++ blanks m) ++ l)) over
          ∙ ap (λ l. a ++ l)
              (append_assoc b (blanks m) (replicate k space)
                ∙ ap (λ l. b ++ l) (replicate-add (length m) k))
          ∙ sym (append_assoc a b (replicate (length m + k) space))

-- ===== src/Shell/Splice.antt =====
-- The buffer of `shell_insert`: the loop that doubles it, and the copies.
use nettlp_dpdk.Prelude.{
  ℕ, zero, suc, ◌+◌, ◌-◌, ◌*◌, ◌≤◌, ◌≡◌, refl, sym, ap, ap₂, ◌∙◌, Bool, true, false, List, [], ◌∷◌,
  ◌++◌, arith, ltb, length, take, drop, set, get_or, replicate, length-append, length-replicate,
  lt→leb, done, drop_step, drop_eq, length-drop, inl, inr, Bool-cases, ltb→le,
}
use mathlib.Core.List.{append_assoc}
use nettlp_dpdk.Shell.{Shell, bs, write, c_string, terminate, expand, splice, echo}
use nettlp_dpdk.Shell.Screen.{
  IsPrintable, IsPrintable-append, take-length, drop-length, drop-add-length,
}
use nettlp_dpdk.Shell.Held.{view, fields_eq, c_string-append}

pub set-append : (xs ys : List ℕ) (n v : ℕ) → set (xs ++ ys) (length xs + n) v ≡ xs ++ set ys n v
set-append [] ys n v = ap (λ k. set ys k v) (omega arith)
set-append (x ∷ xs) ys n v =
    ap (λ k. set (x ∷ (xs ++ ys)) k v) (step n) ∙ ap (λ l. x ∷ l) (set-append xs ys n v)
  where
    step : (n : ℕ) → length (x ∷ xs) + n ≡ suc (length xs + n)
    step n = omega arith

module _ (s : Shell) (a b : List ℕ) where
  -- One round more of the loop.
  abbrev grown : (rest : List ℕ) → List ℕ
  grown rest = rest ++ replicate (length a + length b + 1 + length rest) 0

  length-grown :
      (rest : List ℕ) → length (grown rest) ≡ length rest + (length a + length b + 1 + length rest)
  length-grown rest =
      length-append rest (replicate (length a + length b + 1 + length rest) 0)
      ∙ ap (λ k. length rest + k) (length-replicate (length a + length b + 1 + length rest) (zero))

  expand_fits :
      (rounds need : ℕ) (grant : ℕ → Bool) (x : Shell)
      → ltb x.size need ≡ false
      → expand (suc rounds) grant need x ≡ done x
  unfolding expand
  expand_fits rounds need grant x fits = rw (expand, fits) refl

  expand_short :
      (rounds need : ℕ) (grant : ℕ → Bool) (x : Shell)
      → ltb x.size need ≡ true
      → grant rounds ≡ true
      → expand (suc rounds) grant need x
        ≡ expand rounds grant need
            (record x { command_line = x.command_line ++ replicate x.size 0; size = x.size * 2 })
  unfolding expand
  expand_short rounds need grant x short served = rw (expand, short, served) refl

  grown-view :
      (rest : List ℕ)
      → record (view s a b rest) {
        command_line =
            (a ++ (b ++ (0 ∷ rest))) ++ replicate (length a + length b + 1 + length rest) 0;
        size = (length a + length b + 1 + length rest) * 2;
      }
        ≡ view s a b (grown rest)
  grown-view rest =
      fields_eq s _ _ _ _ _ _ _ _ _ _
        (append_assoc a (b ++ (0 ∷ rest)) (replicate (length a + length b + 1 + length rest) 0)
          ∙ ap (λ l. a ++ l)
              (append_assoc b (0 ∷ rest) (replicate (length a + length b + 1 + length rest) 0)))
        refl refl (omega (arith, length-grown rest)) refl

  -- Where memory is served, the loop ends with room for what is needed.
  pub expand-view :
      (rounds need : ℕ) (grant : ℕ → Bool) (rest : List ℕ)
      → ((k : ℕ) → grant k ≡ true)
      → need ≤ length a + length b + 1 + length rest + rounds
      → (rest' : List ℕ) × (expand rounds grant need (view s a b rest) ≡ done (view s a b rest'))
        × (need ≤ length a + length b + 1 + length rest')
  unfolding expand
  expand-view zero need grant rest served enough = (rest, refl, omega arith)
  expand-view (suc rounds) need grant rest served enough =
      elim (Bool-cases (ltb (length a + length b + 1 + length rest) need)) [
        | inr fits ↦ (rest, expand_fits rounds need grant (view s a b rest) fits, ltb→le _ _ fits)
        | inl short ↦
            let (rest', e, room) =
              expand-view rounds need grant (grown rest) served
                (omega (arith, length-grown rest)) in
            (
              rest',
              expand_short rounds need grant (view s a b rest) short (served rounds)
                  ∙ ap (expand rounds grant need) (grown-view rest)
                  ∙ e,
              room,
            )
      ]

module _ (s : Shell) (str a b rest : List ℕ) (room : length str ≤ length rest) where
  abbrev left : List ℕ
  left = drop (length str) rest

  length-left : length left + length str ≡ length rest
  length-left = omega (arith, length-drop (length str) rest)

  -- What the copies leave from the end of the line on.
  behind :
      drop (length a + length b + length str) (a ++ (b ++ (0 ∷ rest)))
      ≡ get_or (0 ∷ rest) (length str) 0 ∷ left
  behind =
      drop_eq (length a + length b + length str) (length a + (length b + length str)) _
        (omega arith)
      ∙ drop-add-length a (b ++ (0 ∷ rest)) (length b + length str)
      ∙ drop-add-length b (0 ∷ rest) (length str)
      ∙ drop_step (length str) (0 ∷ rest) 0 (omega arith)

  spliced :
      (y : ℕ)
      → set (a ++ (str ++ (b ++ (y ∷ left)))) (length a + length b + length str) 0
        ≡ a ++ (str ++ (b ++ (0 ∷ left)))
  spliced y =
      ap (λ k. set (a ++ (str ++ (b ++ (y ∷ left)))) k 0) end_eq
      ∙ set-append a (str ++ (b ++ (y ∷ left))) (length str + (length b + 0)) 0
      ∙ ap (λ l. a ++ l)
          (set-append str (b ++ (y ∷ left)) (length b + 0) 0
            ∙ ap (λ l. str ++ l) (set-append b (y ∷ left) 0 0))
    where
      end_eq : length a + length b + length str ≡ length a + (length str + (length b + 0))
      end_eq = omega arith

  splice_line :
      take (length a) (a ++ (b ++ (0 ∷ rest)))
        ++ (str
            ++ (take (length a + length b - length a) (drop (length a) (a ++ (b ++ (0 ∷ rest))))
                ++ drop (length a + length b + length str) (a ++ (b ++ (0 ∷ rest)))))
      ≡ a ++ (str ++ (b ++ (get_or (0 ∷ rest) (length str) 0 ∷ left)))
  splice_line =
      ap₂ (λ l r. l ++ (str ++ r)) (take-length a (b ++ (0 ∷ rest))) (ap₂ ◌++◌ moved behind)
    where
      moved : take (length a + length b - length a) (drop (length a) (a ++ (b ++ (0 ∷ rest)))) ≡ b
      moved =
          ap₂ take {y = length b} (omega arith) (drop-length a (b ++ (0 ∷ rest)))
          ∙ take-length b (0 ∷ rest)

  splice-view : splice str (view s a b rest) ≡ record s {
    command_line = a ++ (str ++ (b ++ (0 ∷ left)));
    cursor = length a;
    end = length a + length b + length str;
    size = length a + length b + 1 + length rest;
    writable = true;
    out = s.out;
  }
  unfolding splice terminate
  splice-view =
      rw
        (lt→leb (length a + length b + 1 + length rest) (length a + length b + length str)
          (omega arith))
        (fields_eq s _ _ _ _ _ _ _ _ _ _
          (ap (λ l. set l (length a + length b + length str) 0) splice_line
            ∙ spliced (get_or (0 ∷ rest) (length str) 0))
          refl refl refl refl)

  abbrev echoed : List ℕ
  echoed = (str ++ b) ++ replicate (length b) bs

  inserted_line : a ++ (str ++ (b ++ (0 ∷ left))) ≡ (a ++ str) ++ (b ++ (0 ∷ left))
  inserted_line = sym (append_assoc a str (b ++ (0 ∷ left)))

  pub echo-view :
      IsPrintable str
      → IsPrintable b
      → echo str (splice str (view s a b rest))
        ≡ record (view s (a ++ str) b left) { out = s.out ++ echoed }
  unfolding echo write
  echo-view p q =
      ap (echo str) splice-view
      ∙ fields_eq s _ _ _ _ _ _ _ _ _ _ inserted_line (omega (arith, length-append a str))
          (omega (arith, length-append a str)) (omega (arith, length-append a str, length-left))
          (ap (λ l. s.out ++ l) (ap₂ ◌++◌ shown_tail backs))
    where
      back_eq : (m n : ℕ) → m ≡ n → replicate m bs ≡ replicate n bs
      back_eq m n e = ap (λ k. replicate k bs) e

      shown_tail : c_string (drop (length a) (a ++ (str ++ (b ++ (0 ∷ left))))) ≡ str ++ b
      shown_tail =
          ap c_string
            (drop-length a (str ++ (b ++ (0 ∷ left))) ∙ sym (append_assoc str b (0 ∷ left)))
          ∙ c_string-append (str ++ b) left (IsPrintable-append str b p q)

      backs :
          replicate (length a + length b + length str - (length a + length str)) bs
          ≡ replicate (length b) bs
      backs = back_eq _ _ (omega arith)

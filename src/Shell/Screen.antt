-- ===== src/Shell/Screen.antt =====
-- What the bytes that the editor writes do to a terminal's line, from the end of the prompt on.
use nettlp_dpdk.Prelude.{
  ℕ, zero, suc, ◌+◌, ◌-◌, ◌≤◌, ◌≡◌, refl, sym, ap, ap₂, ◌∙◌, List, [], ◌∷◌, ◌++◌, arith, ◌==◌,
  if◌then◌else◌, length, take, drop, replicate, length-append, ne→==,
}
use mathlib.Core.List.{append_assoc}
use nettlp_dpdk.Shell.{space, bs}

pub record Screen : Type 0 where
  pub cells : List ℕ
  pub column : ℕ

-- CONTROL ('H') moves back, any other byte is shown and moves on.
unfoldable pub put : ℕ → Screen → Screen
put x sc = if x == bs then record sc { column = sc.column - 1 } else record {
  cells = take sc.column sc.cells ++ (x ∷ drop (sc.column + 1) sc.cells);
  column = sc.column + 1;
}

abbrev pub feed : List ℕ → Screen → Screen
feed [] sc = sc
feed (x ∷ xs) sc = feed xs (put x sc)

-- A line with text, the cursor at a column, and blanks left over behind the text.
abbrev pub shown : List ℕ → ℕ → ℕ → Screen
shown t column blanks = record { cells = t ++ replicate blanks space; column = column }

-- Bytes from the space on.
abbrev pub IsPrintable : List ℕ → Type 0
IsPrintable [] = Unit
IsPrintable (x ∷ xs) = (space ≤ x) × IsPrintable xs

pub IsPrintable-append : (xs ys : List ℕ) → IsPrintable xs → IsPrintable ys → IsPrintable (xs ++ ys)
IsPrintable-append [] ys p q = q
IsPrintable-append (x ∷ xs) ys p q = (p.0, IsPrintable-append xs ys p.1 q)

pub IsPrintable-left : (xs ys : List ℕ) → IsPrintable (xs ++ ys) → IsPrintable xs
IsPrintable-left [] ys p = tt
IsPrintable-left (x ∷ xs) ys p = (p.0, IsPrintable-left xs ys p.1)

pub IsPrintable-right : (xs ys : List ℕ) → IsPrintable (xs ++ ys) → IsPrintable ys
IsPrintable-right [] ys p = p
IsPrintable-right (x ∷ xs) ys p = IsPrintable-right xs ys p.1

pub IsPrintable-replicate : (n : ℕ) → IsPrintable (replicate n space)
IsPrintable-replicate zero = tt
IsPrintable-replicate (suc n) = (omega arith, IsPrintable-replicate n)

pub take-length : (xs ys : List ℕ) → take (length xs) (xs ++ ys) ≡ xs
take-length [] ys = refl
take-length (x ∷ xs) ys = ap (λ l. x ∷ l) (take-length xs ys)

pub drop-length : (xs ys : List ℕ) → drop (length xs) (xs ++ ys) ≡ ys
drop-length [] ys = refl
drop-length (x ∷ xs) ys = drop-length xs ys

pub drop-add-length : (xs ys : List ℕ) (n : ℕ) → drop (length xs + n) (xs ++ ys) ≡ drop n ys
drop-add-length [] ys n = ap (λ k. drop k ys) (omega arith)
drop-add-length (x ∷ xs) ys n = ap (λ k. drop k (x ∷ (xs ++ ys))) (step n) ∙ drop-add-length xs ys n
  where
    step : (n : ℕ) → length (x ∷ xs) + n ≡ suc (length xs + n)
    step n = omega arith

pub blanks_eq : (m n : ℕ) → m ≡ n → replicate m space ≡ replicate n space
blanks_eq m n e = ap (λ k. replicate k space) e

pub drop-replicate : (m n : ℕ) → drop m (replicate n space) ≡ replicate (n - m) space
drop-replicate zero n = blanks_eq n (n - 0) (omega arith)
drop-replicate (suc m) zero = blanks_eq 0 (0 - suc m) (omega arith)
drop-replicate (suc m) (suc n) =
    drop-replicate m n ∙ blanks_eq (n - m) (suc n - suc m) (omega arith)

pub replicate-add : (m n : ℕ) → replicate m space ++ replicate n space ≡ replicate (m + n) space
replicate-add zero n = ap (λ k. replicate k space) (omega arith)
replicate-add (suc m) n =
    ap (λ l. space ∷ l) (replicate-add m n) ∙ ap (λ k. replicate k space) (step m n)
  where
    step : (m n : ℕ) → suc (m + n) ≡ suc m + n
    step m n = omega arith

pub feed-append : (xs ys : List ℕ) (sc : Screen) → feed (xs ++ ys) sc ≡ feed ys (feed xs sc)
feed-append [] ys sc = refl
feed-append (x ∷ xs) ys sc = feed-append xs ys (put x sc)

pub feed-backspaces :
    (n : ℕ) (sc : Screen) → feed (replicate n bs) sc ≡ record sc { column = sc.column - n }
unfolding put
feed-backspaces zero sc = ap (λ k. record sc { column = k }) (omega arith)
feed-backspaces (suc n) sc =
    feed-backspaces n (record sc { column = sc.column - 1 })
    ∙ ap (λ k. record sc { column = k }) (omega arith)

put-visible :
    (x : ℕ) (a b : List ℕ)
    → space ≤ x
    → put x (record { cells = a ++ b; column = length a })
      ≡ record { cells = a ++ (x ∷ drop 1 b); column = length a + 1 }
unfolding put
put-visible x a b h =
    rw (ne→== x bs (λ e. omega arith), take-length a b, drop-add-length a b 1) refl

-- Visible bytes are written over what follows the cursor.
pub feed-visible :
    (w a b : List ℕ)
    → IsPrintable w
    → feed w (record { cells = a ++ b; column = length a })
      ≡ record { cells = a ++ (w ++ drop (length w) b); column = length a + length w }
feed-visible [] a b p = ap (λ k. record { cells = a ++ b; column = k }) (omega arith)
feed-visible (x ∷ w) a b p =
    ap (feed w)
      (put-visible x a b p.0 ∙ ap₂ (λ l k. record { cells = l; column = k }) cells_eq column_eq)
    ∙ feed-visible w (a ++ (x ∷ [])) (drop 1 b) p.1
    ∙ ap₂ (λ l k. record { cells = l; column = k }) cells_end
        (omega (arith, length-append a (x ∷ [])))
  where
    cells_eq : a ++ (x ∷ drop 1 b) ≡ (a ++ (x ∷ [])) ++ drop 1 b
    cells_eq = sym (append_assoc a (x ∷ []) (drop 1 b))

    column_eq : length a + 1 ≡ length (a ++ (x ∷ []))
    column_eq = omega (arith, length-append a (x ∷ []))

    drop_nil : (n : ℕ) → drop {A = ℕ} n [] ≡ []
    drop_nil zero = refl
    drop_nil (suc n) = refl

    drop_drop : (b : List ℕ) → drop (length w) (drop 1 b) ≡ drop (suc (length w)) b
    drop_drop [] = drop_nil (length w)
    drop_drop (y ∷ b) = refl

    cells_end :
        (a ++ (x ∷ [])) ++ (w ++ drop (length w) (drop 1 b))
        ≡ a ++ (x ∷ (w ++ drop (suc (length w)) b))
    cells_end =
        append_assoc a (x ∷ []) (w ++ drop (length w) (drop 1 b))
        ∙ ap (λ l. a ++ (x ∷ (w ++ l))) (drop_drop b)

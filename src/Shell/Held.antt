-- ===== src/Shell/Held.antt =====
-- The line that a shell holds, split at the cursor, and the bytes of its buffer.
use nettlp_dpdk.Prelude.{
  ℕ, zero, suc, ◌+◌, ◌≡◌, refl, ap, ◌∙◌, true, List, [], ◌∷◌, ◌++◌, arith, length, set, replicate,
  Run, done,
}
use mathlib.Core.List.{append_assoc}
use nettlp_dpdk.Shell.{Shell, c_string, create}
use nettlp_dpdk.Shell.Screen.{IsPrintable, Screen, feed, feed-append, shown}

-- The shell that can write, with `a` before the cursor, `b` behind it, the NUL and what lies behind that.
abbrev pub view : Shell → List ℕ → List ℕ → List ℕ → Shell
view s a b rest = record s {
  command_line = a ++ (b ++ (0 ∷ rest));
  cursor = length a;
  end = length a + length b;
  size = length a + length b + 1 + length rest;
  writable = true;
}

-- The shell can write and holds the line `a` `b` with the cursor between the two: its buffer has
-- the size recorded, the line is printable, and a NUL stands behind it in the buffer.
pub record Holds (s : Shell) (a b : List ℕ) : Type 0 where
  pub rest : List ℕ
  pub is_view : s ≡ view s a b rest
  pub before : IsPrintable a
  pub behind : IsPrintable b

-- A terminal that showed the line of the first shell, with `t` and the cursor in column `c`, and is
-- sent what was written up to the second, shows `t'` with the cursor in column `c'`.
pub record Echoes (s s' : Shell) (t : List ℕ) (c : ℕ) (t' : List ℕ) (c' : ℕ) : Type 0 where
  pub sent : List ℕ
  pub written : s'.out ≡ s.out ++ sent
  pub keeps : (blanks : ℕ) → (blanks' : ℕ) × (feed sent (shown t c blanks) ≡ shown t' c' blanks')

pub create-Holds : Holds (record create { writable = true }) [] []
unfolding create
create-Holds = record { rest = replicate 31 0; is_view = refl; before = tt; behind = tt }

pub c_string-append : (xs ys : List ℕ) → IsPrintable xs → c_string (xs ++ (0 ∷ ys)) ≡ xs
unfolding c_string
c_string-append [] ys p = refl
c_string-append (zero ∷ xs) ys p = absurd (omega (arith, p.0))
c_string-append (suc x ∷ xs) ys p = ap (λ l. suc x ∷ l) (c_string-append xs ys p.1)

pub set-length : (xs ys : List ℕ) (y v : ℕ) → set (xs ++ (y ∷ ys)) (length xs) v ≡ xs ++ (v ∷ ys)
set-length [] ys y v = refl
set-length (x ∷ xs) ys y v = ap (λ l. x ∷ l) (set-length xs ys y v)

-- Shells that differ at most in the line, its places and what was written, and not in these.
pub fields_eq :
    (s : Shell) (l l' : List ℕ) (c c' e e' z z' : ℕ) (o o' : List ℕ)
    → l ≡ l'
    → c ≡ c'
    → e ≡ e'
    → z ≡ z'
    → o ≡ o'
    → record s { command_line = l; cursor = c; end = e; size = z; writable = true; out = o }
      ≡ record s { command_line = l'; cursor = c'; end = e'; size = z'; writable = true; out = o' }
fields_eq s l l' c c' e e' z z' o o' p q r t u = λ i. record s {
  command_line = p i;
  cursor = q i;
  end = r i;
  size = t i;
  writable = true;
  out = u i;
}

-- The result of an edit: the line that is then held, split at the cursor, and a terminal that
-- showed the old line and shows the new one.
pub record Edits (s s' : Shell) (a b a' b' : List ℕ) : Type 0 where
  pub holds : Holds s' a' b'
  pub echoes : Echoes s s' (a ++ b) (length a) (a' ++ b') (length a')

-- An edit that `assert` and `realloc` could stop, and does not.
abbrev pub Yields : Run Shell → Shell → List ℕ → List ℕ → List ℕ → List ℕ → Type 0
Yields r s a b a' b' = (s' : Shell) × (r ≡ done s') × Edits s s' a b a' b'

pub view-Edits :
    (s : Shell) (a b rest a' b' rest' sent : List ℕ)
    → IsPrintable a'
    → IsPrintable b'
    → ((k : ℕ)
        → (k' : ℕ) × (feed sent (shown (a ++ b) (length a) k) ≡ shown (a' ++ b') (length a') k'))
    → Edits (view s a b rest) (record (view s a' b' rest') { out = s.out ++ sent }) a b a' b'
view-Edits s a b rest a' b' rest' sent p q keeps = record {
  holds = record { rest = rest'; is_view = refl; before = p; behind = q };
  echoes = record { sent = sent; written = refl; keeps = keeps };
}

-- Screens with the same cells and column.
pub screen_eq :
    (l l' : List ℕ) (c c' : ℕ)
    → l ≡ l'
    → c ≡ c'
    → Path Screen (record { cells = l; column = c }) (record { cells = l'; column = c' })
screen_eq l l' c c' p q = λ i. record { cells = p i; column = q i }

-- One edit behind another.
pub Edits-then :
    {s s' s'' : Shell} {a b a' b' a'' b'' : List ℕ}
    → Edits s s' a b a' b'
    → Edits s' s'' a' b' a'' b''
    → Edits s s'' a b a'' b''
Edits-then {s} {s'} {s''} {a} {b} {a'} {b'} {a''} {b''} d e = record {
  holds = e.holds;
  echoes = record {
    sent = d.echoes.sent ++ e.echoes.sent;
    written =
        e.echoes.written
        ∙ ap (λ l. l ++ e.echoes.sent) d.echoes.written
        ∙ append_assoc s.out d.echoes.sent e.echoes.sent;
    keeps = λ k.
        let (k', p) = d.echoes.keeps k in
        let (k'', q) = e.echoes.keeps k' in
        (k'', feed-append d.echoes.sent e.echoes.sent _ ∙ ap (feed e.echoes.sent) p ∙ q);
  };
}

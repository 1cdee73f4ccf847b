-- ===== src/Shell/Format.antt =====
-- shell_format: the line that is left of blanks.
use nettlp_dpdk.Prelude.{
  ℕ, zero, suc, ◌+◌, ◌≤◌, ◌≡◌, refl, ap, ◌∙◌, Bool, true, false, ◌||◌, List, [], ◌∷◌, arith, ltb,
  leb, ◌==◌, if◌then◌else◌, length, take, Bool-cases, lt→ltb, inl, inr,
}
use nettlp_dpdk.Shell.{space, squeeze}

-- The reference: blanks at the start and behind a blank are dropped. `pending` says whether a
-- blank that comes now is one of those.
pub one_space : Bool → List ℕ → List ℕ
one_space blank [] = []
one_space blank (x ∷ xs) =
    if x == space
    then if blank then one_space true xs else x ∷ one_space true xs
    else x ∷ one_space false xs

-- The state of the loop: a blank now would be dropped.
abbrev dropping : ℕ → ℕ → Bool
dropping i count = leb 1 count || i == 0

same_state : (i count : ℕ) → (ltb 1 (count + 1) || i == 0) ≡ dropping i count
same_state i count = ground arith

next_blank : (i count : ℕ) → dropping (i + 1) (count + 1) ≡ true
next_blank i count = ground arith

next_word : (i : ℕ) → dropping (i + 1) 0 ≡ false
next_word i = ground arith

squeeze_from :
    (xs : List ℕ) (i count cursor : ℕ)
    → (squeeze xs i count cursor).0 ≡ one_space (dropping i count) xs
unfolding squeeze one_space
squeeze_from [] i count cursor = refl
squeeze_from (x ∷ xs) i count cursor = elim (Bool-cases (x == space)) [
  | inr word ↦
      rw word (
        ap (λ l. x ∷ l) (squeeze_from xs (i + 1) 0 cursor ∙ ap (λ f. one_space f xs) (next_word i)))
  | inl blank ↦
      rw (blank, same_state i count)
        (elim (Bool-cases (dropping i count)) [
          | inl drops ↦ rw drops (
              squeeze_from xs (i + 1) (count + 1) cursor
              ∙ ap (λ f. one_space f xs) (next_blank i count))
          | inr keeps ↦ rw keeps (
              ap (λ l. x ∷ l)
                (squeeze_from xs (i + 1) (count + 1) cursor
                  ∙ ap (λ f. one_space f xs) (next_blank i count)))
        ])
]

-- Behind the cursor nothing is counted.
before_behind : (xs : List ℕ) (i count cursor : ℕ) → cursor ≤ i → (squeeze xs i count cursor).1 ≡ 0
unfolding squeeze
before_behind [] i count cursor h = refl
before_behind (x ∷ xs) i count cursor h = ground (
  arith,
  before_behind xs (i + 1) 0 cursor (omega arith),
  before_behind xs (i + 1) (count + 1) cursor (omega arith),
)

before_from :
    (n : ℕ) (xs : List ℕ) (i count cursor : ℕ)
    → cursor ≡ i + n
    → (squeeze xs i count cursor).1 ≡ length (one_space (dropping i count) (take n xs))
unfolding squeeze one_space
before_from zero xs i count cursor e = before_behind xs i count cursor (omega arith)
before_from (suc n) [] i count cursor e = refl
before_from (suc n) (x ∷ xs) i count cursor e = elim (Bool-cases (x == space)) [
  | inr word ↦
      rw (word, lt→ltb i cursor (omega arith))
        (omega (
          arith,
          before_from n xs (i + 1) 0 cursor (omega arith)
              ∙ ap (λ f. length (one_space f (take n xs))) (next_word i),
        ))
  | inl blank ↦
      rw (blank, same_state i count, lt→ltb i cursor (omega arith))
        (elim (Bool-cases (dropping i count)) [
          | inl drops ↦ rw drops (
              before_from n xs (i + 1) (count + 1) cursor (omega arith)
              ∙ ap (λ f. length (one_space f (take n xs))) (next_blank i count))
          | inr keeps ↦ rw keeps (
              omega (
                arith,
                before_from n xs (i + 1) (count + 1) cursor (omega arith)
                    ∙ ap (λ f. length (one_space f (take n xs))) (next_blank i count),
              ))
        ])
]

-- The line that `shell_format` makes has the blanks at the start and all but the first of each run
-- of blanks dropped, and its cursor stands behind what is kept of the bytes before the old cursor.
pub squeeze-one_space :
    (xs : List ℕ) (cursor : ℕ)
    → squeeze xs 0 0 cursor ≡ (one_space true xs, length (one_space true (take cursor xs)))
squeeze-one_space xs cursor =
    pair_eq (squeeze_from xs 0 0 cursor) (before_from cursor xs 0 0 cursor (omega arith))
  where
    pair_eq : {p : List ℕ × ℕ} {l : List ℕ} {k : ℕ} → p.0 ≡ l → p.1 ≡ k → p ≡ (l, k)
    pair_eq e f = λ i. (e i, f i)

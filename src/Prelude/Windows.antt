-- ===== src/Prelude/Windows.antt =====
-- Windows of a list: some elements from some place on.
use nettlp_dpdk.Prelude.Lists.{take, drop, take-nil}
use Prim.Native.Nat.{ℕ, zero, suc, ◌+◌, ◌≤◌}
use mathlib.Core.Path.{◌≡◌, refl, sym, ap, ◌∙◌}
use mathlib.Core.List.{List, [], ◌∷◌, ◌++◌}
use native.Mathlib.Omega.{arith}

module _ {ℓ} {A : Type ℓ} where
  pub take-split :
      (a b n : ℕ) (xs : List A) → n ≡ a + b → take a xs ++ take b (drop a xs) ≡ take n xs
  take-split zero b n xs e = ap (λ k. take k xs) (omega arith)
  take-split (suc a) b n [] e = take-nil b ∙ sym (take-nil n)
  take-split (suc a) b zero (x ∷ xs) e = absurd (omega arith)
  take-split (suc a) b (suc n) (x ∷ xs) e = ap (λ l. x ∷ l) (take-split a b n xs (omega arith))

  pub drop-plus : (a b n : ℕ) (xs : List A) → n ≡ a + b → drop n xs ≡ drop b (drop a xs)
  drop-plus zero b n xs e = ap (λ k. drop k xs) (omega arith)
  drop-plus (suc a) b zero xs e = absurd (omega arith)
  drop-plus (suc a) zero (suc n) [] e = refl
  drop-plus (suc a) (suc b) (suc n) [] e = refl
  drop-plus (suc a) b (suc n) (x ∷ xs) e = drop-plus a b n xs (omega arith)

  pub append-nil : (xs : List A) → xs ++ [] ≡ xs
  append-nil [] = refl
  append-nil (x ∷ xs) = ap (λ l. x ∷ l) (append-nil xs)

  pub take-drop-take :
      (c k n : ℕ) (xs : List A) → k + c ≤ n → take c (drop k (take n xs)) ≡ take c (drop k xs)
  take-drop-take zero k n xs h = refl
  take-drop-take (suc c) zero zero xs h = absurd (omega arith)
  take-drop-take (suc c) zero (suc n) [] h = refl
  take-drop-take (suc c) zero (suc n) (x ∷ xs) h =
      ap (λ l. x ∷ l) (take-drop-take c zero n xs (omega arith))
  take-drop-take (suc c) (suc k) zero xs h = absurd (omega arith)
  take-drop-take (suc c) (suc k) (suc n) [] h = refl
  take-drop-take (suc c) (suc k) (suc n) (x ∷ xs) h = take-drop-take (suc c) k n xs (omega arith)

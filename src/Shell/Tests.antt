-- ===== src/Shell/Tests.antt =====
-- The line editor's theorems at a concrete line.
use nettlp_dpdk.Prelude.{
  ℕ, ◌≤◌, ◌≡◌, refl, arith, true, [], ◌∷◌, done, ◌>>=◌, replicate, length, take,
}
use nettlp_dpdk.Shell.{Shell, create, insert, delete_string, cut, forward, squeeze}
use nettlp_dpdk.Shell.Held.{view, Holds, Edits, Yields}
use nettlp_dpdk.Shell.Move.{forward-Edits}
use nettlp_dpdk.Shell.Insert.{insert-Edits}
use nettlp_dpdk.Shell.Delete.{delete_string-Edits}
use nettlp_dpdk.Shell.Words.{word_start, word_start-le}
use nettlp_dpdk.Shell.Format.{one_space, squeeze-one_space}
use nettlp_dpdk.Shell.Keys.{Memory, run_key, yank}
use nettlp_dpdk.Shell.Keys.Yank.{cut-yank}

-- "ab" before the cursor and "cd" behind it
abbrev abcd : Shell
abcd = view create (97 ∷ 98 ∷ []) (99 ∷ 100 ∷ []) (replicate 27 0)

abcd-Holds : Holds abcd (97 ∷ 98 ∷ []) (99 ∷ 100 ∷ [])
abcd-Holds = record {
  rest = replicate 27 0;
  is_view = refl;
  before = (omega arith, (omega arith, tt));
  behind = (omega arith, (omega arith, tt));
}

abbrev served : Memory
served = record { malloc = true; realloc = λ k. true }

forward-Edits_example :
    Edits abcd (forward 1 abcd) (97 ∷ 98 ∷ []) (99 ∷ 100 ∷ []) (97 ∷ 98 ∷ 99 ∷ []) (100 ∷ [])
forward-Edits_example = forward-Edits abcd (97 ∷ 98 ∷ []) (99 ∷ []) (100 ∷ []) abcd-Holds

insert-Edits_example :
    Yields
      (insert (λ k. true) (120 ∷ []) abcd)
      abcd
      (97 ∷ 98 ∷ [])
      (99 ∷ 100 ∷ [])
      (97 ∷ 98 ∷ 120 ∷ [])
      (99 ∷ 100 ∷ [])
insert-Edits_example =
    insert-Edits (λ k. true) (120 ∷ []) abcd (97 ∷ 98 ∷ []) (99 ∷ 100 ∷ []) (λ k. refl)
      (omega arith, tt) abcd-Holds

delete_string-Edits_example :
    (Holds abcd (97 ∷ 98 ∷ []) (99 ∷ 100 ∷ [])
      → Yields
          (delete_string 2 3 abcd)
          abcd
          (97 ∷ 98 ∷ [])
          (99 ∷ 100 ∷ [])
          (97 ∷ 98 ∷ [])
          (100 ∷ []))
    × (Holds abcd (97 ∷ 98 ∷ 99 ∷ []) (100 ∷ [])
        → Yields
            (delete_string 2 3 abcd)
            abcd
            (97 ∷ 98 ∷ 99 ∷ [])
            (100 ∷ [])
            (97 ∷ 98 ∷ [])
            (100 ∷ []))
delete_string-Edits_example = delete_string-Edits abcd (97 ∷ 98 ∷ []) (99 ∷ []) (100 ∷ [])

cut-yank_example :
    Yields
      (cut true 2 3 abcd >>= run_key served yank 25)
      abcd
      (97 ∷ 98 ∷ [])
      (99 ∷ 100 ∷ [])
      (97 ∷ 98 ∷ 99 ∷ [])
      (100 ∷ [])
cut-yank_example =
    cut-yank served 25 abcd (97 ∷ 98 ∷ []) (99 ∷ []) (100 ∷ []) (λ k. refl) (λ e. omega arith)
      abcd-Holds

word_start-le_example : (start : ℕ) × (word_start abcd ≡ done start) × (start ≤ 2)
word_start-le_example = word_start-le abcd (omega arith)

squeeze-one_space_example : squeeze (32 ∷ 97 ∷ 32 ∷ 32 ∷ 98 ∷ []) 0 0 4 ≡ (
  one_space true (32 ∷ 97 ∷ 32 ∷ 32 ∷ 98 ∷ []),
  length (one_space true (take 4 (32 ∷ 97 ∷ 32 ∷ 32 ∷ 98 ∷ []))),
)
squeeze-one_space_example = squeeze-one_space (32 ∷ 97 ∷ 32 ∷ 32 ∷ 98 ∷ []) 4

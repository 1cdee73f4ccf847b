-- ===== src/Shell/Keys/Typed.antt =====
-- The keys of the default keymap that insert the byte typed.
use nettlp_dpdk.Prelude.{ℕ, zero, suc, ◌≤◌, ◌<◌, ◌≡◌, true, some, List, [], ◌∷◌, ◌++◌, arith}
use nettlp_dpdk.Shell.{Shell, space, c_string, insert_char}
use nettlp_dpdk.Shell.Held.{Holds, Yields}
use nettlp_dpdk.Shell.Insert.{insert-Edits}
use nettlp_dpdk.Shell.Keys.{Memory, input_char, run_key, default_keymap}

pub default_keymap-printable :
    (ch : ℕ) → space ≤ ch → ch < 127 → default_keymap ch ≡ some input_char
unfolding default_keymap
default_keymap-printable ch low high = ground arith

pub run_key-input_char :
    (memory : Memory) (ch : ℕ) (s : Shell) (a b : List ℕ)
    → ((k : ℕ) → memory.realloc k ≡ true)
    → space ≤ ch
    → Holds s a b
    → Yields (run_key memory input_char ch s) s a b (a ++ (ch ∷ [])) b
unfolding run_key insert_char c_string
run_key-input_char memory zero s a b served low h = absurd (omega arith)
run_key-input_char memory (suc ch) s a b served low h =
    insert-Edits memory.realloc (suc ch ∷ []) s a b served (low, tt) h

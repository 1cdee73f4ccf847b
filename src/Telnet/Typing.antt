-- ===== src/Telnet/Typing.antt =====
-- Typing on a session: printable bytes go into the line.
use nettlp_dpdk.Prelude.{
  ℕ, ◌≤◌, ◌<◌, ◌≡◌, refl, sym, ap, ◌∙◌, Bool, true, false, some, List, [], ◌∷◌, ◌++◌, arith, done,
  ◌>>=◌, ◌≢◌,
}
use mathlib.Core.List.{append_assoc, append-nil}
use mathlib.Core.Path.{subst}
use nettlp_dpdk.Shell.{Shell, space}
use nettlp_dpdk.Shell.Held.{Holds, Edits, Edits-then}
use nettlp_dpdk.Shell.Keys.{KeyFunc, input_char, run_key}
use nettlp_dpdk.Shell.Keys.Typed.{default_keymap-printable, run_key-input_char}
use nettlp_dpdk.Telnet.{
  Host, Session, by_normal, lookup, normal_table, command_keymap, run, on_shell, input, input_all,
  clear_escape,
}

-- Every byte is one that a key shows, but the question mark, which asks for help.
abbrev pub IsTyped : List ℕ → Type 0
IsTyped [] = Unit
IsTyped (x ∷ xs) = (space ≤ x) × (x < 127) × (x ≢ 63) × IsTyped xs

lookup-typed : (ch : ℕ) → space ≤ ch → ch < 127 → ch ≢ 63 → lookup by_normal ch ≡ some input_char
unfolding lookup normal_table command_keymap
lookup-typed ch low high no_help = ground (arith, no_help, default_keymap-printable ch low high)

-- Clearing the escape flag leaves the line and what was written.
cleared :
    (escaped : Bool) (s : Shell) (t : Session) (a b a' b' : List ℕ)
    → Edits s t.shell a b a' b'
    → (t' : Session) × (clear_escape escaped t ≡ t')
      × (t'.keymap ≡ t.keymap)
      × Edits s t'.shell a b a' b'
unfolding clear_escape
cleared false s t a b a' b' e = (t, refl, refl, e)
cleared true s t a b a' b' e = (
  record t { shell = record t.shell { escaped = false } },
  refl,
  refl,
  record {
    holds = record {
      rest = e.holds.rest;
      is_view = ap (λ x. unescaped x) e.holds.is_view;
      before = e.holds.before;
      behind = e.holds.behind;
    };
    echoes = record { sent = e.echoes.sent; written = e.echoes.written; keeps = e.echoes.keeps };
  },
)
  where
    unescaped : Shell → Shell
    unescaped x = record x { escaped = false }

input-found :
    (host : Host) (ch : ℕ) (t u : Session) (key : KeyFunc)
    → lookup t.keymap ch ≡ some key
    → run host key ch t ≡ done u
    → input host ch t ≡ done (clear_escape t.shell.escaped u)
unfolding input
input-found host ch t u key found ran = rw (found, ran) refl

run-typed :
    (host : Host) (ch : ℕ) (t : Session) (s : Shell)
    → run_key host.memory input_char ch t.shell ≡ done s
    → run host input_char ch t ≡ done (record t { shell = s })
unfolding run on_shell
run-typed host ch t s e = ap (λ r. r >>= λ x. done (record t { shell = x })) e

input-typed :
    (host : Host) (ch : ℕ) (t : Session) (a b : List ℕ)
    → ((k : ℕ) → host.memory.realloc k ≡ true)
    → space ≤ ch
    → ch < 127
    → ch ≢ 63
    → t.keymap ≡ by_normal
    → Holds t.shell a b
    → (t' : Session) × (input host ch t ≡ done t')
      × (t'.keymap ≡ by_normal)
      × Edits t.shell t'.shell a b (a ++ (ch ∷ [])) b
input-typed host ch t a b served low high no_help km h =
    let (s', e, edits) = run_key-input_char host.memory ch t.shell a b served low h in
    let (t', c, km', edits') =
      cleared t.shell.escaped t.shell (record t { shell = s' }) a b (a ++ (ch ∷ [])) b edits in
    (
      t',
      input-found host ch t (record t { shell = s' }) input_char
            (ap (λ k. lookup k ch) km ∙ lookup-typed ch low high no_help) (run-typed host ch t s' e)
          ∙ ap done c,
      km' ∙ km,
      edits',
    )

-- Bytes from the space to the tilde, but the question mark, that are typed on a telnet session outside of any escape sequence go
-- into the line before its cursor, in their order, where memory is served: the session ends outside
-- of any escape sequence, and the terminal that showed the old line shows the new one.
pub input_all-typed :
    (host : Host) (typed : List ℕ) (t : Session) (a b : List ℕ)
    → ((k : ℕ) → host.memory.realloc k ≡ true)
    → IsTyped typed
    → t.keymap ≡ by_normal
    → Holds t.shell a b
    → (t' : Session) × (input_all host typed t ≡ done t')
      × (t'.keymap ≡ by_normal)
      × Edits t.shell t'.shell a b (a ++ typed) b
unfolding input_all
input_all-typed host [] t a b served p km h = (t, refl, km, unchanged)
  where
    unchanged : Edits t.shell t.shell a b (a ++ []) b
    unchanged =
        subst (λ l. Edits t.shell t.shell a b l b) (sym (append-nil a))
          (record {
            holds = h;
            echoes = record {
              sent = [];
              written = sym (append-nil t.shell.out);
              keeps = λ k. (k, refl);
            };
          })
input_all-typed host (x ∷ xs) t a b served (low, high, no_help, p) km h =
    let (u, e, km', first) = input-typed host x t a b served low high no_help km h in
    let (t', e', km'', rest) =
      input_all-typed host xs u (a ++ (x ∷ [])) b served p km' first.holds in
    (
      t',
      ap (λ r. r >>= λ v. input_all host xs v) e ∙ e',
      km'',
      subst (λ l. Edits t.shell t'.shell a b l b) (append_assoc a (x ∷ []) xs)
          (Edits-then first rest),
    )

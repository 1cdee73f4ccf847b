-- ===== src/Shell/Words.antt =====
-- The word functions of shell.c. The loops over `strsep` walk the tokens of the line, each a place
-- and a length. The assert on `point` and strdup, which is served, stand before each loop.
-- Each leaves the line terminated, as the functions that call them say here.
use nettlp_dpdk.Prelude.{
  ℕ, ◌+◌, ◌≤◌, ◌≡◌, refl, Bool, false, ◌&&◌, ◌||◌, Option, none, some, List, [], ◌∷◌, arith, ltb,
  leb, ◌==◌, if◌then◌else◌, Run, done, abort, ◌>>=◌, Bool-cases, inl, inr, le→ltb,
}
use mathlib.Core.Path.{subst, sym}
use nettlp_dpdk.Shell.{Shell, space, c_string, terminate, cut, moveto}

pub record Token : Type 0 where
  pub place : ℕ
  pub len : ℕ

-- SHELL_WORD_DELIMITERS and SHELL_WORD_DELIMITERS_SUB
abbrev pub is_delimiter : ℕ → Bool
is_delimiter x = x == space

abbrev pub is_delimiter_sub : ℕ → Bool
is_delimiter_sub x = x == space || x == 47

-- What repeated calls of `strsep` return, the token begun with `len` bytes at `start`.
pub tokens : (ℕ → Bool) → List ℕ → ℕ → ℕ → List Token
tokens delimiter [] start len = record { place = start; len = len } ∷ []
tokens delimiter (x ∷ xs) start len =
    if delimiter x
    then record { place = start; len = len } ∷ tokens delimiter xs (start + len + 1) 0
    else tokens delimiter xs start (len + 1)

-- The word of the loops of `shell_word_head`, `shell_subword_head` and `shell_word_end`.
pub word_at : ℕ → Token → List Token → Token
word_at point word [] = word
word_at point word (next ∷ rest) =
    let later = word_at point (if next.len == 0 then word else next) rest in
    if leb word.place point && ltb point next.place then word else later

-- `word` begins at the start of the line, where the first token ends it.
first_token : List Token → Token
first_token [] = record { place = 0; len = 0 }
first_token (t ∷ ts) = t

pub head_at : ℕ → List Token → ℕ
head_at point ts =
    let word = word_at point (first_token ts) ts in
    if ltb (word.place + word.len) point then point else word.place

pub end_at : ℕ → List Token → ℕ
end_at point ts =
    let word = word_at point (first_token ts) ts in
    if ltb (word.place + word.len) point then point else word.place + word.len

-- The loop of `shell_word_prev_head` and `shell_subword_prev_head`.
pub prev_at : ℕ → ℕ → List Token → ℕ
prev_at point prev [] = prev
prev_at point prev (word ∷ rest) =
    let later = prev_at point (if word.len == 0 then prev else word.place) rest in
    if leb word.place point && leb point (word.place + word.len) then prev else later

-- The loop of `shell_word_next_head`, `none` where no word follows.
pub next_at : ℕ → List Token → Option ℕ
next_at point [] = none
next_at point (word ∷ []) = none
next_at point (word ∷ next ∷ rest) =
    let later = next_at point (next ∷ rest) in
    if leb word.place point && leb point (word.place + word.len)
    then if next.len == 0 then none else some next.place
    else later

line_tokens : (ℕ → Bool) → Shell → List Token
line_tokens delimiter s = tokens delimiter (c_string (terminate s).command_line) 0 0

pub word_head : ℕ → Shell → Run ℕ
word_head point s =
    if ltb s.end point then abort else done (head_at point (line_tokens is_delimiter s))

pub subword_head : ℕ → Shell → Run ℕ
subword_head point s =
    if ltb s.end point then abort else done (head_at point (line_tokens is_delimiter_sub s))

pub word_end : ℕ → Shell → Run ℕ
word_end point s =
    if ltb s.end point then abort else done (end_at point (line_tokens is_delimiter s))

pub word_next_head : ℕ → Shell → Run ℕ
word_next_head point s =
    if ltb s.end point
    then abort
    else done
        (elim (next_at point (line_tokens is_delimiter s)) [ none ↦ s.end | some place ↦ place ])

pub word_prev_head : ℕ → Shell → Run ℕ
word_prev_head point s =
    if ltb s.end point then abort else done (prev_at point 0 (line_tokens is_delimiter s))

pub subword_prev_head : ℕ → Shell → Run ℕ
subword_prev_head point s =
    if ltb s.end point then abort else done (prev_at point 0 (line_tokens is_delimiter_sub s))

-- Where the two functions that go back by a word go to.
pub word_start : Shell → Run ℕ
word_start s = subword_head s.cursor (terminate s) >>= λ start.
    if start == s.cursor then subword_prev_head s.cursor (terminate s) else done start

-- `granted` is the answer of malloc for the cut buffer.
pub delete_word_backward : Bool → Shell → Run Shell
delete_word_backward granted s = word_start s >>= λ start. cut granted start s.cursor (terminate s)

pub move_word_backward : Shell → Run Shell
move_word_backward s = word_start s >>= λ start. moveto start (terminate s)

pub move_word_forward : Shell → Run Shell
move_word_forward s = word_next_head s.cursor (terminate s) >>= λ start. moveto start (terminate s)

word_at-place :
    (point : ℕ) (word : Token) (ts : List Token)
    → word.place ≤ point
    → (word_at point word ts).place ≤ point
unfolding word_at
word_at-place point word [] h = h
word_at-place point word (next ∷ rest) h =
    elim (Bool-cases (leb word.place point && ltb point next.place)) [
      | inl here ↦ rw here h
      | inr on ↦
          rw on (word_at-place point (if next.len == 0 then word else next) rest (ground arith))
    ]

-- The head of the word at a place is not behind that place, for tokens that begin with the line.
pub head_at-le :
    (point : ℕ) (t : Token) (ts : List Token) → t.place ≤ point → head_at point (t ∷ ts) ≤ point
unfolding head_at first_token
head_at-le point t ts h = ground (arith, word_at-place point t (t ∷ ts) h)

-- The head of the word before a place is not behind that place, for tokens from there or before on.
pub prev_at-le :
    (delimiter : ℕ → Bool) (point prev : ℕ) (xs : List ℕ) (start len : ℕ)
    → prev ≤ point
    → start ≤ point
    → prev_at point prev (tokens delimiter xs start len) ≤ point
unfolding prev_at tokens
prev_at-le delimiter point prev [] start len p q = ground arith
prev_at-le delimiter point prev (x ∷ xs) start len p q = elim (Bool-cases (delimiter x)) [
  | inr inside ↦ rw inside (prev_at-le delimiter point prev xs start (len + 1) p q)
  | inl ends ↦ rw ends (elim (Bool-cases (leb start point && leb point (start + len))) [
    | inl here ↦ rw here p
    | inr on ↦ rw on (
        prev_at-le delimiter point (if len == 0 then prev else start) xs (start + len + 1) 0
          (ground arith) (ground arith))
  ])
]

tokens-first :
    (delimiter : ℕ → Bool) (xs : List ℕ) (start len : ℕ)
    → (t : Token) × (ts : List Token) × (tokens delimiter xs start len ≡ t ∷ ts) × (t.place ≡ start)
unfolding tokens
tokens-first delimiter [] start len = (record { place = start; len = len }, [], refl, refl)
tokens-first delimiter (x ∷ xs) start len = elim (Bool-cases (delimiter x)) [
  | inl ends ↦ (
    record { place = start; len = len },
    tokens delimiter xs (start + len + 1) 0,
    rw ends refl,
    refl,
  )
  | inr inside ↦
      let (t, ts, e, z) = tokens-first delimiter xs start (len + 1) in (t, ts, rw inside e, z)
]

head_at-tokens :
    (delimiter : ℕ → Bool) (xs : List ℕ) (point : ℕ)
    → head_at point (tokens delimiter xs 0 0) ≤ point
head_at-tokens delimiter xs point =
    let (t, ts, e, z) = tokens-first delimiter xs 0 0 in
    subst (λ l. head_at point l ≤ point) (sym e) (head_at-le point t ts (omega arith))

end-terminate : (s : Shell) → (terminate s).end ≡ s.end
unfolding terminate
end-terminate s = ground arith

-- Going back by a word, from a cursor within the line, passes the asserts on the place and ends at
-- the cursor or before it: what the deletion of a word gives to `shell_cut` passes its asserts.
pub word_start-le :
    (s : Shell) → s.cursor ≤ s.end → (start : ℕ) × (word_start s ≡ done start) × (start ≤ s.cursor)
unfolding word_start subword_head subword_prev_head line_tokens
word_start-le s within = elim (Bool-cases (head == s.cursor)) [
  | inl at_head ↦ (
    prev_at s.cursor 0 (line_tokens is_delimiter_sub (terminate s)),
    rw (tested, at_head) refl,
    prev_at-le is_delimiter_sub s.cursor 0 (c_string (terminate (terminate s)).command_line) 0 0
        (omega arith) (omega arith),
  )
  | inr before ↦ (
    head,
    rw (tested, before) refl,
    head_at-tokens is_delimiter_sub (c_string (terminate (terminate s)).command_line) s.cursor,
  )
]
  where
    head : ℕ
    head = head_at s.cursor (line_tokens is_delimiter_sub (terminate s))

    tested : ltb (terminate s).end s.cursor ≡ false
    tested = le→ltb _ _ (omega (arith, end-terminate s))

-- ===== src/Command/Specs.antt =====
-- lib/zcmdsh/command.c: the words that stand for a value in a command, and what matches them; and
-- path_disassemble of lib/zcmdsh/file.c.
-- A text is the list of its bytes, without the NUL. The conversions of libc, inet_pton, stat and
-- strftime are the fields of a `Libc`. A path is shorter than FILENAME_MAX.
use nettlp_dpdk.Prelude.{
  ℕ, ◌%◌, ◌^◌, Bool, true, false, not, ◌&&◌, ◌||◌, Option, none, some, List, [], ◌∷◌, ltb, leb,
  ◌==◌, if◌then◌else◌, length,
}

abbrev pub Text : Type 0
Text = List ℕ

pub data FileKind : Type 0 where
  regular : FileKind
  directory : FileKind
  special : FileKind

-- What stat answers: ENOENT, another error, or the kind of the file.
pub data Stat : Type 0 where
  missing : Stat
  failed : Stat
  found : FileKind → Stat

-- A conversion gives the value and the text behind the number: of strtol the 64 bits of the value.
-- `less` is the order of double, and strftime is with the time of the call.
pub record Libc : Type 1 where
  pub Double : Type 0
  pub strtod : Text → Double × Text
  pub less : Double → Double → Bool
  pub strtoul : Text → ℕ × Text
  pub strtol : Text → ℕ × Text
  pub inet_pton : Text → Bool
  pub stat : Text → Stat
  pub strftime : Text → Option Text

-- ! strcmp (a, b)
unfoldable pub same : Text → Text → Bool
same [] [] = true
same [] (b ∷ bs) = false
same (a ∷ as') [] = false
same (a ∷ as') (b ∷ bs) = (a == b) && same as' bs

-- ! strncmp (spec, word, strlen (word))
unfoldable pub is_command_match_regular : Text → Text → Bool
is_command_match_regular spec [] = true
is_command_match_regular [] (w ∷ word) = false
is_command_match_regular (s ∷ spec) (w ∷ word) = (s == w) && is_command_match_regular spec word

-- "A.B.C.D"
abbrev pub ipv4_text : Text
ipv4_text = 65 ∷ 46 ∷ 66 ∷ 46 ∷ 67 ∷ 46 ∷ 68 ∷ []

-- "A.B.C.D/M"
abbrev pub ipv4_prefix_text : Text
ipv4_prefix_text = 65 ∷ 46 ∷ 66 ∷ 46 ∷ 67 ∷ 46 ∷ 68 ∷ 47 ∷ 77 ∷ []

-- "<[-]ddd.ddd>"
abbrev pub double_text : Text
double_text = 60 ∷ 91 ∷ 45 ∷ 93 ∷ 100 ∷ 100 ∷ 100 ∷ 46 ∷ 100 ∷ 100 ∷ 100 ∷ 62 ∷ []

-- "<[-]d.ddde[+-]dd>"
abbrev pub exponent_text : Text
exponent_text =
    60 ∷ 91 ∷ 45 ∷ 93 ∷ 100 ∷ 46 ∷ 100 ∷ 100 ∷ 100 ∷ 101 ∷ 91 ∷ 43 ∷ 45 ∷ 93 ∷ 100 ∷ 100 ∷ 62 ∷ []

-- "<FILENAME>"
abbrev pub filename_text : Text
filename_text = 60 ∷ 70 ∷ 73 ∷ 76 ∷ 69 ∷ 78 ∷ 65 ∷ 77 ∷ 69 ∷ 62 ∷ []

-- "<FILE>"
abbrev pub file_text : Text
file_text = 60 ∷ 70 ∷ 73 ∷ 76 ∷ 69 ∷ 62 ∷ []

-- "<LINE>"
abbrev pub line_text : Text
line_text = 60 ∷ 76 ∷ 73 ∷ 78 ∷ 69 ∷ 62 ∷ []

-- "<WORD>"
abbrev pub word_text : Text
word_text = 60 ∷ 87 ∷ 79 ∷ 82 ∷ 68 ∷ 62 ∷ []

-- "<VAR>"
abbrev pub var_text : Text
var_text = 60 ∷ 86 ∷ 65 ∷ 82 ∷ 62 ∷ []

-- strchr: what stands before and behind the first byte `c`.
pub split_at : ℕ → Text → Option (Text × Text)
split_at c [] = none
split_at c (x ∷ xs) =
    let rest = split_at c xs in
    if x == c
    then some ([], xs)
    else elim rest [ none ↦ none | some (before, behind) ↦ some (x ∷ before, behind) ]

-- strrchr: the same with the last byte `c`.
pub split_last : ℕ → Text → Option (Text × Text)
split_last c [] = none
split_last c (x ∷ xs) = elim (split_last c xs) [
  | some (before, behind) ↦ some (x ∷ before, behind)
  | none ↦ if x == c then some ([], xs) else none
]

pub has_byte : ℕ → Text → Bool
has_byte c [] = false
has_byte c (x ∷ xs) = (x == c) || has_byte c xs

unfoldable pub is_empty_text : Text → Bool
is_empty_text [] = true
is_empty_text (x ∷ xs) = false

unfoldable pub ipv4_spec : Text → Bool
ipv4_spec spec = same spec ipv4_text

pub ipv4_prefix_spec : Text → Bool
ipv4_prefix_spec spec = same spec ipv4_prefix_text

unfoldable pub double_spec : Text → Bool
double_spec spec = same spec double_text || same spec exponent_text

unfoldable pub file_spec : Text → Bool
file_spec spec = same spec filename_text || same spec file_text

unfoldable pub line_spec : Text → Bool
line_spec spec = same spec line_text

pub word_spec : Text → Bool
word_spec spec = same spec word_text

unfoldable pub var_spec : Text → Bool
var_spec spec = same spec var_text

-- The text before a last byte `>`.
pub before_end : Text → Option Text
before_end [] = none
before_end (x ∷ []) = if x == 62 then some [] else none
before_end (x ∷ y ∷ ys) = elim (before_end (y ∷ ys)) [ none ↦ none | some t ↦ some (x ∷ t) ]

-- minstr and maxstr: between `<`, the first `-` and a last `>`.
unfoldable pub range_texts : Text → Option (Text × Text)
range_texts [] = none
range_texts (c ∷ body) =
    if c == 60
    then elim (split_at 45 body) [
      | none ↦ none
      | some (minstr, behind) ↦ elim (before_end behind) [
        | none ↦ none
        | some maxstr ↦ some (minstr, maxstr)
      ]
    ]
    else none

-- MAX_RANGE_SPEC_STR
abbrev pub max_range : ℕ
max_range = 10

-- The directory and the name in it.
pub path_disassemble : Text → Text × Text
path_disassemble path = elim (split_last 47 path) [
  | none ↦ (46 ∷ [], path)
  | some ([], name) ↦ (47 ∷ [], name)
  | some (d ∷ dir, name) ↦ (d ∷ dir, name)
]

may_be_directory : Stat → Bool
may_be_directory missing = true
may_be_directory failed = false
may_be_directory (found directory) = true
may_be_directory (found regular) = false
may_be_directory (found special) = false

is_special : Stat → Bool
is_special (found special) = true
is_special (found regular) = false
is_special (found directory) = false
is_special missing = false
is_special failed = false

module _ (libc : Libc) where
  pub ipv4_prefix_match : Text → Bool
  ipv4_prefix_match word = elim (split_at 47 word) [
    | none ↦ false
    | some (addr, tail) ↦
        let (len, rest) = libc.strtol tail in
        is_empty_text rest && (leb (len % 2 ^ 32) 32 && libc.inet_pton addr)
  ]

  pub doubles_in_order : Text → Text → Bool
  doubles_in_order minstr maxstr =
      let (dmin, rest) = libc.strtod minstr in
      let (dmax, rest') = libc.strtod maxstr in
      is_empty_text rest && (is_empty_text rest' && not (libc.less dmax dmin))

  pub longs_in_order : Text → Text → Bool
  longs_in_order minstr maxstr =
      let (vmin, rest) = libc.strtoul minstr in
      let (vmax, rest') = libc.strtoul maxstr in
      is_empty_text rest && (is_empty_text rest' && leb vmin vmax)

  unfoldable pub range_spec : Text → Bool
  range_spec spec = elim (range_texts spec) [
    | none ↦ false
    | some (minstr, maxstr) ↦
        if ltb max_range (length minstr) || ltb max_range (length maxstr)
        then false
        else if has_byte 46 minstr || has_byte 46 maxstr
        then doubles_in_order minstr maxstr
        else longs_in_order minstr maxstr
  ]

  double_within : Text → Text → Text → Bool
  double_within minstr maxstr word =
      let (dval, rest) = libc.strtod word in
      is_empty_text rest
      && not (libc.less dval (libc.strtod minstr).0 || libc.less (libc.strtod maxstr).0 dval)

  long_within : Text → Text → Text → Bool
  long_within minstr maxstr word =
      let (val, rest) = libc.strtoul word in
      is_empty_text rest && not (ltb val (libc.strtoul minstr).0 || ltb (libc.strtoul maxstr).0 val)

  -- Asked only of a spec that `range_spec` takes.
  pub range_match : Text → Text → Bool
  range_match spec word = elim (range_texts spec) [
    | none ↦ false
    | some (minstr, maxstr) ↦
        if has_byte 46 minstr || has_byte 46 maxstr
        then double_within minstr maxstr word
        else long_within minstr maxstr word
  ]

  pub double_match : Text → Bool
  double_match word = is_empty_text (libc.strtod word).1

  pub file_match : Text → Bool
  file_match word =
      let (dirname, filename) = path_disassemble word in
      may_be_directory (libc.stat dirname) && not (is_special (libc.stat filename))

  pub is_command_match_variable : Text → Text → Bool
  is_command_match_variable spec word =
      (ipv4_spec spec && libc.inet_pton word)
      || ((ipv4_prefix_spec spec && ipv4_prefix_match word)
          || ((range_spec spec && range_match spec word)
              || ((double_spec spec && double_match word)
                  || ((file_spec spec && file_match word)
                      || (line_spec spec || (word_spec spec || var_spec spec))))))

  -- One more than the number of the code, which is -1 for a spec of no kind that it lists.
  pub varmatch_pri : Text → ℕ
  varmatch_pri spec =
      if ipv4_prefix_spec spec
      then 7
      else if ipv4_spec spec
      then 6
      else if range_spec spec
      then 5
      else if double_spec spec
      then 4
      else if file_spec spec
      then 3
      else if var_spec spec
      then 2
      else if line_spec spec
      then 1
      else 0

  -- file_replace
  pub file_replace : Text → Text
  file_replace word =
      if has_byte 37 word
      then elim (libc.strftime word) [ none ↦ word | some name ↦ name ]
      else word

-- ===== src/Ignores/Glob.antt =====
-- `globToRegex` and `matchesScope` of live-browser-ignores.js. The regular expression is kept as the
-- list of the pieces that the source puts together, between `^` and `$`, and `re.test` is a matcher.
use ar_automation_agent.Prelude.{
  ℕ, zero, suc, Bool, true, false, not, ◌&&◌, ◌||◌, Option, none, some, List, [], ◌∷◌, length,
  some_of, ◌==◌, if◌then◌else◌,
}
use ar_automation_agent.Prelude.Text.{Text, split, cut_at}

-- How often a character of a part stands: nothing behind it, `?`, or `*`.
pub data Times : Type 0 where
  once optional many : Times

pub record Atom : Type 0 where
  pub char : ℕ
  pub times : Times

-- `x` or `\x`, `.*`, `[^/]*`, `[^/]`, and `(?:a|b)`.
pub data Piece : Type 0 where
  literal : ℕ → Piece
  any_run name_run name_char : Piece
  choice : List (List Atom) → Piece

-- The parts of a choice keep their `*` and `?`, which are the operators of the expression there.
-- What the last character may still take: nothing, one operator, or the `?` of a lazy one.
pub data Last : Type 0 where
  fixed : Last
  bare : ℕ → Last
  repeated : ℕ → Times → Last

abbrev pub atom : ℕ → Times → List Atom
atom c t = record { char = c; times = t } ∷ []

abbrev pub emit : Last → List Atom
emit fixed = []
emit (bare c) = atom c once
emit (repeated c t) = atom c t

-- What is settled, and what the last character is. none: nothing to repeat, and `RegExp` throws.
abbrev pub part_step : Last → ℕ → Option (List Atom × Last)
part_step (bare c) d =
    if d == 42
    then some ([], repeated c many)
    else if d == 63
    then some ([], repeated c optional)
    else some (atom c once, bare d)
part_step (repeated c t) d =
    if d == 42 then none else if d == 63 then some (atom c t, fixed) else some (atom c t, bare d)
part_step fixed d = if d == 42 || d == 63 then none else some ([], bare d)

abbrev pub put_before : List Atom → Option (List Atom) → Option (List Atom)
put_before xs none = none
put_before [] (some bs) = some bs
put_before (a ∷ xs) (some bs) = some (a ∷ bs)

unfoldable pub parse_part : Last → Text → Option (List Atom)
parse_part l [] = some (emit l)
parse_part l (d ∷ ds) = elim (part_step l d) [
  | none ↦ none
  | some (xs, l') ↦ put_before xs (parse_part l' ds)
]

unfoldable pub parse_parts : List Text → Option (List (List Atom))
parse_parts [] = some []
parse_parts (p ∷ ps) = elim (parse_part fixed p) [
  | none ↦ none
  | some xs ↦ elim (parse_parts ps) [ none ↦ none | some rest ↦ some (xs ∷ rest) ]
]

abbrev pub choice_of : Option (List (List Atom)) → Option Piece
choice_of none = none
choice_of (some xs) = some (choice xs)

-- Behind `**`, one slash is passed over.
abbrev pub star_pieces : Text → Option Piece × Text
star_pieces [] = (some name_run, [])
star_pieces (c ∷ []) = if c == 42 then (some any_run, []) else (some name_run, c ∷ [])
star_pieces (c ∷ d ∷ cs) =
    if c == 42 then (some any_run, if d == 47 then cs else d ∷ cs) else (some name_run, c ∷ d ∷ cs)

-- Without a closing brace, the brace stands for itself.
abbrev pub brace_pieces : Text → Option Piece × Text
brace_pieces cs = elim (cut_at 125 cs) [
  | none ↦ (some (literal 123), cs)
  | some (inner, rest) ↦ (choice_of (parse_parts (split 44 inner)), rest)
]

-- One turn of the loop: the piece, and what is left of the glob.
unfoldable pub next_piece : ℕ → Text → Option Piece × Text
next_piece c cs =
    if c == 42
    then star_pieces cs
    else if c == 63
    then (some name_char, cs)
    else if c == 123
    then brace_pieces cs
    else (some (literal c), cs)

abbrev pub add_piece : Option Piece → Option (List Piece) → Option (List Piece)
add_piece none ps = none
add_piece (some p) none = none
add_piece (some p) (some ps) = some (p ∷ ps)

-- The loop: a turn takes one character at least, so that the length of the glob is turns enough.
unfoldable pub pieces : ℕ → Text → Option (List Piece)
pieces zero s = some []
pieces (suc n) [] = some []
pieces (suc n) (c ∷ cs) = let (p, rest) = next_piece c cs in add_piece p (pieces n rest)

unfoldable pub glob_to_regex : Text → Option (List Piece)
glob_to_regex g = pieces (length g) g

-- `.` is any code unit but the four that end a line.
abbrev pub is_line_end : ℕ → Bool
is_line_end c = c == 10 || c == 13 || c == 8232 || c == 8233

abbrev pub in_line : ℕ → Bool
in_line c = not (is_line_end c)

abbrev pub in_name : ℕ → Bool
in_name c = not (c == 47)

-- A run of characters that pass, and then the rest.
unfoldable pub run_then : (ℕ → Bool) → (Text → Bool) → Text → Bool
run_then p k [] = k []
run_then p k (c ∷ cs) = k (c ∷ cs) || (p c && run_then p k cs)

abbrev pub char_then : (ℕ → Bool) → (Text → Bool) → Text → Bool
char_then p k [] = false
char_then p k (c ∷ cs) = p c && k cs

abbrev pub is_char : ℕ → ℕ → Bool
is_char c d = d == c

abbrev pub atom_then : Atom → (Text → Bool) → Text → Bool
atom_then a k s = elim a.times [
  | once ↦ char_then (is_char a.char) k s
  | optional ↦ k s || char_then (is_char a.char) k s
  | many ↦ run_then (is_char a.char) k s
]

abbrev pub atoms_then : List Atom → (Text → Bool) → Text → Bool
atoms_then [] k s = k s
atoms_then (a ∷ xs) k s = atom_then a (atoms_then xs k) s

abbrev pub is_end : Text → Bool
is_end [] = true
is_end (c ∷ cs) = false

-- `re.test(s)`
unfoldable pub matches : List Piece → Text → Bool
matches [] s = is_end s
matches (literal c ∷ ps) s = char_then (is_char c) (matches ps) s
matches (any_run ∷ ps) s = run_then in_line (matches ps) s
matches (name_run ∷ ps) s = run_then in_name (matches ps) s
matches (name_char ∷ ps) s = char_then in_name (matches ps) s
matches (choice xs ∷ ps) s = some_of (λ a. atoms_then a (matches ps) s) xs

-- A glob whose expression throws matches nothing.
unfoldable pub glob_matches : Text → Text → Bool
glob_matches g s = elim (glob_to_regex g) [ none ↦ false | some ps ↦ matches ps s ]

unfoldable pub matches_scope : List Text → List Text → Bool
matches_scope globs candidates = some_of (λ g. some_of (glob_matches g) candidates) globs

-- ===== src/Prometheus/Queries/Literals.antt =====
-- What a name becomes inside a query.
use ovro.Prometheus.Queries.{replace_all, sanitize_label_value}
use Prim.Native.Char.{code, Char}
use Prim.Native.String.append
use text.Mathlib.TextEquality.{Char-path}
use ovro.Prelude.{
  arith, refl, inr, inl, Bool-cases, true, ◌≡◌, ◌||◌, ◌<>◌, false, ◌==◌, some, none, if◌then◌else◌,
  Option, Bool, String,
}

-- The first character of what a reader still has to read.
abbrev pub prepend : Char → Option (String × String) → Option (String × String)
prepend c none = none
prepend c (some (s, rest)) = some (String.◌∷◌ c s, rest)

-- How PromQL reads on after the opening mark of a double-quoted string: up to the next mark that is
-- not escaped, with a backslash before a mark or a backslash. It yields the string and what follows
-- it, and fails at a raw line feed and at the end; other escapes do not occur here, and fail too.
-- The Boolean says that the last character was an escaping backslash.
unfoldable pub read_quoted : Bool → String → Option (String × String)
read_quoted escaped String.[] = none
read_quoted true (String.◌∷◌ c s) =
    let rest = read_quoted false s in if code c == 92 || code c == 34 then prepend c rest else none
read_quoted false (String.◌∷◌ c s) =
    let escape = read_quoted true s in
    let copy = read_quoted false s in
    if code c == 34
    then some ("", s)
    else if code c == 92
    then escape
    else if code c == 10
    then none
    else prepend c copy

-- The text without line feeds and carriage returns.
unfoldable pub one_line : String → String
one_line String.[] = ""
one_line (String.◌∷◌ c s) =
    let rest = one_line s in if code c == 10 || code c == 13 then rest else String.◌∷◌ c rest

-- What one character becomes.
abbrev escaped_char : Char → String → String
escaped_char c rest =
    if code c == 92
    then "\\\\" <> rest
    else if code c == 34
    then "\\\"" <> rest
    else if code c == 10 || code c == 13
    then rest
    else String.◌∷◌ c rest

append_two :
    (a b : Char) (s : String) → String.◌∷◌ a (String.◌∷◌ b "") <> s ≡ String.◌∷◌ a (String.◌∷◌ b s)
append_two a b s = rw (append.cons, append.cons, append.nil) refl

sanitize_label_value_step :
    (c : Char) (s : String)
    → sanitize_label_value (String.◌∷◌ c s) ≡ escaped_char c (sanitize_label_value s)
unfolding sanitize_label_value replace_all
sanitize_label_value_step c s = elim (Bool-cases (code c == 92)) [
  | inl e ↦ rw (e, append_two "\\" "\\", append_two "\\" "\\") refl
  | inr e ↦ elim (Bool-cases (code c == 34)) [
    | inl f ↦ rw (e, f, append_two "\\" "\"", append_two "\\" "\"") refl
    | inr f ↦ elim (Bool-cases (code c == 10)) [
      | inl g ↦ rw (e, f, g, append.nil) refl
      | inr g ↦ elim (Bool-cases (code c == 13)) [
        | inl h ↦ rw (e, f, g, h, append.nil) refl
        | inr h ↦ rw (e, f, g, h) refl
      ]
    ]
  ]
]

read_quoted-escaped_char :
    (c : Char) (s rest : String)
    → read_quoted false (escaped_char c s <> rest) ≡ (
        if code c == 10 || code c == 13
        then read_quoted false (s <> rest)
        else prepend c (read_quoted false (s <> rest)))
unfolding read_quoted
read_quoted-escaped_char c s rest = elim (Bool-cases (code c == 92)) [
  | inl e ↦
      let same : c ≡ "\\" = Char-path c "\\" (ground arith) in
      rw same (rw (append_two "\\" "\\", append.cons, append.cons) refl)
  | inr e ↦ elim (Bool-cases (code c == 34)) [
    | inl f ↦
        let same : c ≡ "\"" = Char-path c "\"" (ground arith) in
        rw same (rw (append_two "\\" "\"", append.cons, append.cons) refl)
    | inr f ↦ elim (Bool-cases (code c == 10 || code c == 13)) [
      | inl g ↦ rw (e, f, g) refl
      | inr g ↦ rw (e, f, g, append.cons) (ground arith)
    ]
  ]
]

-- A name that was escaped, and followed by the closing mark, is read back as the name, without its
-- line feeds and carriage returns, and what follows the mark is left as it is.
pub read_quoted-sanitize_label_value :
    (s rest : String)
    → read_quoted false (sanitize_label_value s <> ("\"" <> rest)) ≡ some (one_line s, rest)
unfolding read_quoted one_line sanitize_label_value replace_all
read_quoted-sanitize_label_value String.[] rest = rw (append.nil, append.cons, append.nil) refl
read_quoted-sanitize_label_value (String.◌∷◌ c s) rest =
    rw sanitize_label_value_step
      (rw read_quoted-escaped_char (rw (read_quoted-sanitize_label_value s rest) (ground arith)))

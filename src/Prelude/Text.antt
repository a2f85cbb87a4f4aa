-- ===== src/Prelude/Text.antt =====
-- Python's `str`: what the program uses of it, on texts as lists of characters. What Python takes
-- from the Unicode database beyond white space is a parameter: `casefold`, and the value of a
-- decimal digit.
use Prim.Native.Nat.{◌/◌, ◌%◌}
use Prim.Native.Char.{Char, code}
use Prim.Native.String.{slice, ◌++◌ as ◌followed_by◌}
use strmline.Prelude.{
  ℕ, zero, suc, ◌+◌, ◌*◌, String, Bool, true, false, ◌&&◌, ◌||◌, List, [], ◌∷◌, Option, none, some,
  if◌then◌else◌, ltb, leb, nat_beq, ◌==◌, string_eq,
}

pub record Unicode : Type 0 where
  pub casefold : String → String
  pub digit_value : ℕ → Option ℕ

-- `str.isspace` on a character, which is what `\s` matches.
unfoldable pub is_space : ℕ → Bool
is_space c =
    (leb 9 c && leb c 13)
    || (leb 28 c && leb c 32)
    || nat_beq c 133
    || nat_beq c 160
    || nat_beq c 5760
    || (leb 8192 c && leb c 8202)
    || nat_beq c 8232
    || nat_beq c 8233
    || nat_beq c 8239
    || nat_beq c 8287
    || nat_beq c 12288

abbrev pub is_slash : ℕ → Bool
is_slash c = nat_beq c 47

-- `[\\/]`
abbrev pub is_path_separator : ℕ → Bool
is_path_separator c = nat_beq c 47 || nat_beq c 92

abbrev pub is_dot : ℕ → Bool
is_dot c = nat_beq c 46

abbrev reverse_onto : String → String → String
reverse_onto String.[] done = done
reverse_onto (String.◌∷◌ c s) done = reverse_onto s (String.◌∷◌ c done)

unfoldable pub strip_left_by : (ℕ → Bool) → String → String
strip_left_by p String.[] = ""
strip_left_by p (String.◌∷◌ c s) =
    let rest = strip_left_by p s in if p (code c) then rest else String.◌∷◌ c s

unfoldable pub strip_right_by : (ℕ → Bool) → String → String
unfolding strip_left_by
strip_right_by p s = reverse_onto (strip_left_by p (reverse_onto s "")) ""

unfoldable pub strip_by : (ℕ → Bool) → String → String
unfolding strip_left_by strip_right_by
strip_by p s = strip_right_by p (strip_left_by p s)

-- `s.strip()`
unfoldable pub strip : String → String
unfolding is_space strip_by
strip = strip_by is_space

abbrev extend_head : Char → List String → List String
extend_head c [] = String.◌∷◌ c "" ∷ []
extend_head c (part ∷ parts) = String.◌∷◌ c part ∷ parts

-- `s.split(c)` or `re.split` by one character, which keep the empty parts.
unfoldable pub split_by : (ℕ → Bool) → String → List String
split_by p String.[] = "" ∷ []
split_by p (String.◌∷◌ c s) =
    let parts = split_by p s in if p (code c) then "" ∷ parts else extend_head c parts

abbrev pub last_of : String → List String → String
last_of d [] = d
last_of d (part ∷ parts) = last_of part parts

-- `s.rsplit(c, maxsplit=1)[-1]`
unfoldable pub after_last : (ℕ → Bool) → String → String
unfolding split_by
after_last p s = last_of "" (split_by p s)

abbrev pub has_char : (ℕ → Bool) → String → Bool
has_char p String.[] = false
has_char p (String.◌∷◌ c s) = p (code c) || has_char p s

-- `s.rsplit(c, maxsplit=1)[0]`
unfoldable pub before_last : (ℕ → Bool) → String → String
before_last p String.[] = ""
before_last p (String.◌∷◌ c s) =
    let rest = before_last p s in
    if has_char p s then String.◌∷◌ c rest else if p (code c) then "" else String.◌∷◌ c rest

-- `s.startswith(t)`
abbrev pub starts_with : String → String → Bool
starts_with String.[] s = true
starts_with (String.◌∷◌ c t) String.[] = false
starts_with (String.◌∷◌ c t) (String.◌∷◌ d s) = nat_beq (code c) (code d) && starts_with t s

-- `s.endswith(t)`
abbrev pub ends_with : String → String → Bool
ends_with t String.[] = t == ""
ends_with t (String.◌∷◌ c s) = t == String.◌∷◌ c s || ends_with t s

-- What `read_text` makes of the ends of lines: "\r\n" and "\r" are read as "\n".
unfoldable pub universal_newlines : String → String
universal_newlines String.[] = ""
universal_newlines (String.◌∷◌ c s) =
    let rest = universal_newlines s in
    if nat_beq (code c) 13
    then if starts_with "\n" s then rest else String.◌∷◌ "\n" rest
    else String.◌∷◌ c rest

-- `sep.join(parts)`
unfoldable pub join : String → List String → String
join sep [] = ""
join sep (part ∷ []) = part
join sep (part ∷ next ∷ parts) = part followed_by sep followed_by join sep (next ∷ parts)

-- `s.replace(a, b)` for one character each
abbrev pub replace_char : ℕ → Char → String → String
replace_char a b String.[] = ""
replace_char a b (String.◌∷◌ c s) =
    String.◌∷◌ (if nat_beq (code c) a then b else c) (replace_char a b s)

module _ (u : Unicode) where
  abbrev digits_value : ℕ → String → Option ℕ
  digits_value acc String.[] = some acc
  digits_value acc (String.◌∷◌ c s) = elim (u.digit_value (code c)) [
    | none ↦ none
    | some d ↦ digits_value (acc * 10 + d) s
  ]

  -- `int(s) if s.isdecimal() else None`
  unfoldable pub decimal : String → Option ℕ
  decimal s = if s == "" then none else digits_value 0 s

abbrev digit_char : ℕ → String
digit_char d = slice "0123456789" d (suc d)

-- The first argument bounds the number of digits.
abbrev digits : ℕ → ℕ → String
digits zero n = ""
digits (suc fuel) n =
    let front = digits fuel (n / 10) in
    if ltb n 10 then digit_char n else front followed_by digit_char (n % 10)

-- `str(n)`: `n` has at most `n + 1` digits.
unfoldable pub str_of_nat : ℕ → String
str_of_nat n = digits (suc n) n

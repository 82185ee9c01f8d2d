-- ===== src/Common/Text.antt =====
-- Python's `str` methods over the native `String`, walked character by character.
use Prim.Native.Nat.{ℕ, zero, suc}
use Prim.Native.Char.{Char, code}
use Prim.Native.String.{String, ◌++◌ as ◌<>◌}
use mathlib.Core.Bool.{Bool, true, false, ◌&&◌, ◌||◌, not}
use mathlib.Core.List.{List, [], ◌∷◌}
use wks.Common.Tests.{if◌then◌else◌, leb}
use wks.Common.Equality.{◌==◌, nat_eq}
use wks.Common.Lists.{drop_if}

abbrev one_char : Char → String
one_char c = String.◌∷◌ c String.[]

-- `c.isspace()`
unfoldable pub is_space : ℕ → Bool
is_space c =
    (leb 9 c && leb c 13)
    || (leb 28 c && leb c 32)
    || c == 133
    || c == 160
    || c == 5760
    || (leb 8192 c && leb c 8202)
    || c == 8232
    || c == 8233
    || c == 8239
    || c == 8287
    || c == 12288

-- `s == ""`
abbrev pub is_empty : String → Bool
is_empty String.[] = true
is_empty (String.◌∷◌ c s) = false

-- `s.lstrip()`
unfoldable pub lstrip : String → String
unfolding is_space
lstrip String.[] = String.[]
lstrip (String.◌∷◌ c s) = if is_space (code c) then lstrip s else String.◌∷◌ c s

-- `s.rstrip()`
unfoldable pub rstrip : String → String
unfolding is_space
rstrip String.[] = String.[]
rstrip (String.◌∷◌ c s) =
    let rest = rstrip s in
    if is_empty rest && is_space (code c) then String.[] else String.◌∷◌ c rest

-- `s.strip()`
unfoldable pub strip : String → String
unfolding lstrip rstrip
strip s = rstrip (lstrip s)

-- `s.startswith(prefix)`
unfoldable pub starts_with : String → String → Bool
unfolding nat_eq
starts_with s String.[] = true
starts_with String.[] (String.◌∷◌ d p) = false
starts_with (String.◌∷◌ c s) (String.◌∷◌ d p) = code c == code d && starts_with s p

-- `part in s`
unfoldable pub has_part : String → String → Bool
unfolding starts_with
has_part String.[] part = is_empty part
has_part (String.◌∷◌ c s) part = starts_with (String.◌∷◌ c s) part || has_part s part

-- `s[n:]`
unfoldable pub drop_chars : ℕ → String → String
drop_chars zero s = s
drop_chars (suc n) String.[] = String.[]
drop_chars (suc n) (String.◌∷◌ c s) = drop_chars n s

-- `len(s)`
unfoldable pub text_length : String → ℕ
text_length String.[] = zero
text_length (String.◌∷◌ c s) = suc (text_length s)

-- The characters of a text, as code points.
unfoldable pub codes : String → List ℕ
codes String.[] = []
codes (String.◌∷◌ c s) = code c ∷ codes s

-- Does the character with this code occur?
unfoldable pub has_char : ℕ → String → Bool
unfolding nat_eq
has_char n String.[] = false
has_char n (String.◌∷◌ c s) = code c == n || has_char n s

push_first : Char → List String → List String
push_first c [] = one_char c ∷ []
push_first c (part ∷ parts) = String.◌∷◌ c part ∷ parts

-- `s.split(sep)` for a separator of one character
unfoldable pub split_on : ℕ → String → List String
unfolding push_first nat_eq
split_on n String.[] = "" ∷ []
split_on n (String.◌∷◌ c s) =
    let rest = split_on n s in if code c == n then "" ∷ rest else push_first c rest

-- `sep.join(parts)`
unfoldable pub join : String → List String → String
join sep [] = ""
join sep (part ∷ []) = part
join sep (part ∷ more) = part <> (sep <> join sep more)

-- The characters at which `splitlines` breaks.
unfoldable pub is_line_break : ℕ → Bool
is_line_break c =
    (leb 10 c && leb c 13) || (leb 28 c && leb c 30) || c == 133 || c == 8232 || c == 8233

-- Is this the first character?
unfoldable pub has_char_first : ℕ → String → Bool
has_char_first n String.[] = false
has_char_first n (String.◌∷◌ c s) = code c == n

-- `s.splitlines(keepends=True)`; "\r\n" is one break
unfoldable pub split_lines : String → List String
unfolding push_first is_line_break has_char_first nat_eq
split_lines String.[] = []
split_lines (String.◌∷◌ c s) =
    let rest = split_lines s in
    if is_line_break (code c) && not (code c == 13 && has_char_first 10 s)
    then one_char c ∷ rest
    else push_first c rest

-- `s.splitlines()`
unfoldable pub cut_lines : String → List String
unfolding push_first is_line_break has_char_first nat_eq
cut_lines String.[] = []
cut_lines (String.◌∷◌ c s) =
    let rest = cut_lines s in
    if code c == 13 && has_char_first 10 s
    then rest
    else if is_line_break (code c)
    then "" ∷ rest
    else push_first c rest

-- Does a word begin here, that is, is this a character of a word behind white space?
words_from : Bool → String → ℕ
words_from inside String.[] = 0
words_from inside (String.◌∷◌ c s) =
    let more = words_from (not (is_space (code c))) s in
    if not (is_space (code c)) && not inside then suc more else more

-- `len(s.split())`
unfoldable pub word_count : String → ℕ
unfolding words_from is_space
word_count s = words_from false s

-- `s < t`
unfoldable pub text_before : String → String → Bool
unfolding nat_eq
text_before s String.[] = false
text_before String.[] (String.◌∷◌ d t) = true
text_before (String.◌∷◌ c s) (String.◌∷◌ d t) =
    if code c == code d then text_before s t else leb (code c) (code d)

-- `s[:-1]`
unfoldable pub drop_last : String → String
drop_last String.[] = String.[]
drop_last (String.◌∷◌ c s) =
    let rest = drop_last s in if is_empty s then String.[] else String.◌∷◌ c rest

-- `s.endswith(end)`
unfoldable pub ends_with : String → String → Bool
unfolding starts_with
ends_with String.[] end = is_empty end
ends_with (String.◌∷◌ c s) end =
    (starts_with (String.◌∷◌ c s) end && text_length (String.◌∷◌ c s) == text_length end)
    || ends_with s end

split_spaces : String → List String
unfolding push_first is_space
split_spaces String.[] = "" ∷ []
split_spaces (String.◌∷◌ c s) =
    let rest = split_spaces s in if is_space (code c) then "" ∷ rest else push_first c rest

-- `s.split()`
unfoldable pub words : String → List String
unfolding split_spaces
words s = drop_if (λ word. is_empty word) (split_spaces s)

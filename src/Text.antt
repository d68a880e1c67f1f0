-- ===== src/Text.antt =====
-- The functions of Go's `strings` package that the program uses. A text is its sequence of runes.
use Prim.Native.Char.{Char, code}
use Prim.Native.String
use mathlib.Core.Option
use bap_web.Prelude.{
  List, [], ◌∷◌, any, ◌+◌, ℕ, zero, suc, ℤ, pos, negsuc, Option, none, some, ◌/◌, ◌%◌, String, Bool,
  true, false, ◌&&◌, ◌||◌, ltb, leb, ◌==◌, ◌=?◌, if◌then◌else◌,
}

-- `unicode.IsSpace`
pub is_space : ℕ → Bool
is_space c =
    leb 9 c && leb c 13
    || c == 32
    || c == 0x85
    || c == 0xa0
    || c == 0x1680
    || leb 0x2000 c && leb c 0x200a
    || c == 0x2028
    || c == 0x2029
    || c == 0x202f
    || c == 0x205f
    || c == 0x3000

trim_left : String → String
unfolding is_space
trim_left String.[] = ""
trim_left (String.◌∷◌ c s) =
    let rest = trim_left s in if is_space (code c) then rest else String.◌∷◌ c s

-- Drops the spaces at the end: a character goes if it and all that follows are spaces.
trim_right : String → String
unfolding is_space
trim_right String.[] = ""
trim_right (String.◌∷◌ c s) =
    let rest = trim_right s in if rest =? "" && is_space (code c) then "" else String.◌∷◌ c rest

-- `strings.TrimSpace`
unfoldable pub trim_space : String → String
unfolding trim_left trim_right
trim_space s = trim_right (trim_left s)

-- `strings.HasPrefix`
unfoldable pub has_prefix : String → String → Bool
has_prefix s String.[] = true
has_prefix String.[] (String.◌∷◌ c p) = false
has_prefix (String.◌∷◌ d s) (String.◌∷◌ c p) = code d == code c && has_prefix s p

-- `strings.Contains`
unfoldable pub contains : String → String → Bool
unfolding has_prefix
contains String.[] p = has_prefix "" p
contains (String.◌∷◌ c s) p = has_prefix (String.◌∷◌ c s) p || contains s p

-- `strings.Cut` at the first space: the texts before and after it.
unfoldable pub cut_space : String → Option (String × String)
cut_space String.[] = none
cut_space (String.◌∷◌ c s) =
    let rest = Option.map (λ p. (String.◌∷◌ c p.0, p.1)) (cut_space s) in
    if code c == 32 then some ("", s) else rest

-- The character at the same place in the second text as `c` has in the first, else `c` itself.
translate : String → String → Char → Char
translate (String.◌∷◌ a from) (String.◌∷◌ b to) c =
    if code c == code a then b else translate from to c
translate _ _ c = c

-- `strings.ToLower`, of ASCII letters; the program looks for ASCII phrases in what it returns.
unfoldable pub to_lower : String → String
unfolding translate
to_lower String.[] = ""
to_lower (String.◌∷◌ c s) =
    String.◌∷◌ (translate "ABCDEFGHIJKLMNOPQRSTUVWXYZ" "abcdefghijklmnopqrstuvwxyz" c) (to_lower s)

-- The one-character text at a place of a text.
unfoldable pub char_text : String → ℕ → String
char_text String.[] n = ""
char_text (String.◌∷◌ c s) zero = String.◌∷◌ c ""
char_text (String.◌∷◌ c s) (suc n) = char_text s n

digit : ℕ → String
unfolding char_text
digit d = char_text "0123456789" d

digits_from : ℕ → ℕ → String → String
unfolding digit
digits_from zero n acc = acc
digits_from (suc f) n acc =
    let more = digits_from f (n / 10) (String.◌++◌ (digit (n % 10)) acc) in
    if ltb n 10 then String.◌++◌ (digit n) acc else more

-- `strconv.Itoa` of a number that is not negative. The quotients fall, so `suc n` rounds are enough.
unfoldable pub itoa : ℕ → String
unfolding digits_from
itoa n = digits_from (suc n) n ""

-- `strconv.Itoa`
abbrev pub decimal : ℤ → String
decimal (pos n) = itoa n
decimal (negsuc n) = String.◌++◌ "-" (itoa (suc n))

-- The first bytes of an ASCII text, or all of a shorter one.
unfoldable pub byte_prefix : ℕ → String → String
byte_prefix zero s = ""
byte_prefix (suc n) String.[] = ""
byte_prefix (suc n) (String.◌∷◌ c s) = String.◌∷◌ c (byte_prefix n s)

-- `strings.Join`
unfoldable pub join : String → List String → String
join sep [] = ""
join sep (s ∷ []) = s
join sep (s ∷ t ∷ ss) = String.◌++◌ s (String.◌++◌ sep (join sep (t ∷ ss)))

-- `fmt.Sprintf`, with the arguments in their places.
unfoldable pub concat : List String → String
concat [] = ""
concat (s ∷ ss) = String.◌++◌ s (concat ss)

-- The text up to the first separator, and the parts after it.
unfoldable pub split_from : ℕ → String → String × List String
split_from sep String.[] = ("", [])
split_from sep (String.◌∷◌ c s) =
    let rest = split_from sep s in
    if code c == sep then ("", rest.0 ∷ rest.1) else (String.◌∷◌ c rest.0, rest.1)

-- `strings.Split` at a one-byte separator, given by its code.
unfoldable pub split : ℕ → String → List String
unfolding split_from
split sep s = let parts = split_from sep s in parts.0 ∷ parts.1

-- The word that a text begins with, and the words after it.
words_from : String → String × List String
unfolding is_space
words_from String.[] = ("", [])
words_from (String.◌∷◌ c s) =
    let (word, words) = words_from s in
    if is_space (code c)
    then ("", if word =? "" then words else word ∷ words)
    else (String.◌∷◌ c word, words)

-- `strings.Fields`
unfoldable pub fields : String → List String
unfolding words_from
fields s = let (word, words) = words_from s in if word =? "" then words else word ∷ words

-- `len`: the bytes of a text's UTF-8 form.
unfoldable pub byte_len : String → ℕ
byte_len String.[] = 0
byte_len (String.◌∷◌ c s) =
    (if ltb (code c) 0x80
      then 1
      else if ltb (code c) 0x800
      then 2
      else if ltb (code c) 0x10000
      then 3
      else 4)
    + byte_len s

-- `strings.ContainsAny`
unfoldable pub contains_any : String → List ℕ → Bool
contains_any String.[] codes = false
contains_any (String.◌∷◌ c s) codes = any (λ k. code c == k) codes || contains_any s codes

-- `strings.HasSuffix`
unfoldable pub has_suffix : String → String → Bool
has_suffix String.[] p = p =? ""
has_suffix (String.◌∷◌ c s) p = String.◌∷◌ c s =? p || has_suffix s p

-- `strings.TrimSuffix`
unfoldable pub trim_suffix : String → String → String
trim_suffix String.[] p = ""
trim_suffix (String.◌∷◌ c s) p =
    let rest = trim_suffix s p in if String.◌∷◌ c s =? p then "" else String.◌∷◌ c rest

-- What follows a prefix, if the text begins with it.
unfoldable pub after_prefix : String → String → Option String
after_prefix s String.[] = some s
after_prefix String.[] (String.◌∷◌ c p) = none
after_prefix (String.◌∷◌ d s) (String.◌∷◌ c p) = if code d == code c then after_prefix s p else none

-- `strings.TrimPrefix`
unfoldable pub trim_prefix : String → String → String
unfolding after_prefix
trim_prefix s p = elim (after_prefix s p) [ none ↦ s | some rest ↦ rest ]

-- `strings.ReplaceAll` of one character, given by its code, by another.
unfoldable pub replace_char : ℕ → String → String → String
replace_char old new String.[] = ""
replace_char old new (String.◌∷◌ c s) =
    let rest = replace_char old new s in
    if code c == old then String.◌++◌ new rest else String.◌∷◌ c rest

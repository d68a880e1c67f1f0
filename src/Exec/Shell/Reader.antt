-- ===== src/Exec/Shell/Reader.antt =====
-- How a POSIX shell splits a command line into words: the rules for blanks, single quotes and
-- backslashes, and the operator `&&`. Other special characters outside quotes are refused.
use Prim.Native.Char.{Char, code}
use Prim.Native.String
use mathlib.Core.Option
use bap_web.Prelude.{ℕ, String, ◌==◌, Option, none, some, List, [], ◌∷◌, ◌++◌, any, if◌then◌else◌}

pub data Token : Type 0 where
  word : String → Token
  and_if : Token

pub data Mode : Type 0 where
  between inside quoted escaped ampersand refused : Mode

pub data Class : Type 0 where
  blank quote backslash amp special plain : Class

abbrev special_codes : List ℕ
special_codes =
    10 ∷ 9 ∷ 33 ∷ 34 ∷ 35 ∷ 36 ∷ 40 ∷ 41 ∷ 42 ∷ 59 ∷ 60 ∷ 62 ∷ 63 ∷ 91 ∷ 96 ∷ 123 ∷ 124 ∷ 125 ∷ 126
    ∷ []

unfoldable pub classify : ℕ → Class
unfolding any
classify c =
    if c == 32
    then blank
    else if c == 39
    then quote
    else if c == 92
    then backslash
    else if c == 38
    then amp
    else if any (λ k. c == k) special_codes
    then special
    else plain

abbrev pub next : Mode → Class → Mode
next between blank = between
next between quote = quoted
next between backslash = escaped
next between amp = ampersand
next between plain = inside
next inside blank = between
next inside quote = quoted
next inside backslash = escaped
next inside plain = inside
next quoted quote = inside
next quoted _ = quoted
next escaped _ = inside
next ampersand amp = between
next _ _ = refused

-- The rest of the word that is being read, and the tokens after it.
abbrev pub Rest : Type 0
Rest = Option (String × List Token)

abbrev pub extend : String → Rest → Rest
extend s r = Option.map (λ p. (String.◌++◌ s p.0, p.1)) r

abbrev pub opened : Rest → Rest
opened r = Option.map (λ p. ("", Token.word p.0 ∷ p.1)) r

abbrev pub add : List Token → Rest → Rest
add ts r = Option.map (λ p. ("", ts ++ p.1)) r

abbrev pub emit : Mode → Class → Char → Rest → Rest
emit between quote c r = opened r
emit between backslash c r = opened r
emit between plain c r = opened (extend (String.◌∷◌ c "") r)
emit inside blank c r = add [] r
emit inside plain c r = extend (String.◌∷◌ c "") r
emit quoted quote c r = r
emit quoted _ c r = extend (String.◌∷◌ c "") r
emit escaped _ c r = extend (String.◌∷◌ c "") r
emit ampersand amp c r = add (and_if ∷ []) r
emit _ _ c r = r

abbrev pub end : Mode → Rest
end between = some ("", [])
end inside = some ("", [])
end _ = none

unfoldable pub read : Mode → String → Rest
unfolding classify
read m String.[] = end m
read m (String.◌∷◌ c s) = emit m (classify (code c)) c (read (next m (classify (code c))) s)

-- The tokens of a command line, where it has only the constructs above.
unfoldable pub tokens : String → Option (List Token)
tokens s = Option.map (λ p. p.1) (read between s)

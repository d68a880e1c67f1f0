-- ===== src/Exec/Shell/Words.antt =====
-- The command line that the guest gets, read as its shell reads it.
use Prim.Native.Char.{Char, code}
use Prim.Native.String
use mathlib.Core.List
use mathlib.Core.Path.{subst}
use text.Mathlib.TextLemmas.{append_assoc, append-nil, nil-append, cons-append}
use text.Mathlib.TextEquality.{Char-path}
use bap_web.Prelude.{
  ℕ, String, Bool, true, false, none, some, List, [], ◌∷◌, ◌++◌, ◌≡◌, ◌∙◌, sym, refl, ap, arith,
  map, All, Bool-cases, inl, inr, ◌==◌, ◌||◌, ◌&&◌, leb, any,
}
use bap_web.Text.{concat, join}
use bap_web.Exec.Request.{is_env_name, is_name_tail, is_letter}
use bap_web.Exec.Shell.{shell_quote, shell_env, assignment}
use bap_web.Exec.Shell.Reader.{
  Token, word, between, inside, quoted, Rest, extend, opened, add, read, classify, Class, emit,
  next,
}

extend-none : (r : Rest) → extend "" r ≡ r
extend-none none = refl
extend-none (some (w, ts)) = rw nil-append refl

extend-extend :
    (c : Char) (s : String) (r : Rest)
    → extend (String.◌∷◌ c "") (extend s r) ≡ extend (String.◌∷◌ c s) r
extend-extend c s none = refl
extend-extend c s (some (w, ts)) = simp (cons-append, nil-append)

abbrev is_quote : Class → Bool
is_quote Class.quote = true
is_quote _ = false

is_quote-classify : (n : ℕ) → is_quote (classify n) ≡ (n == 39)
unfolding classify
is_quote-classify n = ground arith

quoted_char :
    (k : Class) (c : Char) (s : String)
    → is_quote k ≡ false
    → emit quoted k c (read (next quoted k) s) ≡ extend (String.◌∷◌ c "") (read quoted s)
quoted_char Class.blank c s h = refl
quoted_char Class.quote c s h = cc
quoted_char Class.backslash c s h = refl
quoted_char Class.amp c s h = refl
quoted_char Class.special c s h = refl
quoted_char Class.plain c s h = refl

-- Inside quotes, a quoted text and the closing quote are read as the text.
quoted-read :
    (s rest : String)
    → read quoted (String.◌++◌ (shell_quote s) (String.◌++◌ "'" rest)) ≡ extend s (read inside rest)
unfolding shell_quote read
quoted-read String.[] rest = rw (nil-append, cons-append, nil-append) (sym (extend-none _))
quoted-read (String.◌∷◌ c s) rest = elim (Bool-cases (code c == 39)) [
  | inl q ↦
      let e : c ≡ "'" = Char-path c "'" (ground arith) in
      rw (q, e, cons-append, cons-append, cons-append, cons-append)
        (ap (extend (String.◌∷◌ "'" "")) (quoted-read s rest) ∙ extend-extend "'" s _)
  | inr p ↦
      rw (p, cons-append)
        (quoted_char (classify (code c)) c _ (is_quote-classify (code c) ∙ p)
          ∙ ap (extend (String.◌∷◌ c "")) (quoted-read s rest)
          ∙ extend-extend c s _)
]

-- A quoted text that goes on with a word, and one that begins a word.
env-inside :
    (s rest : String) → read inside (String.◌++◌ (shell_env s) rest) ≡ extend s (read inside rest)
unfolding shell_env read concat
env-inside s rest =
    simp (append_assoc, append-nil) (rw (cons-append, nil-append) (quoted-read s rest))

pub env-between :
    (s rest : String)
    → read between (String.◌++◌ (shell_env s) rest) ≡ opened (extend s (read inside rest))
unfolding shell_env read concat
env-between s rest =
    simp (append_assoc, append-nil) (rw (cons-append, nil-append) (ap opened (quoted-read s rest)))

extend-append : (a b : String) (r : Rest) → extend a (extend b r) ≡ extend (String.◌++◌ a b) r
extend-append a b none = refl
extend-append a b (some (w, ts)) = simp append_assoc

classify_letter : (n : ℕ) → is_letter n ≡ true → classify n ≡ Class.plain
unfolding is_letter classify any
classify_letter n h = ground arith

classify_tail : (n : ℕ) → (is_letter n || leb 48 n && leb n 57) ≡ true → classify n ≡ Class.plain
unfolding is_letter classify any
classify_tail n h = ground arith

name-inside :
    (s rest : String)
    → is_name_tail s ≡ true
    → read inside (String.◌++◌ s rest) ≡ extend s (read inside rest)
unfolding read is_name_tail
name-inside String.[] rest h = rw nil-append (sym (extend-none _))
name-inside (String.◌∷◌ c s) rest h =
    let plain_code : classify (code c) ≡ Class.plain = classify_tail (code c) (ground arith) in
    rw (cons-append, plain_code)
      (ap (extend (String.◌∷◌ c "")) (name-inside s rest (ground arith)) ∙ extend-extend c s _)

name-between :
    (k rest : String)
    → is_env_name k ≡ true
    → read between (String.◌++◌ k rest) ≡ opened (extend k (read inside rest))
unfolding read is_env_name
name-between String.[] rest h = cc
name-between (String.◌∷◌ c s) rest h =
    let plain_code : classify (code c) ≡ Class.plain = classify_letter (code c) (ground arith) in
    rw (cons-append, plain_code)
      (ap opened
        (ap (extend (String.◌∷◌ c "")) (name-inside s rest (ground arith)) ∙ extend-extend c s _))

-- The word that an assignment is.
abbrev pub setting : String × String → String
setting p = String.◌++◌ p.0 (String.◌++◌ "=" p.1)

assignment-parts :
    (k v rest : String)
    → String.◌++◌ (assignment (k, v)) rest
      ≡ String.◌++◌ k (String.◌++◌ "=" (String.◌++◌ (shell_env v) rest))
unfolding concat
assignment-parts k v rest = simp (append_assoc, append-nil)

equals-inside :
    (v rest : String)
    → read inside (String.◌++◌ "=" (String.◌++◌ (shell_env v) rest))
      ≡ extend "=" (extend v (read inside rest))
unfolding read classify any
equals-inside v rest = rw (cons-append, nil-append) (ap (extend "=") (env-inside v rest))

assignment-between :
    (p : String × String) (rest : String)
    → is_env_name p.0 ≡ true
    → read between (String.◌++◌ (assignment p) rest)
      ≡ opened (extend (setting p) (read inside rest))
unfolding read
assignment-between (k, v) rest h =
    ap (read between) (assignment-parts k v rest)
    ∙ name-between k _ h
    ∙ ap (λ r. opened (extend k r)) (equals-inside v rest)
    ∙ ap (λ r. opened (extend k r)) (extend-append "=" v _)
    ∙ ap opened (extend-append k _ _)

-- A text that ends with a blank and is read as these tokens, whatever follows.
abbrev pub Reads : String → List Token → Type 0
Reads t ts = (rest : String) → read between (String.◌++◌ t rest) ≡ add ts (read between rest)

add-add : (ts us : List Token) (r : Rest) → add ts (add us r) ≡ add (ts ++ us) r
add-add ts us none = refl
add-add ts us (some (w, vs)) = ap (λ xs. some ("", xs)) (sym (List.append_assoc ts us vs))

pub Reads-append :
    (s t : String) (ts us : List Token)
    → Reads s ts
    → Reads t us
    → Reads (String.◌++◌ s t) (ts ++ us)
Reads-append s t ts us h k rest =
    simp append_assoc (h (String.◌++◌ t rest) ∙ ap (add ts) (k rest) ∙ add-add ts us _)

ended : (w : String) (r : Rest) → opened (extend w (add [] r)) ≡ add (word w ∷ []) r
ended w none = refl
ended w (some (v, ts)) = simp append-nil

blank-inside : (rest : String) → read inside (String.◌++◌ " " rest) ≡ add [] (read between rest)
unfolding read
blank-inside rest = rw (cons-append, nil-append) refl

-- A word that is followed by a blank.
pub Reads-word :
    (t w : String)
    → ((rest : String) → read between (String.◌++◌ t rest) ≡ opened (extend w (read inside rest)))
    → Reads (String.◌++◌ t " ") (word w ∷ [])
Reads-word t w h rest =
    simp append_assoc
      (h (String.◌++◌ " " rest) ∙ ap (λ r. opened (extend w r)) (blank-inside rest) ∙ ended w _)

abbrev pub Named : String × String → Type 0
Named p = is_env_name p.0 ≡ true

abbrev pub settings : List (String × String) → List Token
settings ps = map (λ p. word (setting p)) ps

pub assignments-Reads :
    (p : String × String) (ps : List (String × String))
    → All Named (p ∷ ps)
    → Reads (String.◌++◌ (join " " (map assignment (p ∷ ps))) " ") (settings (p ∷ ps))
unfolding join
assignments-Reads p [] (h, _) =
    Reads-word (assignment p) (setting p) (λ rest. assignment-between p rest h)
assignments-Reads p (q ∷ qs) (h, hs) =
    subst (λ t. Reads t (settings (p ∷ q ∷ qs))) (simp append_assoc)
      (Reads-append (String.◌++◌ (assignment p) " ") _ (word (setting p) ∷ []) (settings (q ∷ qs))
        (Reads-word (assignment p) (setting p) (λ rest. assignment-between p rest h))
        (assignments-Reads q qs hs))

-- ===== src/Kernels/Output.antt =====
-- internal/model/model.go: what is read from the output of a kernel's test.
use Prim.Native.Char.{code}
use bap_web.Prelude.{
  ℕ, String, Bool, true, false, not, ◌&&◌, ◌||◌, Option, none, some, is_some, List, [], ◌∷◌, leb,
  ◌==◌, ◌=?◌, if◌then◌else◌,
}
use bap_web.Text.{trim_space, has_prefix, fields, split, join}
use bap_web.Lifecycle.Net.{parse_ip}

abbrev is_digit : ℕ → Bool
is_digit c = leb 48 c && leb c 57

-- The class [-+._A-Za-z0-9].
abbrev is_release_char : ℕ → Bool
is_release_char c =
    is_digit c
    || leb 65 c && leb c 90
    || leb 97 c && leb c 122
    || c == 45
    || c == 43
    || c == 46
    || c == 95

unfoldable pub release_chars : String → Bool
release_chars String.[] = true
release_chars (String.◌∷◌ c s) = is_release_char (code c) && release_chars s

abbrev minor_from : String → Bool
minor_from String.[] = false
minor_from (String.◌∷◌ c s) = is_digit (code c) && release_chars s

-- From inside the first number; `seen` tells whether a digit came before.
unfoldable pub release_from : Bool → String → Bool
unfolding release_chars
release_from seen String.[] = false
release_from seen (String.◌∷◌ c s) =
    let rest = release_from true s in
    if is_digit (code c) then rest else code c == 46 && seen && minor_from s

-- `kernelReleaseRe`: two numbers with a dot between, and then the characters of a class that has the
-- digits and the dot, so that the third number of the pattern adds nothing.
abbrev pub matches_release : String → Bool
matches_release s = release_from false s

-- `looksLikeKernelRelease`. A text that is an IPv6 address has a colon and is no release.
unfoldable pub looks_like_release : String → Bool
unfolding release_from
looks_like_release token = not (token =? "" || is_some (parse_ip token)) && matches_release token

abbrev is_quote : ℕ → Bool
is_quote c = c == 39 || c == 34

unfoldable pub drop_quotes : String → String
drop_quotes String.[] = ""
drop_quotes (String.◌∷◌ c s) =
    let rest = drop_quotes s in if is_quote (code c) then rest else String.◌∷◌ c s

unfoldable pub drop_last_quotes : String → String
drop_last_quotes String.[] = ""
drop_last_quotes (String.◌∷◌ c s) =
    let rest = drop_last_quotes s in
    if rest =? "" && is_quote (code c) then "" else String.◌∷◌ c rest

-- `strings.Trim` of quotes.
unfoldable pub trim_quotes : String → String
unfolding drop_quotes drop_last_quotes
trim_quotes s = drop_last_quotes (drop_quotes s)

abbrev is_gateway : String → Bool
is_gateway token = token =? "gateway-ok" || token =? "gateway-failed"

-- The loop of `CleanKernelTestOutput`: the first release and the last word on the gateway.
unfoldable pub scan_fields : List String → String × String → String × String
unfolding looks_like_release trim_quotes
scan_fields [] found = found
scan_fields (field ∷ rest) (release, gateway) =
    let token = trim_quotes field in
    if is_gateway token
    then scan_fields rest (release, token)
    else if release =? "" && looks_like_release token
    then scan_fields rest (token, gateway)
    else scan_fields rest (release, gateway)

abbrev pub present : List String → List String
present [] = []
present (s ∷ ss) = if s =? "" then present ss else s ∷ present ss

-- "\r\n" and then "\r" become "\n".
unfoldable pub line_ends : String → String
line_ends String.[] = ""
line_ends (String.◌∷◌ c s) =
    let rest = line_ends s in
    if code c == 13
    then (if has_prefix s "\n" then rest else String.◌∷◌ "\n" rest)
    else String.◌∷◌ c rest

unfoldable pub clean_lines : List String → List String
clean_lines [] = []
clean_lines (l ∷ ls) =
    let rest = clean_lines ls in
    if trim_space l =? "" || has_prefix (trim_space l) "Warning: Permanently added "
    then rest
    else trim_space l ∷ rest

-- `CleanKernelTestOutput`
unfoldable pub clean_kernel_test_output : String → String
unfolding scan_fields line_ends clean_lines
clean_kernel_test_output text =
    let output = line_ends (trim_space text) in
    let (release, gateway) = scan_fields (fields output) ("", "") in
    let parts = present (release ∷ gateway ∷ []) in
    if output =? ""
    then ""
    else elim parts [ [] ↦ join "\n" (clean_lines (split 10 output)) | p ∷ ps ↦ join " " (p ∷ ps) ]

pub record TestResult : Type 0 where
  pub release : String
  pub gateway_ok : Option Bool
  pub summary : String

abbrev gateway_of : String → Option Bool
gateway_of token =
    if token =? "gateway-ok"
    then some true
    else if token =? "gateway-failed"
    then some false
    else none

abbrev gateway_text : Option Bool → String
gateway_text none = ""
gateway_text (some true) = "gateway OK"
gateway_text (some false) = "gateway failed"

-- `ParseKernelTestResult`, whose loop finds what that of `CleanKernelTestOutput` finds.
unfoldable pub parse_kernel_test_result : String → TestResult
unfolding clean_kernel_test_output scan_fields
parse_kernel_test_result output =
    let (release, gateway) = scan_fields (fields (clean_kernel_test_output output)) ("", "") in
    record {
      release = release;
      gateway_ok = gateway_of gateway;
      summary = join ", " (present (release ∷ gateway_text (gateway_of gateway) ∷ []));
    }

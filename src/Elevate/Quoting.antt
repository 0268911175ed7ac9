-- ===== src/Elevate/Quoting.antt =====
-- elevate.rs: the quoted strings, read back by the rules of the shell and of AppleScript.
use mac_os_sstp_client.Prelude.{
  ℕ, ◌≡◌, inl, inr, ==_eq, refl, ap, ◌∙◌, [], ◌∷◌, ◌++◌, append_assoc, Option, none, some, Bool,
  true, false, ◌==◌, ◌||◌, if◌then◌else◌, Bool-cases, drop,
}
use mac_os_sstp_client.Prelude.Text.{Str}
use mac_os_sstp_client.Elevate.{
  replace, quoted_quote, shell_quote, applescript_quote, do_shell_script, with_administrator,
  elevated_script,
}

-- What ends a word of the shell: a blank or an operator character.
abbrev pub ends_word : ℕ → Bool
ends_word c =
    c == 0x20
    || c == 0x09
    || c == 0x0A
    || c == 0x3B
    || c == 0x26
    || c == 0x7C
    || c == 0x3C
    || c == 0x3E
    || c == 0x28
    || c == 0x29

-- What the shell would expand or read in another way outside of single quotes.
abbrev pub is_special : ℕ → Bool
is_special c =
    c == 0x24
    || c == 0x60
    || c == 0x22
    || c == 0x2A
    || c == 0x3F
    || c == 0x5B
    || c == 0x23
    || c == 0x7E

abbrev pub more : ℕ → Option (Str × Str) → Option (Str × Str)
more c none = none
more c (some (word, rest)) = some (c ∷ word, rest)

pub data Mode : Type 0 where
  outside inside escaped : Mode

-- One word of the POSIX shell, from outside of quotes, inside of single quotes or behind a
-- backslash, with what follows it. Inside, all characters but the quote stand for themselves.
-- Outside, a backslash takes the next character as it is; there is no word (`none`) where the
-- shell would expand something, or where the text ends inside of quotes or behind a backslash.
unfoldable pub sh_word : Mode → Str → Option (Str × Str)
sh_word outside [] = some ([], [])
sh_word inside [] = none
sh_word escaped [] = none
sh_word escaped (c ∷ cs) = more c (sh_word outside cs)
sh_word inside (c ∷ cs) =
    let out = sh_word outside cs in
    let next = sh_word inside cs in if c == 0x27 then out else more c next
sh_word outside (c ∷ cs) =
    let quoted = sh_word inside cs in
    let literal = sh_word escaped cs in
    let next = sh_word outside cs in
    if ends_word c
    then some ([], c ∷ cs)
    else if c == 0x27
    then quoted
    else if c == 0x5C
    then literal
    else if is_special c
    then none
    else more c next

-- The characters of an AppleScript string up to its closing quote, behind a backslash (`true`) or
-- not, and what follows the quote.
unfoldable pub script_literal : Bool → Str → Option (Str × Str)
script_literal skips [] = none
script_literal true (c ∷ cs) = more c (script_literal false cs)
script_literal false (c ∷ cs) =
    let behind = script_literal true cs in
    let next = script_literal false cs in
    if c == 0x22 then some ([], cs) else if c == 0x5C then behind else more c next

-- What may follow a quoted argument.
abbrev pub IsWordEnd : Str → Type 0
IsWordEnd [] = Unit {0}
IsWordEnd (c ∷ cs) = ends_word c ≡ true

behind_word : (tail : Str) → IsWordEnd tail → sh_word outside tail ≡ some ([], tail)
unfolding sh_word
behind_word [] h = refl
behind_word (c ∷ cs) h = rw h

replace_other :
    (from : ℕ) (to : Str) (c : ℕ) (cs : Str)
    → (c == from) ≡ false
    → replace from to (c ∷ cs) ≡ c ∷ replace from to cs
unfolding replace
replace_other from to c cs n = rw n

inside_other :
    (c : ℕ) (cs : Str) → (c == 0x27) ≡ false → sh_word inside (c ∷ cs) ≡ more c (sh_word inside cs)
unfolding sh_word
inside_other c cs n = rw n

inside_quote :
    (cs tail : Str)
    → sh_word inside (replace 0x27 quoted_quote (0x27 ∷ cs) ++ tail)
      ≡ more 0x27 (sh_word inside (replace 0x27 quoted_quote cs ++ tail))
unfolding sh_word replace
inside_quote cs tail = refl

quoted_word :
    (s tail : Str)
    → IsWordEnd tail
    → sh_word inside (replace 0x27 quoted_quote s ++ (0x27 ∷ tail)) ≡ some (s, tail)
quoted_word [] tail h = unfold sh_word in unfold replace in behind_word tail h
quoted_word (c ∷ cs) tail h = elim (Bool-cases (c == 0x27)) [
  | inl y ↦
      rw (==_eq c 0x27 y) (inside_quote cs (0x27 ∷ tail) ∙ ap (more 0x27) (quoted_word cs tail h))
  | inr n ↦
      rw
        (
          replace_other 0x27 quoted_quote c cs n,
          inside_other c (replace 0x27 quoted_quote cs ++ (0x27 ∷ tail)) n,
        )
        (ap (more c) (quoted_word cs tail h))
]

-- The shell reads a quoted string, in front of a blank, an operator or the end, as one word, which is
-- the string itself: it expands nothing in it, and what follows the word is what followed the
-- quoted string.
pub shell_quote_lem :
    (s tail : Str) → IsWordEnd tail → sh_word outside (shell_quote s ++ tail) ≡ some (s, tail)
unfolding shell_quote sh_word
shell_quote_lem s tail h =
    ap (sh_word inside) (append_assoc (replace 0x27 quoted_quote s) (0x27 ∷ []) tail)
    ∙ quoted_word s tail h

applescript_other :
    (c : ℕ) (cs : Str)
    → (c == 0x5C) ≡ false
    → (c == 0x22) ≡ false
    → applescript_quote (c ∷ cs) ≡ c ∷ applescript_quote cs
unfolding applescript_quote
applescript_other c cs n m =
    rw (replace_other 0x5C (0x5C ∷ 0x5C ∷ []) c cs n)
      (replace_other 0x22 (0x5C ∷ 0x22 ∷ []) c (replace 0x5C (0x5C ∷ 0x5C ∷ []) cs) m)

literal_other :
    (c : ℕ) (cs : Str)
    → (c == 0x5C) ≡ false
    → (c == 0x22) ≡ false
    → script_literal false (c ∷ cs) ≡ more c (script_literal false cs)
unfolding script_literal
literal_other c cs n m = rw (m, n)

literal_backslash :
    (cs tail : Str)
    → script_literal false (applescript_quote (0x5C ∷ cs) ++ tail)
      ≡ more 0x5C (script_literal false (applescript_quote cs ++ tail))
unfolding script_literal applescript_quote replace
literal_backslash cs tail = refl

literal_quote :
    (cs tail : Str)
    → script_literal false (applescript_quote (0x22 ∷ cs) ++ tail)
      ≡ more 0x22 (script_literal false (applescript_quote cs ++ tail))
unfolding script_literal applescript_quote replace
literal_quote cs tail = refl

literal_quoted :
    (s tail : Str) → script_literal false (applescript_quote s ++ (0x22 ∷ tail)) ≡ some (s, tail)
literal_quoted [] tail = unfold script_literal in unfold applescript_quote in unfold replace in refl
literal_quoted (c ∷ cs) tail = elim (Bool-cases (c == 0x5C)) [
  | inl y ↦
      rw (==_eq c 0x5C y)
        (literal_backslash cs (0x22 ∷ tail) ∙ ap (more 0x5C) (literal_quoted cs tail))
  | inr n ↦ elim (Bool-cases (c == 0x22)) [
    | inl y ↦
        rw (==_eq c 0x22 y)
          (literal_quote cs (0x22 ∷ tail) ∙ ap (more 0x22) (literal_quoted cs tail))
    | inr m ↦
        rw (applescript_other c cs n m, literal_other c (applescript_quote cs ++ (0x22 ∷ tail)) n m)
          (ap (more c) (literal_quoted cs tail))
  ]
]

-- " with administrator privileges"
abbrev pub privileges : Str
privileges = drop 1 with_administrator

-- The script of `run_elevated` is `do shell script`, one string of AppleScript that is the shell
-- command itself, whatever its characters are, and then `with administrator privileges` outside of
-- the string.
pub elevated_script_lem :
    (shell_cmd : Str)
    → (quoted : Str) × (elevated_script shell_cmd ≡ do_shell_script ++ quoted)
      × (script_literal false quoted ≡ some (shell_cmd, privileges))
unfolding elevated_script
elevated_script_lem shell_cmd =
    (applescript_quote shell_cmd ++ with_administrator, refl, literal_quoted shell_cmd privileges)

-- ===== src/App/Launch.antt =====
-- main.rs: the command that starts the helper process, and what `main` makes of it.
use mac_os_sstp_client.Prelude.{
  ℕ, zero, suc, ◌≡◌, refl, ap, sym, ◌∙◌, List, [], ◌∷◌, ◌++◌, append-nil, Option, none, some, false,
  ◌==◌, if◌then◌else◌,
}
use mac_os_sstp_client.Prelude.Text.{codes, Str}
use mac_os_sstp_client.Elevate.{shell_quote, do_shell_script}
use mac_os_sstp_client.Prelude.Command.{Command}
use mac_os_sstp_client.Prelude.Text.Lines.{strip_prefix}
use mac_os_sstp_client.Prelude.Text.Equal.{same_str}
use mac_os_sstp_client.Elevate.Quoting.{
  script_literal, privileges, sh_word, outside, IsWordEnd, shell_quote_lem,
}
use mac_os_sstp_client.App.{vpn_worker, worker_command, run_worker, main}

abbrev pub then_words : Str → Option (List Str) → Option (List Str)
then_words w none = none
then_words w (some ws) = some (w ∷ ws)

-- The words of a simple command, with blanks between them; the fuel counts the words and blanks.
unfoldable pub sh_words : ℕ → Str → Option (List Str)
sh_words zero s = none
sh_words (suc fuel) [] = some []
sh_words (suc fuel) (c ∷ cs) =
    let behind = sh_words fuel cs in
    if c == 0x20 then behind else elim (sh_word outside (c ∷ cs)) [
      | none ↦ none
      | some (w, rest) ↦ then_words w (sh_words fuel rest)
    ]

first_word :
    (fuel : ℕ) (c : ℕ) (cs w rest : Str)
    → (c == 0x20) ≡ false
    → sh_word outside (c ∷ cs) ≡ some (w, rest)
    → sh_words (suc fuel) (c ∷ cs) ≡ then_words w (sh_words fuel rest)
unfolding sh_words
first_word fuel c cs w rest n q = rw (n, q)

behind_blank : (fuel : ℕ) (cs : Str) → sh_words (suc fuel) (0x20 ∷ cs) ≡ sh_words fuel cs
unfolding sh_words
behind_blank fuel cs = refl

quoted_words :
    (fuel : ℕ) (s tail : Str)
    → IsWordEnd tail
    → sh_words (suc fuel) (shell_quote s ++ tail) ≡ then_words s (sh_words fuel tail)
unfolding shell_quote
quoted_words fuel s tail h = first_word fuel 0x27 _ s tail refl (shell_quote_lem s tail h)

flag_word : (cs : Str) → sh_word outside (vpn_worker ++ (0x20 ∷ cs)) ≡ some (vpn_worker, 0x20 ∷ cs)
unfolding sh_word
flag_word cs = refl

last_word : (fuel : ℕ) (s : Str) → sh_words (suc (suc fuel)) (shell_quote s) ≡ some (s ∷ [])
unfolding sh_words
last_word fuel s =
    ap (sh_words (suc (suc fuel))) (sym (append-nil (shell_quote s)))
    ∙ quoted_words (suc fuel) s [] tt

same_flag :
    (server username : Str) (exe : Str)
    → main (exe ∷ vpn_worker ∷ server ∷ username ∷ []) ≡ run_worker server username
unfolding main
same_flag server username exe = refl

-- Whatever the characters of the path, the server and the user name are: the shell splits the
-- command that starts the helper process into four words, and for these as its arguments `main`
-- runs the worker with the same server and user name.
pub worker_command_lem :
    (exe server username : Str)
    → (args : List Str) × (sh_words 9 (worker_command exe server username) ≡ some args)
      × (main args ≡ run_worker server username)
unfolding worker_command
worker_command_lem exe server username = (
  exe ∷ vpn_worker ∷ server ∷ username ∷ [],
  quoted_words 8 exe _ refl
      ∙ ap (then_words exe) (
          behind_blank 7 _
          ∙ first_word 6 0x2D _ vpn_worker _ refl (flag_word _)
          ∙ ap (then_words vpn_worker) (
              behind_blank 5 _
              ∙ quoted_words 4 server _ refl
              ∙ ap (then_words server) (behind_blank 3 _ ∙ last_word 1 username))),
  same_flag server username exe,
)

-- The words of the shell for a command whose program and arguments are `osascript -e` with
-- `do shell script`, one string and `with administrator privileges`.
abbrev pub privileged : Option (Str × Str) → Option (List Str)
privileged none = none
privileged (some (shell_cmd, rest)) =
    if same_str rest privileges then sh_words 9 shell_cmd else none

abbrev pub of_script : Option Str → Option (List Str)
of_script none = none
of_script (some literal) = privileged (script_literal false literal)

abbrev pub elevated_args : List Str → Option (List Str)
elevated_args (flag ∷ script ∷ []) =
    if same_str flag (codes "-e") then of_script (strip_prefix do_shell_script script) else none
elevated_args _ = none

pub elevated_words : Command → Option (List Str)
elevated_words command =
    if same_str command.program (codes "osascript") then elevated_args command.args else none

-- ===== src/Elevate.antt =====
-- elevate.rs: quoting for the shell and for AppleScript, and the command that runs as root.
pub mod Quoting
use mac_os_sstp_client.Prelude.{Result, ok, err, ◌>>=◌, ℕ, [], ◌∷◌, ◌++◌, ◌==◌, if◌then◌else◌}
use mac_os_sstp_client.Prelude.Text.{Str, codes, from_utf8_lossy}
use mac_os_sstp_client.Prelude.Command.{Command, Output}

-- `replace(from, to)` for one character.
unfoldable pub replace : ℕ → Str → Str → Str
replace from to [] = []
replace from to (c ∷ cs) =
    let rest = replace from to cs in if c == from then to ++ rest else c ∷ rest

abbrev pub quoted_quote : Str
quoted_quote = codes "'\\''"

unfoldable pub shell_quote : Str → Str
shell_quote s = 0x27 ∷ (replace 0x27 quoted_quote s ++ (0x27 ∷ []))

unfoldable pub applescript_quote : Str → Str
applescript_quote s = replace 0x22 (0x5C ∷ 0x22 ∷ []) (replace 0x5C (0x5C ∷ 0x5C ∷ []) s)

abbrev pub do_shell_script : Str
do_shell_script = codes "do shell script \""

abbrev pub with_administrator : Str
with_administrator = codes "\" with administrator privileges"

abbrev pub display_notification : Str
display_notification = codes "display notification \""

abbrev pub with_title : Str
with_title = codes "\" with title \""

-- The scripts that `osascript` runs.
unfoldable pub elevated_script : Str → Str
elevated_script shell_cmd = do_shell_script ++ (applescript_quote shell_cmd ++ with_administrator)

unfoldable pub notification_script : Str → Str → Str
notification_script title message =
    display_notification
    ++ (applescript_quote message ++ (with_title ++ (applescript_quote title ++ (0x22 ∷ []))))

abbrev pub osascript : Str → Command
osascript script = record { program = codes "osascript"; args = codes "-e" ∷ script ∷ [] }

-- What is started; how it ends is ignored.
abbrev pub show_notification : Str → Str → Command
unfolding notification_script
show_notification title message = osascript (notification_script title message)

abbrev pub text_of : Output → Result Str Str
text_of out =
    if out.success then ok (from_utf8_lossy out.stdout) else err (from_utf8_lossy out.stderr)

-- For what running a command gives.
unfoldable pub run_elevated : (Command → Result Str Output) → Str → Result Str Str
unfolding elevated_script
run_elevated runs shell_cmd = runs (osascript (elevated_script shell_cmd)) >>= text_of

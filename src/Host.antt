-- ===== src/Host.antt =====
-- log.rs, keychain.rs and i18n.rs: what is made of the texts that files and commands give, and the
-- commands.
pub mod Passwords
use mac_os_sstp_client.Prelude.{
  ℕ, ◌-◌, List, [], ◌∷◌, ◌++◌, Option, none, some, Bool, true, false, if◌then◌else◌, length, drop,
  Bytes,
}
use mac_os_sstp_client.Prelude.Text.{Str, codes, from_utf8_lossy}
use mac_os_sstp_client.Prelude.Command.{Command, Output}
use mac_os_sstp_client.Prelude.Text.Lines.{lines, nonempty, trim, starts_with}

-- `join("\n")`.
abbrev pub join_lines : List Str → Str
join_lines [] = []
join_lines (l ∷ []) = l
join_lines (l ∷ m ∷ ls) = l ++ (0x0A ∷ join_lines (m ∷ ls))

-- The last lines of the file, if it can be read.
unfoldable pub tail : Option Str → ℕ → Str
tail none max_lines = []
tail (some content) max_lines =
    let ls = lines content in join_lines (drop (length ls - max_lines) ls)

-- The file behind a line that is appended; a file that is missing is made, so that it is empty
-- before, and one that cannot be opened stays as it is.
abbrev pub append_to : Option Str → Str → Option Str
append_to none line = none
append_to (some content) line = some (content ++ (line ++ (0x0A ∷ [])))

abbrev pub service_name : Str
service_name = codes "sstp-gui"

-- `security` with a verb and what follows it.
abbrev pub security : Str → List Str → Command
security verb args = record { program = codes "security"; args = verb ∷ args }

abbrev pub entry_of : Str → List Str → List Str
entry_of profile_id more = codes "-a" ∷ profile_id ∷ codes "-s" ∷ service_name ∷ more

pub keychain_delete : Str → Command
keychain_delete profile_id = security (codes "delete-generic-password") (entry_of profile_id [])

abbrev pub add_password : Str → Str → Command
add_password profile_id password =
    security (codes "add-generic-password")
      (entry_of profile_id (codes "-w" ∷ password ∷ codes "-U" ∷ []))

abbrev pub find_password : Str → Command
find_password profile_id =
    security (codes "find-generic-password") (entry_of profile_id (codes "-w" ∷ []))

abbrev pub succeeds : Option Output → Bool
succeeds none = false
succeeds (some out) = out.success

-- The commands that are run, in their order, and whether the last of them succeeds.
abbrev pub keychain_set : (Command → Option Output) → Str → Str → List Command × Bool
unfolding keychain_delete
keychain_set runs profile_id password = (
  keychain_delete profile_id ∷ add_password profile_id password ∷ [],
  succeeds (runs (add_password profile_id password)),
)

-- `keychain_get` on the success and the output of `security`, if it could be run.
unfoldable pub keychain_get : Option (Bool × Bytes) → Option Str
keychain_get none = none
keychain_get (some (false, stdout)) = none
keychain_get (some (true, stdout)) = nonempty (trim (from_utf8_lossy stdout))

pub data Lang : Type 0 where
  ru en : Lang

-- `Lang::detect` on the success and the output of `defaults`; "ru" is the prefix.
unfoldable pub detect : Option (Bool × Bytes) → Lang
detect none = en
detect (some (false, stdout)) = en
detect (some (true, stdout)) =
    if starts_with (0x72 ∷ 0x75 ∷ []) (trim (from_utf8_lossy stdout)) then ru else en

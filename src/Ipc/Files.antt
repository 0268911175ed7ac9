-- ===== src/Ipc/Files.antt =====
-- ipc.rs: the three files by which the window and the helper process tell each other something.
use mac_os_sstp_client.Prelude.{Option, none, some, Bool, true, false}
use mac_os_sstp_client.Prelude.Text.{Str}
use mac_os_sstp_client.Ipc.{VpnStatusFile}

-- The status file. A write empties it first, so that a reader may find it without a whole text;
-- serde reads no status out of an incomplete one.
pub data StatusFile : Type 0 where
  absent incomplete : StatusFile
  whole : VpnStatusFile → StatusFile

pub record Files : Type 0 where
  pub status : StatusFile
  pub marker : Bool
  pub pending : Option Str

abbrev pub status_in : StatusFile → Option VpnStatusFile
status_in absent = none
status_in incomplete = none
status_in (whole status) = some status

unfoldable pub read_status : Files → Option VpnStatusFile
read_status files = status_in files.status

-- The first half of `write_status`, and the whole.
unfoldable pub empty_status : Files → Files
empty_status files = record files { status = incomplete }

unfoldable pub write_status : VpnStatusFile → Files → Files
write_status status files = record files { status = whole status }

unfoldable pub clear_status : Files → Files
clear_status files = record files { status = absent }

unfoldable pub write_pending_password : Str → Files → Files
write_pending_password password files = record files { pending = some password }

-- What is read, and the file is gone.
unfoldable pub take_pending_password : Files → Option Str × Files
take_pending_password files = (files.pending, record files { pending = none })

unfoldable pub request_disconnect : Files → Files
request_disconnect files = record files { marker = true }

unfoldable pub disconnect_requested : Files → Bool
disconnect_requested files = files.marker

unfoldable pub clear_disconnect_request : Files → Files
clear_disconnect_request files = record files { marker = false }

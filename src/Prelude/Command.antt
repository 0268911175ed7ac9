-- ===== src/Prelude/Command.antt =====
-- A command that the program starts, and what it gives.
use mac_os_sstp_client.Prelude.Octets.{Bytes}
use mac_os_sstp_client.Prelude.Text.{Str}
use mathlib.Core.Bool.{Bool}
use mathlib.Core.List.{List}

pub record Command : Type 0 where
  pub program : Str
  pub args : List Str

-- An `ExitStatus`: whether it is a success, and its text.
pub record ExitStatus : Type 0 where
  pub exited_well : Bool
  pub status_text : Str

pub record Output : Type 0 where
  pub success : Bool
  pub stdout : Bytes
  pub stderr : Bytes

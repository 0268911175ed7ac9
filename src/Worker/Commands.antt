-- ===== src/Worker/Commands.antt =====
-- worker.rs: the commands behind the actions that change routes.
use mac_os_sstp_client.Prelude.{List, [], ◌∷◌, ◌++◌}
use mac_os_sstp_client.Prelude.Text.{Str, codes}
use mac_os_sstp_client.Prelude.Command.{Command}
use mac_os_sstp_client.Worker.{
  Action, add_host_route, delete_host_route, delete_default, add_default,
}

abbrev pub route : List Str → Command
route args = record { program = codes "/sbin/route"; args = codes "-n" ∷ args }

pub add_protective_host_route : Str → Str → Command
add_protective_host_route server_ip gateway =
    route (codes "add" ∷ codes "-host" ∷ server_ip ∷ gateway ∷ [])

pub remove_protective_host_route : Str → Command
remove_protective_host_route server_ip = route (codes "delete" ∷ codes "-host" ∷ server_ip ∷ [])

abbrev pub remove_default_route : Command
remove_default_route = route (codes "delete" ∷ codes "default" ∷ [])

pub default_route_via : Str → Command
default_route_via iface = route (codes "add" ∷ codes "default" ∷ codes "-interface" ∷ iface ∷ [])

-- The commands of a log, in the order in which they are run.
abbrev pub commands : List Action → List Command
unfolding add_protective_host_route remove_protective_host_route default_route_via
commands [] = []
commands (add_host_route server_ip gateway ∷ log) =
    commands log ++ (add_protective_host_route server_ip gateway ∷ [])
commands (delete_host_route server_ip ∷ log) =
    commands log ++ (remove_protective_host_route server_ip ∷ [])
commands (delete_default ∷ log) = commands log ++ (remove_default_route ∷ [])
commands (add_default iface ∷ log) = commands log ++ (default_route_via iface ∷ [])
commands (_ ∷ log) = commands log

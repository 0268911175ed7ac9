-- ===== src/Route/Commands.antt =====
-- route.rs: the texts of the commands, and the keys and prefixes that are looked for.
use mac_os_sstp_client.Prelude.{[], ◌∷◌, ◌++◌}
use mac_os_sstp_client.Prelude.Text.{codes, Str}
use mac_os_sstp_client.Elevate.{shell_quote}

abbrev pub flush_command : Str
flush_command = codes "dscacheutil -flushcache 2>/dev/null; killall -HUP mDNSResponder 2>/dev/null"

abbrev pub kill_command : Str
kill_command = codes "kill -9 "

abbrev pub silently : Str
silently = codes " 2>/dev/null; "

abbrev pub route_add : Str
route_add = codes "route -n add default "

abbrev pub or_route_change : Str
or_route_change = codes " 2>/dev/null || route -n change default "

abbrev pub gateway_key : Str
gateway_key = codes "gateway: "

abbrev pub interface_key : Str
interface_key = codes "interface: "

abbrev pub utun_prefix : Str
utun_prefix = codes "utun"

unfoldable pub route_cmd : Str → Str
route_cmd gw =
    route_add ++ (shell_quote gw ++ (or_route_change ++ (shell_quote gw ++ (0x3B ∷ 0x20 ∷ []))))

-- ===== src/WireGuard/Routes.antt =====
-- backend/wg.go: `applyLinux` and `teardownLinux` on the system's routes and interface.
use pwdtt.Prelude.{
  Bool, true, not, ◌&&◌, List, [], ◌∷◌, ◌++◌, Option, none, some, map, if◌then◌else◌,
}
use pwdtt.Prelude.Text.{Text, codes, ◌≗◌}
use pwdtt.WireGuard.{WgConfig, parse_wg_config}

abbrev vk_exclude_cidrs : List Text
vk_exclude_cidrs =
    codes "87.240.128.0/18"
    ∷ codes "87.240.192.0/19"
    ∷ codes "90.156.0.0/16"
    ∷ codes "93.186.224.0/21"
    ∷ codes "95.142.192.0/21"
    ∷ codes "95.163.0.0/16"
    ∷ codes "95.213.0.0/18"
    ∷ codes "155.212.192.0/20"
    ∷ codes "185.16.28.0/22"
    ∷ codes "194.67.64.0/18"
    ∷ codes "195.82.146.0/23"
    ∷ codes "213.180.193.0/24"
    ∷ codes "77.88.0.0/18"
    ∷ codes "8.8.8.0/24"
    ∷ codes "1.1.1.0/24"
    ∷ []

-- The routes by their destinations, the one that a deletion takes first; whether the interface exists;
-- and the routes that the program has added (`activeRoutes`). Routes into the interface that end with
-- it are not taken off the list.
pub record Net : Type 0 where
  pub table : List Text
  pub link : Bool
  pub active_routes : List Text

-- What the tools answer: the temporary file, each command on the interface, whether adding and
-- deleting a route succeeds with a table, the gateway if there is one, and the servers of
-- /etc/resolv.conf.
pub record Tools : Type 0 where
  pub temp_file : Bool
  pub link_add : Bool
  pub setconf : Bool
  pub addr_add : Bool
  pub link_up : Bool
  pub accepts : Text → List Text → Bool
  pub deletes : Text → List Text → Bool
  pub link_del : Bool
  pub gateway : Bool
  pub dns_servers : List Text

unfoldable pub remove_first : Text → List Text → List Text
remove_first d [] = []
remove_first d (x ∷ xs) = let rest = remove_first d xs in if x ≗ d then xs else x ∷ rest

-- `ip route add`, whose route stands before others to the same destination, and what is noted.
unfoldable pub add_route : Tools → Text → Net → Net
add_route sys d n =
    if sys.accepts d n.table
    then record n { table = d ∷ n.table; active_routes = n.active_routes ++ d ∷ [] }
    else n

unfoldable pub add_routes : Tools → List Text → Net → Net
unfolding add_route
add_routes sys [] n = n
add_routes sys (d ∷ ds) n = add_routes sys ds (add_route sys d n)

-- `ip route del`, whose errors are ignored.
unfoldable pub delete_routes : Tools → List Text → List Text → List Text
unfolding remove_first
delete_routes sys [] table = table
delete_routes sys (d ∷ ds) table =
    delete_routes sys ds (if sys.deletes d table then remove_first d table else table)

unfoldable pub teardown_linux : Tools → Net → Net
unfolding delete_routes
teardown_linux sys n = record {
  table = delete_routes sys n.active_routes n.table;
  link = n.link && not sys.link_del;
  active_routes = [];
}

abbrev pub hosts : List Text → List Text
hosts ips = map (λ ip. ip ++ codes "/32") ips

-- The routes past the tunnel, if there is a gateway, and those into it.
unfoldable pub all_routes : Tools → List Text → List Text → List Text
all_routes sys turn_ips allowed_ips =
    (if sys.gateway then hosts turn_ips ++ vk_exclude_cidrs ++ hosts sys.dns_servers else [])
    ++ allowed_ips

-- The error says how far it has come.
pub data ApplyError : Type 0 where
  no_address no_file no_link no_setconf no_addr no_up : ApplyError

-- After the interface has been taken down and the configuration read.
unfoldable pub bring_up : Tools → WgConfig → List Text → Net → Option ApplyError × Net
unfolding all_routes add_routes
bring_up sys c turn_ips n =
    let linked = record n { link = true } in
    if c.addr ≗ []
    then (some no_address, n)
    else if not sys.temp_file
    then (some no_file, n)
    else if not sys.link_add
    then (some no_link, n)
    else if not sys.setconf
    then (some no_setconf, linked)
    else if not sys.addr_add
    then (some no_addr, linked)
    else if not sys.link_up
    then (some no_up, linked)
    else (none, add_routes sys (all_routes sys turn_ips c.allowed_ips) linked)

unfoldable pub apply_linux : Tools → Text → List Text → Net → Option ApplyError × Net
unfolding teardown_linux bring_up
apply_linux sys conf turn_ips n =
    bring_up sys (parse_wg_config conf) turn_ips (teardown_linux sys n)

-- A use of the interface: a configuration, or the end of one.
pub data NetMove : Type 0 where
  applies : Tools → Text → List Text → NetMove
  tears_down : Tools → NetMove

unfoldable pub run_net : List NetMove → Net → Net
unfolding apply_linux teardown_linux
run_net [] n = n
run_net (applies sys conf turn_ips ∷ moves) n = run_net moves (apply_linux sys conf turn_ips n).1
run_net (tears_down sys ∷ moves) n = run_net moves (teardown_linux sys n)

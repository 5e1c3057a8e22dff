-- ===== src/Tests/Networks.antt =====
-- Runs for backend/wg.go and the releases of backend/update.go.
use pwdtt.Prelude.{◌++◌, true, false, not, List, [], ◌∷◌, none, some, ok, ◌≡◌, refl}
use pwdtt.Prelude.Text.{index_of, has_prefix, all_chars, trim_space, Text, codes, ◌≗◌, to_lower}
use pwdtt.Prelude.TextSet.{mem_text}
use pwdtt.WireGuard.{scan_lines, parse_wg_config}
use pwdtt.WireGuard.Declared.{last_value, all_ips, others, parse_wg_config_lem}
use pwdtt.WireGuard.Routes.{Tools, NetMove, applies, tears_down, teardown_linux, run_net}
use pwdtt.WireGuard.Restored.{Deletes, teardown_linux-run_net, run_net_keeps}
use pwdtt.Update.Releases.{GithubRelease, UrlLibrary, Web, UpdateInfo, check_update}
use pwdtt.Update.Releases.Offered.{IsFair, check_update-IsFair}
use pwdtt.Update.{
  is_newer, atoi, is_digits, split_onto, after, parse_semantic_version, is_comparable_version,
}

abbrev a_wg_config : Text
a_wg_config =
    codes "[Interface]\nAddress = 10.0.0.2\nMTU = 1280\n[Peer]\nAllowedIPs = 0.0.0.0/0, ::/0\n"

parse_wg_config_lem_example :
    let c = parse_wg_config a_wg_config in
    (c.addr ≡ last_value (codes "address") (scan_lines a_wg_config) [])
    × (c.mtu ≡ last_value (codes "mtu") (scan_lines a_wg_config) [])
    × (c.allowed_ips ≡ all_ips (scan_lines a_wg_config))
    × (c.wg_lines ≡ others (scan_lines a_wg_config))
parse_wg_config_lem_example = parse_wg_config_lem a_wg_config

-- A system whose table takes every new destination, and which deletes what it is asked to.
abbrev a_system : Tools
a_system = record {
  temp_file = true;
  link_add = true;
  setconf = true;
  addr_add = true;
  link_up = true;
  accepts = λ d table. not (mem_text d table);
  deletes = λ d table. true;
  link_del = true;
  gateway = true;
  dns_servers = codes "192.168.0.1" ∷ [];
}

a_system-Deletes : Deletes a_system
a_system-Deletes d table h = refl

abbrev failing_system : Tools
failing_system = record a_system { addr_add = false }

failing_system-Deletes : Deletes failing_system
failing_system-Deletes d table h = refl

abbrev two_uses : List NetMove
two_uses =
    applies a_system a_wg_config (codes "5.5.5.5" ∷ [])
    ∷ applies failing_system a_wg_config []
    ∷ tears_down a_system
    ∷ applies a_system a_wg_config []
    ∷ []

teardown_linux-run_net_example :
    teardown_linux a_system (
      run_net two_uses record { table = codes "1.1.1.0/24" ∷ []; link = false; active_routes = [] })
    ≡ record { table = codes "1.1.1.0/24" ∷ []; link = false; active_routes = [] }
teardown_linux-run_net_example =
    teardown_linux-run_net (codes "1.1.1.0/24" ∷ []) two_uses a_system
      (a_system-Deletes, (failing_system-Deletes, (a_system-Deletes, (a_system-Deletes, tt))))
      a_system-Deletes refl

-- A system that deletes nothing.
abbrev stuck_uses : List NetMove
stuck_uses =
    applies a_system a_wg_config (codes "5.5.5.5" ∷ [])
    ∷ tears_down (record a_system { deletes = λ d table. false })
    ∷ []

run_net_keeps_example :
    (left : List Text) × ((run_net stuck_uses
        record { table = codes "1.1.1.0/24" ∷ []; link = false; active_routes = [] }).table
      ≡ left ++ codes "1.1.1.0/24" ∷ [])
run_net_keeps_example = run_net_keeps (codes "1.1.1.0/24" ∷ []) stuck_uses

abbrev a_library : UrlLibrary
a_library = record {
  parse = λ raw. some record {
    scheme = codes "https";
    host = codes "github.com";
    hostname = codes "github.com";
    path = codes "/Regstar2/PWDTT/releases/download/v1.2.0/pwdtt-linux-amd64";
    escaped_path = codes "/Regstar2/PWDTT/releases/download/v1.2.0/pwdtt-linux-amd64";
  };
  path_escape = λ t. t;
}

abbrev a_release : GithubRelease
a_release = record {
  tag_name = codes "v1.2.0";
  body = [];
  assets = record { browser_download_url = codes "u"; name = codes "pwdtt-linux-amd64" } ∷ [];
}

abbrev the_offer : UpdateInfo
the_offer = record { available = true; version = codes "1.2.0"; url = codes "u"; body = [] }

abbrev no_web : Web
no_web = record { final_url = none; exists = λ u. none }

check_update-IsFair_example : IsFair a_library (codes "1.1.0") the_offer
unfolding check_update is_comparable_version parse_semantic_version ◌≗◌ trim_space after split_onto
    is_digits all_chars atoi is_newer to_lower has_prefix index_of
check_update-IsFair_example =
    check_update-IsFair a_library (codes "linux") (codes "amd64") (codes "1.1.0") (ok a_release)
      no_web the_offer refl

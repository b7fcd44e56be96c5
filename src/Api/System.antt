-- ===== src/Api/System.antt =====
-- app/api/system.py: the parsers of the files below /proc/net, and the two endpoints. A set stands
-- here as a list in the order of insertion; Python may take its elements in another order. Only ASCII
-- digits count as digits.
pub mod Lines
pub mod Routes
pub mod Flags
pub mod Hosts
pub mod Addresses
pub mod Discovery
pub mod Status
use Prim.Native.Nat.{◌/◌, ◌%◌}
use wol_monkey.Common.{
  ℕ, zero, suc, ◌+◌, String, Bool, true, false, not, ◌&&◌, ◌||◌, Option, none, some, List, [], ◌∷◌,
  ◌++◌, ◌==◌, ltb, leb, any, select, text_or, map, ◌<>◌, if◌then◌else◌,
}
use wol_monkey.Common.Dict.{lookup, insert}
use wol_monkey.Common.Text.{
  strip, split_words, splitlines, starts_with, ends_with, is_in, partition,
}
use wol_monkey.Common.Text.Number.{ℤ, pos, negsuc, parse_int}
use wol_monkey.Domain.Records.{Dict, User}
use wol_monkey.Host.{Host}
use wol_monkey.World.{World}
use wol_monkey.Exec.{Exec, Result, Error, ok, err, pure, raise, call, ◌>>=◌, value_error, other}
use wol_monkey.Api.Security.{Request, get_current_user}
use wol_monkey.Api.System.Lines.{
  Route, drop_lines, elem, add, line_name, route_line, trie_host, inet_aton,
}
use wol_monkey.Api.System.Flags.{parse_flags}
use wol_monkey.Api.System.Hosts.{DiscoveredHost, discovered}
use wol_monkey.Api.System.Routes.{sort_routes, assigned_iface}

pub record NetworkInterface : Type 0 where
  pub name : String
  pub type : String
  pub is_loopback : Bool
  pub is_virtual : Bool
  pub is_up : Bool
  pub is_running : Bool
  pub mac_address : String
  pub ip_addresses : List String

-- The names in /proc/net/dev.
unfoldable pub names_of : List String → List String
names_of [] = []
names_of (line ∷ lines) =
    let rest = names_of lines in if line_name line == "" then rest else line_name line ∷ rest

unfoldable pub parse_dev_names : String → List String
parse_dev_names dev = names_of (drop_lines 2 (splitlines dev))

unfoldable pub wireless_of : List String → List String → List String
wireless_of [] names = names
wireless_of (line ∷ lines) names = wireless_of lines (add (line_name line) names)

unfoldable pub parse_wireless_names : String → List String
unfolding wireless_of
parse_wireless_names wireless = wireless_of (drop_lines 2 (splitlines wireless)) []

-- The first step of `_parse_iface_ips`: the addresses that are marked as local.
abbrev pub collected : String → Option String → List String → List String
collected line none ips = ips
collected line (some ip) ips = if is_in "/32 host LOCAL" line then add ip ips else ips

abbrev pub trie_step :
    String → Option String → Option String → List String → Option String × List String
trie_step line (some ip) prev_ip ips = (some ip, ips)
trie_step line none prev_ip ips = (none, collected line prev_ip ips)

unfoldable pub local_ips_of : List String → Option String → List String → List String
local_ips_of [] prev_ip ips = ips
local_ips_of (line ∷ lines) prev_ip ips =
    let next = trie_step line (trie_host line) prev_ip ips in local_ips_of lines next.0 next.1

abbrev pub add_route : Option Route → List Route → List Route
add_route none routes = routes
add_route (some r) routes = r ∷ routes

unfoldable pub routes_of : List String → List Route
routes_of [] = []
routes_of (line ∷ lines) = add_route (route_line line) (routes_of lines)

-- `ip.startswith("127.") or ip.endswith(".0") or ip.endswith(".255")`
unfoldable pub is_skipped : String → Bool
is_skipped ip = starts_with "127." ip || ends_with ".0" ip || ends_with ".255" ip

abbrev pub or_no_ips : Option (List String) → List String
or_no_ips none = []
or_no_ips (some ips) = ips

abbrev pub put_ip : String → Option String → Dict (List String) → Dict (List String)
put_ip ip none result = result
put_ip ip (some iface) result = insert iface (or_no_ips (lookup iface result) ++ ip ∷ []) result

-- The interface of one address, if it gets any.
unfoldable pub iface_of : List Route → String → Option String
unfolding is_skipped
iface_of routes ip =
    if is_skipped ip
    then none
    else elim (inet_aton ip) [ none ↦ none | some n ↦ assigned_iface n routes ]

unfoldable pub assign : List Route → List String → Dict (List String) → Dict (List String)
assign routes [] result = result
assign routes (ip ∷ ips) result = assign routes ips (put_ip ip (iface_of routes ip) result)

unfoldable pub parse_iface_ips : String → String → Dict (List String)
unfolding local_ips_of routes_of assign
parse_iface_ips fib_trie route =
    assign (sort_routes (routes_of (drop_lines 1 (splitlines route))))
      (local_ips_of (splitlines fib_trie) none []) []

unfoldable pub classify : String → List String → String
classify name wireless_names =
    if name == "lo" || starts_with "lo:" name
    then "loopback"
    else if starts_with "veth" name
    then "veth"
    else if starts_with "docker" name || starts_with "br-" name
    then "docker-bridge"
    else if starts_with "hassio" name || starts_with "virbr" name
    then "bridge"
    else if elem name wireless_names
    then "wifi"
    else "ethernet"

-- _VIRTUAL_TYPES
abbrev pub virtual_types : List String
virtual_types = "loopback" ∷ "veth" ∷ "docker-bridge" ∷ "bridge" ∷ []

-- `bool(flags & bit)` for a bit that is a power of two.
abbrev pub has_bit : ℕ → ℕ → Bool
has_bit bit flags = leb 1 (flags / bit % 2)

abbrev pub or_zero : Option ℕ → ℕ
or_zero none = 0
or_zero (some n) = n

unfoldable pub interface_of : List String → Dict ℕ → Dict (List String) → String → NetworkInterface
interface_of wireless flags_map ip_map name =
    let flags = or_zero (lookup name flags_map) in
    record {
      name = name;
      type = classify name wireless;
      is_loopback = has_bit 8 flags;
      is_virtual = elem (classify name wireless) virtual_types;
      is_up = has_bit 1 flags;
      is_running = has_bit 64 flags;
      mac_address = "";
      ip_addresses = or_no_ips (lookup name ip_map);
    }

abbrev pub lift : {A : Type 0} → Result A → Exec A
lift r w = (r, w)

module _ (h : Host) where
  abbrev pub or_fallback : String → Option String → Exec String
  or_fallback filename (some content) = pure content
  or_fallback filename none = do
    n ← call
    pure (text_or (h.read_file n ("/proc/net/" <> filename)) "")

  -- The host's file, or else the container's, or else nothing.
  unfoldable pub proc : String → Exec String
  proc filename = do n ← call; or_fallback filename (h.read_file n ("/host/proc/net/" <> filename))

  unfoldable pub list_interfaces_helper : Exec (List NetworkInterface)
  list_interfaces_helper = do
    wireless ← proc "wireless"
    route ← proc "route"
    dev ← proc "dev"
    flags_map ← lift (parse_flags route dev)
    fib_trie ← proc "fib_trie"
    route' ← proc "route"
    dev' ← proc "dev"
    pure (
        map
          (interface_of (parse_wireless_names wireless) flags_map (parse_iface_ips fib_trie route'))
          (parse_dev_names dev'))

  unfoldable pub discover_hosts_helper : Exec (List DiscoveredHost)
  discover_hosts_helper = do
    wireless ← proc "wireless"
    arp ← proc "arp"
    lift (discovered h (parse_wireless_names wireless) arp)

  unfoldable pub list_interfaces : Request → Exec (List NetworkInterface)
  list_interfaces r = do user ← get_current_user h r; list_interfaces_helper

  unfoldable pub discover_hosts : Request → Exec (List DiscoveredHost)
  discover_hosts r = do user ← get_current_user h r; discover_hosts_helper

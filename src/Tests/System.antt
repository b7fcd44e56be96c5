-- ===== src/Tests/System.antt =====
-- The parsers of the files below /proc/net at concrete texts.
use wol_monkey.Common.{ℕ, String, ◌≡◌, refl, List, [], ◌∷◌, inl, In}
use wol_monkey.Common.Dict.{insert, lookup}
use wol_monkey.Common.Text.{
  splitlines, lines_from, lstrip, strip, rstrip, is_in, starts_with, ends_with, strip_prefix,
  partition, split_on, fields_from, split_words, words_from, is_space, is_break,
}
use wol_monkey.Common.Text.Number.{
  pos, digits_from, digit_value, parse_int, parse_hex, hex_digits, signed,
}
use wol_monkey.Common.{any, find, ◌++◌, ◌≢◌, map, ◌||◌, ◌==◌, All}
use wol_monkey.Domain.Records.{Dict}
use mathlib.Core.List.{Perm}
use wol_monkey.Exec.{Error, ok, err}
use wol_monkey.Api.System.Lines.{
  trie_host, after_blanks, dotted, take_digits, inet_aton, octet, route_line, route_fields,
  is_up_flag, route_hex_to_be_int, swapped, swap_bytes, elem, drop_lines,
}
use wol_monkey.Api.System.Routes.{sort_routes, insert_route, count_ones, assigned_iface, holds}
use wol_monkey.Api.System.Hosts.{discovered, sort_key, arp_hosts, arp_fields, ints, Keyed}
use wol_monkey.Api.System.Flags.{dev_line, dev_lines, is_positive}
use wol_monkey.Api.System.Discovery.{HasKey, Ascending, IsKeyed, discovered-Ascending}
use wol_monkey.Api.System.Status.{IsDevLine, IsShortLine, dev_line-interface_of, dev_lines_short}
use wol_monkey.Api.System.{local_ips_of, routes_of, assign, iface_of, is_skipped}
use wol_monkey.Api.System.{parse_iface_ips, interface_of}
use wol_monkey.Api.System.Addresses.{ips_of, IsAssigned, parse_iface_ips-IsAssigned}
use wol_monkey.Tests.Fixtures.{quiet_host}

abbrev fib_trie_text : String
fib_trie_text = "     |-- 192.168.1.7\n        /32 host LOCAL\n"

abbrev route_text : String
route_text =
    "Iface Destination\nwlan0 0000A8C0 00000000 0001 0 0 0 0000FFFF 0 0 0\neth0 0001A8C0 00000000 0001 0 0 0 00FFFFFF 0 0 0\n"

-- Two networks hold the address; the smaller one gets it.
assigned_by_mask : parse_iface_ips fib_trie_text route_text ≡ ("eth0", "192.168.1.7" ∷ []) ∷ []
unfolding parse_iface_ips local_ips_of routes_of assign splitlines lines_from trie_host after_blanks
    dotted take_digits strip_prefix lstrip strip rstrip is_space is_break is_in starts_with
    ends_with any iface_of is_skipped inet_aton octet split_on fields_from digits_from digit_value
    parse_hex hex_digits signed route_line route_fields is_up_flag route_hex_to_be_int swapped
    swap_bytes split_words words_from sort_routes insert_route count_ones assigned_iface holds find
    insert lookup
assigned_by_mask = refl

eth0_ips : In "192.168.1.7" (ips_of "eth0" (parse_iface_ips fib_trie_text route_text))
unfolding lookup
eth0_ips = rw assigned_by_mask (inl refl)

parse_iface_ips-IsAssigned_example : IsAssigned fib_trie_text route_text "eth0" "192.168.1.7"
parse_iface_ips-IsAssigned_example =
    parse_iface_ips-IsAssigned fib_trie_text route_text "eth0" "192.168.1.7" eth0_ips

abbrev arp_text : String
arp_text =
    "IP address HW type Flags HW address Mask Device\n192.168.1.20 0x1 0x2 aa:bb:cc:dd:ee:20 * eth0\n192.168.1.9 0x1 0x2 00:00:00:00:00:00 * eth0\n192.168.1.3 0x1 0x0 aa:bb:cc:dd:ee:03 * wlan0\n"

arp_numbered : All HasKey (arp_hosts quiet_host [] (drop_lines 1 (splitlines arp_text)))
unfolding arp_hosts arp_fields sort_key ints splitlines lines_from is_break is_space split_words
    words_from split_on fields_from parse_int signed digits_from digit_value strip lstrip rstrip any
arp_numbered = (refl, (refl, tt))

discovered-Ascending_example :
    (ks : List Keyed) × (discovered quiet_host [] arp_text ≡ ok (map (λ k. k.1) ks))
    × Perm (map (λ k. k.1) ks) (arp_hosts quiet_host [] (drop_lines 1 (splitlines arp_text)))
    × Ascending ks
    × All IsKeyed ks
discovered-Ascending_example = discovered-Ascending quiet_host [] arp_text arp_numbered

abbrev dev_text : String
dev_text = "  eth0: 1000 10 0 0 0 0 0 0 500 0 0 0 0 0 0 0"

eth0_line : IsDevLine dev_text "eth0" "10" "0" (pos 10) (pos 0)
unfolding partition strip lstrip rstrip is_space split_words words_from parse_int signed digits_from
    digit_value any
eth0_line = record {
  before = "  eth0";
  behind = " 1000 10 0 0 0 0 0 0 500 0 0 0 0 0 0 0";
  cut = refl;
  stripped = refl;
  rx_bytes = "1000";
  skipped = "0" ∷ "0" ∷ "0" ∷ "0" ∷ "0" ∷ "0" ∷ [];
  c = "0";
  d = "0";
  e = "0";
  f = "0";
  g = "0";
  i = "0";
  j = "500";
  counts = refl;
  rx_number = refl;
  tx_number = refl;
}

dev_line-interface_of_example :
    (flags : Dict ℕ) × (dev_line ("eth0" ∷ []) dev_text [] ≡ ok flags)
    × ((interface_of [] flags [] "eth0").is_up ≡ elem "eth0" ("eth0" ∷ []))
    × ((interface_of [] flags [] "eth0").is_running ≡ (is_positive (pos 10) || is_positive (pos 0)))
    × ((interface_of [] flags [] "eth0").is_loopback ≡ ("eth0" == "lo"))
    × ((k : String) → k ≢ "eth0" → lookup k flags ≡ lookup k [])
dev_line-interface_of_example =
    dev_line-interface_of ("eth0" ∷ []) [] dev_text "eth0" "10" "0" (pos 10) (pos 0) [] [] eth0_line

abbrev short_text : String
short_text = "eth1: 1000 10 0 0 0 0 0 0 500"

eth1_line : IsShortLine short_text
unfolding partition split_words words_from is_space parse_int signed digits_from digit_value strip
    lstrip rstrip any
eth1_line = record {
  before = "eth1";
  behind = " 1000 10 0 0 0 0 0 0 500";
  cut = refl;
  rx_packets = "10";
  rx = pos 10;
  a = "1000";
  c = "0";
  d = "0";
  e = "0";
  f = "0";
  g = "0";
  i = "0";
  j = "500";
  counts = refl;
  rx_number = refl;
}

dev_lines_short_example :
    (e : Error) × (dev_lines [] ((dev_text ∷ []) ++ short_text ∷ dev_text ∷ []) [] ≡ err e)
dev_lines_short_example = dev_lines_short [] (dev_text ∷ []) (dev_text ∷ []) short_text [] eth1_line

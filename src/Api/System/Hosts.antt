-- ===== src/Api/System/Hosts.antt =====
-- `_discover_hosts` of app/api/system.py.
use Prim.Native.Nat.{compare, Ordering}
use wol_monkey.Common.{
  String, Bool, true, false, Option, none, some, List, [], ◌∷◌, ◌==◌, map, if◌then◌else◌,
}
use wol_monkey.Common.Text.{split_words, split_on, splitlines}
use wol_monkey.Common.Text.Number.{ℤ, pos, negsuc, parse_int}
use wol_monkey.Host.{Host}
use wol_monkey.Exec.{Result, ok, err, value_error}
use wol_monkey.Api.System.Lines.{drop_lines, elem}

pub record DiscoveredHost : Type 0 where
  pub ip_address : String
  pub mac_address : String
  pub interface : String
  pub is_reachable : Bool
  pub is_wireless : Bool

-- The order of Python's tuples of integers.
abbrev pub compare_int : ℤ → ℤ → Ordering
compare_int (pos a) (pos b) = compare a b
compare_int (pos a) (negsuc b) = Ordering.gt
compare_int (negsuc a) (pos b) = Ordering.lt
compare_int (negsuc a) (negsuc b) = compare b a

unfoldable pub le_key : List ℤ → List ℤ → Bool
le_key [] ys = true
le_key (x ∷ xs) [] = false
le_key (x ∷ xs) (y ∷ ys) = elim (compare_int x y) [
  | Ordering.lt ↦ true
  | Ordering.eq ↦ le_key xs ys
  | Ordering.gt ↦ false
]

abbrev pub cons_key : Option ℤ → Option (List ℤ) → Option (List ℤ)
cons_key (some n) (some ns) = some (n ∷ ns)
cons_key _ _ = none

unfoldable pub ints : List String → Option (List ℤ)
ints [] = some []
ints (s ∷ ss) = cons_key (parse_int s) (ints ss)

-- `tuple(int(x) for x in ip_address.split("."))`; `none` where it raises ValueError.
unfoldable pub sort_key : DiscoveredHost → Option (List ℤ)
unfolding ints
sort_key host = ints (split_on b'.' host.ip_address)

abbrev pub Keyed : Type 0
Keyed = List ℤ × DiscoveredHost

abbrev pub cons_keyed : Option (List ℤ) → DiscoveredHost → Option (List Keyed) → Option (List Keyed)
cons_keyed (some key) host (some rest) = some ((key, host) ∷ rest)
cons_keyed _ host _ = none

-- The keys are computed for all hosts before any two are compared.
unfoldable pub with_keys : List DiscoveredHost → Option (List Keyed)
with_keys [] = some []
with_keys (host ∷ hosts) = cons_keyed (sort_key host) host (with_keys hosts)

unfoldable pub insert_host : Keyed → List Keyed → List Keyed
insert_host h [] = h ∷ []
insert_host h (x ∷ xs) = if le_key h.0 x.0 then h ∷ x ∷ xs else x ∷ insert_host h xs

unfoldable pub sort_keyed : List Keyed → List Keyed
unfolding insert_host
sort_keyed [] = []
sort_keyed (h ∷ hs) = insert_host h (sort_keyed hs)

module _ (h : Host) where
  -- A line of the ARP table, behind the blanks that `strip` takes away, is split where `\s+`
  -- matches; an empty line has fewer than six parts both ways.
  unfoldable pub arp_fields : List String → List String → Option DiscoveredHost
  arp_fields wireless (ip ∷ hwtype ∷ flags ∷ mac ∷ mask ∷ iface ∷ rest) =
      if mac == "00:00:00:00:00:00"
      then none
      else some (record {
        ip_address = ip;
        mac_address = h.lower mac;
        interface = iface;
        is_reachable = flags == "0x2";
        is_wireless = elem iface wireless;
      })
  arp_fields wireless _ = none

  abbrev pub cons_host : Option DiscoveredHost → List DiscoveredHost → List DiscoveredHost
  cons_host none hosts = hosts
  cons_host (some host) hosts = host ∷ hosts

  unfoldable pub arp_hosts : List String → List String → List DiscoveredHost
  arp_hosts wireless [] = []
  arp_hosts wireless (line ∷ lines) =
      cons_host (arp_fields wireless (split_words line)) (arp_hosts wireless lines)

  abbrev pub sorted : Option (List Keyed) → Result (List DiscoveredHost)
  sorted none = err (record { kind = value_error; detail = "invalid literal for int()" })
  sorted (some hosts) = ok (map (λ k. k.1) (sort_keyed hosts))

  unfoldable pub discovered : List String → String → Result (List DiscoveredHost)
  discovered wireless arp = sorted (with_keys (arp_hosts wireless (drop_lines 1 (splitlines arp))))

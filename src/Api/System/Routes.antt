-- ===== src/Api/System/Routes.antt =====
-- The routing table of `_parse_iface_ips`: the routes with the longest masks come first, and an
-- address goes to the first route whose network holds it.
pub mod Laws
use Prim.Native.Nat.{◌/◌, ◌%◌, bit_and}
use wol_monkey.Common.{
  ℕ, zero, suc, ◌+◌, String, Bool, ◌&&◌, Option, none, some, List, [], ◌∷◌, leb, find,
  if◌then◌else◌,
}
use wol_monkey.Api.System.Lines.{Route}

-- `bin(n).count("1")` of a number of at most so many binary digits; a mask has 32.
unfoldable pub count_ones : ℕ → ℕ → ℕ
count_ones zero n = 0
count_ones (suc bits) n = n % 2 + count_ones bits (n / 2)

abbrev pub mask_length : Route → ℕ
mask_length r = count_ones 32 r.mask_be

unfoldable pub insert_route : Route → List Route → List Route
insert_route r [] = r ∷ []
insert_route r (x ∷ xs) =
    if leb (mask_length x) (mask_length r) then r ∷ x ∷ xs else x ∷ insert_route r xs

-- `sort(key=…, reverse=True)`, which keeps the order of equal keys.
unfoldable pub sort_routes : List Route → List Route
unfolding insert_route
sort_routes [] = []
sort_routes (r ∷ rs) = insert_route r (sort_routes rs)

unfoldable pub holds : ℕ → Route → Bool
holds ip r =
    let a = bit_and ip r.mask_be in let b = bit_and r.net_be r.mask_be in leb a b && leb b a

abbrev pub iface_name : Option Route → Option String
iface_name none = none
iface_name (some r) = some r.iface

unfoldable pub assigned_iface : ℕ → List Route → Option String
unfolding holds
assigned_iface ip routes = iface_name (find (holds ip) routes)

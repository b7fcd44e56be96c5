-- ===== src/Api/System/Addresses.antt =====
-- Which addresses an interface is given, and what its flags say.
use mathlib.Core.Path.{subst}
use mathlib.Core.Bool.{false≢true, cond}
use wol_monkey.Common.{
  ℕ, String, ◌≡◌, refl, sym, ap, ◌∙◌, true, false, Option, none, some, List, [], ◌∷◌, ◌++◌, ◌==◌,
  eq_iff, is_some, In, In-append, Bool-cases, Option-cases, arith, ◌⊎◌, inl, inr,
}
use wol_monkey.Common.Dict.{lookup, lookup-insert}
use wol_monkey.Common.Text.{splitlines}
use wol_monkey.Domain.Records.{Dict}
use wol_monkey.Api.System.Lines.{Route, drop_lines, inet_aton}
use wol_monkey.Api.System.Routes.{sort_routes, assigned_iface}
use wol_monkey.Api.System.Routes.Laws.{IsLongest, assigned_iface-IsLongest}
use wol_monkey.Api.System.{
  is_skipped, or_no_ips, put_ip, iface_of, assign, local_ips_of, routes_of, parse_iface_ips,
}

-- The addresses of an interface.
abbrev pub ips_of : String → Dict (List String) → List String
ips_of iface result = or_no_ips (lookup iface result)

put_ip-In :
    (ip iface y : String) (o : Option String) (result : Dict (List String))
    → In y (ips_of iface (put_ip ip o result))
    → ((y ≡ ip) × (o ≡ some iface)) ⊎ In y (ips_of iface result)
put_ip-In ip iface y none result m = inr m
put_ip-In ip iface y (some j) result m = given (Bool-cases (j == iface))
  where
    after :
        lookup iface (put_ip ip (some j) result)
        ≡ cond (j == iface) (some (ips_of j result ++ ip ∷ [])) (lookup iface result)
    after = lookup-insert j iface (ips_of j result ++ ip ∷ []) result

    given :
        ((j == iface) ≡ true) ⊎ ((j == iface) ≡ false)
        → ((y ≡ ip) × (some j ≡ some iface)) ⊎ In y (ips_of iface result)
    given (inl e) =
        let same : j ≡ iface = ground (arith, eq_iff j iface) in
        let here : lookup iface (put_ip ip (some j) result) ≡ some (ips_of j result ++ ip ∷ []) =
          rw after (rw e refl) in
        elim (In-append (ips_of j result) ip y (subst (λ o. In y (or_no_ips o)) here m)) [
          | inl new ↦ inl (new, ap (λ t. some t) same)
          | inr old ↦ inr (subst (λ t. In y (ips_of t result)) same old)
        ]
    given (inr e) =
        let here : lookup iface (put_ip ip (some j) result) ≡ lookup iface result =
          rw after (rw e refl) in
        inr (subst (λ o. In y (or_no_ips o)) here m)

assign-In :
    (routes : List Route) (ips : List String) (result : Dict (List String)) (iface y : String)
    → In y (ips_of iface (assign routes ips result))
    → (In y ips × (iface_of routes y ≡ some iface)) ⊎ In y (ips_of iface result)
unfolding assign
assign-In routes [] result iface y m = inr m
assign-In routes (ip ∷ ips) result iface y m =
    elim (assign-In routes ips (put_ip ip (iface_of routes ip) result) iface y m) [
      | inl (later, e) ↦ inl (inr later, e)
      | inr before ↦ elim (put_ip-In ip iface y (iface_of routes ip) result before) [
        | inl (same, e) ↦ inl (inl (sym same), ap (iface_of routes) same ∙ e)
        | inr old ↦ inr old
      ]
    ]

-- The address is one of the local addresses, is none that is passed over, and the routing table has a
-- route of the interface that holds it, and none with a longer mask.
pub record IsAssigned (fib_trie route iface ip : String) : Type 0 where
  pub is_local : In ip (local_ips_of (splitlines fib_trie) none [])
  pub counted : is_skipped ip ≡ false
  pub number : ℕ
  pub parsed : inet_aton ip ≡ some number
  pub best : Route
  pub longest : IsLongest number (routes_of (drop_lines 1 (splitlines route))) best
  pub owner : best.iface ≡ iface

passed_over : (rs : List Route) (ip : String) → is_skipped ip ≡ true → iface_of rs ip ≡ none
unfolding iface_of
passed_over rs ip e = rw (e, iface_of) refl

not_parsed :
    (rs : List Route) (ip : String)
    → is_skipped ip ≡ false
    → inet_aton ip ≡ none
    → iface_of rs ip ≡ none
unfolding iface_of
not_parsed rs ip e f = rw (e, iface_of) (rw (f, iface_of) refl)

looked_up :
    (rs : List Route) (ip : String) (n : ℕ)
    → is_skipped ip ≡ false
    → inet_aton ip ≡ some n
    → iface_of rs ip ≡ assigned_iface n rs
unfolding iface_of
looked_up rs ip n e f = rw (e, iface_of) (rw (f, iface_of) refl)

iface_of-IsAssigned :
    (fib_trie route iface ip : String)
    → In ip (local_ips_of (splitlines fib_trie) none [])
    → iface_of (sort_routes (routes_of (drop_lines 1 (splitlines route)))) ip ≡ some iface
    → IsAssigned fib_trie route iface ip
iface_of-IsAssigned fib_trie route iface ip here e = elim (Bool-cases (is_skipped ip)) [
  | inl skipped ↦ absurd (false≢true (ap is_some (sym (passed_over table ip skipped) ∙ e)))
  | inr kept ↦ elim (Option-cases (inet_aton ip)) [
    | inl bad ↦ absurd (false≢true (ap is_some (sym (not_parsed table ip kept bad) ∙ e)))
    | inr (n, good) ↦
        let (r, best, named) =
          assigned_iface-IsLongest n routes iface (sym (looked_up table ip n kept good) ∙ e) in
        record {
          is_local = here;
          counted = kept;
          number = n;
          parsed = good;
          best = r;
          longest = best;
          owner = named;
        }
  ]
]
  where
    routes : List Route
    routes = routes_of (drop_lines 1 (splitlines route))

    table : List Route
    table = sort_routes (routes_of (drop_lines 1 (splitlines route)))

-- Every address that `_parse_iface_ips` gives to an interface is a local address of the first file, is
-- neither a loopback address nor one that ends in .0 or .255, and by the routing table it belongs
-- there: a route of the interface holds it, and no route that holds it has a longer mask.
pub parse_iface_ips-IsAssigned :
    (fib_trie route iface ip : String)
    → In ip (ips_of iface (parse_iface_ips fib_trie route))
    → IsAssigned fib_trie route iface ip
unfolding parse_iface_ips lookup
parse_iface_ips-IsAssigned fib_trie route iface ip m =
    elim (assign-In (sort_routes (routes_of (drop_lines 1 (splitlines route))))
      (local_ips_of (splitlines fib_trie) none []) [] iface ip m) [
        | inl (here, e) ↦ iface_of-IsAssigned fib_trie route iface ip here e
        | inr nothing ↦ absurd nothing.1
      ]

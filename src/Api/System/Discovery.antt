-- ===== src/Api/System/Discovery.antt =====
-- The order of the hosts that `_discover_hosts` answers.
use mathlib.Core.List.{Perm}
use mathlib.Core.List.Perm
use mathlib.Core.Bool.{false≢true}
use mathlib.Core.Path.{subst}
use Prim.Native.Nat.{Ordering}
use wol_monkey.Common.{
  String, ◌≡◌, refl, sym, ap, ◌∙◌, true, false, some, List, [], ◌∷◌, map, All, is_some, Bool-cases,
  Option-cases, arith, inl, inr,
}
use wol_monkey.Common.Text.{splitlines}
use wol_monkey.Common.Text.Number.{ℤ, pos, negsuc}
use wol_monkey.Host.{Host}
use wol_monkey.Exec.{ok}
use wol_monkey.Api.System.Lines.{drop_lines}
use wol_monkey.Api.System.Hosts.{
  DiscoveredHost, compare_int, le_key, sort_key, Keyed, with_keys, insert_host, sort_keyed,
  arp_hosts, discovered,
}

-- Each key is at most the next.
abbrev pub Ascending : List Keyed → Type 0
Ascending [] = Unit
Ascending (x ∷ []) = Unit
Ascending (x ∷ y ∷ ys) = (le_key x.0 y.0 ≡ true) × Ascending (y ∷ ys)

int_total : (x y : ℤ) → compare_int x y ≡ Ordering.gt → compare_int y x ≡ Ordering.lt
int_total (pos a) (pos b) e = ground arith
int_total (pos a) (negsuc b) e = refl
int_total (negsuc a) (pos b) e = cc
int_total (negsuc a) (negsuc b) e = ground arith

int_eq : (x y : ℤ) → compare_int x y ≡ Ordering.eq → compare_int y x ≡ Ordering.eq
int_eq (pos a) (pos b) e = ground arith
int_eq (pos a) (negsuc b) e = cc
int_eq (negsuc a) (pos b) e = cc
int_eq (negsuc a) (negsuc b) e = ground arith

le_key_total : (xs ys : List ℤ) → le_key xs ys ≡ false → le_key ys xs ≡ true
unfolding le_key
le_key_total [] ys e = cc
le_key_total (x ∷ xs) [] e = refl
le_key_total (x ∷ xs) (y ∷ ys) e = by_order (compare_int x y) refl e (le_key_total xs ys)
  where
    by_order :
        (o : Ordering)
        → compare_int x y ≡ o
        → (elim o [ Ordering.lt ↦ true | Ordering.eq ↦ le_key xs ys | Ordering.gt ↦ false ]) ≡ false
        → (le_key xs ys ≡ false → le_key ys xs ≡ true)
        → le_key (y ∷ ys) (x ∷ xs) ≡ true
    by_order Ordering.lt o e ih = cc
    by_order Ordering.eq o e ih = rw (int_eq x y o, le_key) (ih e)
    by_order Ordering.gt o e ih = rw (int_total x y o, le_key) refl

insert_host-Ascending : (k : Keyed) (xs : List Keyed) → Ascending xs → Ascending (insert_host k xs)
unfolding insert_host
insert_host-Ascending k [] a = tt
insert_host-Ascending k (x ∷ []) a = elim (Bool-cases (le_key k.0 x.0)) [
  | inl before ↦ rw before (before, tt)
  | inr after ↦ rw after (le_key_total k.0 x.0 after, tt)
]
insert_host-Ascending k (x ∷ y ∷ ys) a = elim (Bool-cases (le_key k.0 x.0)) [
  | inl before ↦ rw before (before, a)
  | inr after ↦
      let ih = insert_host-Ascending k (y ∷ ys) a.1 in
      elim (Bool-cases (le_key k.0 y.0)) [
        | inl between ↦ rw after (rw between (le_key_total k.0 x.0 after, (between, a.1)))
        | inr later ↦ rw after (rw later (a.0, rw later at ih))
      ]
]

sort_keyed-Ascending : (ks : List Keyed) → Ascending (sort_keyed ks)
unfolding sort_keyed
sort_keyed-Ascending [] = tt
sort_keyed-Ascending (k ∷ ks) = insert_host-Ascending k (sort_keyed ks) (sort_keyed-Ascending ks)

insert_host-perm : (k : Keyed) (xs : List Keyed) → Perm (insert_host k xs) (k ∷ xs)
unfolding insert_host
insert_host-perm k [] = Perm.rfl
insert_host-perm k (x ∷ xs) = elim (Bool-cases (le_key k.0 x.0)) [
  | inl before ↦ rw before Perm.rfl
  | inr after ↦ rw after (Perm.trans (Perm.cons x (insert_host-perm k xs)) (Perm.swap k x xs))
]

sort_keyed-perm : (ks : List Keyed) → Perm (sort_keyed ks) ks
unfolding sort_keyed
sort_keyed-perm [] = Perm.rfl
sort_keyed-perm (k ∷ ks) =
    Perm.trans (insert_host-perm k (sort_keyed ks)) (Perm.cons k (sort_keyed-perm ks))

-- Whether the address of a host is a number between any two dots.
abbrev pub HasKey : DiscoveredHost → Type 0
HasKey host = is_some (sort_key host) ≡ true

-- Each host behind its key.
abbrev pub IsKeyed : Keyed → Type 0
IsKeyed k = sort_key k.1 ≡ some k.0

keyed :
    (hosts : List DiscoveredHost)
    → All HasKey hosts
    → (ks : List Keyed) × (with_keys hosts ≡ some ks) × (map (λ k. k.1) ks ≡ hosts) × All IsKeyed ks
unfolding with_keys
keyed [] a = ([], refl, refl, tt)
keyed (x ∷ xs) (numbered, a) =
    let (ks, e, same, each) = keyed xs a in
    elim (Option-cases (sort_key x)) [
      | inl none_there ↦ absurd (false≢true (sym (ap is_some none_there) ∙ numbered))
      | inr (key, there) ↦
          ((key, x) ∷ ks, rw (there, with_keys) (rw e refl), ap (λ l. x ∷ l) same, (there, each))
    ]

insert_host-IsKeyed :
    (k : Keyed) (xs : List Keyed) → IsKeyed k → All IsKeyed xs → All IsKeyed (insert_host k xs)
unfolding insert_host
insert_host-IsKeyed k [] e a = (e, tt)
insert_host-IsKeyed k (x ∷ xs) e (f, a) = elim (Bool-cases (le_key k.0 x.0)) [
  | inl before ↦ rw before (e, (f, a))
  | inr after ↦ rw after (f, insert_host-IsKeyed k xs e a)
]

sort_keyed-IsKeyed : (ks : List Keyed) → All IsKeyed ks → All IsKeyed (sort_keyed ks)
unfolding sort_keyed
sort_keyed-IsKeyed [] a = tt
sort_keyed-IsKeyed (k ∷ ks) (e, a) =
    insert_host-IsKeyed k (sort_keyed ks) e (sort_keyed-IsKeyed ks a)

-- If the addresses of all entries of the ARP table that have a hardware address are numbers between
-- dots, the discovery answers; the answer holds just those entries, each as often, and is ascending
-- in the tuples of those numbers.
pub discovered-Ascending :
    (h : Host) (wireless : List String) (arp : String)
    → All HasKey (arp_hosts h wireless (drop_lines 1 (splitlines arp)))
    → (ks : List Keyed) × (discovered h wireless arp ≡ ok (map (λ k. k.1) ks))
      × Perm (map (λ k. k.1) ks) (arp_hosts h wireless (drop_lines 1 (splitlines arp)))
      × Ascending ks
      × All IsKeyed ks
unfolding discovered
discovered-Ascending h wireless arp a =
    let hosts : List DiscoveredHost = arp_hosts h wireless (drop_lines 1 (splitlines arp)) in
    let (ks, e, same, each) = keyed hosts a in
    (
      sort_keyed ks,
      rw e refl,
      subst (Perm (map (λ k. k.1) (sort_keyed ks))) same (Perm.map (λ k. k.1) (sort_keyed-perm ks)),
      sort_keyed-Ascending ks,
      sort_keyed-IsKeyed ks each,
    )

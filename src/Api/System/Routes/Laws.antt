-- ===== src/Api/System/Routes/Laws.antt =====
-- An address goes to a route with the longest mask among those that hold it.
use mathlib.Core.Path.{subst}
use mathlib.Core.Bool.{false≢true}
use mathlib.Core.Option.{some-injective}
use wol_monkey.Common.{
  ℕ, ◌≤◌, String, ◌≡◌, refl, sym, ap, ◌∙◌, Bool, true, false, some, List, [], ◌∷◌, leb, find,
  is_some, In, Bool-cases, Option-cases, arith, ◌⊎◌, inl, inr, if◌then◌else◌,
}
use wol_monkey.Api.System.Lines.{Route}
use wol_monkey.Api.System.Routes.{
  mask_length, insert_route, sort_routes, holds, iface_name, assigned_iface,
}

-- No later route has a longer mask.
abbrev Descending : List Route → Type 0
Descending [] = Unit
Descending (x ∷ xs) = ((y : Route) → In y xs → mask_length y ≤ mask_length x) × Descending xs

In-insert_route :
    (r : Route) (xs : List Route) (y : Route) → In y (insert_route r xs) → (r ≡ y) ⊎ In y xs
unfolding insert_route
In-insert_route r [] y (inl e) = inl e
In-insert_route r [] y (inr m) = absurd m.1
In-insert_route r (x ∷ xs) y m =
    split (leb (mask_length x) (mask_length r)) m (In-insert_route r xs y)
  where
    split :
        (b : Bool)
        → In y (if b then r ∷ x ∷ xs else x ∷ insert_route r xs)
        → (In y (insert_route r xs) → (r ≡ y) ⊎ In y xs)
        → (r ≡ y) ⊎ In y (x ∷ xs)
    split true m ih = m
    split false (inl e) ih = inr (inl e)
    split false (inr later) ih = elim (ih later) [ inl e ↦ inl e | inr n ↦ inr (inr n) ]

insert_route-In :
    (r : Route) (xs : List Route) (y : Route) → (r ≡ y) ⊎ In y xs → In y (insert_route r xs)
unfolding insert_route
insert_route-In r [] y m = m
insert_route-In r (x ∷ xs) y m =
    split (leb (mask_length x) (mask_length r)) m (insert_route-In r xs y)
  where
    split :
        (b : Bool)
        → (r ≡ y) ⊎ In y (x ∷ xs)
        → ((r ≡ y) ⊎ In y xs → In y (insert_route r xs))
        → In y (if b then r ∷ x ∷ xs else x ∷ insert_route r xs)
    split true m ih = m
    split false (inl e) ih = inr (ih (inl e))
    split false (inr (inl e)) ih = inl e
    split false (inr (inr n)) ih = inr (ih (inr n))

insert_route-Descending :
    (r : Route) (xs : List Route) → Descending xs → Descending (insert_route r xs)
unfolding insert_route
insert_route-Descending r [] d = (λ y m. absurd m.1, tt)
insert_route-Descending r (x ∷ xs) (top, d) =
    elim (Bool-cases (leb (mask_length x) (mask_length r))) [
      | inl before ↦
          let le : mask_length x ≤ mask_length r = ground arith in
          rw before (
            λ y m. elim m [
              | inl e ↦ subst (λ z. mask_length z ≤ mask_length r) e le
              | inr n ↦ omega (arith, top y n)
            ],
            (top, d),
          )
      | inr after ↦
          let le : mask_length r ≤ mask_length x = ground arith in
          rw after (
            λ y m. elim (In-insert_route r xs y m) [
              | inl e ↦ subst (λ z. mask_length z ≤ mask_length x) e le
              | inr n ↦ top y n
            ],
            insert_route-Descending r xs d,
          )
    ]

sort_routes-Descending : (rs : List Route) → Descending (sort_routes rs)
unfolding sort_routes
sort_routes-Descending [] = tt
sort_routes-Descending (r ∷ rs) =
    insert_route-Descending r (sort_routes rs) (sort_routes-Descending rs)

In-sort_routes : (rs : List Route) (y : Route) → In y (sort_routes rs) → In y rs
unfolding sort_routes
In-sort_routes [] y m = m
In-sort_routes (r ∷ rs) y m = elim (In-insert_route r (sort_routes rs) y m) [
  | inl e ↦ inl e
  | inr n ↦ inr (In-sort_routes rs y n)
]

sort_routes-In : (rs : List Route) (y : Route) → In y rs → In y (sort_routes rs)
unfolding sort_routes
sort_routes-In [] y m = m
sort_routes-In (r ∷ rs) y (inl e) = insert_route-In r (sort_routes rs) y (inl e)
sort_routes-In (r ∷ rs) y (inr m) =
    insert_route-In r (sort_routes rs) y (inr (sort_routes-In rs y m))

-- The route is in the table, holds the address, and no route that holds it has a longer mask.
pub record IsLongest (ip : ℕ) (rs : List Route) (r : Route) : Type 0 where
  pub listed : In r rs
  pub holding : holds ip r ≡ true
  pub longest : (y : Route) → In y rs → holds ip y ≡ true → mask_length y ≤ mask_length r

find-IsLongest :
    (ip : ℕ) (rs : List Route) (r : Route)
    → Descending rs
    → find (holds ip) rs ≡ some r
    → IsLongest ip rs r
unfolding find
find-IsLongest ip [] r d e = cc
find-IsLongest ip (x ∷ xs) r (top, d) e = elim (Bool-cases (holds ip x)) [
  | inl first ↦
      let same : x ≡ r = ground arith in
      subst (IsLongest ip (x ∷ xs)) same (record {
        listed = inl refl;
        holding = first;
        longest = λ y m h. elim m [
          | inl e ↦ subst (λ z. mask_length z ≤ mask_length x) e (omega arith)
          | inr n ↦ top y n
        ];
      })
  | inr other ↦
      let rest : find (holds ip) xs ≡ some r = ground arith in
      let ih = find-IsLongest ip xs r d rest in
      record {
        listed = inr ih.listed;
        holding = ih.holding;
        longest = λ y m h. elim m [
          | inl e ↦ absurd (false≢true (sym other ∙ (ap (holds ip) e ∙ h)))
          | inr n ↦ ih.longest y n h
        ];
      }
]

pub assigned_iface-IsLongest :
    (ip : ℕ) (rs : List Route) (iface : String)
    → assigned_iface ip (sort_routes rs) ≡ some iface
    → (r : Route) × IsLongest ip rs r × (r.iface ≡ iface)
unfolding assigned_iface
assigned_iface-IsLongest ip rs iface e = elim (Option-cases (find (holds ip) (sort_routes rs))) [
  | inl none_found ↦ absurd (false≢true (ap is_some (sym (ap iface_name none_found) ∙ e)))
  | inr (r, found) ↦
      let l = find-IsLongest ip (sort_routes rs) r (sort_routes-Descending rs) found in
      (
        r,
        record {
          listed = In-sort_routes rs r l.listed;
          holding = l.holding;
          longest = λ y m h. l.longest y (sort_routes-In rs y m) h;
        },
        some-injective _ _ (ap iface_name (sym found) ∙ e),
      )
]

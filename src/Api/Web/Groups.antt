-- ===== src/Api/Web/Groups.antt =====
-- The tokens as the token page groups them.
use mathlib.Core.Bool.{cond, false≢true}
use mathlib.Core.List.{append_assoc, append-nil}
use wol_monkey.Common.{
  String, ◌≡◌, refl, sym, ap, ◌∙◌, true, false, Option, none, some, List, [], ◌∷◌, ◌++◌, eq_iff,
  eq_refl, select, arith, Bool-cases, inl, inr,
}
use wol_monkey.Domain.Records.{ApiToken}
use wol_monkey.Api.Web.Forms.{same_machine, put_token, group_tokens}

-- `d.get(key, [])`
abbrev pub group_of : Option String → List (Option String × List ApiToken) → List ApiToken
group_of k [] = []
group_of k ((j, ts) ∷ groups) = cond (same_machine j k) ts (group_of k groups)

same_refl : (k : Option String) → same_machine k k ≡ true
same_refl none = refl
same_refl (some a) = eq_refl a

same_eq : (j k : Option String) → same_machine j k ≡ true → j ≡ k
same_eq none none e = refl
same_eq none (some b) e = cc
same_eq (some a) none e = cc
same_eq (some a) (some b) e = let same : a ≡ b = ground (arith, eq_iff a b) in ap (λ x. some x) same

same_same : (j m k : Option String) → same_machine j m ≡ true → same_machine m k ≡ same_machine j k
same_same j m k e = ap (λ x. same_machine x k) (sym (same_eq j m e))

other_group :
    (j m k : Option String)
    → same_machine j m ≡ false
    → same_machine j k ≡ true
    → same_machine m k ≡ false
other_group j m k differs same = elim (Bool-cases (same_machine m k)) [
  | inr e ↦ e
  | inl e ↦
      let equal : j ≡ m = same_eq j k same ∙ sym (same_eq m k e) in
      absurd (false≢true (sym differs ∙ ap (λ x. same_machine x m) equal ∙ same_refl m))
]

-- What a token adds to the group of a key.
abbrev new_of : Option String → ApiToken → List ApiToken
new_of k t = cond (same_machine t.machine_id k) (t ∷ []) []

group_of-put_token :
    (k : Option String) (t : ApiToken) (groups : List (Option String × List ApiToken))
    → group_of k (put_token t groups) ≡ group_of k groups ++ new_of k t
unfolding put_token
group_of-put_token k t [] = refl
group_of-put_token k t ((j, ts) ∷ groups) = elim (Bool-cases (same_machine j t.machine_id)) [
  | inl here ↦ rw here (
      rw (same_same j t.machine_id k here) (elim (Bool-cases (same_machine j k)) [
        | inl e ↦ rw e refl
        | inr e ↦ rw e (sym (append-nil (group_of k groups)))
      ]))
  | inr there ↦ rw there (elim (Bool-cases (same_machine j k)) [
    | inl e ↦ rw e (rw (other_group j t.machine_id k there e) (sym (append-nil ts)))
    | inr e ↦ rw e (group_of-put_token k t groups)
  ])
]

grouped :
    (k : Option String) (tokens : List ApiToken) (groups : List (Option String × List ApiToken))
    → group_of k (group_tokens tokens groups)
      ≡ group_of k groups ++ select (λ t. same_machine t.machine_id k) tokens
unfolding group_tokens select
grouped k [] groups = sym (append-nil (group_of k groups))
grouped k (t ∷ tokens) groups =
    let rest : List ApiToken = select (λ t. same_machine t.machine_id k) tokens in
    let put : group_of k (group_tokens tokens (put_token t groups))
        ≡ (group_of k groups ++ new_of k t) ++ rest =
      grouped k tokens (put_token t groups) ∙ ap (λ l. l ++ rest) (group_of-put_token k t groups) in
    put
    ∙ append_assoc (group_of k groups) (new_of k t) rest
    ∙ ap (λ l. group_of k groups ++ l)
        (elim (Bool-cases (same_machine t.machine_id k)) [ inl e ↦ rw e refl | inr e ↦ rw e refl ])

-- The page gives each machine, and the key None, exactly its tokens, in the order of the list.
pub group_of-group_tokens :
    (k : Option String) (tokens : List ApiToken)
    → group_of k (group_tokens tokens []) ≡ select (λ t. same_machine t.machine_id k) tokens
group_of-group_tokens k tokens = grouped k tokens []

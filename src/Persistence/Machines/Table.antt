-- ===== src/Persistence/Machines/Table.antt =====
-- What the constraints of the table of machines keep true.
use mathlib.Core.Path.{subst}
use wol_monkey.Common.{
  suc, ◌≤◌, String, ◌≡◌, sym, ap, ◌∙◌, Bool, true, false, not, Option, none, some, List, [], ◌∷◌,
  ◌++◌, ◌==◌, any, select, update_where, In, In-append, In-replaced, not-In, In-select, Bool-cases,
  Option-cases, eq_iff, arith, ◌⊎◌, inl, inr,
}
use wol_monkey.Domain.Records.{Machine}
use wol_monkey.Host.{Host}
use wol_monkey.World.{World}
use wol_monkey.Exec.{Result, ok, pure, modify, continue, ◌>>◌}
use wol_monkey.Persistence.Machines.Flush.{taken_by, Flushed, refused, passed, flush}
use wol_monkey.Persistence.Machines.Laws.{get_by_id_known, get_by_id_invalid}
use wol_monkey.Persistence.Machines.{
  NewMachine, Change, passes_checks, get_by_id, create, store_changes, update_found, update,
  remove_row, delete_found, delete,
}

-- A port from 1 to 65535, and a known strategy.
pub record IsValid (m : Machine) : Type 0 where
  pub port_min : 1 ≤ m.ssh_port
  pub port_max : m.ssh_port ≤ 65535
  pub strategy : (m.wake_strategy ≡ "etherwake") ⊎ (m.wake_strategy ≡ "udp_broadcast")

pub passes_checks-IsValid : (m : Machine) → passes_checks m ≡ true → IsValid m
unfolding passes_checks
passes_checks-IsValid m e = record {
  port_min = ground arith;
  port_max = ground arith;
  strategy = elim (Bool-cases (m.wake_strategy == "etherwake")) [
    | inl is ↦ inl (ground (arith, eq_iff m.wake_strategy "etherwake"))
    | inr other ↦ inr (ground (arith, eq_iff m.wake_strategy "udp_broadcast"))
  ];
}

-- Every row is valid, and no two machines have one MAC address.
pub record IsTable (rows : List Machine) : Type 0 where
  pub valid : (m : Machine) → In m rows → IsValid m
  pub distinct :
      (a b : Machine) → In a rows → In b rows → a.mac_address ≡ b.mac_address → a.id ≡ b.id

-- A table whose rows are old ones, or one that the flush has let through.
extended :
    (rows rows' : List Machine) (row : Machine)
    → IsTable rows
    → passes_checks row ≡ true
    → any (taken_by row) rows ≡ false
    → ((x : Machine) → In x rows' → (x ≡ row) ⊎ In x rows)
    → IsTable rows'
extended rows rows' row t fine free from = record {
  valid = λ m i. elim (from m i) [
    | inl e ↦ subst IsValid (sym e) (passes_checks-IsValid row fine)
    | inr old ↦ t.valid m old
  ];
  distinct = λ a b i j same. pair a b (from a i) (from b j) same;
}
  where
    other : (b : Machine) → In b rows → b.mac_address ≡ row.mac_address → b.id ≡ row.id
    other b i same =
        let free_b = not-In (taken_by row) rows b free i in
        ground (arith, eq_iff b.mac_address row.mac_address, eq_iff b.id row.id)

    pair :
        (a b : Machine)
        → (a ≡ row) ⊎ In a rows
        → (b ≡ row) ⊎ In b rows
        → a.mac_address ≡ b.mac_address
        → a.id ≡ b.id
    pair a b (inl e) (inl f) same = ap (λ x. x.id) (e ∙ sym f)
    pair a b (inl e) (inr j) same =
        ap (λ x. x.id) e ∙ sym (other b j (sym same ∙ ap (λ x. x.mac_address) e))
    pair a b (inr i) (inl f) same =
        other a i (same ∙ ap (λ x. x.mac_address) f) ∙ sym (ap (λ x. x.id) f)
    pair a b (inr i) (inr j) same = t.distinct a b i j same

smaller :
    (rows rows' : List Machine)
    → IsTable rows
    → ((x : Machine) → In x rows' → In x rows)
    → IsTable rows'
smaller rows rows' t from = record {
  valid = λ m i. t.valid m (from m i);
  distinct = λ a b i j same. t.distinct a b (from a i) (from b j) same;
}

-- An operation on the table.
pub data Operation : Type 0 where
  creation : NewMachine → Operation
  change : String → List Change → Operation
  deletion : String → Operation

module _ (h : Host) where
  added :
      (m : Machine) (w : World) (x : Result Machine × World)
      → Flushed h m w x
      → IsTable w.db.machines
      → IsTable
          (continue {B = Machine} x.0
            (λ row. do modify (λ db. record db { machines = db.machines ++ row ∷ [] }); pure row)
            x.1).1.db.machines
  added m w _ (refused e) t = t
  added m w _ (passed row fine free named encoded) t =
      extended w.db.machines (w.db.machines ++ row ∷ []) row t fine free
        (λ y i. In-append w.db.machines row y i)

  replaced :
      (p : Machine → Bool) (m : Machine) (w : World) (x : Result Machine × World)
      → Flushed h m w x
      → IsTable w.db.machines
      → IsTable
          (continue {B = Option Machine} x.0
            (λ row. do
              modify (λ db. record db { machines = update_where p (λ r. row) db.machines })
              pure (some row))
            x.1).1.db.machines
  replaced p m w _ (refused e) t = t
  replaced p m w _ (passed row fine free named encoded) t =
      extended w.db.machines (update_where p (λ r. row) w.db.machines) row t fine free
        (λ y i. In-replaced p row w.db.machines y i)

  create-IsTable :
      (args : NewMachine) (w : World)
      → IsTable w.db.machines
      → IsTable (create h args w).1.db.machines
  unfolding create
  create-IsTable args w t = added _ (record w { calls = suc (suc w.calls) }) _ (flush h _ _) t

  stored :
      (changes : List Change) (m : Machine) (w : World)
      → IsTable w.db.machines
      → IsTable (store_changes h changes m w).1.db.machines
  unfolding store_changes
  stored changes m w t =
      replaced (λ r. r.id == m.id) _ (record w { calls = suc w.calls }) _ (flush h _ _) t

  -- Reading a row by its id: some answer, and the world as it was.
  pub get_by_id_quiet :
      (machine_id : String) (w : World)
      → (o : Option Machine) × (get_by_id h machine_id w ≡ (ok o, w))
  get_by_id_quiet machine_id w = elim (Option-cases (h.canonical machine_id)) [
    | inl bad ↦ (none, get_by_id_invalid h machine_id w bad)
    | inr (key, good) ↦ (_, get_by_id_known h machine_id key w good)
  ]

  updated :
      (o : Option Machine) (changes : List Change) (w : World)
      → IsTable w.db.machines
      → IsTable (update_found h changes o w).1.db.machines
  unfolding update_found
  updated none changes w t = t
  updated (some m) changes w t = stored changes m w t

  deleted :
      (o : Option Machine) (w : World)
      → IsTable w.db.machines
      → IsTable (delete_found h o w).1.db.machines
  unfolding delete_found remove_row
  deleted none w t = t
  deleted (some m) w t = elim (Bool-cases (any (λ a. a.machine_id == m.id) w.db.attempts)) [
    | inl kept ↦ rw kept t
    | inr gone ↦ rw gone (
        smaller w.db.machines (select (λ r. not (r.id == m.id)) w.db.machines) t
          (λ x i. (In-select (λ r. not (r.id == m.id)) w.db.machines x i).0))
  ]

  update-IsTable :
      (machine_id : String) (changes : List Change) (w : World)
      → IsTable w.db.machines
      → IsTable (update h machine_id changes w).1.db.machines
  unfolding update
  update-IsTable machine_id changes w t =
      let (o, e) = get_by_id_quiet machine_id w in rw e (updated o changes w t)

  delete-IsTable :
      (machine_id : String) (w : World)
      → IsTable w.db.machines
      → IsTable (delete h machine_id w).1.db.machines
  unfolding delete
  delete-IsTable machine_id w t = let (o, e) = get_by_id_quiet machine_id w in rw e (deleted o w t)

  -- The world after it, whether it returns or raises.
  abbrev pub perform : Operation → World → World
  perform (creation args) w = (create h args w).1
  perform (change machine_id changes) w = (update h machine_id changes w).1
  perform (deletion machine_id) w = (delete h machine_id w).1

  abbrev pub perform_all : List Operation → World → World
  perform_all [] w = w
  perform_all (o ∷ os) w = perform_all os (perform o w)

  perform-IsTable :
      (o : Operation) (w : World) → IsTable w.db.machines → IsTable (perform o w).db.machines
  perform-IsTable (creation args) w t = create-IsTable args w t
  perform-IsTable (change machine_id changes) w t = update-IsTable machine_id changes w t
  perform-IsTable (deletion machine_id) w t = delete-IsTable machine_id w t

  -- However machines are created, changed and deleted, and whether or not an operation raises: if
  -- at first every port is between 1 and 65535, every strategy is known and no two machines have
  -- one MAC address, this is still so at the end.
  pub perform_all-IsTable :
      (os : List Operation) (w : World)
      → IsTable w.db.machines
      → IsTable (perform_all os w).db.machines
  perform_all-IsTable [] w t = t
  perform_all-IsTable (o ∷ os) w t = perform_all-IsTable os (perform o w) (perform-IsTable o w t)

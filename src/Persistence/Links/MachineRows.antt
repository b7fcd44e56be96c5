-- ===== src/Persistence/Links/MachineRows.antt =====
-- The foreign keys over the methods of SqlMachineRepository.
use wol_monkey.Common.{
  suc, String, ◌≡◌, refl, ◌∙◌, Option, none, some, List, [], ◌∷◌, ◌++◌, ◌==◌, any, update_where,
  Bool-cases, inl, inr,
}
use wol_monkey.Domain.Records.{Machine}
use wol_monkey.Host.{Host}
use wol_monkey.World.{World}
use wol_monkey.Exec.{Result, pure, modify, continue, ◌>>◌}
use wol_monkey.Persistence.Machines
use wol_monkey.Persistence.Machines.{NewMachine, Change, set_attrs, set_attr}
use wol_monkey.Persistence.Machines.Flush.{Flushed, refused, passed, flush}
use wol_monkey.Persistence.Machines.Table.{get_by_id_quiet}
use wol_monkey.Persistence.Links.{IsLinked}
use wol_monkey.Persistence.Links.Changes.{machine_added, machine_replaced}
use wol_monkey.Persistence.Links.Removal.{machine_removed}

module _ (h : Host) where
  added :
      (m : Machine) (w : World) (x : Result Machine × World)
      → Flushed h m w x
      → IsLinked w.db
      → IsLinked
          (continue {B = Machine} x.0
            (λ row. do modify (λ db. record db { machines = db.machines ++ row ∷ [] }); pure row)
            x.1).1.db
  added m w _ (refused e) l = l
  added m w _ (passed row fine free named encoded) l = machine_added row w.db l

  pub machine_created :
      (args : NewMachine) (w : World) → IsLinked w.db → IsLinked (Machines.create h args w).1.db
  unfolding Machines.create
  machine_created args w l = added _ (record w { calls = suc (suc w.calls) }) _ (flush h _ _) l

  replaced :
      (m old : Machine) (w : World) (x : Result Machine × World)
      → m.id ≡ old.id
      → Flushed h m w x
      → IsLinked w.db
      → IsLinked
          (continue {B = Option Machine} x.0
            (λ row. do
              modify (λ db. record db {
                machines = update_where (λ r. r.id == old.id) (λ r. row) db.machines;
              })
              pure (some row))
            x.1).1.db
  replaced m old w _ same (refused e) l = l
  replaced m old w _ same (passed row fine free named encoded) l =
      machine_replaced old row w.db (named ∙ same) l

  same_id : (changes : List Change) (m : Machine) → (set_attrs changes m).id ≡ m.id
  unfolding set_attrs
  same_id [] m = refl
  same_id (c ∷ cs) m = same_id cs (set_attr c m) ∙ kept c
    where
      kept : (c : Change) → (set_attr c m).id ≡ m.id
      kept (Machines.name v) = refl
      kept (Machines.ip_address v) = refl
      kept (Machines.mac_address v) = refl
      kept (Machines.wake_strategy v) = refl
      kept (Machines.ssh_port v) = refl
      kept (Machines.hostname v) = refl
      kept (Machines.wake_interface v) = refl
      kept (Machines.broadcast_address v) = refl
      kept (Machines.enabled v) = refl

  machine_stored :
      (o : Option Machine) (changes : List Change) (w : World)
      → IsLinked w.db
      → IsLinked (Machines.update_found h changes o w).1.db
  unfolding Machines.update_found Machines.store_changes
  machine_stored none changes w l = l
  machine_stored (some m) changes w l =
      replaced _ m (record w { calls = suc w.calls }) _ (same_id changes m) (flush h _ _) l

  machine_gone :
      (o : Option Machine) (w : World) → IsLinked w.db → IsLinked (Machines.delete_found h o w).1.db
  unfolding Machines.delete_found
  machine_gone none w l = l
  machine_gone (some m) w l = elim (Bool-cases (any (λ a. a.machine_id == m.id) w.db.attempts)) [
    | inl kept ↦ rw kept l
    | inr gone ↦ rw gone (machine_removed h m.id w.db l)
  ]

  pub machine_updated :
      (id : String) (changes : List Change) (w : World)
      → IsLinked w.db
      → IsLinked (Machines.update h id changes w).1.db
  unfolding Machines.update
  machine_updated id changes w l =
      let (o, e) = get_by_id_quiet h id w in rw e (machine_stored o changes w l)

  pub machine_deleted :
      (id : String) (w : World) → IsLinked w.db → IsLinked (Machines.delete h id w).1.db
  unfolding Machines.delete
  machine_deleted id w l = let (o, e) = get_by_id_quiet h id w in rw e (machine_gone o w l)

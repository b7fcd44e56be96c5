-- ===== src/Persistence/Machines/Laws.antt =====
-- Reading a machine by its id.
use wol_monkey.Common.{String, ◌≡◌, none, some, ◌==◌, find}
use wol_monkey.Host.{Host}
use wol_monkey.World.{World}
use wol_monkey.Exec.{ok}
use wol_monkey.Persistence.Machines.{get_by_id}

module _ (h : Host) where
  pub get_by_id_known :
      (machine_id key : String) (w : World)
      → h.canonical machine_id ≡ some key
      → get_by_id h machine_id w ≡ (ok (find (λ m. m.id == key) w.db.machines), w)
  unfolding get_by_id
  get_by_id_known machine_id key w c = rw (c, get_by_id)

  pub get_by_id_invalid :
      (machine_id : String) (w : World)
      → h.canonical machine_id ≡ none
      → get_by_id h machine_id w ≡ (ok none, w)
  unfolding get_by_id
  get_by_id_invalid machine_id w c = rw (c, get_by_id)

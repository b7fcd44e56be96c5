-- ===== src/Persistence/Machines.antt =====
-- SqlMachineRepository. The constraints of the table `machines` are checked by each flush.
pub mod Laws
pub mod Flush
pub mod Table
use wol_monkey.Common.{
  ℕ, String, Bool, true, false, not, Option, none, some, List, [], ◌∷◌, ◌++◌, ◌==◌, ◌&&◌, ◌||◌, leb,
  length, find, select, any, update_where, if◌then◌else◌,
}
use wol_monkey.Domain.Records.{Machine, Attempt, Job, ApiToken}
use wol_monkey.Host.{Host}
use wol_monkey.World.{Db}
use wol_monkey.Exec.{
  Exec, pure, raise, query, modify, guard, call, now, ◌>>=◌, ◌>>◌, integrity_error, data_error,
}

-- The keyword arguments of `create`.
pub record NewMachine : Type 0 where
  pub name : String
  pub ip_address : String
  pub mac_address : String
  pub ssh_port : ℕ
  pub hostname : Option String
  pub wake_interface : Option String
  pub wake_strategy : String
  pub broadcast_address : Option String
  pub enabled : Bool

-- One keyword argument of `update`.
pub data Change : Type 0 where
  name ip_address mac_address wake_strategy : String → Change
  ssh_port : ℕ → Change
  hostname wake_interface broadcast_address : Option String → Change
  enabled : Bool → Change

-- `setattr(model, k, v)`
abbrev pub set_attr : Change → Machine → Machine
set_attr (name v) m = record m { name = v }
set_attr (ip_address v) m = record m { ip_address = v }
set_attr (mac_address v) m = record m { mac_address = v }
set_attr (wake_strategy v) m = record m { wake_strategy = v }
set_attr (ssh_port v) m = record m { ssh_port = v }
set_attr (hostname v) m = record m { hostname = v }
set_attr (wake_interface v) m = record m { wake_interface = v }
set_attr (broadcast_address v) m = record m { broadcast_address = v }
set_attr (enabled v) m = record m { enabled = v }

unfoldable pub set_attrs : List Change → Machine → Machine
set_attrs [] m = m
set_attrs (c ∷ cs) m = set_attrs cs (set_attr c m)

-- ck_machines_ssh_port and ck_machines_wake_strategy
unfoldable pub passes_checks : Machine → Bool
passes_checks m =
    leb 1 m.ssh_port
    && leb m.ssh_port 65535
    && (m.wake_strategy == "etherwake" || m.wake_strategy == "udp_broadcast")

module _ (h : Host) where
  unfoldable pub column : Option String → String → Exec String
  column (some v) what = pure v
  column none what = raise data_error what

  unfoldable pub optional_inet : Option String → String → Exec (Option String)
  unfolding column
  optional_inet none what = pure none
  optional_inet (some a) what = do v ← column (h.inet a) what; pure (some v)

  -- What the flush does with a row that is new or changed: the columns' types, then the constraints
  -- of the table, against every other row.
  unfoldable pub flush_row : Machine → Exec Machine
  unfolding column optional_inet
  flush_row m = do
    ip ← column (h.inet m.ip_address) "ip_address"
    mac ← column (h.macaddr m.mac_address) "mac_address"
    broadcast ← optional_inet m.broadcast_address "broadcast_address"
    let row : Machine = record m {
      ip_address = ip;
      mac_address = mac;
      broadcast_address = broadcast;
    }
    taken ← query (λ db. any (λ r. r.mac_address == mac && not (r.id == m.id)) db.machines)
    guard (passes_checks m) integrity_error "ck_machines"
    guard (not taken) integrity_error "uq_machines_mac_address"
    pure row

  unfoldable pub get_by_id : String → Exec (Option Machine)
  get_by_id machine_id = elim (h.canonical machine_id) [
    | none ↦ pure none
    | some key ↦ query (λ db. find (λ m. m.id == key) db.machines)
  ]

  unfoldable pub create : NewMachine → Exec Machine
  create args = do
    n ← call
    at ← now h
    let model : Machine = record {
      id = h.uuid n;
      name = args.name;
      hostname = args.hostname;
      ip_address = args.ip_address;
      mac_address = args.mac_address;
      ssh_port = args.ssh_port;
      wake_interface = args.wake_interface;
      wake_strategy = args.wake_strategy;
      broadcast_address = args.broadcast_address;
      enabled = args.enabled;
      created_at = at;
      updated_at = at;
    }
    row ← flush_row model
    modify (λ db. record db { machines = db.machines ++ row ∷ [] })
    pure row

  -- `onupdate=_now`: the flush of a changed row sets `updated_at`.
  unfoldable pub store_changes : List Change → Machine → Exec (Option Machine)
  store_changes changes m = do
    at ← now h
    row ← flush_row (record (set_attrs changes m) { updated_at = at })
    modify (λ db. record db { machines = update_where (λ r. r.id == m.id) (λ r. row) db.machines })
    pure (some row)

  unfoldable pub update_found : List Change → Option Machine → Exec (Option Machine)
  update_found changes none = pure none
  update_found changes (some m) = store_changes changes m

  -- Every flush is taken to write the row; the object mapper leaves out one that changes nothing.
  unfoldable pub update : String → List Change → Exec (Option Machine)
  unfolding update_found store_changes
  update machine_id changes = do m ← get_by_id machine_id; update_found changes m

  -- The rows that refer to a machine, when its row is deleted.
  abbrev pub forget : String → ApiToken → ApiToken
  forget key t = elim t.machine_id [
    | none ↦ t
    | some m ↦ if m == key then record t { machine_id = none } else t
  ]

  -- A job goes with its machine, and with its attempt.
  abbrev pub goes : String → List Attempt → Job → Bool
  goes key attempts j =
      j.machine_id == key || any (λ a. a.id == j.attempt_id && a.machine_id == key) attempts

  unfoldable pub remove_row : String → Db → Db
  remove_row key db = record db {
    machines = select (λ m. not (m.id == key)) db.machines;
    attempts = select (λ a. not (a.machine_id == key)) db.attempts;
    jobs = select (λ j. not (goes key db.attempts j)) db.jobs;
    tokens = update_where (λ t. true) (forget key) db.tokens;
  }

  -- The relationship `wake_attempts` has neither a cascade nor `passive_deletes`: before the row is
  -- deleted, the object mapper sets `machine_id` of its attempts to NULL, which the column refuses.
  unfoldable pub delete_found : Option Machine → Exec Bool
  unfolding remove_row
  delete_found none = pure false
  delete_found (some m) = do
    children ← query (λ db. any (λ a. a.machine_id == m.id) db.attempts)
    guard (not children) integrity_error "wake_attempts.machine_id"
    modify (remove_row m.id)
    pure true

  unfoldable pub delete : String → Exec Bool
  unfolding delete_found
  delete machine_id = do m ← get_by_id machine_id; delete_found m

unfoldable pub list_all : Bool → Exec (List Machine)
list_all enabled_only =
    query (λ db. if enabled_only then select (λ m. m.enabled) db.machines else db.machines)

unfoldable pub count : Exec ℕ
count = query (λ db. length db.machines)

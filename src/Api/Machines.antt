-- ===== src/Api/Machines.antt =====
-- The endpoints of app/api/machines.py.
use wol_monkey.Common.{
  ℕ, zero, suc, String, Bool, true, false, ◌&&◌, ◌||◌, Option, none, some, List, [], ◌∷◌, ◌++◌, leb,
}
use wol_monkey.Domain.Machine.{WakeStrategy, value}
use wol_monkey.Domain.Records.{Machine}
use wol_monkey.Host.{Host}
use wol_monkey.Exec.{Exec, pure, raise, guard, ◌>>=◌, ◌>>◌, http}
use wol_monkey.Persistence.Machines
use wol_monkey.Persistence.Machines.{
  NewMachine, Change, name, ip_address, mac_address, wake_strategy, ssh_port, hostname,
  wake_interface, broadcast_address, enabled,
}
use wol_monkey.Infra.Packet.{codes, same_code}
use wol_monkey.Api.Auth.{fits}
use wol_monkey.Api.Security.{Request, get_csrf_protected_user, get_user_from_session_or_token}

-- `[0-9a-fA-F]`
unfoldable pub is_hex : ℕ → Bool
is_hex c = (leb b'0' c && leb c b'9') || (leb b'a' c && leb c b'f') || (leb b'A' c && leb c b'F')

-- `^([0-9a-fA-F]{2}:){n}[0-9a-fA-F]{2}$`
unfoldable pub is_mac : ℕ → List ℕ → Bool
is_mac zero (a ∷ b ∷ []) = is_hex a && is_hex b
is_mac (suc n) (a ∷ b ∷ c ∷ rest) = is_hex a && is_hex b && same_code c b':' && is_mac n rest
is_mac _ _ = false

abbrev fits_optional : ℕ → Option String → Bool
fits_optional most none = true
fits_optional most (some s) = fits 0 most s

abbrev optional_ip : Host → Option String → Bool
optional_ip h none = true
optional_ip h (some s) = h.is_ip_address s

pub record MachineCreate : Type 0 where
  pub name : String
  pub ip_address : String
  pub mac_address : String
  pub ssh_port : ℕ
  pub hostname : Option String
  pub wake_interface : Option String
  pub wake_strategy : WakeStrategy
  pub broadcast_address : Option String
  pub enabled : Bool

pub record MachineUpdate : Type 0 where
  pub name : Option String
  pub ip_address : Option String
  pub mac_address : Option String
  pub ssh_port : Option ℕ
  pub hostname : Option String
  pub wake_interface : Option String
  pub wake_strategy : Option WakeStrategy
  pub broadcast_address : Option String
  pub enabled : Option Bool

-- The fields' bounds and validators.
unfoldable pub create_is_valid : Host → MachineCreate → Bool
create_is_valid h b =
    fits 1 255 b.name
    && fits 7 45 b.ip_address
    && fits 17 17 b.mac_address
    && leb 1 b.ssh_port
    && leb b.ssh_port 65535
    && fits_optional 253 b.hostname
    && fits_optional 32 b.wake_interface
    && fits_optional 45 b.broadcast_address
    && is_mac 5 (codes b.mac_address)
    && h.is_ip_address b.ip_address
    && optional_ip h b.broadcast_address

abbrev all_fit : ℕ → ℕ → Option String → Bool
all_fit least most none = true
all_fit least most (some s) = fits least most s

abbrev port_fits : Option ℕ → Bool
port_fits none = true
port_fits (some p) = leb 1 p && leb p 65535

unfoldable pub update_is_valid : MachineUpdate → Bool
update_is_valid b =
    all_fit 1 255 b.name
    && all_fit 7 45 b.ip_address
    && all_fit 17 17 b.mac_address
    && port_fits b.ssh_port

-- `body.model_dump()`; the validator has put the address into lower case.
unfoldable pub to_new_machine : Host → MachineCreate → NewMachine
to_new_machine h b = record {
  name = b.name;
  ip_address = b.ip_address;
  mac_address = h.lower b.mac_address;
  ssh_port = b.ssh_port;
  hostname = b.hostname;
  wake_interface = b.wake_interface;
  wake_strategy = value b.wake_strategy;
  broadcast_address = b.broadcast_address;
  enabled = b.enabled;
}

-- `{k: v … if v is not None}`, in the order of the fields.
abbrev entry : {A : Type 0} → (A → Change) → Option A → List Change
entry f none = []
entry f (some v) = f v ∷ []

unfoldable pub updates : MachineUpdate → List Change
updates b =
    entry name b.name
    ++ entry ip_address b.ip_address
    ++ entry mac_address b.mac_address
    ++ entry ssh_port b.ssh_port
    ++ entry (λ v. hostname (some v)) b.hostname
    ++ entry (λ v. wake_interface (some v)) b.wake_interface
    ++ entry (λ v. wake_strategy (value v)) b.wake_strategy
    ++ entry (λ v. broadcast_address (some v)) b.broadcast_address
    ++ entry enabled b.enabled

module _ (h : Host) where
  unfoldable pub found_or_404 : Option Machine → Exec Machine
  found_or_404 none = raise (http 404) "Machine not found"
  found_or_404 (some m) = pure m

  unfoldable pub list_machines : Request → Bool → Exec (List Machine)
  list_machines r enabled_only = do
    user ← get_user_from_session_or_token h r
    Machines.list_all enabled_only

  unfoldable pub create_machine : Request → MachineCreate → Exec Machine
  create_machine r body = do
    user ← get_csrf_protected_user h r
    guard (create_is_valid h body) (http 422) "validation"
    Machines.create h (to_new_machine h body)

  unfoldable pub get_machine : Request → String → Exec Machine
  unfolding found_or_404
  get_machine r machine_id = do
    user ← get_user_from_session_or_token h r
    found ← Machines.get_by_id h machine_id
    found_or_404 found

  -- `if not updates:` the machine is only read.
  unfoldable pub apply : String → List Change → Exec (Option Machine)
  apply machine_id [] = Machines.get_by_id h machine_id
  apply machine_id (c ∷ cs) = Machines.update h machine_id (c ∷ cs)

  unfoldable pub update_machine : Request → String → MachineUpdate → Exec Machine
  unfolding found_or_404 apply
  update_machine r machine_id body = do
    user ← get_csrf_protected_user h r
    guard (update_is_valid body) (http 422) "validation"
    found ← apply machine_id (updates body)
    found_or_404 found

  unfoldable pub delete_machine : Request → String → Exec (Unit {0})
  delete_machine r machine_id = do
    user ← get_csrf_protected_user h r
    deleted ← Machines.delete h machine_id
    guard deleted (http 404) "Machine not found"

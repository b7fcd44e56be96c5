-- ===== src/Tests/Fixtures.antt =====
-- A small installation: a host that answers simply, a machine, a user, and databases with them.
use mathlib.Core.Path.{subst}
use wol_monkey.Common.{
  ℕ, zero, suc, String, ◌≡◌, refl, ap, true, false, none, some, [], ◌∷◌, arith, inl, inr,
}
use wol_monkey.Domain.Records.{User, Machine, Session}
use wol_monkey.Host.{Host, IsLawful, verified, exited_ok, exited}
use wol_monkey.Api.Security.{Request}
use wol_monkey.Persistence.Machines.Table.{IsValid, IsTable}
use wol_monkey.World.{World, Db, empty_db, empty_world}

-- n marks
abbrev pub tally : ℕ → String
tally zero = ""
tally (suc n) = String.◌∷◌ "|" (tally n)

tally_injective : (m n : ℕ) → tally m ≡ tally n → m ≡ n
tally_injective zero zero e = refl
tally_injective zero (suc n) e = cc
tally_injective (suc m) zero e = cc
tally_injective (suc m) (suc n) e =
    let same : tally m ≡ tally n = cc in ap suc (tally_injective m n same)

-- Every text is an id; every machine is off; packets are sent; each call takes a microsecond.
abbrev pub quiet_host : Host
quiet_host = record {
  canonical = λ s. some s;
  uuid = tally;
  macaddr = λ s. some s;
  inet = λ s. some s;
  token_hex = λ n bytes. tally n;
  clock = λ n. n;
  monotonic = λ n. n;
  argon2_hash = λ n s. s;
  argon2_verify = λ hash s. verified;
  argon2_needs_rehash = λ hash. false;
  sha256_hex = λ s. s;
  is_ip_address = λ s. true;
  lower = λ s. s;
  str = tally;
  repr = λ s. s;
  fromhex_error = λ cs. "non-hexadecimal number found in fromhex() arg";
  csrf_dumps = λ at id secret. secret;
  csrf_loads = λ at token. none;
  ping = λ n args. exited "1" "";
  open_connection = λ n host port. some "refused";
  etherwake = λ n args. exited_ok;
  read_file = λ n path. none;
  send_udp = λ n packet target port. none;
}

pub quiet_host-IsLawful : IsLawful quiet_host
quiet_host-IsLawful = record {
  canonical-uuid = λ n. refl;
  uuid-injective = tally_injective;
  clock_grows = λ n. omega arith;
}

abbrev pub nas : Machine
nas = record {
  id = "nas";
  name = "storage";
  hostname = none;
  ip_address = "192.168.1.5";
  mac_address = "aa:bb:cc:dd:ee:0f";
  ssh_port = 22;
  wake_interface = none;
  wake_strategy = "udp_broadcast";
  broadcast_address = none;
  enabled = true;
  created_at = 0;
  updated_at = 0;
}

abbrev pub alice : User
alice = record {
  id = "alice";
  username = "alice";
  password_hash = "correct horse";
  role = "admin";
  created_at = 0;
  last_login_at = none;
}

abbrev pub small_db : Db
small_db = record empty_db { users = alice ∷ []; machines = nas ∷ [] }

abbrev pub small_world : World
small_world = record empty_world { db = small_db; saved = small_db }

-- Every token is taken for one of the session "s".
abbrev pub signing_host : Host
signing_host = record quiet_host { csrf_loads = λ at token. some ("s", token) }

abbrev pub session : Session
session = record {
  id = "s";
  user_id = "alice";
  csrf_secret = "secret";
  ip = none;
  user_agent = none;
  expires_at = 100;
  revoked = false;
  created_at = 0;
}

abbrev pub in_session : World
in_session = record small_world {
  db = record small_db { sessions = session ∷ [] };
  saved = record small_db { sessions = session ∷ [] };
}

abbrev pub form : Request
form = record {
  cookie = some "s";
  authorization = none;
  csrf_header = none;
  csrf_form = some "secret";
  client_host = none;
  user_agent = none;
}

nas-IsValid : IsValid nas
nas-IsValid = record { port_min = omega arith; port_max = omega arith; strategy = inr refl }

pub small_world-IsTable : IsTable small_world.db.machines
small_world-IsTable = record {
  valid = λ m i. elim i [ inl e ↦ subst IsValid e nas-IsValid | inr i ↦ absurd i.1 ];
  distinct = λ a b i j same. elim i [
    | inl e ↦ elim j [ inl f ↦ rw⁻¹ e (rw⁻¹ f refl) | inr j ↦ absurd j.1 ]
    | inr i ↦ absurd i.1
  ];
}

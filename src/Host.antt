-- ===== src/Host.antt =====
-- What the program calls and does not implement: argon2, SHA-256, itsdangerous, the UUID and token
-- generators, the clocks, `ping`, TCP connections, the etherwake binary and UDP sockets. A call
-- whose answer may differ from one time to the next takes the number of calls made so far.
use wol_monkey.Common.{ℕ, suc, ◌≤◌, ◌≡◌, String, Bool, Option, some, List}

-- The answer of argon2's `verify`: True, a `VerifyMismatchError`, or another exception's message.
pub data Verdict : Type 0 where
  verified mismatch : Verdict
  broken : String → Verdict

-- How a subprocess ends: return code 0; another code, as a text, and what it wrote to stderr; or an
-- exception's message when it cannot be started.
pub data Outcome : Type 0 where
  exited_ok : Outcome
  exited : String → String → Outcome
  not_started : String → Outcome

pub record Host : Type 0 where
  -- `uuid.UUID(value)`: the canonical text, or `none` where it raises ValueError.
  pub canonical : String → Option String
  pub uuid : ℕ → String
  -- The canonical text of a value of the column types MACADDR and INET, if it is one.
  pub macaddr : String → Option String
  pub inet : String → Option String
  -- `secrets.token_hex(bytes)`
  pub token_hex : ℕ → ℕ → String
  -- The readings of `datetime.now` and of `time.monotonic` in microseconds, without the time spent
  -- in `asyncio.sleep`.
  pub clock : ℕ → ℕ
  pub monotonic : ℕ → ℕ
  pub argon2_hash : ℕ → String → String
  pub argon2_verify : String → String → Verdict
  pub argon2_needs_rehash : String → Bool
  pub sha256_hex : String → String
  -- Whether `ipaddress.ip_address` accepts a text.
  pub is_ip_address : String → Bool
  -- `lower` of a text, and `str` of a number.
  pub lower : String → String
  pub str : ℕ → String
  -- `repr` of a text, as `!r` prints it.
  pub repr : String → String
  -- The message of the ValueError of `bytes.fromhex`, for a text's code points.
  pub fromhex_error : List ℕ → String
  -- Signs a session's id and secret at a time; loads them back, if not older than `max_age`.
  pub csrf_dumps : ℕ → String → String → String
  pub csrf_loads : ℕ → String → Option (String × String)
  -- The process `ping args`; `not_started` also stands for one that is not over in time.
  pub ping : ℕ → List String → Outcome
  -- A connection to a host's port that is opened and closed again: `some` is the message of an
  -- exception, also when it takes too long.
  pub open_connection : ℕ → String → ℕ → Option String
  -- The process `etherwake args`.
  pub etherwake : ℕ → List String → Outcome
  -- The content of a file, or `none` where it cannot be read.
  pub read_file : ℕ → String → Option String
  -- `sendto(packet, (target, port))`: `some` is the message of an exception.
  pub send_udp : ℕ → List ℕ → String → ℕ → Option String

-- What the program relies on: a generated UUID is valid and canonical, no two are equal, and the
-- clock does not run backwards.
pub record IsLawful (h : Host) : Type 0 where
  pub canonical-uuid : (n : ℕ) → h.canonical (h.uuid n) ≡ some (h.uuid n)
  pub uuid-injective : (m n : ℕ) → h.uuid m ≡ h.uuid n → m ≡ n
  pub clock_grows : (n : ℕ) → h.clock n ≤ h.clock (suc n)

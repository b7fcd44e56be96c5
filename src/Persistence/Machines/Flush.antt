-- ===== src/Persistence/Machines/Flush.antt =====
-- What the flush of a machine's row lets through.
use mathlib.Core.Path.{subst}
use wol_monkey.Common.{
  String, ◌≡◌, refl, sym, ◌∙◌, Bool, true, false, not, ◌&&◌, Option, none, some, ◌==◌, any,
  Bool-cases, Option-cases, inl, inr,
}
use wol_monkey.Domain.Records.{Machine}
use wol_monkey.Host.{Host}
use wol_monkey.World.{World}
use wol_monkey.Exec.{
  Exec, Result, Error, ok, err, pure, query, guard, continue, integrity_error, ◌>>=◌, ◌>>◌,
}
use wol_monkey.Persistence.Machines.{passes_checks, column, optional_inet, flush_row}

-- A row, other than this one, with its MAC address.
abbrev pub taken_by : Machine → Machine → Bool
taken_by row r = r.mac_address == row.mac_address && not (r.id == row.id)

-- The row, with the texts of its columns of type INET and MACADDR.
abbrev pub with_columns : String → String → Option String → Machine → Machine
with_columns ip mac broadcast m = record m {
  ip_address = ip;
  mac_address = mac;
  broadcast_address = broadcast;
}

module _ (h : Host) where
  -- What the column INET keeps of a client's address.
  abbrev pub Kept : Option String → Option String → Type 0
  Kept none kept = kept ≡ none
  Kept (some a) kept = (v : String) × (h.inet a ≡ some v) × (kept ≡ some v)

  pub optional_inet_known :
      (ip kept : Option String) (what : String) (w : World)
      → Kept ip kept
      → optional_inet h ip what w ≡ (ok kept, w)
  unfolding optional_inet column
  optional_inet_known none kept what w e = rw e refl
  optional_inet_known (some a) kept what w (v, e, same) = rw e (rw same refl)

  -- The stored row has the addresses as their columns keep them, and else what it was given.
  pub record Encoded (m row : Machine) : Type 0 where
    pub ip : h.inet m.ip_address ≡ some row.ip_address
    pub mac : h.macaddr m.mac_address ≡ some row.mac_address
    pub broadcast : Kept m.broadcast_address row.broadcast_address
    pub rest : row ≡ with_columns row.ip_address row.mac_address row.broadcast_address m

  -- A flush changes nothing itself; the row that it lets through meets the constraints.
  pub data Flushed (m : Machine) (w : World) : Result Machine × World → Type 0 where
    refused : (e : Error) → Flushed m w (err e, w)
    passed :
        (row : Machine)
        → passes_checks row ≡ true
        → any (taken_by row) w.db.machines ≡ false
        → row.id ≡ m.id
        → Encoded m row
        → Flushed m w (ok row, w)

  checks_kept :
      (ip mac : String) (broadcast : Option String) (m : Machine)
      → passes_checks (with_columns ip mac broadcast m) ≡ passes_checks m
  unfolding passes_checks
  checks_kept ip mac broadcast m = refl

  abbrev constraints : Machine → Machine → Exec Machine
  constraints m row = do
    taken ←
        query (λ db. any (λ r. r.mac_address == row.mac_address && not (r.id == m.id)) db.machines)
    guard (passes_checks m) integrity_error "ck_machines"
    guard (not taken) integrity_error "uq_machines_mac_address"
    pure row

  constrained :
      (ip mac : String) (broadcast : Option String) (m : Machine) (w : World)
      → Encoded m (with_columns ip mac broadcast m)
      → Flushed m w (constraints m (with_columns ip mac broadcast m) w)
  constrained ip mac broadcast m w enc =
      let row : Machine = with_columns ip mac broadcast m in
      elim (Bool-cases (passes_checks m)) [
        | inr bad ↦ rw bad (refused _)
        | inl fine ↦ elim (Bool-cases (any (taken_by row) w.db.machines)) [
          | inl taken ↦ rw fine (rw taken (refused _))
          | inr free ↦
              rw fine (rw free (passed row (checks_kept ip mac broadcast m ∙ fine) free refl enc))
        ]
      ]

  with_broadcast :
      (ip mac : String) (m : Machine) (w : World) (o : Option String)
      → h.inet m.ip_address ≡ some ip
      → h.macaddr m.mac_address ≡ some mac
      → m.broadcast_address ≡ o
      → Flushed m w (
          continue
            (optional_inet h o "broadcast_address" w).0
            (λ b. constraints m (with_columns ip mac b m))
            (optional_inet h o "broadcast_address" w).1)
  unfolding optional_inet column
  with_broadcast ip mac m w o good_ip good_mac e = by o e
    where
      encoded :
          (o b : Option String)
          → m.broadcast_address ≡ o
          → Kept o b
          → Encoded m (with_columns ip mac b m)
      encoded o b e k = record {
        ip = good_ip;
        mac = good_mac;
        broadcast = subst (λ x. Kept x b) (sym e) k;
        rest = refl;
      }

      by :
          (o : Option String)
          → m.broadcast_address ≡ o
          → Flushed m w (
              continue
                (optional_inet h o "broadcast_address" w).0
                (λ b. constraints m (with_columns ip mac b m))
                (optional_inet h o "broadcast_address" w).1)
      by none e = constrained ip mac none m w (encoded none none e refl)
      by (some a) e = elim (Option-cases (h.inet a)) [
        | inl bad ↦ rw bad (refused _)
        | inr (v, good) ↦
            rw good (constrained ip mac (some v) m w (encoded (some a) (some v) e (v, good, refl)))
      ]

  pub flush : (m : Machine) (w : World) → Flushed m w (flush_row h m w)
  unfolding flush_row column
  flush m w = elim (Option-cases (h.inet m.ip_address)) [
    | inl bad ↦ rw bad (refused _)
    | inr (ip, good_ip) ↦ rw good_ip (elim (Option-cases (h.macaddr m.mac_address)) [
      | inl bad ↦ rw bad (refused _)
      | inr (mac, good_mac) ↦
          rw good_mac (with_broadcast ip mac m w m.broadcast_address good_ip good_mac refl)
    ])
  ]

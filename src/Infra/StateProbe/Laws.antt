-- ===== src/Infra/StateProbe/Laws.antt =====
-- What a probe reports, and what it costs.
use wol_monkey.Common.{
  ℕ, suc, ◌+◌, ◌≤◌, String, ◌≡◌, refl, ◌||◌, Option, none, some, arith, Bool-cases, inl, inr,
}
use wol_monkey.Domain.Probe.{ProbeResult}
use wol_monkey.Host.{Host}
use wol_monkey.World.{World}
use wol_monkey.Exec.{ok}
use wol_monkey.Infra.StateProbe.{ping, tcp_connect, Signals, fallback_host, retry, probe}

module _ (h : Host) where
  -- A probe answers, and touches neither the tables nor the time slept.
  pub record IsQuiet (w w' : World) : Type 0 where
    pub db : w'.db ≡ w.db
    pub slept : w'.slept ≡ w.slept
    pub calls : w.calls ≤ w'.calls

  -- The two signals from a host, when n calls were made before, and the report on them.
  abbrev pub signals : String → ℕ → ℕ → Signals
  signals host port n = (ping h n host, tcp_connect h (suc n) host port)

  abbrev report : String → Signals → ℕ → ProbeResult
  report machine_id s at = record {
    machine_id = machine_id;
    ping_ok = s.0;
    tcp_ssh_ok = s.1;
    observed_at = at;
  }

  probe_from :
      (machine_id host : String) (port : ℕ) (ip_fallback o : Option String) (w : World)
      → fallback_host ip_fallback host ≡ o
      → (r : ProbeResult) × (w' : World) × (probe h machine_id host port ip_fallback w ≡ (ok r, w'))
        × IsQuiet w w'
  unfolding probe
  probe_from machine_id host port ip_fallback none w e = (
    report machine_id (signals host port w.calls) (h.clock (suc (suc w.calls)) + w.slept),
    record w { calls = suc (suc (suc w.calls)) },
    rw (e, probe) refl,
    record { db = refl; slept = refl; calls = omega arith },
  )
  probe_from machine_id host port ip_fallback (some ip) w e =
      elim (Bool-cases (ping h w.calls host || tcp_connect h (suc w.calls) host port)) [
        | inl up ↦ (
          report machine_id (signals host port w.calls) (h.clock (suc (suc w.calls)) + w.slept),
          record w { calls = suc (suc (suc w.calls)) },
          rw (e, probe) (rw (up, retry) refl),
          record { db = refl; slept = refl; calls = omega arith },
        )
        | inr down ↦ (
          report machine_id (signals ip port (suc (suc w.calls)))
              (h.clock (suc (suc (suc (suc w.calls)))) + w.slept),
          record w { calls = suc (suc (suc (suc (suc w.calls)))) },
          rw (e, probe) (rw (down, retry) refl),
          record { db = refl; slept = refl; calls = omega arith },
        )
      ]

  pub probe-IsQuiet :
      (machine_id host : String) (port : ℕ) (ip_fallback : Option String) (w : World)
      → (r : ProbeResult) × (w' : World) × (probe h machine_id host port ip_fallback w ≡ (ok r, w'))
        × IsQuiet w w'
  probe-IsQuiet machine_id host port ip_fallback w =
      probe_from machine_id host port ip_fallback _ w refl

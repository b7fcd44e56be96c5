-- ===== src/Services/EnsureOnline/Laws.antt =====
-- The polling ends, and the attempt's row ends as the result says.
use native.Mathlib.Nat.{le_refl, le_trans, suc-add, zero-add}
use mathlib.Core.Path.{subst, ap}
use wol_monkey.Common.{
  ℕ, zero, suc, ◌+◌, ◌-◌, ◌*◌, ◌≤◌, String, ◌≡◌, refl, ◌⊎◌, inl, inr, Bool, true, false, Option,
  none, some, ◌==◌, find, update_where, arith, some_if_text,
}
use wol_monkey.Domain.Attempt.{AttemptStatus, waking, online, failed, timeout}
use wol_monkey.Domain.Machine.{probe_host}
use wol_monkey.Domain.Probe.{ProbeResult, derived_state}
use wol_monkey.Domain.Records.{Machine, Attempt}
use wol_monkey.Host.{Host, IsLawful}
use wol_monkey.World.{World, Db}
use wol_monkey.Exec.{ok, ◌>>=◌, ◌>>◌}
use wol_monkey.Persistence.Attempts.{with_status, update_status}
use wol_monkey.Persistence.Attempts.Laws as Attempts
use wol_monkey.Persistence.Attempts.Laws.{with_attempts, update_status_lem}
use wol_monkey.Persistence.Machines.Laws as Machines
use wol_monkey.Infra.StateProbe.Laws.{probe-IsQuiet}
use wol_monkey.Services.EnsureOnline.{
  poll_interval, deadline, is_online, finish, timeout_message, probe_once, after_probe, round, poll,
  run,
}

abbrev pub updated : String → AttemptStatus → Option String → Option ℕ → Db → Db
updated key s e f db =
    with_attempts (update_where (λ a. a.id == key) (with_status s e f) db.attempts) db

module _ (h : Host) (lawful : IsLawful h) where
  clock_le : (m k : ℕ) → h.clock m ≤ h.clock (k + m)
  clock_le m zero = rw zero-add (le_refl (h.clock m))
  clock_le m (suc k) = rw suc-add (le_trans (clock_le m k) (lawful.clock_grows (k + m)))

  clock_mono : (m n : ℕ) → m ≤ n → h.clock m ≤ h.clock n
  clock_mono m n l =
      let e : n - m + m ≡ n = omega arith in
      subst (λ t. h.clock m ≤ h.clock t) e (clock_le m (n - m))

  -- Some probe of the machine got an answer.
  abbrev pub Answered : Machine → Type 0
  Answered m =
      (v : World) × (r : ProbeResult) × ((probe_once h m v).0 ≡ ok r)
      × (is_online (derived_state r) ≡ true)

  -- How the polling for an attempt and a machine ends: online, and a probe was answered, or timeout,
  -- and the deadline has passed. The attempt's row has the status and the time, and no other row has
  -- changed.
  pub record Ends (a : Attempt) (m : Machine) (key : String) (db : Db)
      (result : wol_monkey.Exec.Result (Option AttemptStatus)) (w' : World) : Type 0 where
    pub status : AttemptStatus
    pub error : Option String
    pub at : ℕ
    pub returned : result ≡ ok (some status)
    pub final : ((status ≡ online) × Answered m) ⊎ ((status ≡ timeout) × (deadline a ≤ at))
    pub stored : w'.db ≡ updated key status error (some at) db

  module _ (id key : String) (c : h.canonical id ≡ some key) (a : Attempt) (m : Machine) where
    finish-Ends :
        (s : AttemptStatus) (e : Option String) (w : World)
        → ((s ≡ online) × Answered m) ⊎ ((s ≡ timeout) × (deadline a ≤ h.clock w.calls + w.slept))
        → Ends a m key w.db (finish h id s e w).0 (finish h id s e w).1
    unfolding finish update_status
    finish-Ends s e w k = record {
      status = s;
      error = e;
      at = h.clock w.calls + w.slept;
      returned = rw (c, finish) refl;
      final = k;
      stored = rw (c, finish) refl;
    }

    -- What the rest of the polling owes: from any later world with the same tables, it ends.
    abbrev Continues : wol_monkey.Exec.Exec (Option AttemptStatus) → World → Type 0
    Continues again w =
        (w' : World)
        → w'.db ≡ w.db
        → w.calls ≤ w'.calls
        → w'.slept ≡ w.slept + poll_interval
        → Ends a m key w'.db (again w').0 (again w').1

    after-Ends :
        (again : wol_monkey.Exec.Exec (Option AttemptStatus)) (b : Bool) (w w' : World)
        → w'.db ≡ w.db
        → w'.slept ≡ w.slept
        → w.calls ≤ w'.calls
        → Continues again w
        → (b ≡ true → Answered m)
        → Ends a m key w.db (after_probe h id again b w').0 (after_probe h id again b w').1
    unfolding after_probe
    after-Ends again true w w' d s k rest up =
        subst (λ db. Ends a m key db (finish h id online none w').0 (finish h id online none w').1)
          d (finish-Ends online none w' (inl (refl, up refl)))
    after-Ends again false w w' d s k rest up =
        let v : World = record w' { slept = w'.slept + poll_interval } in
        subst (λ db. Ends a m key db (again v).0 (again v).1) d (rest v d k (omega arith))

    -- One round from a world w, the rest of the polling being known.
    round-Ends :
        (again : wol_monkey.Exec.Exec (Option AttemptStatus)) (w : World) (late : Bool)
        → Continues again w
        → (late ≡ true → deadline a ≤ h.clock w.calls + w.slept)
        → Ends a m key w.db (round h id a m again late w).0 (round h id a m again late w).1
    unfolding round probe_once
    round-Ends again w true rest due =
        finish-Ends timeout (some (timeout_message h a)) w (inr (refl, due refl))
    round-Ends again w false rest due =
        let (r, w', p, q) =
          probe-IsQuiet h m.id (probe_host m) m.ssh_port (some_if_text m.hostname m.ip_address) w in
        rw (p, round)
          (after-Ends again (is_online (derived_state r)) w w' q.db q.slept q.calls rest
            (λ up. (w, r, ap (λ x. x.0) p, up)))

    -- The round after which no time is left ends the polling by its deadline.
    last_round :
        (again : wol_monkey.Exec.Exec (Option AttemptStatus)) (w : World) (late : Bool)
        → late ≡ true
        → deadline a ≤ h.clock w.calls + w.slept
        → Ends a m key w.db (round h id a m again late w).0 (round h id a m again late w).1
    unfolding round
    last_round again w true e due =
        finish-Ends timeout (some (timeout_message h a)) w (inr (refl, due))
    last_round again w false e due = cc

    -- On a lawful host, for a valid id, with more fuel than the rounds that fit between now and the
    -- deadline, the polling ends: it returns online, and a probe of the machine was answered, or
    -- timeout, and the deadline has passed; the attempt's row has that status and the time, and
    -- nothing else in the tables has changed.
    pub poll-Ends :
        (fuel : ℕ) (w : World)
        → deadline a ≤ h.clock w.calls + w.slept + fuel * poll_interval
        → Ends a m key w.db (poll h (suc fuel) id a m w).0 (poll h (suc fuel) id a m w).1
    unfolding poll
    poll-Ends zero w enough =
        last_round (poll h zero id a m) (record w { calls = suc w.calls }) _ (ground arith)
          (omega (arith, lawful.clock_grows w.calls))
    poll-Ends (suc fuel) w enough =
        round-Ends (poll h (suc fuel) id a m) (record w { calls = suc w.calls }) _
          (λ w' d k s.
            poll-Ends fuel w'
              (omega (arith, clock_mono w.calls w'.calls (le_trans (omega arith) k))))
          (λ late. ground (arith, lawful.clock_grows w.calls))

  module _ (id key : String) (c : h.canonical id ≡ some key) where
    -- The run on a lawful host, for an attempt and a machine that are there: with more fuel than
    -- the rounds that fit between now and the attempt's deadline it returns online, and a probe of
    -- the machine was answered, or timeout, and the deadline has passed; the attempt's row was set
    -- to waking, and now has the returned status and the time; nothing else in the tables has
    -- changed.
    pub run-Ends :
        (a : Attempt) (m : Machine) (machine : String) (fuel : ℕ) (w : World)
        → find (λ x. x.id == key) w.db.attempts ≡ some a
        → h.canonical a.machine_id ≡ some machine
        → find (λ x. x.id == machine) w.db.machines ≡ some m
        → deadline a ≤ h.clock w.calls + w.slept + fuel * poll_interval
        → Ends a m key
            (updated key waking none none w.db)
            (run h (suc fuel) id w).0
            (run h (suc fuel) id w).1
    unfolding run
    run-Ends a m machine fuel w fa cm fm enough =
        rw (Attempts.get_by_id_known h id key w c, run)
          (rw fa (
            rw (Machines.get_by_id_known h a.machine_id machine w cm, run)
              (rw fm (
                rw (update_status_lem h id waking none none key w c, run)
                  (poll-Ends id key c a m fuel (record w { db = updated key waking none none w.db })
                    enough)))))

    -- For an attempt that is there and whose machine is not, the attempt's row becomes failed, with
    -- the time and a message; and the run returns failed.
    pub run_no_machine :
        (a : Attempt) (machine : String) (fuel : ℕ) (w : World)
        → find (λ x. x.id == key) w.db.attempts ≡ some a
        → h.canonical a.machine_id ≡ some machine
        → find (λ x. x.id == machine) w.db.machines ≡ none
        → ((run h fuel id w).0 ≡ ok (some failed))
          × ((run h fuel id w).1.db
              ≡ updated key failed
                  (some "Machine not found")
                  (some (h.clock w.calls + w.slept))
                  w.db)
    unfolding run finish update_status
    run_no_machine a machine fuel w fa cm fm =
        rw (Attempts.get_by_id_known h id key w c, run)
          (rw fa (
            rw (Machines.get_by_id_known h a.machine_id machine w cm, run)
              (rw fm (rw (c, finish) (refl, refl)))))

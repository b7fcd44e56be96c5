-- ===== src/Services/Wake/Laws.antt =====
-- What one call of the wake service does, on every branch.
use wol_monkey.Common.{
  ℕ, suc, ◌+◌, String, ◌<>◌, ◌≡◌, refl, sym, ap, ◌∙◌, Bool, true, false, Option, none, some, List,
  [], ◌∷◌, ◌++◌, ◌==◌, any, find, update_where, update_where_last, any_of_find, eq_refl, ◌⊎◌, inl,
  inr,
}
use wol_monkey.Domain.Attempt.{sent, failed}
use wol_monkey.Domain.Machine.{WakeStrategy, value}
use wol_monkey.Domain.Records.{Machine, Attempt}
use wol_monkey.Host.{Host, IsLawful}
use wol_monkey.World.{World}
use wol_monkey.Exec.{Result, ok, err, wake_error}
use wol_monkey.Persistence.Machines
use wol_monkey.Persistence.Machines.Laws.{get_by_id_known, get_by_id_invalid}
use wol_monkey.Persistence.Attempts.{with_status, update_status}
use wol_monkey.Persistence.Attempts.Laws.{new_row, with_attempts, create_lem}
use wol_monkey.Infra.Strategy.{wake_by, get_strategy}
use wol_monkey.Infra.Strategy.Laws.{wake_by_tables, get_strategy-value}
use wol_monkey.Services.Wake.{
  WakeArgs, strategy_name, new_attempt, send, record_failure, attempt_wake, wake,
}

-- How the row ends, given what the strategy answered and the time of a failure.
abbrev pub settled : Result (Unit {0}) → ℕ → Attempt → Attempt
settled (ok u) at a = with_status sent none none a
settled (err e) at a = with_status failed (some e.detail) (some at) a

-- What the caller gets.
abbrev pub outcome : Result (Unit {0}) → String → Result String
outcome (ok u) id = ok id
outcome (err e) id = err (record { kind = wake_error; detail = "Wake failed: " <> e.detail })

module _ (h : Host) where
  settle : Result (Unit {0}) → Attempt → World → Result String × World
  settle (ok u) a w = (
    ok a.id,
    record w {
      db =
          with_attempts
            (update_where (λ r. r.id == a.id) (with_status sent none none) w.db.attempts) w.db;
    },
  )
  settle (err e) a w = (
    outcome (err e) a.id,
    record w {
      db =
          with_attempts
            (update_where (λ r. r.id == a.id)
              (with_status failed (some e.detail) (some (h.clock w.calls + w.slept))) w.db.attempts)
            w.db;
      calls = suc w.calls;
    },
  )

  -- The packet as the machine's row asks for it.
  abbrev pub transmit : Machine → WakeStrategy → World → Result (Unit {0}) × World
  transmit m s w = wake_by h s m.mac_address m.wake_interface m.broadcast_address w

  attempt_wake_lem :
      (a : Attempt) (m : Machine) (name : String) (s : WakeStrategy) (w w' : World)
      (r : Result (Unit {0}))
      → get_strategy h name w ≡ (ok s, w)
      → h.canonical a.id ≡ some a.id
      → transmit m s w ≡ (r, w')
      → attempt_wake h a m name w ≡ settle r a w'
  unfolding attempt_wake send record_failure settle update_status
  attempt_wake_lem a m name s w w' (ok u) g c t = rw (g, attempt_wake) (rw t (rw c))
  attempt_wake_lem a m name s w w' (err e) g c t = rw (g, attempt_wake) (rw t (rw c))

  -- The world in which the strategy sends: the attempt is there, pending.
  abbrev pub at_send : WakeArgs → Machine → String → World → World
  at_send args m key w = record w {
    db = with_attempts (w.db.attempts ++ new_row h (new_attempt args m) key w ∷ []) w.db;
    calls = suc (suc w.calls);
  }

  -- The row of the new attempt, before its packet is sent.
  abbrev pub pending_row : WakeArgs → Machine → String → World → Attempt
  pending_row args m key w = new_row h (new_attempt args m) key w

  settle_new :
      (r : Result (Unit {0})) (a : Attempt) (rows : List Attempt) (w w' : World)
      → any (λ b. b.id == a.id) rows ≡ false
      → w'.db ≡ with_attempts (rows ++ a ∷ []) w.db
      → ((settle r a w').0 ≡ outcome r a.id)
        × ((settle r a w').1.db
            ≡ with_attempts (rows ++ settled r (h.clock w'.calls + w'.slept) a ∷ []) w.db)
  unfolding settle
  settle_new (ok u) a rows w w' fresh e =
      (refl, rw (e, update_where_last _ _ rows a fresh (eq_refl a.id)) refl)
  settle_new (err x) a rows w w' fresh e =
      (refl, rw (e, update_where_last _ _ rows a fresh (eq_refl a.id)) refl)

  wake_attempts :
      (args : WakeArgs) (m : Machine) (key : String) (w : World)
      → h.canonical args.machine_id ≡ some key
      → find (λ x. x.id == key) w.db.machines ≡ some m
      → m.enabled ≡ true
      → wake h args w
        ≡ attempt_wake h (pending_row args m key w) m (strategy_name args m) (at_send args m key w)
  unfolding wake new_attempt
  wake_attempts args m key w c f e =
      rw (get_by_id_known h args.machine_id key w c, wake)
        (rw f (
          rw e (
            rw (create_lem h (new_attempt args m) key w c (any_of_find _ w.db.machines m f)) refl)))

  -- On a lawful host, for a machine that is there and enabled, whose strategy's name is known, and
  -- a new id that no attempt has: the call adds one attempt and changes no other row of any table.
  -- The attempt ends as sent, and the call returns its id, if the strategy succeeds; it ends as
  -- failed, with the exception's text and the time, and the call raises a WakeError, if the
  -- strategy raises.
  pub wake_lem :
      IsLawful h
      → (args : WakeArgs) (m : Machine) (key : String) (s : WakeStrategy) (w w' : World)
        (r : Result (Unit {0}))
      → h.canonical args.machine_id ≡ some key
      → find (λ x. x.id == key) w.db.machines ≡ some m
      → m.enabled ≡ true
      → strategy_name args m ≡ value s
      → any (λ a. a.id == h.uuid w.calls) w.db.attempts ≡ false
      → transmit m s (at_send args m key w) ≡ (r, w')
      → ((wake h args w).0 ≡ outcome r (h.uuid w.calls))
        × ((wake h args w).1.db
            ≡ with_attempts
                (w.db.attempts
                  ++ settled r (h.clock w'.calls + w'.slept) (pending_row args m key w) ∷ [])
                w.db)
  wake_lem lawful args m key s w w' r c f e n fresh t =
      let a : Attempt = pending_row args m key w in
      let v : World = at_send args m key w in
      let sends =
        attempt_wake_lem a m (value s) s v w' r (get_strategy-value h s v)
          (lawful.canonical-uuid w.calls) t in
      let tables = (wake_by_tables h s m.mac_address m.wake_interface m.broadcast_address v).0 in
      rw (wake_attempts args m key w c f e, n, sends)
        (settle_new r a w.db.attempts w w' fresh (sym (ap (λ x. x.1.db) t) ∙ tables))

  -- Whether the id names a machine that is enabled.
  abbrev pub is_ready : Option Machine → Bool
  is_ready none = false
  is_ready (some m) = m.enabled

  abbrev refusal : String → Option Machine → String
  refusal id none = "Machine " <> h.repr id <> " not found"
  refusal id (some m) = "Machine " <> h.repr id <> " is disabled"

  refused :
      (args : WakeArgs) (w : World) (found : Option Machine)
      → Machines.get_by_id h args.machine_id w ≡ (ok found, w)
      → is_ready found ≡ false
      → wake h args w
        ≡ (err (record { kind = wake_error; detail = refusal args.machine_id found }), w)
  unfolding wake
  refused args w none g d = rw (g, wake)
  refused args w (some m) g d = rw (g, wake) (simp d)

  -- An id that is no UUID, that names no machine, or that names a disabled one: a WakeError, and
  -- nothing at all has changed.
  pub wake_refused :
      (args : WakeArgs) (w : World)
      → (h.canonical args.machine_id ≡ none)
        ⊎ ((key : String) × (h.canonical args.machine_id ≡ some key)
            × (is_ready (find (λ x. x.id == key) w.db.machines) ≡ false))
      → (message : String) × (wake h args w
          ≡ (err (record { kind = wake_error; detail = message }), w))
  wake_refused args w (inl c) =
      (_, refused args w none (get_by_id_invalid h args.machine_id w c) refl)
  wake_refused args w (inr (key, c, d)) =
      (_, refused args w _ (get_by_id_known h args.machine_id key w c) d)

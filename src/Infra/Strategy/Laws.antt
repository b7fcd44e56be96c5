-- ===== src/Infra/Strategy/Laws.antt =====
-- What sending a wake packet does to the world, and what it sends.
use wol_monkey.Common.{◌≡◌, refl, String, Option, arith}
use wol_monkey.Domain.Machine.{WakeStrategy, etherwake, udp_broadcast, value}
use wol_monkey.Host.{Host}
use wol_monkey.World.{World}
use wol_monkey.Exec.{ok}
use wol_monkey.Infra.Strategy.{wake_etherwake, wake_udp, wake_by, get_strategy}

module _ (h : Host) where
  -- No strategy touches the tables, the session's or the committed ones.
  pub wake_by_tables :
      (s : WakeStrategy) (mac : String) (interface broadcast : Option String) (w : World)
      → ((wake_by h s mac interface broadcast w).1.db ≡ w.db)
        × ((wake_by h s mac interface broadcast w).1.saved ≡ w.saved)
        × ((wake_by h s mac interface broadcast w).1.slept ≡ w.slept)
  unfolding wake_by wake_etherwake wake_udp
  wake_by_tables etherwake mac interface broadcast w = (ground arith, ground arith, ground arith)
  wake_by_tables udp_broadcast mac interface broadcast w =
      (ground arith, ground arith, ground arith)

  -- The name of a strategy finds that strategy.
  pub get_strategy-value : (s : WakeStrategy) (w : World) → get_strategy h (value s) w ≡ (ok s, w)
  unfolding get_strategy
  get_strategy-value etherwake w = refl
  get_strategy-value udp_broadcast w = refl

-- ===== src/Services/Settings.antt =====
-- SettingsService of app/services/settings.py, over any SettingsRepository.
pub mod Laws
use wol_monkey.Common.{ℕ, String, Bool, true, false, Option, none, some, ◌==◌, ◌||◌}
use wol_monkey.Common.Text.Number.{ℤ, pos, parse_int}
use wol_monkey.Domain.Records.{Value, null, flag, number, text, Dict}
use wol_monkey.Host.{Host}
use wol_monkey.Exec.{Exec, pure, ◌>>=◌}
use wol_monkey.Domain.Ports.{SettingsRepository}

abbrev pub or_default : Value → Value → Value
or_default null default = default
or_default (flag b) default = flag b
or_default (number n) default = number n
or_default (text s) default = text s

module _ (repo : SettingsRepository) where
  unfoldable pub get : String → Value → Exec Value
  get key default = do value ← repo.get key; pure (or_default value default)

  unfoldable pub set : String → Value → Exec (Unit {0})
  set key value = repo.set key value

  unfoldable pub get_all : Exec (Dict Value)
  get_all = repo.get_all

abbrev pub or_int : ℕ → Option ℤ → ℤ
or_int default none = pos default
or_int default (some n) = n

module _ (h : Host) where
  -- `str(val)`
  abbrev pub value_str : Value → String
  value_str null = "None"
  value_str (flag true) = "True"
  value_str (flag false) = "False"
  value_str (number n) = h.str n
  value_str (text s) = s

  abbrev truth_word : String → Bool
  truth_word s = s == "true" || s == "1" || s == "yes"

  -- A flag is itself; any other value is true if its text is one of three words.
  abbrev pub value_bool : Value → Bool
  value_bool (flag b) = b
  value_bool null = truth_word (h.lower (value_str null))
  value_bool (number n) = truth_word (h.lower (value_str (number n)))
  value_bool (text s) = truth_word (h.lower (value_str (text s)))

module _ (h : Host) (repo : SettingsRepository) where
  unfoldable pub get_str : String → String → Exec String
  get_str key default = do val ← get repo key (text default); pure (value_str h val)

  -- `none` of the reading stands for the ValueError. The default is taken not to be negative.
  unfoldable pub get_int : String → ℕ → Exec ℤ
  get_int key default = do
    val ← get repo key (number default)
    pure (or_int default (parse_int (value_str h val)))

  unfoldable pub get_bool : String → Bool → Exec Bool
  get_bool key default = do val ← get repo key (flag default); pure (value_bool h val)

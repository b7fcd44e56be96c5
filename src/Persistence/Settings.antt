-- ===== src/Persistence/Settings.antt =====
-- SqlSettingsRepository: each value is stored under the key "v" of a JSON object, and taken out of
-- it again; the model stores the value.
use wol_monkey.Common.{String, Option, none, some}
use wol_monkey.Common.Dict.{lookup, insert}
use wol_monkey.Domain.Records.{Value, null, Dict}
use wol_monkey.Exec.{Exec, query, modify}

abbrev pub or_null : Option Value → Value
or_null none = null
or_null (some v) = v

-- `null` stands for Python's None: a key that is missing and one that is set to None read alike.
unfoldable pub get : String → Exec Value
get key = query (λ db. or_null (lookup key db.settings))

unfoldable pub set : String → Value → Exec (Unit {0})
set key value = modify (λ db. record db { settings = insert key value db.settings })

unfoldable pub get_all : Exec (Dict Value)
get_all = query (λ db. db.settings)

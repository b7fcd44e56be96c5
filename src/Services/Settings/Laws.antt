-- ===== src/Services/Settings/Laws.antt =====
-- What the settings service answers, over any repository that keeps what it is given; and that the
-- SQL repository is one.
use wol_monkey.Common.{
  ℕ, Bool, true, false, some, List, [], ◌∷◌, String, ◌≡◌, ◌∙◌, refl, ◌==◌, Bool-cases, inl, inr,
  All, if◌then◌else◌,
}
use wol_monkey.Common.Dict.{lookup, lookup-insert}
use wol_monkey.Domain.Ports.{SettingsRepository}
use wol_monkey.Domain.Records.{Value, null, flag, number, text, Dict}
use wol_monkey.World.{World}
use wol_monkey.Exec.{Result, ok, err}
use wol_monkey.Persistence.Ports.{sql_settings}
use wol_monkey.Persistence.Settings as Table
use wol_monkey.Services.Settings.{
  or_default, get, set, get_all, or_int, value_str, value_bool, get_str, get_int, get_bool,
}
use wol_monkey.Common.Text.{strip}
use wol_monkey.Common.Text.Number.{ℤ, pos, parse_int}
use wol_monkey.Host.{Host}

-- What the service relies on: a reading of the state, such that `get` answers it, `set` returns and
-- changes it at one key, `get_all` lists it, and reading changes nothing.
pub record IsStore (repo : SettingsRepository) (read : String → World → Value) : Type 0 where
  pub get_answers : (k : String) (w : World) → (repo.get k w).0 ≡ ok (read k w)
  pub get_keeps : (j k : String) (w : World) → read j (repo.get k w).1 ≡ read j w
  pub set_returns : (k : String) (v : Value) (w : World) → (repo.set k v w).0 ≡ ok tt
  pub read-set :
      (j k : String) (v : Value) (w : World)
      → read k (repo.set j v w).1 ≡ (if j == k then v else read k w)
  pub get_all_answers :
      (w : World)
      → (d : Dict Value) × (repo.get_all w).0 ≡ ok d
        × ((k : String) → Table.or_null (lookup k d) ≡ read k w)
  pub get_all_keeps : (j : String) (w : World) → read j (repo.get_all w).1 ≡ read j w

-- The table's reading of a key.
abbrev pub stored : String → World → Value
stored k w = Table.or_null (lookup k w.db.settings)

-- The SQL repository keeps what it is given.
pub sql_settings-IsStore : IsStore sql_settings stored
unfolding Table.get Table.set Table.get_all
sql_settings-IsStore = record {
  get_answers = λ k w. refl;
  get_keeps = λ j k w. refl;
  set_returns = λ k v w. refl;
  read-set = λ j k v w. elim (Bool-cases (j == k)) [
    | inl e ↦ rw (lookup-insert j k v w.db.settings, e) refl
    | inr e ↦ rw (lookup-insert j k v w.db.settings, e) refl
  ];
  get_all_answers = λ w. (w.db.settings, refl, λ k. refl);
  get_all_keeps = λ j w. refl;
}

-- The calls of the service, and what they return.
pub data Call : Type 0 where
  set_value : String → Value → Call
  ask_str : String → String → Call
  ask_int : String → ℕ → Call
  ask_bool : String → Bool → Call
  -- The value of a key in what get_all returns.
  ask_all : String → Call

pub data Answer : Type 0 where
  is_set : Answer
  is_str : String → Answer
  is_int : ℤ → Answer
  is_bool : Bool → Answer
  is_value : Value → Answer
  is_raised : Answer

-- What a value is as an integer: a number is itself, None is the default, and so is a flag or a text
-- that spells no integer.
abbrev pub int_of : Value → ℕ → ℤ
int_of null default = pos default
int_of (flag b) default = pos default
int_of (number n) default = pos n
int_of (text s) default = or_int default (parse_int s)

module _ (h : Host) where
  -- Python prints the number so that `int` reads it back.
  abbrev pub Prints : ℕ → Type 0
  Prints n = parse_int (h.str n) ≡ some (pos n)

  abbrev pub PrintsValue : Value → Type 0
  PrintsValue (number n) = Prints n
  PrintsValue (flag b) = Unit
  PrintsValue (text s) = Unit
  PrintsValue null = Unit

  as_int :
      (v : Value) (default : ℕ)
      → Prints default
      → PrintsValue v
      → or_int default (parse_int (value_str h (or_default v (number default)))) ≡ int_of v default
  unfolding parse_int strip
  as_int null default d p = rw d refl
  as_int (flag true) default d p = refl
  as_int (flag false) default d p = refl
  as_int (number n) default d p = rw p refl
  as_int (text s) default d p = refl

  -- The same calls on a function from keys to values.
  unfoldable pub replay : List Call → (String → Value) → List Answer
  replay [] f = []
  replay (set_value k v ∷ calls) f = is_set ∷ replay calls (λ j. if k == j then v else f j)
  replay (ask_str k default ∷ calls) f =
      is_str (value_str h (or_default (f k) (text default))) ∷ replay calls f
  replay (ask_int k default ∷ calls) f = is_int (int_of (f k) default) ∷ replay calls f
  replay (ask_bool k default ∷ calls) f =
      is_bool (value_bool h (or_default (f k) (flag default))) ∷ replay calls f
  replay (ask_all k ∷ calls) f = is_value (f k) ∷ replay calls f

  abbrev pub PrintsCall : Call → Type 0
  PrintsCall (set_value k v) = PrintsValue v
  PrintsCall (ask_str k default) = Unit
  PrintsCall (ask_int k default) = Prints default
  PrintsCall (ask_bool k default) = Unit
  PrintsCall (ask_all k) = Unit

  abbrev answer : {A : Type 0} → (A → Answer) → Result A → Answer
  answer f (ok a) = f a
  answer f (err e) = is_raised

  module _ (repo : SettingsRepository) where
    -- The answers of the service, one call after the other.
    unfoldable pub answers : List Call → World → List Answer
    answers [] w = []
    answers (set_value k v ∷ calls) w =
        let (r, w') = set repo k v w in answer (λ u. is_set) r ∷ answers calls w'
    answers (ask_str k default ∷ calls) w =
        let (r, w') = get_str h repo k default w in answer is_str r ∷ answers calls w'
    answers (ask_int k default ∷ calls) w =
        let (r, w') = get_int h repo k default w in answer is_int r ∷ answers calls w'
    answers (ask_bool k default ∷ calls) w =
        let (r, w') = get_bool h repo k default w in answer is_bool r ∷ answers calls w'
    answers (ask_all k ∷ calls) w =
        let (r, w') = get_all repo w in
        answer (λ d. is_value (Table.or_null (lookup k d))) r ∷ answers calls w'

  module _ (repo : SettingsRepository) (read : String → World → Value)
      (store : IsStore repo read) where
    got :
        (k : String) (d : Value) (w : World)
        → get repo k d w ≡ (ok (or_default (read k w) d), (repo.get k w).1)
    unfolding get
    got k d w = rw (store.get_answers k w) refl

    written :
        (j : String) (v : Value) (w : World) (f : String → Value)
        → ((k : String) → read k w ≡ f k)
        → (k : String) → read k (repo.set j v w).1 ≡ (if j == k then v else f k)
    written j v w f same k = rw (store.read-set j k v w, same k) refl

    prints_written :
        (b : Bool) (v u : Value) → PrintsValue v → PrintsValue u → PrintsValue (if b then v else u)
    prints_written true v u p q = p
    prints_written false v u p q = q

    -- Let a repository keep what it is given, and let `int` read back how the numbers that are
    -- stored, written or given as defaults are printed. Any sequence of calls of the settings service,
    -- writes and typed reads and listings, is answered as on a plain function from keys to values.
    pub answers-replay :
        (calls : List Call) (w : World) (f : String → Value)
        → All PrintsCall calls
        → ((k : String) → PrintsValue (f k))
        → ((k : String) → read k w ≡ f k)
        → answers repo calls w ≡ replay calls f
    unfolding answers replay set get_all get_str get_int get_bool
    answers-replay [] w f p q same = refl
    answers-replay (set_value j v ∷ calls) w f (p, ps) q same =
        let rest =
          answers-replay calls (repo.set j v w).1 (λ k. if j == k then v else f k) ps
            (λ k. prints_written (j == k) v (f k) p (q k)) (written j v w f same) in
        rw (store.set_returns j v w, rest) refl
    answers-replay (ask_str k default ∷ calls) w f (p, ps) q same =
        let rest =
          answers-replay calls (repo.get k w).1 f ps q (λ j. store.get_keeps j k w ∙ same j) in
        rw (got k (text default) w, rest, same k) refl
    answers-replay (ask_int k default ∷ calls) w f (p, ps) q same =
        let rest =
          answers-replay calls (repo.get k w).1 f ps q (λ j. store.get_keeps j k w ∙ same j) in
        rw (got k (number default) w, rest, same k, as_int (f k) default p (q k)) refl
    answers-replay (ask_bool k default ∷ calls) w f (p, ps) q same =
        let rest =
          answers-replay calls (repo.get k w).1 f ps q (λ j. store.get_keeps j k w ∙ same j) in
        rw (got k (flag default) w, rest, same k) refl
    answers-replay (ask_all k ∷ calls) w f (p, ps) q same =
        let rest =
          answers-replay calls (repo.get_all w).1 f ps q (λ j. store.get_all_keeps j w ∙ same j) in
        let (d, listed, holds) = store.get_all_answers w in rw (listed, rest, holds k, same k) refl

-- ===== src/Storage/Migration.antt =====
-- src/storage/migration.rs: migrations, what is kept about them, and their versions. An implementation of
-- the trait `Migration` is a record of its methods.
use Prim.Native.Char.{Char, code}
use goud_chain.Prelude.{
  ℕ, zero, suc, ◌+◌, ◌*◌, ◌-◌, ◌==◌, ltb, leb, ℤ, String, ◌+++◌, show, length, Bool, true, ◌&&◌,
  if◌then◌else◌, Option, none, some,
}
use goud_chain.Errors.{Result, ◌>>=◌, ◌>>◌, guard, ok_or, invalid_migration_version}
use goud_chain.Crypto.Externals.{Externals, as_bytes}
use goud_chain.Storage.Action.{Action}

pub record MigrationMetadata : Type 0 where
  pub version : String
  pub description : String
  pub applied_at : ℤ
  pub checksum : String

pub record Migration (Db : Type 0) : Type 0 where
  pub version : String
  pub description : String
  pub up : Action Db (Unit {0})
  pub down : Action Db (Unit {0})
  pub checksum : String

-- `Migration::checksum`, where an implementation does not give its own
unfoldable pub default_checksum : Externals → String → String → String
default_checksum x version description =
    x.hex_encode (x.sha256 (as_bytes (version +++ "_" +++ description)))

abbrev pub is_ascii_digit : Char → Bool
is_ascii_digit c = leb 48 (code c) && leb (code c) 57

abbrev pub all_digits : String → Bool
all_digits String.[] = true
all_digits (String.◌∷◌ c s) = is_ascii_digit c && all_digits s

-- `parse::<u32>()` of a text without a sign, of fewer digits than overflow
abbrev pub parse_from : ℕ → String → Option ℕ
parse_from n String.[] = some n
parse_from n (String.◌∷◌ c s) =
    if is_ascii_digit c then parse_from (n * 10 + (code c - 48)) s else none

abbrev pub parse : String → Option ℕ
parse String.[] = none
parse (String.◌∷◌ c s) = parse_from 0 (String.◌∷◌ c s)

-- Characters of a text, as the bytes of one that is ASCII.
abbrev pub skip : ℕ → String → String
skip zero s = s
skip (suc n) String.[] = String.[]
skip (suc n) (String.◌∷◌ c s) = skip n s

abbrev pub first_of : ℕ → String → String
first_of zero s = String.[]
first_of (suc n) String.[] = String.[]
first_of (suc n) (String.◌∷◌ c s) = String.◌∷◌ c (first_of n s)

-- `version[start..start + width].parse()`
abbrev pub component : String → ℕ → ℕ → String → Result ℕ
component name start width version =
    ok_or (invalid_migration_version ("invalid " +++ name +++ " component"))
      (parse (first_of width (skip start version)))

-- `{:02}`
abbrev pub show_02 : ℕ → String
show_02 n = if ltb n 10 then "0" +++ show n else show n

-- `if !condition { return Err(..) }`, with the text of the error
abbrev pub require : Bool → String → Result (Unit {0})
require condition text = guard condition (invalid_migration_version text)

abbrev pub within : ℕ → ℕ → ℕ → Bool
within low high n = leb low n && leb n high

unfoldable pub check_ranges : ℕ → ℕ → ℕ → ℕ → ℕ → ℕ → Result (Unit {0})
check_ranges year month day hour minute second = do
  require (within 2020 2100 year) ("year must be between 2020 and 2100, got " +++ show year)
  require (within 1 12 month) ("month must be between 01 and 12, got " +++ show_02 month)
  require (within 1 31 day) ("day must be between 01 and 31, got " +++ show_02 day)
  require (ltb hour 24) ("hour must be between 00 and 23, got " +++ show_02 hour)
  require (ltb minute 60) ("minute must be between 00 and 59, got " +++ show_02 minute)
  require (ltb second 60) ("second must be between 00 and 59, got " +++ show_02 second)

unfoldable pub validate_migration_version : String → Result (Unit {0})
validate_migration_version version = do
  let bytes = length (as_bytes version)
  require (bytes == 14)
      ("version must be 14 characters (YYYYMMDDHHMMSS), got " +++ show bytes +++ " characters")
  require (all_digits version) "version must contain only digits (0-9)"
  year ← component "year" 0 4 version
  month ← component "month" 4 2 version
  day ← component "day" 6 2 version
  hour ← component "hour" 8 2 version
  minute ← component "minute" 10 2 version
  second ← component "second" 12 2 version
  check_ranges year month day hour minute second

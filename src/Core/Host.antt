-- ===== src/Core/Host.antt =====
-- What core/ids.py and its callers take from Python's standard library as a parameter: SHA-256, the
-- reading of ISO dates, the comparison of floats, and the Unicode tables behind `str.casefold`,
-- `str.strip`, `str.upper`, `isspace`; and the validator of the package jsonschema that
-- core/tools.py calls.
use molly.Prelude.{ℕ, String, Bool, Option, List}
use molly.Core.Json.{Json}

-- A `datetime`: whether it names a time zone, and its microseconds in UTC, with `none` where UTC has
-- no year from 1 to 9999 for it.
pub record Moment : Type 0 where
  pub is_aware : Bool
  pub utc : Option ℕ

pub record Host : Type 0 where
  -- `hashlib.sha256(value).hexdigest()`
  pub sha256 : List ℕ → String
  -- `datetime.fromisoformat(text)`, with `none` for a `ValueError`
  pub from_iso : String → Option Moment
  -- `moment.isoformat(timespec="microseconds")` of a moment in UTC
  pub iso_text : ℕ → String
  -- `str(value)` of a value that is no text
  pub str_of : Json → String
  -- `int(value)` of a text or a float, with `none` for an error or a negative number
  pub int_of : Json → Option ℕ
  pub casefold : String → String
  pub strip : String → String
  pub upper : String → String
  pub is_space : ℕ → Bool
  -- `v == w` where one of the two is a float
  pub equal_float : Json → Json → Bool
  -- `Draft202012Validator.check_schema` and `Draft202012Validator(schema).validate`
  pub check_schema : Json → Bool
  pub conforms : Json → Json → Bool

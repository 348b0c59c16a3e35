-- ===== src/Serde/Version.antt =====
-- `SCHEMA_VERSION`, `schema_major`, `declared_schema_version` and `parse_artifact`.
use Prim.Native.String.{◌∷◌ as push}
use litharness_contracts.Prelude.{String, true, false, Option, none, some, [], if◌then◌else◌}
use litharness_contracts.Prelude.Int.{ℤ, int_eq}
use litharness_contracts.Outcome.{
  Result, ok, err, unparseable_version, no_schema_version, incompatible_version, value_error, ◌>>=◌,
}
use litharness_contracts.Json.{Json, lookup}
use litharness_contracts.Value.{Value}
use litharness_contracts.Types.{Ty}
use litharness_contracts.Runtime.{Runtime}
use litharness_contracts.Builtins.Print.{print_int}
use litharness_contracts.Builtins.Repr.{has_repr}
use litharness_contracts.Builtins.Parse.{before_dot, is_ascii, parse_ascii}
use litharness_contracts.Serde.Decode.{from_jsonable}

abbrev pub schema_version : String
schema_version = "1.2.0"

-- `int` raised `ValueError`, or not.
abbrev pub major_of : String → Option ℤ → Result ℤ
major_of version none = err (unparseable_version version)
major_of version (some n) = ok n

abbrev pub printed : Option String → Result String
printed none = err value_error
printed (some s) = ok s

module _ (rt : Runtime) where
  -- `int(s)`
  unfoldable pub int_of : String → Option ℤ
  int_of s = if is_ascii s then parse_ascii s else rt.int_of_text s

  unfoldable pub schema_major : String → Result ℤ
  schema_major version = major_of version (int_of (before_dot version))

  -- `str(data)`
  unfoldable pub str_of : Json → Result String
  unfolding has_repr
  str_of Json.null = ok "None"
  str_of (Json.bool true) = ok "True"
  str_of (Json.bool false) = ok "False"
  str_of (Json.int n) = printed (print_int n)
  str_of (Json.float x) = ok (rt.str_float x)
  str_of (Json.str s) = ok s
  str_of (Json.list xs) =
      if has_repr (Json.list xs) then ok (push "[" (rt.str_items xs)) else err value_error
  str_of (Json.dict m) =
      if has_repr (Json.dict m) then ok (push "{" (rt.str_entries m)) else err value_error

  abbrev pub version_or : Option Json → Result String → Result String
  version_or (some v) otherwise = str_of v
  version_or none otherwise = otherwise

  -- the version in the payload's `meta`, which comes first, else the one at the top level
  unfoldable pub meta_version : Option Json → Result String → Result String
  meta_version (some (Json.dict meta)) top = version_or (lookup "schema_version" meta) top
  meta_version _ top = top

  unfoldable pub declared_schema_version : Json → Result String
  unfolding meta_version
  declared_schema_version (Json.dict m) =
      meta_version (lookup "meta" m)
        (version_or (lookup "schema_version" m) (err no_schema_version))
  declared_schema_version _ = err no_schema_version

  unfoldable pub parse_artifact : Ty → Json → Result Value
  parse_artifact t x = do
    version ← declared_schema_version x
    major ← schema_major version
    library ← schema_major schema_version
    if int_eq major library then from_jsonable rt t [] x else err (incompatible_version version)

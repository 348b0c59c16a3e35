-- ===== src/Commands/Render.antt =====
-- `render_golden` (src/litharness_contracts/fixture_build.py) and `render_schema`
-- (src/litharness_contracts/_schema.py).
use Prim.Native.String.{◌++◌ as append}
use litharness_contracts.Prelude.{String, true, false, Option, none, some}
use litharness_contracts.Json.{Json, Float}
use litharness_contracts.Types.{Ty}
use litharness_contracts.Schema.Generate.{json_schema}
use litharness_contracts.Builtins.Dump.{dumps}

-- `text + "\n"`; none is the exception of `json.dumps`
abbrev pub with_newline : Option String → Option String
with_newline none = none
with_newline (some text) = some (append text "\n")

module _ (dump_float : Float → String) where
  unfoldable pub render_golden : Json → Option String
  unfolding dumps
  render_golden payload = with_newline (dumps false false dump_float payload)

  unfoldable pub dumped_schema : Option Json → Option String
  unfolding dumps
  dumped_schema none = none
  dumped_schema (some schema) = with_newline (dumps true true dump_float schema)

  unfoldable pub render_schema : Ty → String → Option String
  unfolding json_schema dumped_schema
  render_schema cls schema_id = dumped_schema (json_schema cls schema_id)

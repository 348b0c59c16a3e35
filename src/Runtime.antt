-- ===== src/Runtime.antt =====
-- The built-ins of Python whose result depends on floating-point numbers, on the digits of other
-- scripts or on how a container prints. They are parameters of the model.
use litharness_contracts.Prelude.{String, Option}
use litharness_contracts.Prelude.Int.{ℤ}
use litharness_contracts.Json.{Items, Entries, Float}

pub record Runtime : Type 0 where
  -- `float(n)` of an int; none is `OverflowError`
  pub float_of_int : ℤ → Option Float
  -- `str(x)` of a float
  pub str_float : Float → String
  -- `str(xs)` behind the opening bracket, and `str(m)` behind the opening brace, where they return
  pub str_items : Items → String
  pub str_entries : Entries → String
  -- `int(s)` of a text that is not ASCII; none is `ValueError`
  pub int_of_text : String → Option ℤ

-- ===== src/Lib.antt =====
-- The contracts package litharness-contracts (src/litharness_contracts/, tools/), as definitions
-- that run and theorems about them.
--
-- The program has four parts. Dataclasses and enums declare every contract type. A serializer that
-- is driven by their type hints writes objects to JSON data (`to_jsonable`) and decodes JSON data
-- (`from_jsonable`); `parse_artifact` does so behind a check of the declared schema version. A
-- schema generator walks the same types. A fixture builder assembles golden artifacts from prose
-- and annotations, and an accessor finds the built files.
-- Two commands write the artifacts and the schemas to files.
--
-- Prelude, Prelude/Tests, Prelude/Lists, Prelude/Int: shared names, tests on numbers and texts, and
--   Python's int. Builtins/Print, Parse and Decimal: `str` and `int` of whole numbers.
--   Builtins/Repr: when `repr` returns; Sorted: `sorted` of pairs by name; Dump: `json.dumps`, with Printable and Printed for
--   what is proved of it. Builtins/Lex and Load: `json.loads`, as tokens and as a reader that keeps
--   the lists and objects it stands in, one step for each token; Lexed, Pieces, Bracketed, Numbers,
--   Keys, Containers and Loaded hold what it reads of what `json.dumps` writes.
-- Json, Value, Types: JSON data, the Python objects that contracts are built from, and the types of
--   class fields as `typing` and `dataclasses` show them. A float is its 64 bits. Texts are lists
--   of code points. Keys of a dict are texts, as JSON data has them.
-- Outcome: the result of a call, with the exception raised. A path of the source is the text
--   `$.a[0]`; here it is the list of its segments, the last first.
-- Runtime: the built-ins whose result depends on floating-point numbers, on digits outside ASCII or
--   on how a container prints, as parameters.
-- Serde: src/litharness_contracts/_serde.py. Encode has `to_jsonable`, Decode `from_jsonable` with
--   one function for each branch, Version `schema_major`, `declared_schema_version` and
--   `parse_artifact`. Typing, Defaults, Lookup, RoundTrip, Sound, Compat, Faults and Gate hold what
--   is proved of them. Recursion is on the type or on the object, so there is no fuel; the digits
--   of a number n are printed with n + 1 rounds, one for each digit at most.
-- Contracts: the other files of src/litharness_contracts/, a module for each. An enum is its
--   members' names and values, a dataclass its fields with their types and defaults, in order; no
--   class holds itself, so a class is written out where it is used. Registry and Exports have the
--   tables of src/litharness_contracts/__init__.py, Registered and Artifacts what holds of the types
--   in them.
-- Schema: src/litharness_contracts/_schema.py. Generate has `json_schema` and the functions inside
--   it; the dict of definitions that they share is passed along. Validate says what the keywords of
--   a schema demand of JSON data, by the JSON Schema standard; references are followed to a depth
--   that is given, and the nesting of a type is enough for its schema. The other modules hold what
--   is proved. Recursion is on the type.
-- Fixture: src/litharness_contracts/fixture_build.py. Spec is what the builder reads of def.json and
--   of the scene files, Errors the exceptions and the comprehensions that may raise. Text and
--   Occurrences have Python's functions on texts; Builder the attributes, references and target
--   resolution, with uuid5 and SHA-256 as the parameters `Digests`; Spans the evidence spans;
--   Manuscript, Plans, States, Findings, Contexts and Impacts the method of each artifact, Parts what
--   these share, and Build `build` and `build_fixture`. Bounds, Total, Typed, Cited, Buildable,
--   Resolved, Meta and Whole hold what is proved of them. Accessor is src/litharness_contracts/fixtures/__init__.py,
--   and Wheel is tools/check_wheel_fixtures.py.
-- Commands: Render has `render_golden` and `render_schema`, Files the files that a command writes
--   and the lines that it prints, Each the loop that both commands run. Fixtures is
--   tools/build_fixtures.py and Schemas tools/generate_schemas.py; a run that raises keeps what it has
--   written. Named, Rebuild, Shipped, Reload, Left and Ascii hold what is proved of them. The text
--   of JSON data is that of `json.dumps` with an indentation of two, Builtins/Dump; how a float prints
--   is a parameter, and so is what float a text denotes.
-- Tests: runs on concrete data, and the theorems at inputs that meet their hypotheses.
--
-- Not modelled: reading the sources of a book (def.json and the scene files are given as data), writes
-- that fail and the making of directories, surrogates without their other half in a text, the SHA-256
-- and UUIDv5 functions (parameters where they are used), and the test suite.
pub mod Prelude
pub mod Outcome
pub mod Json
pub mod Value
pub mod Types
pub mod Runtime
pub mod Contracts
pub mod Builtins
pub mod Serde
pub mod Schema
pub mod Fixture
pub mod Commands
mod Tests

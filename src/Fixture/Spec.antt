-- ===== src/Fixture/Spec.antt =====
-- What the fixture builder reads of def.json, and the texts of the scene files. A key that
-- `dict.get` reads is an `Option`; the data has the JSON types that the builder's arguments ask for.
use litharness_contracts.Prelude.{String, Option, List}
use litharness_contracts.Prelude.Int.{ℤ}
use litharness_contracts.Json.{Json, Entries}

-- One scene of def.json, with the text of its file.
pub record Scene : Type 0 where
  pub id : String
  pub title : String
  pub file_text : String

-- `{"scene": ..., "quote": ...}`
pub record Citation : Type 0 where
  pub scene : String
  pub quote : String

pub record PlanSpec : Type 0 where
  pub id : String
  pub kind : String
  pub text : String
  pub authority : String
  pub locked : Option Json

pub record StateSpec : Type 0 where
  pub id : String
  pub kind : String
  pub subject : String
  pub predicate : String
  pub value : Option Json
  pub position : String
  pub authority : String
  pub pov_visibility : List String
  pub evidence : List Citation
  pub note : Option String

pub record FindingSpec : Type 0 where
  pub id : String
  pub category : String
  pub status : String
  pub severity : String
  pub message : String
  pub subtype : Option String
  pub primary : Citation
  pub supporting : List Citation
  pub rule_id : Option String
  pub claim : Entries
  pub dependencies : List String

pub record TargetSpec : Type 0 where
  pub reason : String
  pub scene : Option String
  pub quote : Option String
  pub state_record : Option String
  pub plan : Option String

pub record QuerySpec : Type 0 where
  pub id : String
  pub operation : String
  pub target : String
  pub token_budget : ℤ
  pub pov : Option String
  pub intent : Option String
  pub mandatory : List TargetSpec
  pub forbidden : List TargetSpec
  pub notes : Option String

pub record OperationSpec : Type 0 where
  pub kind : String
  pub scene : Option String
  pub quote : Option String
  pub anchor_quote : Option String
  pub new_text : Option String
  pub entity : Option String
  pub detail : Entries

pub record ChangeSpec : Type 0 where
  pub kind : String
  pub subject : Option String
  pub predicate : Option String
  pub before : Option Json
  pub after : Option Json

pub record ExpectationSpec : Type 0 where
  pub target : String
  pub label : String
  pub note : Option String

pub record ScenarioSpec : Type 0 where
  pub id : String
  pub description : String
  pub operations : List OperationSpec
  pub extracted_changes : List ChangeSpec
  pub declared_intent : Option String
  pub expected : List ExpectationSpec

pub record Spec : Type 0 where
  pub fixture_id : String
  pub book_title : String
  pub scenes : List Scene
  pub plans : List PlanSpec
  pub state_records : List StateSpec
  pub gold_findings : List FindingSpec
  pub derived_nodes : List String
  pub context_gold : List QuerySpec
  pub impact_gold : List ScenarioSpec

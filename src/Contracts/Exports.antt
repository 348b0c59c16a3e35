-- ===== src/Contracts/Exports.antt =====
-- The package's public names, `__all__` of src/litharness_contracts/__init__.py: the classes that the
-- registered types are built from are among them.
use litharness_contracts.Prelude.{
  find, String, ◌≡◌, refl, Bool, true, some, List, [], ◌∷◌, ◌++◌, &&-true, all, contains, str_eq,
  eq_iff, Bool-cases, inl, inr, subst,
}
use litharness_contracts.Types.{Ty, Types, Fields, enum, dataclass, union, field}
use litharness_contracts.Contracts.Registry.{all_schema_types}
use litharness_contracts.Contracts.Registered.{all-find}

abbrev pub exported : List String
exported =
    "ApprovalMode" ∷ "ArtifactMeta" ∷ "BlockKind" ∷ "BoundedPatch" ∷ "CandidateStatus"
    ∷ "ChangeActor" ∷ "ChangeOpKind" ∷ "ChangeOperation" ∷ "ChangeSet" ∷ "ConfidenceBasis"
    ∷ "ContextItem" ∷ "ContextItemKind" ∷ "ContextOperation" ∷ "ContextPacket" ∷ "ContextQuery"
    ∷ "ContractError" ∷ "CriticSpec" ∷ "DetectorSpec" ∷ "DigestEntry" ∷ "Directive"
    ∷ "DirectiveKind" ∷ "DirectiveStatus" ∷ "EvaluationArtifact" ∷ "EvaluationError"
    ∷ "EvaluationPlan" ∷ "EventEnvelope" ∷ "EventType" ∷ "EvidenceSpan" ∷ "ExceptionKind"
    ∷ "ExceptionRecord" ∷ "ExceptionStatus" ∷ "ExportFile" ∷ "ExportFormat" ∷ "ExportManifest"
    ∷ "ExtractedChange" ∷ "ExtractedChangeKind" ∷ "Finding" ∷ "FindingCategory" ∷ "FindingScope"
    ∷ "FindingStatus" ∷ "GateKind" ∷ "GateResult" ∷ "GenerationCandidate" ∷ "GenerationKind"
    ∷ "GenerationParams" ∷ "GenerationRequest" ∷ "GenerationStatus" ∷ "GoldContextCase"
    ∷ "GoldContextSuite" ∷ "GoldContextTarget" ∷ "GoldImpactCase" ∷ "GoldImpactExpectation"
    ∷ "GoldImpactSuite" ∷ "ImpactClass" ∷ "ImpactItem" ∷ "ImpactLabel" ∷ "ImpactPathEdge"
    ∷ "ImpactReport" ∷ "IncompatibleSchemaVersion" ∷ "InputRef" ∷ "JobRecord" ∷ "JobStatus"
    ∷ "LockKind" ∷ "ManuscriptNode" ∷ "ManuscriptRevision" ∷ "ModelIdentifier" ∷ "NodeKind"
    ∷ "PacketSection" ∷ "PatchOp" ∷ "PatchOpKind" ∷ "PlanAuthority" ∷ "PlanItem" ∷ "PlanKind"
    ∷ "PlanSnapshot" ∷ "PolicyDecisionRecord" ∷ "PolicyOutcome" ∷ "RejectedCandidate"
    ∷ "Reproduction" ∷ "ResourceKind" ∷ "ResourceRef" ∷ "RevisionPlan" ∷ "RevisionStep"
    ∷ "RunManifest" ∷ "SCHEMA_VERSION" ∷ "Severity" ∷ "StateAuthority" ∷ "StateCandidate"
    ∷ "StateCandidateBatch" ∷ "StateRecord" ∷ "StateRecordKind" ∷ "StateSnapshot" ∷ "StepAction"
    ∷ "StoryPosition" ∷ "SuggestedAction" ∷ "TokenBudget" ∷ "TokenUsage" ∷ "ToolIdentity"
    ∷ "ValidationOutcome" ∷ "VerdictSource" ∷ "declared_schema_version" ∷ "from_jsonable"
    ∷ "parse_artifact" ∷ "schema_major" ∷ "to_jsonable" ∷ []

-- The names of the classes and enums that a type is built from.
unfoldable mutual
  pub class_names : Ty → List String
  class_names (Ty.list t) = class_names t
  class_names (Ty.dict k t) = class_names t
  class_names (union ts) = class_names_of ts
  class_names (enum e) = e.name ∷ []
  class_names (dataclass c fs) = c ∷ field_class_names fs
  class_names _ = []

  pub class_names_of : Types → List String
  class_names_of Types.nil = []
  class_names_of (Types.cons t ts) = class_names t ++ class_names_of ts

  pub field_class_names : Fields → List String
  field_class_names Fields.end = []
  field_class_names (field n t d fs) = class_names t ++ field_class_names fs

abbrev are_exported : Ty → Bool
are_exported t = all (λ c. contains c exported) (class_names t)

registered_exported : all (λ p. are_exported p.1) all_schema_types ≡ true
unfolding class_names
registered_exported = refl

all-contains :
    (test : String → Bool) (c : String) (l : List String)
    → all test l ≡ true
    → contains c l ≡ true
    → test c ≡ true
all-contains test c [] h k = cc
all-contains test c (d ∷ l) h k =
    let (hd, hl) = &&-true (test d) (all test l) h in
    elim (Bool-cases (str_eq d c)) [
      | inl same ↦ subst (λ s. test s ≡ true) ((eq_iff d c).0 same) hd
      | inr other ↦ all-contains test c l hl (rw other at k)
    ]

-- Every class and every enum from which a registered contract type is built, at any depth, is among
-- the names that the package exports.
pub classes_exported :
    (n c : String) (t : Ty)
    → find n all_schema_types ≡ some t
    → contains c (class_names t) ≡ true
    → contains c exported ≡ true
classes_exported n c t registered among =
    all-contains (λ s. contains s exported) c (class_names t)
      (all-find are_exported n all_schema_types t registered_exported registered) among

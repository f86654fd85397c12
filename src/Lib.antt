-- ===== src/Lib.antt =====
-- The promotion core of dotmac_observability: the executor that puts a rendered observability
-- control plane on a host, the six-condition verification that decides whether it stays, and the
-- receipt that records what was measured.
--
-- The parts, and the files that model them (paths from the repository's root):
--   Model         src/dotmac_observability/model.py: every record of the typed contract, field by field.
--   Finding       the finding of src/dotmac_observability/validate.py: its code and its location. The
--                 message, which is prose, is left out. The codes are an enumeration, one constructor
--                 for each code that the modelled functions report.
--   LiveVerify    src/dotmac_observability/live_verify.py: the read-back's records (Records), what is
--                 derived from the desired state (Derive), one module per condition (Tree, Targets,
--                 Integrity, Delivery, Probes, Rollback) and `verify` (Verify). Under each condition a
--                 child module states what its findings mean, and Repaired puts the six together.
--   Receipt       src/dotmac_observability/receipt.py: `build_receipt` as a record, with an `Option`
--                 where the JSON document may lack a block; Receipt.Checks is `receipt_findings`.
--   Promote       src/dotmac_observability/promote.py: the facility's interface and the records
--                 (Records), `_preconditions` (Preconditions), `_stop` (Stop), the stages (Run), and
--                 what they guarantee (Admission, Stop.Settles, Run.Ends, Run.Steps, Ending). Journal
--                 wraps any facility so that the calls made on it can be read afterwards.
--   Drift         src/dotmac_observability/drift.py: the comparison of the three artifacts.
--   Ingestion     src/dotmac_observability/ingestion.py: `compare_rebuild` only.
--   Resolve       src/dotmac_observability/validate.py: `resolution_findings` (Endpoints for jobs,
--                 datasources and federations, Receivers, SourceSets, Findings) and `resolve` (Join);
--                 Loops and Total are about its lookups and what it stores (Filled),
--                 Verified and Promoted about what `verify` and `promote` may raise after it.
--   Supersede     src/dotmac_observability/validate.py: `supersede_findings` and `supersede_summary`,
--                 sequences of supersessions (Succession), `apply_supersession` (Retire) and
--                 `migration_findings` (Migration).
--   Semantic      src/dotmac_observability/validate.py: the public findings on scrape targets and listen
--                 addresses (Semantic, Named), on receivers and routes (Routing, Routed), and on retired
--                 products (Decommissioned).
--   Yaml          src/dotmac_observability/yaml_emit.py: the scalars (Yaml), the emitter (Emit), a reader
--                 of scalars (Quoted, Decimal, Reader, Resolved) and the emitted lines (OneLine, Lines). The
--                 reader is not of the repository: it takes less than YAML does.
--   Attribution   src/dotmac_observability/attribution.py: verdicts (Attribution, Verdicts), the redaction
--                 vault (Vault), the public envelope (Project, Clean, Private) and the parsing of a
--                 connection string (Dsn).
--   Enumerator    src/dotmac_observability/attribution_enumerators.py: the host source, the budget, the
--                 ledger and the calls `_read`, `_list`, `_run` and `_outcome` (Enumerator), what one
--                 call does (Bounds) and what any sequence of them does (Walks).
--   Result, Platform, Prelude   exceptions as values, what is taken from Python's library, and the
--                 shared lists, dictionaries, tests and lemmas. Samples holds inputs, runs and examples.
--
-- How they interact: `promote` calls the facility, a record of eight methods that take a world of
-- any type and give it back changed, each of which may raise. It hands what `rehearse` and
-- `observe` read back to `verify`, and every end but a refusal goes through `build_receipt`. An
-- exception is the `raised` of a Result; each stage of `promote` is a function of what the method
-- before it gave, so that the `try` of the source is the `raised` clause of those functions. What a
-- facility raises is taken for an `Exception`; an interrupt, which is none, is modelled for the
-- host source only. A dictionary is a list of pairs in insertion order, and a set that is only
-- tested or sorted is a list.
--
-- Bounds: Python's integers are unbounded, and so are the numbers here; counters and counts are
-- natural numbers, as the JSON contracts demand. A difference of dates is an integer. All loops are
-- structural but for `str` of an integer, whose fuel is the number plus one: each round drops a
-- digit. The start time of a process is a float that is compared for equality only: a number stands
-- for it. Characters are tested as ASCII where the source uses the classes of `re` or
-- `str.capitalize`.
--
-- Not modelled: the renderer, which is an argument of `promote` that may raise; `hashlib.sha256`
-- and `datetime.fromisoformat`, which are fields of Platform without laws; the JSON schemas and the
-- private-material detector of validate.py, which are arguments of `receipt_findings`; reading and
-- writing files; the command line; the GitHub runner scripts; the message texts. The eleven
-- families of the attribution enumerators are not modelled, only what they call. The ingestion
-- classifier and the semantic findings of validate.py on the bundle and on ingestion have their
-- records in Model only.
pub mod Prelude
pub mod Model
pub mod Finding
pub mod Result
pub mod Platform
pub mod LiveVerify
pub mod Receipt
pub mod Promote
pub mod Drift
pub mod Ingestion
pub mod Resolve
pub mod Semantic
pub mod Supersede
pub mod Yaml
pub mod Attribution
pub mod Enumerator
pub mod Samples

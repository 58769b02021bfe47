-- ===== src/Lib.antt =====
-- The FireViewer AI worker runs a batch of media items through four model stages: transcription,
-- fire detection, visual grounding and multimodal extraction. A stage is gated by its contract,
-- executes the candidate models of its group one after the other, compares their answers, asks a
-- judge where they contradict each other, and hands the selected results to the next stage. Beside
-- it, a broker gives the sandboxed research model its only way to the network, an audit lists the
-- heavy local artifacts, and a pod shows its state while it boots. This library models the session
-- and the parts it is made of, the broker, the audit and the boot status, all under
-- src/firewarning_worker/.
--
-- The parts and their files:
--   Common         lists, dicts, texts, exceptions as values, JSON, and the operations of float
--   Contracts      contracts.py: the messages of a batch (Contracts), their validators
--                  (Contracts/Validators), and the audit records of a session with their validators
--                  (Contracts/Trace)
--   Stage          stage_contracts.py: roles, capabilities and the contract of a stage;
--                  stage_gates.py: derive_capabilities and the requirements (Stage/Capabilities),
--                  StageGateEngine.preflight and postflight (Stage/Gates)
--   Registry       model_registry.py: ModelSpec, ModelCandidateSpec, ModelGroupSpec and validate
--   Consensus      consensus.py: apply_adjudication (Consensus), the similarities (Text and
--                  Similarity), candidate_requires_challenge (Challenge), and evaluate_consensus by
--                  strategy (Evaluate and Quorum)
--   Validation     validation.py: validate_forbidden_output, validate_evidence_links (Links) and
--                  validate_item_result
--   Session        session_runner.py: _initial_result (Initial), _merge and _validated_candidates
--                  (Merge), _execute_candidate (Candidate), _execute_adjudicator (Judge), __init__
--                  (State), and _run_with_trace with its loop (Stage and Run)
--   Broker         research_broker.py: BrokerPolicy and _policy (Policy), _guard_url and _request
--                  (Guard), _LinkParser (Links), search, inspect and _fetch_public_content (Fetch),
--                  fetch_transient_media and materialize_transient_file (Media), _upload and fetch
--                  (Upload), configure, revoke and handle (Server); what they guarantee (Laws)
--   Retention      artifact_retention.py: _consumers and _classify (Retention), audit_artifacts and
--                  audit_manifest (Audit)
--   Bootstrap      bootstrap_status.py: BootstrapStatus, its payload, and do_GET
--   Report         v2_runner.py: _fact_proposals (Facts) and _report (Draft), with the limits and validators
--                  of ReportSectionV2 and SituationReportDraftV2 (Validators); what the report shows (Laws,
--                  Outline) and which facts it can be given (Known)
--   Tests          a small job, a small broker, and each theorem at concrete values
--
-- How state is modelled. The local variables of _run_with_trace are the record SessionState, which
-- each stage takes and returns. A call that reaches outside is a function from the trace of events
-- so far to its value or exception and the longer trace (Session/Effects), so what was done before a
-- raise is kept. Creating, loading, calling and releasing a model, and the end of the job, are events.
-- The adapters, the judges, the clock, the digest of JSON, the Unicode functions, difflib and the
-- regular expression for speculative language are parameters: records of functions, of which only
-- what a theorem names is assumed. A factory may answer by the trace, so by what happened before.
-- Python's float is a type R with an instance of its operations (Common/Float), and no law of them is
-- assumed. A dict is an association list in insertion order, and a missing key is a KeyError.
--
-- A call of the broker is a function from the outside, which is the events of the network and the
-- files, to its value or exception and the outside as it stands then (Common/Calls). The sessions are
-- passed to `handle` and returned by it; messages are served one after the other, so that the lock of
-- the broker has no counterpart, and a session that is closed does not stop an action that runs. What
-- urllib, html.parser, hashlib, getaddrinfo, httpx, the blob store and Python's conversions of JSON
-- values do are the records TextLibrary, Network and Values. A stream is its chunks and what reading
-- on raises behind them. The files that an audit walks over, and the texts that may name them, are
-- arguments.
--
-- Every loop of the source runs over a list and is a structural recursion here: there is no fuel.
-- Numbers are natural and unbounded, as Python's integers are; durations are never negative.
--
-- Not modelled: the clock stamps of the records, the digest of the contracts, the field limits that
-- pydantic declares on single fields, except those of the report, the URL checks of validation.py,
-- the loading of contracts and models from files, the socket server of the broker and its time
-- stamps, the redaction patterns of the boot status, the reading of the reference index and the
-- remote catalog, and the other parts of the worker: the rest of the V2 runner, the research agent,
-- the event and spatial pipelines, the rest of the service shell, the model implementations,
-- training and tools. Times of a report are their texts in ISO format; sha256, re.sub and casefold
-- are the record FactLibrary.
pub mod Common
pub mod Contracts
pub mod Stage
pub mod Registry
pub mod Consensus
pub mod Validation
pub mod Session
pub mod Tests
pub mod Broker
pub mod Retention
pub mod Bootstrap
pub mod Report

-- ===== src/Lib.antt =====
-- A verification library for knowbalance, a multi-agent learning system in TypeScript.
--
-- A main agent leads a learner through eight workers: background, self assessment, diagnosis,
-- profile, path, lesson, lab and evaluation. It keeps a trace and a memory of the learner. The
-- content side generates lessons and forms, estimates mastery from graded evidence and chooses the
-- next action; the profile side audits the content and updates the learner's profile.
--
-- Which file models what (paths from the repository's root):
--   Orchestration/States: src/orchestration/state-machine.ts, the workflow as a function on states
--     and events; States/Laws has its arrows as a relation.
--   Orchestration/Types: src/orchestration/types.ts and the types of learner-memory.ts.
--   Orchestration/Contract: src/orchestration/worker-contract.ts, a list of errors by check.
--   Orchestration/Memory: src/orchestration/learner-memory.ts; the files are a map from paths to
--     texts, and JSON and path.join are a parameter, the record `Disk`.
--   Orchestration/Runner, Runner/Steps: src/orchestration/learning-orchestrator-runner.ts, whose
--     local variables are the record `Run`; a `return finish()` in the loop is `stop`, and an
--     exception of the adapter, which nothing catches, is `raise`. Runner/Exits, Invariant,
--     Endings, Outcome and Progress hold its proofs. createTraceLedger of trace-ledger.ts is here.
--   Orchestration/Adapters: the scaffold adapter of src/orchestration/worker-adapters.ts.
--   Orchestration/Planning: src/orchestration/dynamic-planning-orchestrator.ts.
--   Orchestration/Session: src/orchestration/interactive-session.ts, the record of a session and its
--     types. Below it: Input, the checks of commands and answers; Services, the calls of other parts
--     and the events; Rounds, the generation of a round; Diagnosis, the creation; Evidence and
--     FirstRound, continueAfterDiagnosis; Assessment, continueAfterAssessment and
--     continueAfterAnchorAnswers; Commands, the store, the retry and executeCommand; Background,
--     generateNextRoundInBackground in its two parts. Consistency, Continued, Assessed, Executed,
--     Stored, Reachable and Replay hold the proofs.
--   Content/Pipeline: src/role-c-content/orchestrator/state-machine.ts.
--   Content/Policy: src/role-c-content/mastery/next-action-policy.ts.
--   Content/Mastery, Mastery/Update, Mastery/Drift: src/role-c-content/mastery/beta-mastery.ts, the
--     store with its compare-and-swap, the update from evidence batches, the profile drift.
--   Content/Routing: src/role-c-content/grading/assessment-routing.ts.
--   Content/Grading: src/role-c-content/grading/grade-submission.ts, the data of grading. Below it:
--     Rubric, gradeRubric; Decide, gradeOne and executeWithRunnerRetry of security/code-runner.ts;
--     Score, gradeSubmission after its boundary checks. Laws and Judged hold the proofs.
--   Content/Checkpoint: src/role-c-content/reliability/checkpoint-store.ts.
--   Teaching/Arbitration, Progress, Recovery: arbitrator.ts, progress-receiver.ts and
--     path-planner.ts of src/role-b-profile/teaching-audit.
--   Teaching/Paths, Paths/Build: formal-path.ts of src/role-b-profile/teaching-audit; Paths/Laws and
--     Build/Fuel, Closure and Laws hold the proofs.
--   Prelude: lists, sets, maps, sorting, text and numbers. Examples: runs on concrete inputs;
--     Examples/Codec has a text form of memories for them, in the place of JSON.
--
-- The runner calls the state machine, the contract, the memory and the adapters; the mastery update
-- calls the policy and the store; routing, checkpoints and grading stand by
-- themselves. A session calls the worker contract and the formal paths, and starts the background
-- generation, whose two parts are steps between which other steps of the store can come.
--
-- A function that awaits is a function; a thrown error is a value of the result type, with its
-- message. A JavaScript number that is not an index is a value of the interface `Number`;
-- `IsOrder` has the laws of IEEE comparisons on it, and `millionths` is an instance. A Map is an
-- association list in insertion order. Parameters stand for the clock, adapters, the size of a
-- result, schema validation, hashing, canonical concepts, `localeCompare`, and text functions of
-- the language, the code runner and the rubric judge. Revisions and counts are natural numbers. The
-- loops recur on their lists; the fuel of `show_nat` is n + 1, which is at least the number of digits
-- of n; that of `collect_prerequisites` is one more than the items of the goal and of the knowledge
-- base, which is enough, since an item enters the queue when it is first visited; and that of the
-- attempts of an execution is the number of its retries.
--
-- Not modelled: file and network access, language models, prompts, JSON schemas, sandboxed code, the
-- user interface, the deterministic adapters, the boundary checks of a submission, the final grade
-- artifact, the learning-cycle services with their durable stores, the teaching audit, the canonical
-- concepts and the curriculum; a code runner that throws; source ids named `__proto__`, which a plain
-- object does not store; of the sessions the file lock, the migration of old files and
-- generateRoundArtifacts, which nothing calls.
pub mod Prelude
pub mod Orchestration
pub mod Content
pub mod Teaching
pub mod Examples

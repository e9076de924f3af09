-- ===== src/Lib.antt =====
-- The KYC agent: a pipeline that takes a customer's package of documents to a decision. LLM services
-- classify and read the documents; rules, registries and a decision matrix then approve or reject
-- the case, or hand it to a human reviewer. An HTTP interface submits cases and answers for them.
--
-- The parts, and the files that model them (paths from the repository's root):
--   Schemas/*           src/kyc_agent/schemas/*.py and src/kyc_agent/rules/ids.py: records and
--                       enumerations, with the program's words for fields and members
--   Rules/Risk          src/kyc_agent/rules/risk.py: evaluate_risk_rules, risk_level, decide_gate;
--                       Codes, Triggers and Gate hold what is shown of them
--   Rules/Validation    src/kyc_agent/rules/validation.py: the single checks, and in Run the pass
--                       run_validation_rules over all documents
--   Llm                 src/kyc_agent/llm/base.py (the service interfaces) and resilience.py
--                       (run_resilient: bounded retries, then one fallback)
--   Llm/Live, Llm/Fake  src/kyc_agent/llm/live.py and fake.py: the services on a chat model, and the
--                       deterministic ones
--   Llm/Contract        what the nodes rely on in the services, and that both kinds give it; Typed and
--                       TypedFake hold an extraction against the schema of its type
--   Llm/Factory         src/kyc_agent/llm/factory.py: which service each step gets
--   Audit/Sink          src/kyc_agent/audit/sink.py: events, the in-memory and the safe sink
--   Graph/State         src/kyc_agent/graph/state.py: the state and the reducers that merge updates
--   Graph/Context       src/kyc_agent/graph/context.py and the settings of config.py it carries;
--                       Graph/Assembly has build_context
--   Graph/Confidence, Graph/Screening, Graph/Nodes/*
--                       src/kyc_agent/graph/nodes.py: one function run_<node> for each node, with
--                       every call of a service, a registry or the audit sink in its order
--   Tools/Registries    src/kyc_agent/tools/registries.py: the mock registry client, its lists, its
--                       search and the order of the hits; Graph uses any registry in its place
--   Graph/Builder       src/kyc_agent/graph/builder.py: the edges, as a step relation on
--                       configurations; Invariant, Steps, Closing, Safety and Approval follow all its
--                       paths, Routes and Progress where they lead; Sound is about exceptions,
--                       Limit about the number of steps, and Lifecycle has a specification of a
--                       case's status and decision, which the graph refines
--   Graph/Trail         the audit trail that a case leaves: Grows and Assess have what each node does to
--                       it, Events, Tells and Ends what it holds of a decision, Appends and Complete
--                       follow it along the paths of Graph/Builder
--   Persistence/Db      src/kyc_agent/persistence/db.py: PostgresAuditSink and setup_postgres; Table
--                       has the rows and what PostgreSQL documents of the statements, Order the
--                       ORDER BY, Trail one write and one reading, Refines their sequences
--   Api/Application     src/kyc_agent/api/main.py: lifespan and health
--   Api/Service, Api/Events
--                       src/kyc_agent/api/service.py (status, review, is_finished, the task table),
--                       schemas.py, and of main.py submit_case, the status codes and the routes for
--                       audit events
--   Eval                eval/run_eval.py: the row of a case, the metrics and the exit code
--   Eval/Golden         eval/generate_golden_set.py: the texts of the documents and the cases, in
--                       Individuals, Escalations and Businesses; Cases has the gate on them, Routed
--                       the documents before the router of Llm/Fake
--   Effects, Python, Prelude
--                       code that calls the outside world, Python's own library, shared helpers
--   Samples, Tests      concrete inputs, and the theorems applied to them
--
-- How the model is built:
--   A call of a model, a registry or the audit sink is a function W → Outcome A × W, where W stands
--   for all that is outside, and may answer or raise as it likes at each call. A node is a function
--   W → Result A × W; `crash` is an exception that no handler in the node takes. The theorems hold
--   for every W and every such function, unless a hypothesis says more.
--   What the program calls of Python's library (casefold, SequenceMatcher, repr, float, number
--   formats, ISO dates) is the record Python.Python, a parameter, and the regular expressions of the
--   deterministic services are the record Python.Patterns. A Date is a date that Python has too.
--   A chat model with its structured outputs is the record Llm.Live.ChatModel, init_chat_model a
--   function that answers with one or raises, and the next number of a random generator a call.
--   The checkpointer is what it has for a case: a configuration of the graph, or nothing yet.
--   A connection pool with its saver is the record Persistence.Db.Pool; what PostgreSQL documents of
--   the statements that the code executes is the record Persistence.Db.Table.IsPostgres, and JSON a
--   pair of functions. An INSERT that raises may have added its row or not.
--   The time of an event is what the clock of the context answers when a node emits the event.
--   A score is a whole number of millionths, an amount a whole number of millionths of a euro.
--   overall_confidence subtracts with a stop at 0, where the program lets max(0.0, …) do that.
--   A case runs as LangGraph documents it: a node's update is merged by the reducers, an edge or the
--   Command says what is next, the workers of a fan-out run in any order and their updates are
--   merged in the order of the Sends, and a resumed review starts its node again with all values so
--   far. One worker is one step. No fuel is used: each loop is a recursion on a list or a number.
--   Supersteps are counted in Graph/Builder/Limit, where the default recursion limit is 25.
--   A field of an extraction is a text or a list of owners, as both extractors fill it.
--
-- Not modelled: src/kyc_agent/observability (the set-up of a logging library), the web framework and
-- the checkpointer that src/kyc_agent/api/main.py puts the application together with, the cache of
-- chat models, the command line, reading, writing and printing in eval/*.py, log lines and the times
-- of decisions.
pub mod Api
pub mod Persistence
pub mod Prelude
pub mod Python
pub mod Schemas
pub mod Rules
pub mod Effects
pub mod Llm
pub mod Audit
pub mod Graph
pub mod Tools
pub mod Samples
pub mod Eval
pub mod Tests

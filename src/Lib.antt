-- ===== src/Lib.antt =====
-- git-ci runs the pipelines of GitHub Actions, GitLab CI and other providers on one's own machine. A
-- server keeps projects, runs, jobs and steps in an SQLite database (internal/store). Workers claim
-- queued runs and execute their jobs (internal/execution): a job runs when its dependencies and its
-- conditions allow it, is tried again by its retry policy, and holds leases on what it shares. The
-- conditions are written in the expression language of internal/executionsemantics.
--
-- The parts, and the files that model them:
--
-- Condition: internal/executionsemantics/condition.go, a compiler from text to a tree and an evaluator.
--   Tokens and Lexer are conditionLexer (scan, string, number, regex, identifier, consume); Values has
--   truthy, numericValue, equalValues, compareValues and validateFunction; Regex has
--   compileConditionRegex; Parser is conditionParser, a function for each method; Evaluate has the
--   evaluate methods of the nodes, normalizeCondition, CompileCondition and EvaluateCondition. Text is
--   a list of code points, with the character classes of ASCII. Floating-point numbers and regular
--   expressions are the record Values.Host, a parameter, with a concrete one in SampleHost. The parser
--   spends a unit of fuel on each call and gets eight for each token and eight more: between two tokens
--   it makes no more than eight nested calls. Running out of fuel, and an index out of range, are
--   errors of the model. Grammar and its children state the language independently of the parser.
-- Store: internal/store. Status has the lifecycle states, canTransition and isTerminalStatus. Row has
--   what each operation writes to the row of a run: TransitionRun as a read and a later
--   compare-and-swap write, ClaimNextQueuedRun, RequestRunCancellation, PauseJob, ResumeJob,
--   RecoverExpiredRunWorkers, failInterruptedRun and MarkInterruptedRunningRunsFailed. WaitRow has
--   those of internal/store/manual_jobs.go (PauseManualJob, playManualJobOnce) and of
--   internal/store/child_pipelines.go (insertChildPipelineLink, ReconcileCompletedChildPipelines);
--   these are all statements that update the table of runs. History puts
--   them together: a system is a row and the calls that have read but not yet written, and a list of
--   events is an interleaving. Queue is the order in which ClaimNextQueuedRun takes runs. Lease is
--   internal/store/execution_concurrency.go, from the validation of a request to the upsert, with the
--   triggers of internal/store/migrations/0010_execution_concurrency.sql, and to the later statement
--   that reads the lease back. Whether a run exists and a job belongs to it are arguments.
--   A transaction is one event. Times of a row are milliseconds, those of a lease request nanoseconds.
-- Execution: internal/execution. Retry is retry.go on the attempts that internal/store/job_attempts.go
--   keeps; executeJob is a function from the number of an attempt to what it gives, over which the
--   theorems range. There is fuel for three rounds, since a
--   retry comes only after an attempt whose number is two at most. Dependency is dependencyState and
--   dependenciesSatisfied, JobRow its rows, and Decision is evaluateJobExecution, both of manager.go, with
--   evaluateConditionContract, usesStatusFunction, the rules, the ref
--   selectors and resolvePlayedManualJob, on the model of the condition language.
-- Schedule: internal/scheduler/cron.go. Words has the functions of strings and strconv that it calls,
--   Field has parseField and parseNumber, with the 64 bits of the counter, and Cron has Parse, matches
--   and Next. A time is a number of minutes; the calendar and the limit of five years are parameters.
--   Reading is the text of an item, read independently of the parser, and FieldMeaning says the values
--   of a field by it. The fuel of Next is the number of minutes to the limit, that of a field exceeds its last value.
-- Matrix: internal/executionsemantics/matrix.go. Coordinates has the values and the coordinates of a
--   matrix, Cartesian has cartesianValues, expandGitHubMatrix and expandGitLabMatrix, and Expand has
--   ExpandMatrix. strconv.Quote is a parameter; a floating-point value stands as strconv prints it.
-- Trigger: internal/triggerpolicy/policy.go. Glob has globMatch and the filters on it, where the regular
--   expression that globMatch builds is a list of atoms, and GlobLaws says what a pattern stands for; Policy has Match, NeedsChangedPaths and what
--   they call, and Inputs has ResolveManualInputs.
-- Command: internal/execution/workflow_command.go, the commands that a step writes to its log. Masks has
--   addMaskLocked and redactLocked, Decode the parser of commands, Marker that of GitLab's section
--   markers, Process the sections and the annotations, and Run is process, on the State of a job. Effect
--   is what one line can do, as a step relation, from which Bounds, Tally, Trace and Privacy reason. Encode and
--   RoundTrip have the encoding that the GitHub toolkit documents. A call of process is one step, since
--   it holds the mutex. Positions are numbers as strconv.Atoi reads them.
-- Files: the files by which a step hands values on. Lines reads a file (runtimeFileLines and what
--   os.Lstat and os.ReadFile say, an argument); Commands is the loop that parseGitHubEnvironmentFile of
--   internal/execution/runtime_command_files.go and parseGitHubOutput of
--   internal/execution/output_command.go share, with their differences in a record; Environment has
--   these two, parseGitHubPathFile, and parseGitLabDotenv of internal/execution/dotenv.go.
-- Order: internal/handlers/toposort.go. Kahn is the loop of topologicalSort, Local that function, and
--   Levels is groupByDependencyLevel. The orders in which Go takes the entries of a map are parameters,
--   one for each loop. The fuel is one round for each job, and the theorems show that it is enough.
--   Discovered is deterministicTopologicalOrder of internal/execution/discovery.go, which has the same
--   loop with another place for a job that becomes free: the place is a parameter of Kahn. The names in
--   its message of a cycle (findDependencyCycle) are left out. Graphs are stated by counting: Count,
--   Settle, KahnGraph, KahnLoop and KahnLaws know nothing of maps and serve all three functions.
--
-- Common has what these share: tests on numbers, lists, text, integers, and results with errors.
--
-- Not modelled: the writes of the store to jobs, steps, waits and deployments in the same transactions,
-- and the values that buildConditionContext collects, which are an argument; the parsers of provider
-- files, the runners, the HTTP and web interfaces, authentication, secrets and the commands, which are
-- input and output around libraries. Texts outside ASCII are outside the model.
pub mod Common
pub mod Condition
pub mod Store
pub mod Execution
pub mod Schedule
pub mod Matrix
pub mod Trigger
pub mod Command
pub mod Order
pub mod Files

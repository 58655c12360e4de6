-- ===== src/Lib.antt =====
-- The workspace runner of m, a package manager in Go: the graph of the packages of a workspace, the
-- order in which they can run, the scheduler that runs a script in each of them on a bounded number
-- of workers, and the writers that collect what the scripts print.
--
-- internal/workspace builds a graph of the members of a workspace from their package.json files
-- (`BuildGraph`), selects members with the edges between them (`InducedSubgraph`) and orders them
-- (`TopoOrderFor`). internal/runner makes a schedule of an order (`BuildSchedule`), runs it
-- (`runScheduler`), and hands the output of each task to a `PrefixWriter`, which passes on complete
-- lines, or to an `AggregateBuffer`, which keeps it for later. internal/apperr holds the error codes.
-- Apart from these, internal/advisory tells which versions of a package an advisory affects,
-- internal/resolver chooses a version of a package, internal/policy says which packages may be taken,
-- internal/graph is the dependency graph that a resolve makes, which internal/lockfile compares, and
-- internal/transaction carries out an install in such a way that it can be undone.
--
-- Base and its children: lists and numbers, strings as lists of bytes, sums and counts over lists,
--   maps as association lists, sorting, lists in order, integers, strings.TrimSpace.
-- Apperr: internal/apperr/apperr.go. `Code`, `ExitForCode`, `ExitCode`, and the result of a
--   fallible call. Error messages are left out.
-- Workspace.Graph: internal/workspace/graph.go and filter.go, `BuildGraph`, `WorkspaceTargetForDep`,
--   `workspaceDepsOf`, `SelectedWorkspaceDeps`, `InducedSubgraph`. What manifest.Load answers for a
--   member is a field of the graph, the same at every call. Its child Built follows `BuildGraph`.
-- Workspace.Kahn: the queue loop of graph.go over a map of degrees. Its children: the inner loop
--   (Relax), the invariant over any network of paths (Invariant), the end of the loop (Total).
-- Workspace.Order: `TopoOrderFor`, `ReverseTopoOrder`, `ValidateSelectedCycle`. Its children: the
--   edges and degrees of the subgraph (Network, Correct), the selection (Select), and the answers
--   for members (Decide), and cycles and unknown paths (Validate).
-- Workspace.Whole, Workspace.Filter: `MemberPaths` and `TopoOrder` of graph.go, and the patterns of
--   --filter in filter.go with `expandBraces` of expand.go; filepath.Match is a parameter. Its child
--   Closure is the loop of both closures.
-- Runner.Members, Runner.Scripts: `SelectMembers` and `ParseWorkspaceOutput` of workspace.go, and the
--   lookup of scripts and their hooks in lookup.go and hooks.go; regexp.Compile is a parameter.
--   Scripts.Found: the names that `Lookup` answers.
-- Runner.Schedule: internal/runner/schedule.go and the flags of workspace.go. Its children: the
--   degrees of a schedule as numbers of edges (Plan), the number of workers (Limits).
-- Runner.Scheduler: internal/runner/scheduler.go. The state holds the variables that the goroutines
--   share. Scheduler.Step has one step for each section under the mutex and each receive from
--   readyCh, taken by any worker in any order; a task may report any terminal status. Its other
--   children: sums over results (Tally), tasks in flight (Flight), the invariant (Invariant, Kept),
--   what it gives (Safety), the busy workers (Bound), the schedules of BuildSchedule (Built), and
--   the end of a run (Outcome, Running, Summary).
-- Runner.Aggregate, Runner.Prefix, Runner.Utf8: internal/runner/mux.go. A call of a writer is a
--   function of its state and of what the file system or the writer below answers; a call holds the
--   writer's mutex, so calls do not interleave. What the spill file holds at the start is an argument;
--   Aggregate.Contents has the collector over an empty file, Leftover one over any, Replay has Bytes.
-- Advisory: internal/advisory/range.go and `Compare` of internal/semver/semver.go, over the parser and
--   the order of Masterminds/semver as parameters. Its children: the intervals read from events
--   (Intervals), and versions that do not parse (Unparsed).
-- Deps: internal/graph and internal/lockfile/diff.go. The parent has the types of types.go and id.go,
--   package keys, and `TargetNameFromKey` of edge.go, whose child Target takes a name out of its key.
--   Sorting has the orders that Validate sorts by; Deps.Validate is validate.go, with what the loops
--   accept (Checks) and what an accepted graph is (Frozen). Deps.Encode is encode.go with
--   `cloneGraph` and `GraphsEqual`, its child Codes encodes and decodes. Deps.Diff is `DiffGraphs`:
--   the maps (Keyed), the loops (Loops), the whole diff (Described). Deps.Builder is builder.go.
--   encoding/json is a parameter.
-- Policy: internal/policy/policy.go, with its JSON form (Strict); Policy.Org is org.go, with the
--   packages that breach a policy (Breaches). The case of texts and the clock are parameters.
-- Resolver: `SelectVersion` and `SortedVersionsSemver` of internal/registry and `MaxSatisfying` and
--   `Satisfies` of internal/semver, over the parser, order and constraints of Masterminds/semver.
--   Hints is internal/resolver/hints.go with the keys of incremental.go, Select is select.go: the
--   candidates (Candidates), the highest of them (Highest), what is chosen (Chosen). Dedupe is
--   dedupe.go, with what it answers in its child Dropped; Update is the closure and the index of
--   incremental.go. The clock stands still during a choice; of `parsePackageKey` only the version is
--   taken.
-- Transaction: internal/transaction. Journal is journal.go, its children Encode and Decode one
--   after the other (Codes). Disk names the calls that a runner makes and what it reads, Session is
--   the state of a transaction that has begun, with saveJournal, and Record, Publish, Rollback and
--   Finish are runner.go and finish_result.go; Preflight is the choice among the transactions that a scan
--   of preflight.go found. A call answers with an error or none and changes the world either way;
--   a machine that stops is a disk whose calls fail from there on and change nothing. The copies of
--   trees in backup_tree.go are each one such call. Touch holds what an action keeps when its calls
--   keep it; the children of Rollback go through the handlers (Kept), the loop over the plan (Quiet,
--   Undone) and the whole of Rollback (Settled).
-- Tests: runs on small inputs.
--
-- Fuel. The queue loop is given a round for each path and one more, since each path leaves the
-- queue once (Kahn.Total). `processBuffer` is given a round for each byte of the buffer and one
-- more; each round takes a byte at least. The loop of `trimPartialUTF8` is given a round for each
-- byte. `expandBraces` takes out a closing brace in each round and is given a round for each byte;
-- the closures of filter.go and incremental.go are given a round for each path or key that can enter
-- the queue.
--
-- Maps are association lists, whose order stands for one of the orders in which Go may range over a
-- map; what is built from them is sorted where the source sorts it. Counters are unbounded. The
-- exported pointers are never nil. Not modelled: the steps after readyCh is closed, the start of
-- processes, the project lock, the copies of trees (backup_tree.go), the
-- generations of journal files beside their numbers, and the
-- parts of the program outside internal/workspace, internal/runner, internal/apperr,
-- internal/advisory, internal/graph, internal/lockfile, internal/policy, internal/resolver and
-- internal/transaction, which read and write files, talk to registries or parse formats. Of
-- internal/lockfile and internal/resolver the rest is not modelled: codecs, and the walk over
-- manifests and registries.
pub mod Base
pub mod Apperr
pub mod Workspace
pub mod Runner
pub mod Advisory
pub mod Deps
pub mod Policy
pub mod Resolver
pub mod Transaction
mod Tests

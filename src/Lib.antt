-- ===== src/Lib.antt =====
-- EcoKube schedules jobs on heterogeneous nodes by their energy and carbon cost. This library models
-- the scheduling core in Go. A simulator (hetsched/pkg/core/basesim.go) or a Kubernetes controller
-- (hetsched/controller) shows a job and the nodes to a policy (policies). The policy asks a carbon
-- model (hetsched/pkg/metrics) and returns a score for each node that can take the job; the caller
-- takes the node of least score (ArgMin in hetsched/pkg/core/scheduler.go) and places the job there.
-- The controller also asks an engine (hetsched/pkg/engine) for a cost trace of each node.
--
-- Which file models which part:
--   Prelude              Go's strings, maps, integers and float64
--   Core/Types, Node     hetsched/pkg/core: Workload.go, Job.go, site.go, Reservation.go,
--                        SimulatedNode.go (CanAccept is `can_accept`, Reserve `reserve`, ...), adapter.go
--   Core/ArgMin, Policy  hetsched/pkg/core/scheduler.go: ArgMin, SelectSiteAndNode; trace.go
--   Core/Sim             hetsched/pkg/core/basesim.go: Run is `run`, one pass of its loop is `round`,
--                        selectNode is `select_node` in Core/Sim/Select; log.go
--   Core/Class           hetsched/pkg/core/class.go
--   Core/Candidates      hetsched/pkg/core: energy.go, and buildCandidateSet and evalCost of
--                        scheduler.go
--   Core/Strategy        hetsched/pkg/core: SchedulingStrategy.go, SimulatedCluster.go, and Dispatch of
--                        CentralUnit.go; its DispatchAll in Core/Strategy/Dispatch, and
--                        RemoteCluster.go in Core/Strategy/Remote
--   Loader               hetsched/pkg/loader: LoadNodesFromCSV in Loader/Nodes, LoadWorkloadsFromCSV in
--                        Loader/Workloads, sites.go in Loader/Sites
--   RunSim               hetsched/cmd/run_sim.go: the lists of the flags in RunSim/Flags,
--                        applyArrivalSchedule in RunSim/Arrivals, what main does to the workloads and
--                        sites in RunSim/Prepare, its runs in RunSim/Runs, summariseRun in
--                        RunSim/Summary
--   Generator            hetsched/pkg/generator/generator.go: GenerateWorkloads
--   Metrics              hetsched/pkg/metrics: metrics.go, cfp.go and cicost.go, whose
--                        loadWattnetOnce is `load_wattnet` in Metrics/Traces
--   Policies             policies: internal/candidate, k8sched, carbonscaler, keids, topsis, ecokube;
--                        archive/hetsched and archive/enginepolicy in Policies/Archive, the
--                        rest of archive in Policies/Metered
--   Engine               hetsched/pkg/engine/engine.go and hetsched/pkg/types/types.go
--   Controller           hetsched/controller: scheduler.go in Controller and Controller/Schedulers;
--                        main.go in Controller/Pods (what is read off a pod), Controller/States
--                        (observePod, recordState, dropState), Controller/Lifecycle (the informer's
--                        handlers), Controller/Snapshot (snapshot), Controller/Setup (the environment,
--                        buildScheduler, bindPod, annotatePod) and Controller/Flow (schedulePod,
--                        processNextItem)
-- The files below these prove what the list of results names, and the files called Samples evaluate
-- the definitions on small inputs.
--
-- float64 is a parameter: a type with its operations, and an integer key that orders the values that
-- are not NaN (Prelude/Float). What the proofs use of rounding is named in `IsOrdered` and
-- `IsRounded`, and `IsExact` (Core/Node/Whole) says up to which number whole numbers are exact;
-- Prelude/Sample has a concrete fixed-point type that satisfies all three. An instant is a count of
-- nanoseconds, which does not wrap; the product that makes the duration of a loaded workload does. A
-- Go map is the list of its entries in the order of one iteration, and a nil map is an empty one.
-- Letter case is folded over ASCII.
--
-- The loop of Run has fuel that counts its rounds, and a run that has not ended by then is `none`:
-- two rounds for each workload are enough where amounts are whole numbers that float64 holds exactly
-- and each workload finds a node among the idle ones (Core/Sim/Progress), and no fuel is enough
-- where one never can. A run of run_sim.go passes its fuel on to that loop. The binary search of
-- cicost.go has the length of the series as fuel. The arrivals have one wave for each workload, and
-- the generator one wave for each job, as fuel, which is enough since no wave is empty.
--
-- Parameters are the order that sort.Slice leaves open, the printing and scanning of fmt, the
-- functions of package math, math/rand as functions of its state, what strconv, time.Parse and
-- encoding/csv read, the forecast service, and what the Kubernetes API answers. The carbon model that
-- the policies use is an interface; an integer division by zero in a profile, which panics, is `none`
-- in Metrics/Intensity and outside that interface.
--
-- Not modelled: the posting of a job to a remote cluster, the printed decision table, the YAML of
-- LoadTheta, the nesting of the sweep of run_sim.go and the files it writes, the constant table of
-- GenerateNodes, gen_data.go and demo_core.go, the start-up of the controller, and what only does
-- I/O: HTTP clients, trace files and counters.
pub mod Prelude
pub mod Core
pub mod Loader
pub mod RunSim
pub mod Generator
pub mod Metrics
pub mod Policies
pub mod Engine
pub mod Controller

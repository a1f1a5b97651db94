-- ===== src/Lib.antt =====
-- The Go services of the autoscaler (src/autoscaler). An event generator keeps the latest metrics of each
-- app, evaluates the rules of the app's policy against them, and posts a trigger to the scaling engine
-- when a rule is breached. The scaling engine changes the number of instances of the app within the limits
-- of its policy or of its active schedule, and keeps a cooldown and a history. A metrics forwarder takes
-- custom metrics from apps, and a gateway passes the envelopes of the platform on to the metrics servers. A broker
-- keeps the instances and the bindings of the service. Services that run as several processes share a lock in a table of the
-- database. What a request meets outside its service (the clocks, the cloud controller, the answers and the
-- faults of the database, HTTP) is given to it as a record or as arguments.
--
-- The files, and what they model:
--   Prelude (Tests, Lists, Int, Dict): the names that are shared, Boolean tests, lists measured by native
--     numbers, Go's signed integers with the wrap-around of int64, and maps with string keys.
--   Strconv: what the code uses of strconv, fmt and strings. Float: float64 as a parameter.
--   Models: models/*.go, the values that the services exchange, with their methods.
--   TsdCache: collection/TSDCache.go, a ring of the latest points of a series. Window, Layout and Search
--     say which slots have data; Spec is the cache as a list in the order of the timestamps; Insert, Put,
--     Around and Refinement show that Put implements it; Query, Order, History, Complete, Filled
--     and Sound are about what a query answers, and Tracked about the caches of several apps.
--   EngineDb: db/sqldb/scalingengine_sqldb.go, three tables (Stored, Retrieve).
--   ScalingEngine: scalingengine/scalingengine.go. Scale.antt has Scale and ComputeNewInstances, cut
--     into stages at their early returns (scale, scale_app, scale_started, scale_instances, apply_instances);
--     Schedules.antt has SetActiveSchedule and RemoveActiveSchedule, cut in the same way. Limits, Records,
--     Cooldown, Cooling, Success, Climbs, Compute, Active, Adjusts and Others are the proofs.
--   ScheduleSync: scalingengine/schedule/sync.go, on top of ScalingEngine.
--   Hash: helpers/hash.go and scalingengine/striped_lock.go.
--   LockDb: db/sqldb/lock_sqldb.go, and in Runner sync/dblock.go. Transaction, Exclusion and Acquire are
--     the proofs.
--   Evaluator: eventgenerator/generator/evaluator.go. Recent, Breach and First are the proofs.
--   EvaluationManager: eventgenerator/generator/appEvaluationManager.go.
--   AppManager: eventgenerator/aggregator/appManager.go, on top of TsdCache and Hash.
--   Aggregator: eventgenerator/aggregator/aggregator.go, on top of AppManager; Monitors and Saving are the proofs.
--   EventGenServer: eventgenerator/server/eventgen_handler.go; Composed puts it on top of Aggregator and AppManager.
--   Forwarder: metricsforwarder/server/custom_metrics_handlers.go and the refresh of the allowed metric types
--     in metricsforwarder/manager/policyManager.go.
--   Operator: operator/applicationsyncer.go, and the two statements on the policies that it makes
--     (db/sqldb/policy_sqldb.go).
--   Http: the query strings and the responses that the servers share.
--   ScalingServer: scalingengine/server/scaling_handler.go and sync_handler.go, on top of ScalingEngine, EngineDb
--     and ScheduleSync.
--   MetricHandler: metricscollector/server/metric_handler.go. MetricPoller: eventgenerator/aggregator/metricPoller.go,
--     and in Asks what its requests get from a cluster of metric handlers.
--   InstanceMetrics: what the collectors of metrics share. MetricsServer: metricsserver/collector/collector.go, on
--     top of TsdCache. Lookups, Run and Collected are the proofs.
--   Envelopes: metricsserver/collector/envelope_processor.go. Counting, Tallies, Received, Ticks and Sends are
--     the proofs.
--   AppPoller: metricscollector/collector/apppoller.go and metricscollector/noaa/app_events.go, on top of TsdCache;
--     Polled is the proof.
--   Tables: what the metric databases use of a table; Sorted is about conditions and orders. MetricDb:
--     db/sqldb/appmetric_sqldb.go and db/sqldb/instancemetrics_sqldb.go. Distinct, Bulks and Retrieved are the proofs.
--   BindingDb: db/sqldb/binding_sqldb.go, two tables. Broker: api/server/api_handler.go and the authentication of
--     api/server/server.go, on top of BindingDb. Refusals and Runs are the proofs.
--   Gateway: metricsgateway/nozzle.go, dispatcher.go, emitter.go and appManager.go. Accounts and Delivered are the proofs.
--   The files called Examples run the code on concrete inputs.
--
-- Bounds and fuel. The loop of the cache's search has as fuel one round more than there are positions, which
-- is enough since every round leaves fewer positions; running out would show as a panic, and the search is
-- proved to find a position. `transact` and a poll of AppPoller make at most 3 attempts, as in the
-- code. Every other loop
-- is recursion on a list. Positions and sizes are natural numbers below the machine's limits; numbers of
-- instances, durations and timestamps are integers, with `wrap64` where the code's int64 can wrap.
--
-- Not modelled: logging, HTTP transport and JSON, the drivers of the database and the isolation of its
-- transactions (a statement takes effect or fails as a whole), the rounding of float64, the interleaving
-- of requests (a request to the scaling engine holds its app's lock throughout), a reading of rows that
-- breaks off (it is modelled in MetricDb only), the metrics collector but for its pollers, and the
-- services that are not in Go. The cooldowns are a map with one row for an app, which an update keeps,
-- as it deletes the rows of the app before it inserts.
pub mod Prelude
pub mod Strconv
pub mod Models
pub mod TsdCache
pub mod EngineDb
pub mod Float
pub mod ScalingEngine
pub mod ScheduleSync
pub mod LockDb
pub mod Evaluator
pub mod EvaluationManager
pub mod Forwarder
pub mod Operator
pub mod Hash
pub mod AppManager
pub mod Http
pub mod ScalingServer
pub mod InstanceMetrics
pub mod MetricsServer
pub mod MetricHandler
pub mod MetricPoller
pub mod Envelopes
pub mod EventGenServer
pub mod Aggregator
pub mod BindingDb
pub mod Broker
pub mod Gateway
pub mod Tables
pub mod MetricDb
pub mod AppPoller

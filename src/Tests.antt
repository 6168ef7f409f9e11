-- ===== src/Tests.antt =====
-- The theorems at concrete switches, routers and schedulers.
mod SwitchRuns
mod RoutingRuns
mod OspfRuns
mod QueueRuns
mod ServiceRuns
mod LinkRuns
mod DeviceRuns
mod TopologyRuns

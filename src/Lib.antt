-- ===== src/Lib.antt =====
-- homemonit: a hub that stores the metrics of home servers and alerts on them, and the agent that runs
-- on each server and connects to the hub over a WebSocket.
--
-- The program's parts, and the files that model them:
-- - Base: what all files share. Tests on numbers and keys, lists measured by native numbers
--   (Base/Lists), Go maps and the framework's store type as association lists (Base/Maps), floats of
--   both precisions (Base/Floats), and what the source uses of Go's texts (Base/Texts).
-- - Entities: the records that an agent sends, internal/entities/system/system.go and
--   internal/entities/container/container.go.
-- - Messages: internal/common/common-ws.go, the messages between the hub and an agent. Their encoding
--   is a library's; what the program uses of it is a record Codec, which leaves out the fields that
--   the tags of the structs keep from being encoded.
-- - Alerts: internal/alerts. Alerts/Cache is `AlertsCache` (alerts_cache.go), the copy in memory of
--   the alerts collection that its hooks keep up to date and that loads a system when it is first
--   read. Alerts/Status is the part of `AlertManager` for alerts on the status of a system
--   (alerts_status.go): a system that goes down schedules a message per alert, which a timer sends
--   unless the system comes up or is paused before. Its state is the record AlertManager, with the
--   table of alerts, the cache, the pending alerts, the timers that have fired, and the messages sent.
--   Status/Restart has what is done when the hub starts, and Status/Deadlines when the message of an
--   alert is due. Alerts/System is `HandleSystemAlerts`
--   (alerts_system.go), the alerts on the metrics of a system: a pass that compares current values, a
--   query for those with a time window, sums over its rows (System/Window) and their averages (System/Averages), and the messages that
--   `sendSystemAlert` writes to the table of alerts (System/Writes).
-- - Records: internal/records. Records/Longer is `CreateLongerRecords`, Records/Deletion is
--   `DeleteOldRecords` (records_deletion.go), and Records/Sums with Records/Averages are the averages
--   of statistics (`AverageSystemStatsSlice`, `AverageContainerStatsSlice`) on the structs of
--   internal/entities/system and internal/entities/container (Records/Stats). The tables are lists of
--   rows (Records/Tables).
-- - Hub: internal/hub. Hub/Requests is `RequestManager` (ws/request_manager.go), which matches the
--   messages of an agent to the requests that wait for them, with the waiting side in
--   `handleAgentRequest` (ws/ws.go). Hub/Transport decodes what comes (transport/transport.go,
--   transport/websocket.go, ws/handlers.go). Hub/Connect is the acceptance of an agent
--   (agent_connect.go) and the user's action on a container (api.go). Hub/Realtime is
--   systems/system_realtime.go: which systems have clients that want realtime metrics, the worker that
--   serves them, and the rounds of a worker (Realtime/Fetch). Hub/Systems is `SystemManager`
--   (systems/system_manager.go) with its hooks on the rows of systems (Systems/Hooks), and `System`
--   (systems/system.go), the updater of a system (Systems/Updater, with the older fields of agents in
--   Updater/Deprecated, and what becomes of the row of a system that is set down in Updater/SetDown).
--   Systems/View and Systems/Refinement compare it to a plain map of the systems;
--   Systems/Live and Systems/Removal are about the updaters, Systems/Alerting, Systems/Outage,
--   Systems/Saves and Systems/Disconnect about what the hooks do to the alerts.
-- - Agent: agent. Agent/Network is `updateNetworkStats` (network.go), which turns the counters of the
--   network interfaces into rates with the help of a tracker per cache time (Agent/Deltas,
--   deltatracker/deltatracker.go); Agent/Nics is the choice of the interfaces, Agent/DataCache the
--   cache of the gathered data (agent_cache.go). Agent/Connection is the connection to the hub
--   (connection_manager.go): its states, its events and the attempts to connect. Agent/Disk is
--   disk.go: the match of names to devices (Disk/Choice), the file systems that the agent tracks
--   (Disk/Discovery), and the rates and the usage (Disk/Io). Agent/Docker is docker.go with the
--   processor use of internal/entities/container/container.go: the state and the engine's answers
--   (Docker/State), the texts on the status, the health and the ports (Docker/Status), the update of a
--   container, and a round over all of them (Docker/Round). Agent/Requests is client.go, handlers.go
--   and response.go: what the agent does with a message of the hub.
--
-- How the parts meet: an update of a system (Hub/Systems/Updater) stores the data that its agent
-- gathered (Agent) and saves the row of the system. The save runs the hook of Hub/Systems/Hooks, which
-- runs Alerts/System on the new data and, when the system goes down or comes up, Alerts/Status. Both
-- read Alerts/Cache and write the table of alerts, whose hooks write the cache again. Hub/Requests
-- carries the requests to an agent and its answers; Hub/Transport and Agent/Requests are the two ends
-- of a message, over one Codec. An agent that Hub/Connect accepts becomes a system of Hub/Systems.
-- What is stored is then thinned out by Records.
--
-- How things stand:
-- - An integer of the program is a natural number with its wrap-around written out (modulo 2^64, 2^32
--   or 2^8).
-- - A float is its bit pattern. The operations on floats are the fields of a record FloatOps that the
--   definitions take; nothing is supposed of them but where a theorem says so.
-- - A time is a natural number: of nanoseconds in Agent, Hub/Requests and Alerts/Status, of
--   milliseconds in Records, Alerts/System and Hub/Systems. What a look at the clock, a query, a save,
--   a decoder or a read of the counters gives is an argument of the operation.
-- - sort.Slice may leave equal elements in any order, so the ports of a container that it has sorted
--   are an argument, of which Docker/Ports supposes only that they are these ports in order.
-- - Go's walk through a map has no fixed order; the order here is that of the association list.
-- - A select with several ready branches takes the one that an argument names.
-- - What several goroutines do is a sequence of steps, each of which runs as a whole: a handler, a
--   timer callback, the part of a worker between two selects.
-- - The systems of Hub/Systems stand in a heap under pointers, so that the store, an updater and a
--   hook share one, and an updater can outlive the place of its system in the store.
-- - A goroutine that sends a message of Alerts/System is a value in a list until it runs.
-- - A shared request of Hub/Requests stands in a heap under a handle, so that the table, the waiting
--   code and the watcher of its context see the same one.
-- - All loops are recursions on a list or a text, so no bound on their length is needed. A port is written with at
--   most five digits, which is enough for its 16 bits.
--
-- Not modelled: the web interface and the build (no core logic), the framework's own work on the
-- database and on HTTP, the migrations (generated data), the parts of the agent that read the
-- operating system (gatherStats, the processor, sensors, batteries, fingerprint files), the encoding
-- of messages (a library's), the jitter and the sleeps of the updater, the set-up of a WebSocket, and
-- the structs of SMART and systemd data, which no code of the repository fills.
pub mod Agent
pub mod Alerts
pub mod Base
pub mod Entities
pub mod Hub
pub mod Messages
pub mod Records

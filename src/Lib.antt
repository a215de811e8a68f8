-- ===== src/Lib.antt =====
-- dovesnap is a docker network plugin: it gives each docker network an Open vSwitch bridge, and tells
-- a Faucet SDN controller of it through faucetconfrpc. This library models the driver in ovs/: what it
-- keeps of networks and endpoints, the commands that it runs, and the texts that it reads and writes.
--
-- A plugin request (Plugin) becomes a message (DovesnapOp) on a channel (Channel). The resource manager
-- (ovs/driver.go, resourceManager) takes one message at a time, runs its handler, and runs a round of
-- reconciliation where no message comes for three seconds. So a run (Driver) is a sequence of steps on
-- one state: a request is `serve`, a message `step`, a round `tick`, the last two in Handlers/Dispatch.
-- A request runs in a goroutine of its own; its step is taken as one, at a time when nothing makes it
-- wait, and a request that waits for a reply is modelled up to that wait.
--
-- The world outside (commands, the kernel's links, iptables, faucetconfrpc, docker, files) is a parameter,
-- System.Env: any function of the calls made so far. System.Io is an action on the history of calls,
-- Manager.M an action on the state of the resource manager. An action ends by an Outcome: it returns, it
-- panics, it ends the process, or it waits forever. Go's recover() turns a panic into a value or into the
-- deferred function's run; the changes made before it stay.
--
-- The files and the code that they model:
-- - Prelude, Outcome, System: Go's maps, texts and numbers, ends of functions, calls of the world.
-- - Naming: patchName of ovs/ovs_port.go, patchStr and b62Encode of ovs/utils.go.
-- - Commands: ovs/ovsdb.go and ovs/ovs_iptables.go.
-- - State, Manager: the types of ovs/driver.go and ovs/ovs_config.go, the state and its effects.
-- - Ports: ovs/ovs_port.go. Ports/Line is the regular expression of parsePortDesc.
-- - Retries: the loops that try a call again, of ovs/ovs_port.go (in Ports/Retries) and
--   ovs/ovs_faucetconfrpc.go (in Faucet/Client).
-- - AddPorts: parseAddPorts of ovs/ovs_bridge.go. Bridge: the rest of that file.
-- - Config: ovs/ovs_config.go, and the state that ReOrCreateNetwork of ovs/driver.go builds.
-- - Faucet: ovs/ovs_faucetconfrpc.go. Docker: ovs/ovs_docker.go.
-- - Links, Mac: ovs/utils.go.
-- - Handlers: ovs/driver.go, one module for each group of functions (Bridges and Stacking for the
--   bridges of the driver; Delete, Create, PortMaps, Endpoint and Reconcile for the handlers) and Dispatch, the
--   switch over the operation. Manager/Keeps and Manager/Triples are the rules by which the other
--   modules of Handlers reason about handlers, whose effects Handlers/Keeps, KeepsNetwork,
--   KeepsReconcile and KeepsDispatch give. Handlers/PortRules lists the iptables rules of port maps.
-- - Start: the flags of main.go and NewDriver of ovs/driver.go. Restore: its restoreNetworks.
-- - Web: the status server of ovs/driver.go.
-- - Channel, Plugin: the requests of ovs/driver.go, the channel and createDeleteNetworkWG. Driver: their
--   interleaving with the resource manager, and the registry of its
--   networks and endpoints. restoreNetworks is not among the steps of Driver;
--   its rounds are in Restore, and after "quit" Driver allows steps that the code does not take.
-- - Tests: concrete runs.
--
-- Bounds and fuel. Integers of a fixed width are natural numbers with the wrap-around written out;
-- port numbers are uint32. The loops with a number of retries are recursion on that number, which is the
-- code's. The channel has room for 64 messages, the code's chanSize. decimal recurses on the number
-- itself, which has fewer digits than it counts, and base-62 texts likewise. An int is taken to have
-- 64 bits. A time.Duration is an int64 in two's complement: the timeouts of Faucet/Client wrap from
-- round 32 on, and its theorem is of up to 31 (the default of the flag is 5). The numbers of a port map
-- are float64 values, by their sign, mantissa and exponent; an int of one drops the fraction.
--
-- Go's maps are association lists whose keys stand once; a loop over one takes the list's order, where
-- Go takes any. The three maps of DynamicNetworkStates are shared by all copies of a network's
-- state: a write to a copy's map is a write to the state that d.networks holds, and a write to nil maps panics.
--
-- Not modelled: the JSON of the notifier and of the status server, logging, the plugin's socket, and the
-- Python and shell tools; getDpNames, ipIncrement and validateIface, which nothing calls; and what
-- happens between the single calls of a request and of a handler that run at the same time.
-- net.ParseMAC is modelled for the form with colons that docker gives, and upper
-- and lower case for ASCII.
pub mod Prelude
pub mod Outcome
pub mod System
pub mod Naming
pub mod Commands
pub mod State
pub mod Plugin
pub mod Web
pub mod Ports
pub mod AddPorts
pub mod Channel
pub mod Config
pub mod Faucet
pub mod Links
pub mod Mac
pub mod Bridge
pub mod Docker
pub mod Manager
pub mod Handlers
pub mod Driver
pub mod Retries
pub mod Restore
pub mod Start
pub mod Tests

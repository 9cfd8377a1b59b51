-- ===== src/Lib.antt =====
-- FloatLab Core: a model of the parts of the program that decide where a stack runs, how the
-- management software is upgraded and when an alert is over.
--
-- Parts and how they interact:
-- - Run.antt (pkg/run/machine.go): the states and events of a stack, the table of transitions and
--   `machine.Apply`. `State` and `Event` are the string constants of the source, with `unset` for
--   the empty string of a new instance; an instance is `StackInstance`.
-- - Raft.antt (pkg/raft/fsm.go, pkg/run/events.go): the replicated state machine. It keeps the
--   instances of Run.antt by their stack and the buffers of its subscribers. Decoding the JSON of
--   an entry is left out: it is what decoding gives, or nothing. Raft/Persist.antt writes a
--   snapshot to its sink and restores it, with the members of an instance as the source has them;
--   encoding/json is the parameter `Json`. The mutexes of the source make each operation one
--   step.
-- - Failover.antt (internal/failover/sequence.go): `Execute` and `Restore` of `Sequence`, which
--   send entries to the state machine of Raft.antt; Failover/Detector.antt
--   (internal/failover/detector.go): `tick`, which starts failovers, with its ticks one after the
--   other in Failover/History.antt. Each call of a node, of the database or of the log is an
--   effect; the parameter `Env` answers it by its number, so that a statement over `Env` is one
--   over every behaviour of the systems around. An entry can be applied, refused, or reported as
--   failed and applied nevertheless.
-- - ManagementUpdate.antt (internal/managementupdate/manager.go, `Repository` of
--   internal/update/source.go): the transaction that upgrades the management stack. `Env` answers
--   the methods of `Backend`, the writes of management.json and the clock; `Host` answers what
--   the operations read. A write that fails may have replaced the file or not. Reach.antt has the
--   step relation, with a process that stops at any moment.
-- - Alerts.antt (pkg/alerts/evaluate.go): `Rule.Validate` and `advance`, the step of one
--   incident; Alerts/Observe.antt (pkg/alerts/evaluator.go): `observe`, which merges the samples
--   of the predicates into the observations that `advance` takes; Alerts/Store.antt
--   (pkg/alerts/store.go): what `save` decides. The digest of a rule's conditions is a parameter,
--   a float64 its bits, an instant its nanoseconds since Go's zero time.
-- - Snapshot.antt (pkg/store/timestamp.go): the names of automated snapshots; `unicode.ToUpper`
--   is a parameter.
-- - Retention.antt (pkg/store/policy.go): `SnapshotDue` and `RetainedSnapshots`, which takes the
--   automated snapshots of Snapshot.antt. The calendar, which tells the month of an instant and
--   the first instant of a month, is the parameter `Calendar`.
-- - Release.antt (pkg/release/version.go): `Parse`, `HostRange` and `CheckHost`; the third-party
--   version type, with its parser and its order, is the parameter `Versions`.
-- - Net.antt: addresses and prefixes of Go's net/netip, whose parsing is the parameter `Netip`.
--   HostNetwork.antt (internal/hostnetwork/manager.go, config.go): the network configuration of a
--   host. `Config.Validate`, the journal, every operation of `Manager`, and `Status`, `Get` and
--   `Retry`. `Env` answers the backend, the writes and the clock by their number; Reach.antt has
--   the operations in any order.
-- - Ipam.antt (internal/ipam/pools.go, hosts.go, allocator.go): the pools of addresses of IPv4
--   with their allocations, and the reservations of IPv6. `World` is what the tables hold, with
--   the constraints of pkg/rqlite/migrations.go; `Env` says which queries fail and what becomes
--   of each transaction. A pool of Ipam.antt gives the addresses that HostNetwork.antt has as
--   services.
-- - Base.antt: names, tests, lists and Go maps that the others share. Tests.antt: runs at
--   concrete inputs.
--
-- Numbers are natural numbers; an int64 duration is an integer that stops at its ends as
-- `Time.Sub` does, and the counter of subscribers wraps at 2 ^ 64. The loop of `verifyServices`
-- of internal/hostnetwork takes as many rounds as `Env` says that its time allows. The loop of
-- `AllocateIPv4` has a round for each address of the range and one more, and the walk of
-- `Allocate` one round more than there are reservations, which is enough: neither runs out. The
-- other loops of the source are over lists, or have the fixed bound that is written (six
-- characters of a timestamp, 64 entries of a buffer).
--
-- Not modelled: the checkpoint operations of a host upgrade (internal/managementupdate/manager.go
-- from line 428), the interleaving of two sequences of one stack in internal/failover, `Tick` and
-- the writes of `save` of pkg/alerts, `ParseSnapshotPolicy`, backups and ZFS of pkg/store,
-- linux.go and watch.go of internal/hostnetwork, netlink.go and migrate.go of internal/ipam and
-- what hosts.go asks of hosts, and internal/hostupgrade, which are left for further modules;
-- internal/control, internal/hostd, internal/agent, internal/worker, internal/orchestrator,
-- internal/installer and the commands, which drive systems by network, SQL and shell; the
-- clients, the interface and the image.
pub mod Base
pub mod Run
pub mod Raft
pub mod ManagementUpdate
pub mod Alerts
pub mod Failover
pub mod Net
pub mod HostNetwork
pub mod Ipam
pub mod Retention
pub mod Snapshot
pub mod Release
pub mod Tests

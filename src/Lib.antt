-- ===== src/Lib.antt =====
-- A model of the Vasum daemon, which manages Linux containers, called zones, and of the modules that it is built from.
--
-- The program. Clients call the daemon over a socket (server/host-ipc-connection.cpp), which passes each call to a handler
-- of the manager of the zones (server/zones-manager.cpp). The manager keeps the list of zones, the id of the active zone,
-- and an exclusive lock by which one client keeps the others from adding tasks. It creates and destroys zones, starts,
-- stops and restores them, and decides which zone is in the foreground; the input monitor (server/input-monitor.cpp)
-- recognises a sequence of key presses and asks it to switch. A zone (server/zone.cpp) wraps a container of liblxc
-- (common/lxc/zone.cpp, common/lxc/cgroup.cpp), records the state that it is wanted in, and provides declared files,
-- mounts and links (server/zone-provision.cpp). A policy decides which dbus calls are forwarded between zones
-- (server/proxy-call-policy.cpp).
--
-- The repository also has a container library of its own (libs/lxcpp). A container (container-impl.cpp) is the view of the
-- process that owns it: it keeps a configuration and a state, and starts a guard, a process that clones the init process of
-- the container, relays its terminals, and reports what becomes of it (guard/guard.cpp). Messages to the kernel's network
-- are built and read by common/netlink.
--
-- The files.
--   Prelude        texts as lists of bytes, the integers over native numbers, decimals, tests, and lists
--   Prelude/Exec   methods: a state and an outcome, which is a value, an exception or a crash of the process; what was
--                  written before an exception stays written. Keeps, Returns and Turns have the rules for conditions
--                  before and after them
--   Lxc            common/lxc: LxcZone's getState, create, start and shutdown, with USE_EXEC as CMakeLists.txt defines
--                  it, setCgroup, isDevice and setDeviceAccess. States and Devices describe them
--   Lxcpp/Cgroups  libs/lxcpp/cgroups: getCGroup and getCGroups, from the lines of /proc/<pid>/cgroup
--   Lxcpp/UserNamespace    libs/lxcpp/userns-config.cpp: `add_map` is addUIDMap and addGIDMap with assertMapCorrect
--   Lxcpp/ProvisionConfig, Lxcpp/NetworkConfig   the lists of provision-config.cpp and network-config.cpp
--   Lxcpp/ContainerConfig  the configuration and the state of a container
--   Lxcpp/Container        ContainerImpl: its state and constructor. Settings: the methods that configure it. Lifecycle: start,
--                          stop, connect, attach and the answers of the guard. Terminals: PrepPTYTerminal. Events: all of
--                          these in any order
--   Lxcpp/Guard            Guard: Handlers has one function for each callback
--   Lxcpp/Relay            onContTerminal and onImplTerminal of the guard
--   Netlink                NetlinkMessage and NetlinkResponse of common/netlink/netlink-message.cpp
--   Server/Host            the calls that leave the modelled code, and the configurations that they load
--   Server/Provision       ZoneProvision: `start`, `stop`, `remove`, `declare_...` and `get_id` are its methods
--   Server/Zone            Zone: Creation has its constructor and destructor, Network its calls on network devices
--   Server/Manager         ZonesManager's state and findZone. Names: isalnum, the prohibited names and
--                          cleanUpUnknownsFromRoot. VirtualTerminals: getVTForNewZone. Focus: focusInternal, refocus and
--                          circularFindNext. Create: createZone, insertZone, destroyZone and generateNewConfig. Run: start,
--                          stop, restoreAll and shutdownAll. Queue: the exclusive lock and tryAddTask. Handlers, with
--                          Handlers/Parts and Handlers/Devices: the functions handle...Call
--   Server/HostIpcConnection   the calls and the handler of each; Actions adds what the daemon does by itself
--   Server/ProxyPolicy     ProxyCallPolicy
--   Server/InputMonitor    InputMonitor: the checks of its configuration and isExpectedEventSequence
--   Server/HostSample      a host that logs its calls, over which the modules named Examples run the model
--
-- What a method acts on is its object and a world, an argument of every definition. Calls of code that is not part of
-- the model are fields of three records over that world: LxcApi for liblxc and the utils library, ProvisionHost for the
-- file system and the key-value store that the provisions use, and Host for the rest (boost's paths, cargo, the network
-- devices, processes); Lxcpp/Cgroups takes the test of a prefix from the utils library as an argument. For the container library
-- they are ContainerHost (the utils library, cargo::ipc, the kernel's terminals and processes, the owner's callbacks),
-- GuardHost (the commands, cargo::ipc and the kernel), RelayIo (read and write) and Abi (the structures and macros of
-- the kernel's netlink headers). The theorems hold for every such record, but for the conditions that they name.
--
-- Bounds and fuel. circularFindNext runs on as many rounds as the list is long, which is enough, since each round goes on by
-- one position and the search ends where it started. A decimal is printed with the number and one more for fuel, which is
-- more than it has digits. All other loops are recursions on a list or a count. The integers of the configurations are unbounded, but
-- where the source makes one an unsigned integer, it is taken modulo 2 ^ 32 (the count of the input monitor, and the third
-- octet of a zone's addresses). The ids of a user namespace have 32 bits and their sums wrap around, the arrays of the relay
-- have 1024 bytes, and the length of an attribute of a message has 16 bits, which the theorem on messages asks for.
--
-- An `assert` whose condition fails, undefined behaviour and a read through the end iterator are crashes. Builds with NDEBUG
-- leave the assertions out and go on, which the model does not show.
--
-- Not modelled: locks and threads (the manager's mutex makes each operation one step, and a task that is admitted runs at
-- once instead of later on the worker's thread), the socket and the message format, logging, sleeping, signals and the
-- command line (server/server.cpp, server/main.cpp), the network devices (server/netdev.cpp), the dbus connection
-- (server/host-dbus-connection.cpp), and the client, cli and zone-daemon directories. Of libs/lxcpp: the commands other than
-- Start and PrepPTYTerminal, what runs inside the clone of the guard, the console, and the live network interfaces
-- (network.cpp). The wait in a container's start and stop gives up its mutex, so what happens meanwhile are steps before
-- this one, and its result is the test of the state.
pub mod Prelude
pub mod Server
pub mod Lxc
pub mod Lxcpp
pub mod Netlink

-- ===== src/Lib.antt =====
-- A model of the core of Ithiltir-node: an agent that samples a host and reports to one or more
-- dashboards, with a command line that edits the list of dashboards and a helper that observes the
-- virtual machines of a Proxmox host.
--
-- The parts and their files, with the code that each is about:
--
-- * ReportCfg (internal/reportcfg/config.go) is the list of report targets. A `Config` is a version
--   and its targets; `validate`, `add`, `remove`, `replace`, `update_key` and `next_id` are the
--   functions of those names. ReportCfg/Shape says what a valid config is without the loop of
--   Validate, and Validity, Edits, Admission and Outcomes are about the operations.
-- * Install (internal/app/run.go, and Load and Save of internal/reportcfg/config.go) is the report
--   command: Install/Files is the report file, Install/Prompt the question which of two targets to
--   keep, Install/Report the function saveReportInstall, branch by branch, and Install/Command
--   runReport, which reads the arguments.
-- * Push (internal/push) sends the reports. Push/Rpc is rpcClient of rpc.go, which chooses between
--   HTTP and gRPC; Push/Target is the target of push.go with its fallback from https to http and its
--   delivery of a report; Push/Update is updatePlan; Push/Round is sendRound; Push/Static
--   is the static snapshot, its delivery and its fingerprint (static_validation.go,
--   static_fingerprint.go and syncStatic of push.go), and Push/Urls the paths it is sent to.
-- * Pve (internal/pve/history.go, internal/virt/history.go) is the cache of history requests of the
--   virtual machine helper: Pve/History has one function for each stretch of code under the mutex,
--   and Pve/History/Runs every order in which goroutines can make them. Pve/Snapshot is the
--   snapshot of internal/virt/snapshot.go, with Validate and Expire. Pve/Execute is the
--   lookup of one history request, and Pve/Client its answer over the socket (internal/pve/serve.go
--   and internal/virt/client.go).
--   Pve/Collector is the collector of cache.go and Pve/Guests the states of guest_cache.go.
--   Pve/Config is parseConfig of local.go with networkRateLimits of collect.go, Pve/Monitor the calls
--   of monitor.go with what collectMonitor makes of their answers and decodeIPs of guest.go, and
--   Pve/Process readProcess and Pve/Sample sampleVM of local.go, which is what a worker of the
--   collector does with one machine. Pve/Inventory is inventory and readConfig of local.go, which
--   list the machines, and guestIPs of guest.go; Pve/Memory is memoryUsage of local.go.
-- * Push/Session is the loop of session.go and Push/Virt the delivery of virt.go, in internal/push.
-- * SelfUpdate (internal/selfupdate/update.go, internal/runner/runner_windows.go) checks, downloads
--   and installs an update. Collect (internal/collect) has the usage reader, the kinds and roles of
--   disks, and the counters; Collect/Raid is storage_raid_linux.go, with parseMDStat in Raid/Md and
--   parseZFSStatus in Raid/Zfs, and Collect/Sampler of sampler.go what the sampler knows of the host,
--   its intervals, its Start and Stop as steps of calls that run at the same time, and the order of
--   the storages.
-- * Caches has Read of internal/conncache/cache.go and of internal/smartcache/cache.go.
-- * Base has what all share: the tests on native numbers, lists, the integers of the source, text as
--   a list of code points with strings.TrimSpace and, in Base/Parsing, the other functions of strings
--   and strconv that the parsers call, instants in nanoseconds, and results.
--
-- How code becomes definitions. A method that changes an object is a function from the old state to
-- the new one and the result; a Go `error` is a constructor of a result type. A panic by a nil
-- pointer is a result of its own (`panicked` of a request, `none` of finish), so that its absence is
-- a theorem. url.Parse is the parameter `parse_url`; netip.ParseAddr, the printing of a number, the
-- tests and the arithmetic of floating-point numbers, and strconv.Atoi in Validate of a snapshot are
-- parameters as well. What the network, the
-- gRPC library, the file system and the terminal answer are fields of an environment record, so the
-- theorems hold for every answer. Integers are unbounded where the code only compares them; next_id
-- and the conversions to a time.Duration wrap at 64 bits. There are two fuels. `shrink`, the loop of
-- historyCache.run that evicts until the bytes fit, gets the number of entries: each round drops one,
-- and an empty cache holds no bytes. `arrays_from`, the loop of parseMDStat, gets one more than the
-- number of lines: each round takes a line, and the details of an array may take more.
--
-- Not modelled: log lines and the limiters that thin them, the text of messages, TLS, HTTP and its
-- redirects, and gRPC themselves, JSON and YAML, file modes and owners; and these parts of the program: the rest of the
-- sampling of the host (the sensors, the logical disks and the report of internal/collect), the local
-- page (internal/server), the sockets (in internal/pve), the
-- processes of the runner, and the entry points under cmd.
pub mod Base
pub mod ReportCfg
pub mod Install
pub mod Push
pub mod Pve
pub mod Caches
pub mod Collect
pub mod SelfUpdate

-- ===== src/Lib.antt =====
-- A verification library for the Docker volume plugin of this repository.
--
-- The plugin serves Docker's requests on volumes. The driver (src/driver.go) keeps the volumes, a
-- table of mounts for each, and a control file with all of them; for a volume it may start a
-- process, whose options come from the command line (src/main.go) and from the volume
-- (src/mount/options.go, src/proc/options.go). src/main.go reads the environment and the flags,
-- checks them, makes the driver and serves. src/proc/proc.go looks processes up in /proc and
-- watches them: a goroutine per process restarts it, in one of the modes of
-- src/proc/proc_recovery.go, as long as a metric (src/metric/metric.go) allows. The names of the
-- states of a process depend on the kernel's release, which src/semver/semver.go reads and compares.
-- src/utils/utils.go holds helpers.
--
-- The modules:
--   Common         lists, texts, maps, numbers, results, and code with a state and errors
--   Os             the operating system: calls that answer and change a world, all parameters
--   Utils          src/utils/utils.go: Select, Where, Atob, Int8ToStr, ScanStrings, checkAccess
--   Utils.Hashes   src/utils/utils.go: SHA256BytesToBytes, SHA256StringToString
--   Utils.Channels src/utils/utils.go: ReceiveNonBlocking
--   Utils.Numbers  src/utils/utils.go: AsInt64, AsUInt64 and the values of type `any`
--   Semver         src/semver/semver.go: MakeComparableSlice, Parse, Compare
--   Mount.Options  src/mount/options.go: ParseOption, Set, SetMap, String, Map, Len
--   Proc.Options   src/proc/options.go: NewOptions, Set, SetSlice, String, Slice, Len
--   Metric         src/metric/metric.go: NewMetricBase, Update, Rate
--   Proc.Info      src/proc/proc.go: ProcessInfo and UniqueId
--   Proc.Stat      src/proc/proc.go: the two goroutines of GetProcessInfo and what follows them
--   Proc.Query     src/proc/proc.go: GetProcessInfo, with a time limit, and by unique id
--   Proc.Status    src/proc/proc.go: the states of a process, loadProcessStatusNames
--   Proc.Reset     src/proc/proc.go: init, Reset, loadProcStat, loadUname
--   Proc.Recovery  src/proc/proc_recovery.go: the recovery modes
--   Proc.Monitor   src/proc/proc.go: MonitorProcess, CancelProcess, KillProcess
--   Driver         src/driver.go: volumes, pluginDriver_Save and pluginDriver_Load
--   Driver.Documents what encoding/json promises of the control file
--   Driver.VolumeOptions, Driver.Process src/driver.go: SetupProcess
--   Driver.Handlers src/driver.go: Get, Path, List, Capabilities, Mount, Unmount, Create, Remove
--   Driver.Start   src/driver.go: pluginDriver_NewWithVolumeProcess
--   Main           src/main.go: the closures GetVolumeProcess and SetVolumeProcessOptions
--   Main.Flags     src/main.go: os_LookupEnv, flags_String, flags_Bool, flags_Uint, the defaults
--   Main.Parsing   src/main.go: the flags, and how package `flag` reads the command line
--   Main.Params    src/main.go: the checks of entryPoint
--   Main.Entry     src/main.go: entryPoint and its exit codes
--   Main.Log       src/main.go: replaceAttr and lastLogLevel
--   Examples       concrete inputs
-- The theorems stand in the modules below those of the code.
--
-- A text is a list of codes, a Go map an association list whose order is one order of `range`, an
-- `int` its bit pattern, an error value a constructor of the component's own type, and a panic an
-- outcome of its own. Code with a state is a function from a state to an outcome and a state; an
-- error keeps what was changed before it. The pointer `Mounts` of a volume is an address in a list
-- of tables, and the pointers of GetVolumeProcess lead to objects in the state, so that sharing
-- shows. The calls of the system, encoding/json, crypto/sha256, path/filepath and the formatting of
-- times are parameters.
--
-- A value of type `any` in a version is a text, an integer by its width and bit pattern, or the text
-- that `%v` makes of it. Comparisons return an integer with a sign, as in the source. The order of
-- versions is built from orders of numbers, pairs, sums and lists (Common.Order).
--
-- The loop of GetProcessInfoWithTimeout runs as often as the system says before the context is
-- done; the goroutine of a monitor is modelled round by round, and a round with a restart in two
-- steps, the check and the restart, between which others may come. CancelProcess and KillProcess find
-- the goroutine either between two rounds or in the middle of a restart; from there to their end it
-- moves where they wait. The scanner of /proc/<pid>/cmdline runs on the length of its input and one
-- more, which a theorem shows to be enough. No other loop needs a bound. A handler runs from its
-- start to its end, but for Unmount, whose two parts are told apart; Remove finds the goroutine of
-- its volume between two rounds or in the middle of a restart, too.
--
-- Not modelled: log messages and all other output, the two functions OptionsString that print for
-- the log among it, but for the attributes of a message; the limit of 64 KB that bufio.Scanner sets
-- to a line; the framework that calls the handlers, whose ServeUnix is a parameter; the test
-- programs.
mod Common
pub mod Utils
pub mod Os
pub mod Mount
pub mod Proc
pub mod Driver
pub mod Main
pub mod Examples
pub mod Metric
pub mod Semver

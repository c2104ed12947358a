-- ===== src/Lib.antt =====
-- A verification library for sysbox-libs, the Go packages that the Sysbox container runtime shares.
--
-- The program is a set of packages, most of which stand alone. Two have a thread of their own and
-- keep state under a lock: pidmonitor and fileMonitor. idShiftUtils walks a directory tree and
-- shifts the owners and ACLs of its files. linuxUtils reads the kernel's release and starts
-- processes in a new user namespace; idMap and shiftfs call both. mount reads the table of mounts,
-- and overlayUtils takes the options of an overlayfs mount apart with mount's flags. dockerUtils
-- asks the Docker daemon, containerdUtils reads a configuration file, and utils, pidfd and
-- formatter are small helpers.
--
-- Prelude: lists, Go maps as association lists (Table), signed numbers (Int), errors (Outcome),
--   comparable types, and finite sets.
-- Strings: what the program uses of Go's strings, strconv and path/filepath, over lists of bytes:
--   Decimal (FormatUint, ParseUint), Atoi, Split (Split, Join, SplitN), Affix (HasPrefix,
--   TrimPrefix, Contains), Trim (Trim, TrimSpace, TrimSuffix), Fields, Replace (Replace,
--   ContainsAny), Scan (fmt.Sscanf by its verbs), Utf8 (white space and bytes beyond ASCII), Lines
--   (bufio.Scanner) and Path (Clean, Join, Base, Dir).
-- PidMonitor: pidmonitor/. Events has the configuration, the events and the table of
--   pidmonitor/utils.go; Monitor has the calls of pidmonitor/pidmon.go (New, AddEvent, RemoveEvent,
--   WaitEvent, Close) and the thread of pidmonitor/monitor.go (pidMonitor, pidExists). The thread is
--   a step function on the phases of its loop, since the lock is released between the scan, the
--   send and the removal; Trace has the interleavings of its steps with the clients' calls.
--   Once counts the reports of a process, and Marker has the lists that WaitEvent returns.
-- Watching: what both monitors promise, an abstract specification of a set of watched names and what
--   may happen to it, one move for each call and each step of the thread; PidMonitor.Watch and FileMonitor.Watch relate each monitor's states to it.
-- FileMonitor: fileMonitor/, in the same form: Monitor has the calls of fileMonitor/fileMon.go (New,
--   Add, Remove, Events, Close) and the thread of fileMonitor/monitor.go (fileMon, checkFiles,
--   checkFileExists), which starts with the first Add and ends when the table is empty.
--   Unordered has the table as a quotient that forgets its order; Ending is about the thread's end.
-- IdShift: idShiftUtils/idShiftUtils.go. Acl has shiftAclType and shiftAclIds, Shift has
--   checkACLSupport and the walk of ShiftIdsWithChown, DirIds has GetDirIDs.
-- LinuxUtils: linuxUtils/linux.go. Kernel has GetKernelRelease, ParseKernelRelease,
--   KernelCurrentVersionCmp and BinfmtMiscNamespacingSupported, and checkKernelVersion of
--   idMap/helpers.go; Userns has CreateUsernsProcess as its parent process runs it, and Child as its
--   child does, with the parts of a process that checks its calls (Child.Exit); Shm has
--   ShmSysctlUserNamespaced; Distro has GetDistro, GetDistroPath, parseLineDistroId and
--   GetLinuxHeaderPath.
-- Host: programs that call the system. A program is a function of the calls so far; the system
--   answers each call by any function of these, so that a theorem holds for every point of failure.
--   A deferred call is made when the body ends, whether it failed or not.
-- IdMap: idMap/idMapMount.go. Mount has IDMapMount, Check has runIDMapMountCheckOnHost, Supported
--   has IDMapMountSupported, OverlayfsOnIDMapMountSupported and IDMapMountSupportedOnPath, Pause the
--   child process of the check, and Unsupported the functions of idMap/idMapMount_unsupported.go.
-- Shiftfs: shiftfs/shiftfs.go. Check has Mark, Mounted and runShiftfsCheckOnHost, with
--   KernelModSupported of linuxUtils/linux.go and GetFsName of utils/fs.go; Child has what the
--   child of the check does, with Mount, and ShiftfsSupported and ShiftfsSupportedOnOverlayfs.
-- Mount: Flags has optToFlag and mountFlagsMap of mount/mount_linux.go, Search has the table of
--   mount/mountinfo.go and FindMount, MountedWithFs and GetMountAt of mount/mount.go; Line and Parse
--   have parseInfoFile of mount/mount_linux.go, by the line and by the table, with GetMounts and
--   GetMountsPid.
-- OverlayUtils: overlayUtils/overlayUtils.go: GetMountOpt, GetLowerLayers, GetUpperLayer,
--   GetWorkLayer and GetVolatile.
-- Utils: Slices has the functions of utils/slices.go on slices of strings and of mounts, Env has
--   GetEnvVarInfo and Cmd CmdExists of utils/env.go, Filepath has FilepathSort of utils/filepath.go,
--   and PidFile the functions of utils/pidfile.go.
-- DockerUtils: dockerUtils/dockerUtils.go. Client has the functions that talk to the daemon, Rootfs
--   has isDockerRootfs and ContainerIsDocker.
-- ContainerdUtils, Pidfd, Formatter: containerdUtils/containerdUtils.go, pidfd/pidfd.go and
--   formatter/containerID.go.
--
-- A Go string is the list of its bytes. A uint32 is a number below 2^32 and its sums are taken
-- modulo 2^32; the sign extension of an int32 is written out. An int that is only compared is a
-- signed number without bound; what strconv.Atoi accepts is bounded by 2^63. A Go map is an
-- association list with one entry for each key: its order stands for the order of a `range`, and
-- the theorems hold for every order. Loops are recursions on the list that they walk. The decimal
-- print recurses on fuel: one round more than the number, where each round divides by ten. The
-- child of CreateUsernsProcess reads each mapping file at most 30 times and isDockerRootfs looks at
-- five directories, as the code's loops do. A line that a bufio.Scanner reads is shorter than 64 KiB,
-- or ends the scan (Strings.Lines). White space beyond ASCII and bytes that are no UTF-8 are read as
-- Sscanf and Fields read them (Strings.Utf8); TrimSpace takes off the white space of ASCII.
--
-- Parameters are the system calls, the ACL library (IdShift.Shift.Kernel, with its laws in
-- IdShift.Shift.Laws), the order in which godirwalk visits a tree and its
-- failures to read a directory, the set library
-- (IdShift.DirIds.Sets, OverlayUtils.Options.Sets), the table of file system names of utils/fs.go,
-- whose keys are constants of another library, Go's sort.Sort, the Docker client
-- (DockerUtils.Client.World), the TOML decoder, and Docker's TruncateID.
--
-- Not modelled: the time between two polls, log lines and the texts of most errors (an error says
-- which step failed, with its arguments); a caller of CreateUsernsProcess that goes on in the child
-- after its function has returned (the model ends there); capability, which is a modified copy of
-- another project's library.
mod Prelude
pub mod Strings
pub mod PidMonitor
pub mod IdShift
pub mod FileMonitor
pub mod LinuxUtils
pub mod Mount
pub mod OverlayUtils
pub mod Host
pub mod IdMap
pub mod ContainerdUtils
pub mod DockerUtils
pub mod Pidfd
pub mod Formatter
pub mod Utils
pub mod Watching
pub mod Shiftfs

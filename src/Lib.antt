-- ===== src/Lib.antt =====
-- The control plane of bap-web, a server that runs Firecracker virtual machines on one host: who
-- may call it, what it writes to its SQLite database, and what it tells the host to do.
--
-- A method of the program is a function from a world to a result and the next world (World.antt).
-- The world holds the database (Store/Db.antt), the commands that the host was given, and an
-- environment that answers for all that lies outside: the clock, random texts, the outcome of each
-- SQL statement and of each command, SHA-256, and the order by which SQLite sorts times. Each
-- interaction has a number and each answer may depend on it, so a statement or a command may fail
-- at any point, and what was written before stays written. Methods run one after another, but
-- for the jobs of Exec.
--
-- Parts, with their sources:
--   Text: functions of Go's strings, strconv and fmt packages on texts as sequences of runes.
--   Errors: DomainError of internal/lifecycle/service.go and appHTTPError, classifyError of
--     internal/app/app.go.
--   Model: the records of internal/model/model.go. Times are natural numbers (nanoseconds).
--   Config: internal/config/config.go, the fields and Validate.
--   Store: internal/store/store.go. Table has UPDATE, DELETE, COUNT and ORDER BY on lists of rows;
--     Vms, Networks, Access, Assets and Jobs have the methods, each with the statements that it
--     sends and the UNIQUE columns that it may violate.
--   Auth: internal/app/app.go. Request has what the middleware reads; Session has currentUser,
--     loginPost, logoutPost and setupPost; Token has currentTokenUser, createAPIToken,
--     revokeAPIToken and apiTokenStatus; Gate has requireAuth and requireAdmin. Calls puts the calls
--     of clients in a row, and Dead, Elsewhere and Revocation
--     follow a revoked token through them.
--   Lifecycle: internal/lifecycle/service.go. Names has the names of interfaces and paths; Cleanup,
--     Boot and Firewall have the commands for the host; Net and Overlap have IPv4 ranges and their
--     conflicts; Alloc has ports and addresses; Vms has start, stop, delete, restart, resize and
--     reconcile; Rules has networks, port forwards and egress policies. Quiet shows that the
--     commands write nothing to the database. Vms.Rows states what an invariant of the rows of
--     machines must satisfy and shows once that every operation keeps such an invariant; Vms.Bounds
--     and Vms.Frame are two of them. Vms.Unique has what the UNIQUE columns mean. Create has
--     CreateVM, Create.Resolve has
--     resolveKernelForVM of internal/lifecycle/kernels.go and resolveBaseImageForVM of
--     internal/lifecycle/images.go, and Create.Disk has prepareRootFS and what it writes into the
--     guest.
--   Kernels: internal/lifecycle/kernels.go. It has UpdateKernel, DeleteKernel and StartKernelTest;
--     Smoke has runKernelTest, which makes, starts and deletes a machine by the operations of
--     Lifecycle; Output has what internal/model/model.go reads from the output of a test; Names has
--     sanitizePathPart and other names. Frame and Rows follow the table of tests through one.
--   SshKeys: internal/sshkeys/sshkeys.go, over a parameter for the packages of cryptography.
--   Exec: commands in the guest, of internal/lifecycle/service.go. Request has
--     normalizeVMExecRequest; Shell has shellQuote and buildRemoteExecCommand, and Shell.Reader is an
--     independent reader of a POSIX shell's words; Buffer is limitedBuffer; Run has ExecuteVMCommand; Jobs
--     has StartVMExecJob, runVMExecJob and CancelVMExecJob. A job is cut into parts at its statements on its row
--     (advance). In Jobs.Race the steps of its goroutine, of calls that cancel it and of others
--     follow each other in any order.
--
-- Loops: those over lists are structural. first_port counts down the length of the range of ports.
-- p2p_from has a quarter of the range's size and one as its fuel, since its offset grows by four,
-- and shared_from has the size. deleteTapDevice has its eight rounds. run_vm_exec_job has the five
-- parts of runVMExecJob as its fuel. wait_for_kernel_test_ssh has 46 rounds: its deadline is 90
-- seconds away, and two seconds pass between two rounds.
--
-- Integers: addresses and offsets are natural numbers with the uint32 sums written out (%), as far
-- as the source adds in 32 bits. Go's int is the integer that it stands for, where it may be
-- negative.
--
-- Not modelled: IPv6 (a text of an IPv6 address counts as no address), the time that waiting
-- takes, the cancellation of requests (a context that is done is one reason for which a statement or a command
-- may fail), the text of logs, and paths that are not clean. Registration and building of images,
-- registration and discovery of kernels, terminals, pages and JSON rendering,
-- migrations of the database, and loading of the configuration are left out.
mod Prelude
pub mod Text
pub mod Model
pub mod Errors
pub mod Exec
pub mod Store
pub mod World
pub mod Auth
pub mod Config
pub mod Lifecycle
pub mod Kernels
pub mod SshKeys

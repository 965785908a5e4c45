-- ===== src/Lib.antt =====
-- Home Server OS: the C program.
--
-- The program is a set of C files, each with its state in static variables and its interface in a
-- few functions over them. A file of the program is a module here: its static variables are the
-- fields of one record, each of its functions is a function that takes the record and returns it
-- behind its result, and each loop body or group of stores that a proof has to speak of is a
-- definition of its own. The modules and what they model:
--
--   Firewall (Rules, Filter, Defaults)   security/firewall/firewall.c, firewall_*
--   Auth (Hash, Users, Verify, Login, Lockout, Default)
--                                        security/firewall/firewall.c, auth_* and simple_hash
--   Vm (Create, Control, Delete, Stats, Reach)
--                                        virtualization/vms/vm.c, vm_*
--   Container (Create, Control, Delete, Ports, Reach)
--                                        virtualization/containers/container.c, container_*
--   Memory (Frames, Usage)               kernel/memory/memory.c
--   Filesystem (Claims, Blocks, Inodes)  kernel/fs/filesystem.c
--   Network (Checksum, Slots, Transfer, Reach)
--                                        kernel/net/network.c
--   Scheduler (Chain, Ring, Round, Turns, Create, Steps, Reach)
--                                        kernel/scheduler/scheduler.c
--   Monitor (Ring, Logs, Alerts, Metrics, Gather)
--                                        monitoring/monitor.c
--   Backup (Records, Expire, Cleanup, Schedule)
--                                        backup/backup.c
--   Terminal (Screen)                    kernel/core/kernel.c
--   Services (Start)                     system/init/init.c
--   Api (Paths, Dispatch, Routes)        web/api/api.c
--   Storage (Transfer, Probe)            drivers/storage/ata.c
--   Base (Table, Bitmap, Text, Bits, Shifts, Int, Lists, Tests)
--                                        the loops that the files share, and the laws of these
--
-- A function keeps its name without the file's prefix: `vm_create` is `Vm.create`, `auth_verify_user`
-- is `Auth.verify`. The record of the static variables is named for the whole (`Vms`, `Auth`,
-- `Containers`, `Memory`, `Filesystem`, `Firewall`, `Network`, `Scheduler`, `Monitor`, `Backups`,
-- `Terminal`, `Api`, `Storage`), and a child module holds the proofs on the functions in its first line. Most
-- tables of the program are one shape, a fixed array whose first entries are live, each under an id
-- from a counter; Base.Table has the loops over it, written as the source writes them, and the
-- invariant `IsTable` that all the clients share. The two managers are clients of it in the same
-- way, with a table of moves (`next_state`) as the specification of their life cycle and a step
-- relation (`Reach`) for histories of calls.
--
-- How the parts interact: `Scheduler.task_create` calls `Memory.kmalloc`, and Scheduler.Create keeps
-- the two states together (`IsPlaced`: each task stands in a frame that is given out, and off the
-- words of the allocator's bitmap).
-- `Monitor.update_system_stats` and `Monitor.check_alerts` take the states of the memory, the file
-- system, the tasks and the network (`Machine`) and call their functions. The other files do not
-- call each other; the functions that `Services.init_system` calls are a parameter of it, and so are
-- the ports of the disks (`Storage.Ports`), since `inb` and `outb` are inline assembly.
--
-- Abstract views: the tasks are a list of addresses (`Chain`) that the round reads as a ring
-- (`IsRing`); the log is a list of which the last 1000 entries are kept (`Monitor.Ring.Holds`); the
-- routes are a list of endpoints (`Api.Dispatch.Holds`); the checksum is a sum modulo 65535.
--
-- How C is read:
--   - an unsigned number is a natural number, and each operation that can leave its width is taken
--     modulo 2^w where it stands; an int that may be negative is `Int.ℤ`; an enum is a data type,
--     and the numbers by which C compares its values are written out;
--   - a `char` array is the list of all its bytes, of the declared length by the invariant; a
--     `const char *` is the list of the bytes before its NUL. `char` is signed, as on x86;
--   - a pointer result is `none` for NULL or `some` of what it points to; an address of the memory
--     allocator is its number, and a pointer to a task is its address, behind which the store has
--     the structure;
--   - a write past the end of a table is the result `none` of the whole function
--     (`Table.write_at`), and that this does not happen is proved, or its exact condition is;
--     where a guard of the source keeps the index in range the write is `Table.update_at`;
--   - the bitmap of the memory allocator lies in memory that the allocator hands out. A state of the
--     allocator has the address of the bitmap, and a `task_create` whose stores would reach it has the
--     result `none`; `Scheduler.Create` says when that is. Other overlaps of memory (with the image
--     of the program, say) are not modelled;
--   - a caller's buffer is passed in and returned;
--   - the product by 0.9 of `check_alerts` is compared in whole numbers, with the same outcome.
--
-- Fuel: the loops that follow pointers or whose end depends on the data recur on fuel, and `none` is
-- the result where it runs out. These are the carries of `Network.checksum` (3 rounds, enough for
-- any 32-bit sum), the walks over the tasks (more rounds than tasks), and the two loops of
-- `Backup.cleanup_old` (31 rounds each, one more than the table has entries); the theorems on them
-- say that the result is there. `ata_wait` ends when the disk does; the theorems on it have a fuel that
-- the disks of the parameter never use up. Every other loop has its bound in the source and is recursion on the
-- rounds left or along the array.
--
-- The memory that a table occupies when the program starts is not assumed to be zero where the
-- theorems on the `init` functions do not say so; they assume the declared sizes, and the counts of
-- disks and ports that a static array starts with. Ids come from 32-bit counters; the theorems on
-- creation ask for a counter that has not reached its end.
--
-- Not modelled: bootloader/boot.asm, which is assembly; the HTML of web/admin-panel, the scripts and
-- the configuration files, which hold no C.
pub mod Base
pub mod Firewall
pub mod Auth
pub mod Vm
pub mod Container
pub mod Memory
pub mod Filesystem
pub mod Network
pub mod Scheduler
pub mod Monitor
pub mod Backup
pub mod Terminal
pub mod Services
pub mod Api
pub mod Storage

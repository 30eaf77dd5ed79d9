-- ===== src/Lib.antt =====
-- The user-space library of crono_pci_linux, which gives programs access to cronologic PCI cards on
-- Linux: it scans the PCI directory of sysfs, opens and closes cards, maps their BARs, reads and
-- writes device memory and the configuration space, and locks DMA buffers through a driver module.
--
-- The parts and their files:
-- - Types: the structs of include/crono_kernel_interface.h, src/crono_kernel_private.h and
--   src/crono_linux_kernel.h, which are the requests to the driver module, and the codes that the
--   functions return. An `int` or `uint32_t` code is its 32-bit pattern.
-- - Os: the calls of Linux, of the allocator and of the driver module, a record of functions on a
--   state of their own. No code of theirs is modelled: every definition takes this record as an
--   argument, and a theorem that relies on what a call does says so in a hypothesis.
-- - Machine: the process, with its descriptors, directory streams, mappings, heap, `errno` and the
--   globals `devices` and `iNewDev` of src/crono_kernel_interface.cpp. A function is a run on it,
--   which ends in a value or in undefined behaviour: a bad pointer, a block that is not live, an
--   index out of bounds. Machine/Returns states total correctness of a run, Machine/Keeps what
--   the heap and the table are if it ends, Machine/Files what it leaves open then, Machine/Frame
--   what a call leaves alone, Machine/Heap the allocator.
-- - Format: the formats of `snprintf` and `sscanf` in include/crono_userspace.h,
--   src/crono_linux_kernel.h and src/crono_kernel_interface.cpp, character by character.
-- - Sysfs: src/sysfs.cpp, with the configuration file of a device (`crono_read_config`,
--   `crono_write_config`, `crono_read_vendor_device`, `crono_get_config_space_size`) and
--   `crono_get_sys_devices_directory_path`. Each function bears the name that it has there.
-- The other files are about src/crono_kernel_interface.cpp, with names without `CRONO_KERNEL_`:
-- - Device: the macros that every function with a handle starts with.
-- - Bars: `fill_device_bar_descriptions`, `GetBarDescriptions`, `GetDeviceBARMem`.
-- - Table: `freeDeviceMem`, `freeDevicesMem`, `onUnload`.
-- - Open: `PciDeviceOpen`, which uses Sysfs, Bars and Table, and `PciDeviceClose`.
-- - Scan: `PciScanDevices`, which uses Sysfs.
-- - Access: `ReadAddr8` to `ReadAddr64`, `WriteAddr8` to `WriteAddr64`, `ReadAddr`, `WriteAddr`. The
--   four widths of a function have one body with the width as a parameter.
-- - Config: `PciReadCfg32`, `PciWriteCfg32`, `GetDeviceMiscName` and the functions that do nothing.
-- - Dma: `DMASGBufLock`, `DMASGBufUnlock`, `DMAContigBufLock`, `DMAContigBufUnlock`,
--   `CardCleanupSetup`.
-- - Valid: what a well-formed heap and table of devices are, and the changes that keep them so. The
--   modules Keeps of the parts (in Dma: Plain, Objects and Dropped) are about this invariant, and
--   their modules Files about the descriptors and the directory streams.
-- - Session: a program's use of the library. A step is a call of a function of
--   include/crono_kernel_interface.h with any arguments (the functions that do nothing are left
--   out), or a change outside of it, which leaves the blocks and the table alone; a state is
--   reachable if steps lead to it from the loaded library. Session/Found is a scan with an open.
-- - Config/Space: the configuration space as an array of bytes with reads and writes, and
--   Config/Refine: the functions on the configuration file as an implementation of it.
-- - Tests: a simulated system, small runs, and the theorems at concrete inputs.
-- A function whose body is long is split at its error labels and behind its loops, as in
-- `device_error` or `finish_bars`, and the pieces call each other as the code continues.
--
-- Loops: those over directory entries, slots and BARs recurse on the list or on the number of rounds.
-- The loops of `crono_read_config` and `crono_write_config` have one round more of fuel than bytes
-- are asked for: each round but the last moves at least one byte. Running out of fuel is undefined
-- behaviour in the model.
--
-- Bounds: the code's 32-bit and 64-bit wrap-around is written out where a value can exceed its type
-- (BAR lengths, file offsets, page counts). `malloc` gives NULL or a block that is not in use; the
-- code uses the device block without a test for NULL, which is undefined behaviour in the model.
-- An uninitialised variable holds an unknown number, `garbage`, cut to the width of its type; all of
-- them hold the same one.
--
-- Not modelled: what is printed, the contents of locale-dependent conversions, threads (the code has
-- no locks), `crono_get_BAR0_mem_addr`, which is declared and defined nowhere, and the build files.
-- Reads of a freed but not reset pointer value are values in the model, not errors; accesses through
-- it are errors.
pub mod Base
pub mod Types
pub mod Os
pub mod Machine
pub mod Format
pub mod Sysfs
pub mod Device
pub mod Bars
pub mod Table
pub mod Open
pub mod Scan
pub mod Access
pub mod Config
pub mod Dma
pub mod Valid
pub mod Session
pub mod Tests

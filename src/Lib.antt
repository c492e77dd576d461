-- ===== src/Lib.antt =====
-- A model of scaphandre, which measures the electric power of a host and of its processes, and of
-- the theorems that make it correct. Paths are those of the repository.
--
-- The program reads energy counters (RAPL) from sysfs files at intervals, keeps the readings in
-- buffers for the host, its CPU sockets and their domains, and computes power from the two newest
-- readings. An eBPF program in the kernel accounts CPU time to processes and reports when a socket
-- is idle or has one active CPU; from that a background power is estimated and taken off. Exporters
-- turn the measurements into metrics.
--
-- The files:
-- Base: shared names, Boolean tests, lists, unsigned words, the stable sort and integers.
-- Text: decimal numbers and blanks in strings (`to_string`, `parse`, `trim` of the standard library).
-- F32: the one use of `f32`, a quotient of sizes in the cleaning routines.
-- Float: `f64` as a parameter, with fractions as an instance for the examples.
-- Units: scaphandre/src/sensors/units.rs.
-- Buffer: the cleaning routines of scaphandre/src/sensors/mod.rs.
-- Sensor: records, statistics, domains, cores and sockets of scaphandre/src/sensors/mod.rs, with the
-- readers of scaphandre/src/sensors/powercap_rapl.rs, and the events of scaphandre-common/src/lib.rs.
-- Tracker: the processes and the process tracker of scaphandre/src/sensors/utils.rs, its lookups, its
-- cleaning and its ranking of the consumers; the order of `OrderedFloat` is a parameter.
-- Kernel: the handlers of scaphandre-ebpf/src/main.rs over their maps. The maps are a record of
-- operations with the documented laws, which Kernel/Functions fills with functions.
-- Topology: the host of scaphandre/src/sensors/mod.rs: its sockets, the events of the kernel part, the
-- CPU times, the shares of the cores and of the processes, the energy of the host, the names of its
-- domains, its cores, its disks and memory, and the whole of `refresh`.
-- Powercap: scaphandre/src/sensors/powercap_rapl.rs, which makes the host out of the folders of sysfs;
-- the matches of its regular expressions are a parameter.
-- Msr: the fields of the registers that scaphandre/src/sensors/msr_rapl.rs reads, on Windows.
-- Exporters: the texts of scaphandre/src/exporters/utils.rs, scaphandre/src/exporters/qemu.rs over an
-- interface of the file system, and in Exporters/Metrics the metric generator of
-- scaphandre/src/exporters/mod.rs, as it is built without the feature for containers. Exporters/Json has
-- the disks and the sockets of the report of scaphandre/src/exporters/json.rs.
--
-- How the code is read: a method that changes an object returns the new object; `Option` with
-- `none` stands for a panic where a comment says so. Unsigned arithmetic wraps, as in the release
-- profile, which leaves overflow checks off. A duration is its number of nanoseconds. The clock, the
-- files, /proc/stat, registers and perf counters are arguments of the operation that reads them; one
-- operation reads the clock once. The sizes of the elements of the buffers are a parameter, as the
-- compiler fixes them. Logging is left out. A pid is an `i32`, as on Linux.
--
-- Bounds and fuel: printing a number n has n + 1 rounds of fuel, more than its digits; the scale of a
-- rounded quotient is found in 128 rounds, since a `usize` is below 2 ^ 64. The theorems on the buffers
-- ask for less than 2 ^ 24 bytes before an operation, where `f32` is exact; histories need no such
-- bound. The loops of the handlers in the kernel have the rounds of the code, 256 CPUs and 64 sockets.
--
-- A map that the code iterates over is a list, in the order of insertion, which is one of the orders that
-- the code can meet.
--
-- Not modelled: the calls of the driver and the topology of the MSR sensor of Windows, the containers,
-- the rest of the report of json.rs, and the exporters but the one for qemu, which hand the metrics to
-- network libraries or print them; the aya, procfs, sysinfo, perf_event, regex, docker and kubernetes
-- libraries, the generated kernel types, start-up and the command line.
pub mod Base
pub mod Text
pub mod F32
pub mod Buffer
pub mod Float
pub mod Units
pub mod Sensor
pub mod Tracker
pub mod Kernel
pub mod Topology
pub mod Powercap
pub mod Exporters
pub mod Msr

-- ===== src/Lib.antt =====
-- Plum-OS is a kernel for x86-64 with its drivers, libraries and user programs. This library
-- models the parts of it that are logic rather than device access, and proves that they are
-- correct.
--
-- Parts and files:
-- * Std/RingBuffer.antt models src/libs/std/Ring_Buffer.hpp: `RingBuffer` has the array, `head` and
--   `tail`; `empty`, `full`, `clear`, `push` and `pop` have the names of the methods. The template
--   parameter `size` is an argument, and the value-initialised element is another. RingBuffer/Queue
--   is the queue that clients expect, RingBuffer/Refine relates the two.
-- * Std/CString.antt models strcmp, strncmp, strlen and strcpy of src/libs/std/string.cpp.
--   CString/Compare and CString/Copy hold their proofs.
-- * Std/Memory.antt models memcpy, memmove, memset and memcmp of src/libs/libc/memory.cpp over a
--   memory of bytes. Memory/Move and Memory/Copy hold the proofs.
-- * Std/Vector.antt models src/libs/std/vector.hpp: `Vector` has `m_data`, `m_size` and `m_capacity`,
--   and the functions have the names of the methods (`is_empty` is `empty`, `at` is `operator[]`).
--   `Lifetime` is the size of the elements and what their destructors and assignments do; `places`
--   is how many of them fit into the block that `reserve` gets. Vector/Contents says which
--   values a vector holds, Vector/Refine what each method does to them, Vector/Run relates any call
--   to the call on a list, Vector/Unique has `unique_ptr` of src/libs/std/unique.hpp as the element.
-- * Drivers/Disk.antt models `read`, `read_bytes` and `write_bytes` of src/Drivers/achi/ahci_device.h
--   over a `SectorPort`, the port. Disk/Port says what is relied on of it, Disk/Read and Disk/Write
--   hold the proofs. Disk/Device is the interface that file systems take, `Device` with the laws
--   `IsDevice`, and `ahci_device` with the proof that it keeps them. Disk/Ram is a disk in memory.
-- * Drivers/Fat32.antt models the structures of src/Drivers/fs/FAT32/Data_structures.hpp,
--   `validate_fat32` of fat32.cpp and `mount` and `calculate_lba` of FAT32FileSystem.cpp and .hpp.
--   Fat32/Table has `get_next_cluster`, `find_free_cluster` and `set_next_cluster`, with the proofs
--   in Table/Entries (where an entry lies), Table/Get, Table/Set and Table/Find. Fat32/Directory is
--   `open`, here `open_file`, with the loop `search`; Directory/LongName is about the long name that
--   it reads, with Directory/Terminated, and Directory/Found about the round that compares it. Fat32/File is FAT32File.cpp: `read`, `seek`,
--   `stat` and `update_file_entry`, and File/Change `write` and `truncate`; File/Chain says which
--   bytes a file has, File/Read and File/Complete are about `read`, File/Empty about `write` to a
--   file with no cluster and `truncate`, File/Ends about the end of `write`. Fat32/Mount is about
--   what a mounted volume has, Fat32/Place about where its clusters are. All of it runs over a `Device`; the table, the directory and the
--   files share the disk that it shows.
-- * Drivers/Network/Common.antt models src/Drivers/Network/Common.cpp: the byte order, `ipv4_to_str`
--   with `write_num`, `checksum` with the loops `add_words` and `fold_sum`, and `ipv4_checksum`.
-- * Drivers/Network/Arp.antt models src/Drivers/Network/ARP: `receive_arp` with the loop `remember`,
--   `send_arp` and `arp_lookup` with the loops `cached` and `wait_for`. The cache is a list; the
--   frames to send are part of the results.
-- * Drivers/LittleEndian.antt has numbers as bytes in memory.
-- * Kernel/Heap.antt models src/kernel/Memory/heap.cpp: `heap_init`, `malloc`, `free`, `check_heap`,
--   `check_free_heap` and `check_used_heap`. `Heap` has the globals and, as `memory`, the block
--   headers by their addresses; `split_block`, `take_block`, `malloc_from`, `merge_right`,
--   `merge_left` and `sum_from` are the loops and their bodies. Heap/Layout says how a list of blocks
--   lies in memory, Heap/Malloc and Heap/Free what the operations do to that list, Heap/Tidy what
--   they keep, Heap/Regions which memory is handed out, Heap/Sums has the start and the sums.
-- * Kernel/Vfs.antt models src/kernel/Process/FileDescriptor.cpp: `mount`, `mount_matches` and
--   `open`, here `open_path` with the loop `best_mount` and the end `relative_path`. It calls the
--   string functions as Std/CString has them. Vfs/Longest, Vfs/Table and Vfs/Open hold the proofs on
--   matching, on the table and on the choice of the mount.
-- * Kernel/Process.antt models the threads of src/kernel/Process/Process_manager.cpp:
--   `create_thread`, `pick_next_runnable`, `schedule` and `exit_current`, over `Scheduler`, the
--   globals. `resume`, `switch_to`, `end_current` and `leave` are the pieces of the last two.
--   Process/RoundRobin is about the choice of a thread, Process/Switch and Process/Exit about the
--   switch to it. Process/Timer has what src/arch/x86_64/IDT/handlers.cpp does for a timer interrupt,
--   `timer`, which counts the interrupts of a turn and calls `schedule` at its end; Process/Turns is
--   about one of them, Process/Fairness about runs of them.
-- * Kernel/Syscall.antt models src/arch/x86_64/syscall/ksyscall.cpp and, from
--   src/kernel/Process/Process_manager.cpp, `alloc_fd`, `release_fd`, `create_open_file` and
--   `release_open_file`. `Files` has the table of the current thread, the open files by their
--   addresses and the state behind the virtual methods; `kopen` is cut into `vfs_open`,
--   `kopen_object`, `describe` and `install`. Syscall/Table is about `alloc_fd`, Syscall/Open about
--   `kopen`, Syscall/Close about `kclose`, Syscall/Linked and Syscall/Keep about the open files and
--   the descriptors that lead to them, over one such call and over any number.
-- * Prelude.antt and its children have the shared names, tests on numbers and lemmas on lists.
--
-- Numbers and pointers: a uint64_t or uint32_t is a natural number and every addition or
-- subtraction that could leave its range is written with the remainder. A pointer is its address,
-- 0 for nullptr, or an option where only the test for nullptr matters.
--
-- Loops: the loops over the list of blocks run on fuel, one more than the number of headers that
-- fit between `heap_start` and `heap_end`; a heap in the sense of `Holds` has no more blocks than
-- that, so that the fuel is enough. The loops over texts run on fuel, one more than the bytes of
-- the text, and the first loop of `memcpy` on one more than the size. `none` stands for running
-- out of it, and the theorems show that this does not happen. The loops of `read_bytes`,
-- `write_bytes` and of `read` and `write` of a file run on one more than the number of bytes, as
-- each round moves at least one, and the loop that folds a checksum on four, which is enough for 32
-- bits. The other loops are bounded by their counters.
--
-- What comes from outside: the file systems behind the mounts are elements of a type `FS`, which
-- `open_path` only hands out; the methods of file systems and file objects are the record
-- `Objects`, any functions on any state. The address that `new` returns for an open file is an
-- argument, and a function of the open files where there are many calls. The frames that `schedule` saves, the addresses of the stacks and the bytes of a frame
-- are numbers given as arguments.
--
-- The port of the disk is a record of any functions; the laws that the theorems rely on are that it
-- reads what a sector holds and that a write changes that sector only.
--
-- Not modelled: the aligned variants of `malloc`, memset16 and memset32; the dispatch of system
-- calls by number; the hash map; of FAT32 the setup from the partitions and the list of open files;
-- partitions and device files; the network above the resolution of addresses; paging; device
-- registers, interrupt tables and assembly; graphics, floating point and the user programs;
-- printing.
pub mod Prelude
pub mod Std
pub mod Drivers
pub mod Kernel

-- ===== src/Lib.antt =====
-- A model of the kernel of KinnowOS (directory kernel/), with parts of the C library of its user
-- programs (sys/libio/): the allocator of real storage, the memory and text primitives and the
-- dynamic list that the rest of the kernel stands on, the scheduler, the users, the virtual disk,
-- the character sets, the device tree, virtual storage, the byte order, the locks, the zDSFS file
-- system, the program loader, and the ciphers.
--
-- The parts and how they interact. The allocator (kernel/real.cxx) hands out blocks of the
-- storage regions. The list (storage::dynamic_list of kernel/storage.hxx) keeps its elements in
-- one such block. The scheduler (kernel/timeshr.cxx) keeps jobs, tasks and threads in lists, and
-- the user system (kernel/user.cxx) its users, with names that the text primitives copy and
-- compare. The virtual disk (kernel/vdisk.cxx) keeps a tree of nodes with lists of children, asks
-- the user system for the caller when it checks a permission, compares names with the memory
-- primitives and letters of drives by way of the character sets (kernel/locale.cxx). The device
-- tree (kernel/fdt.cxx) is read with the text primitives and the classes of characters. Virtual
-- storage (kernel/s390/virtual.cxx) keeps tables that the allocator gives, and the program loader
-- (kernel/elf.cxx) compares and patches an image in storage. The zDSFS file system
-- (kernel/zdsfs.cxx) reads and writes records of a disk by way of a handle. The locks
-- (kernel/mutex.hxx) guard what several threads use. The ciphers (kernel/crypto.cxx) work on
-- buffers of bytes.
--
-- Which file models which part:
--
-- - Prelude and its children: names of the libraries passed on, Boolean tests, lists indexed by
--   native numbers, integers, checks over small ranges. Words: machine arithmetic of 32 bits, the
--   laws of exclusive or in Words/Xor, and masks and fields of bits in Words/Fields.
-- - Real: kernel/real.cxx and kernel/real.hxx. Descriptors of a heap are a function from their
--   index; `create` is block::create with its growth `grow`; `walk`, `carve`, `split_left` and
--   `cut_right` are the loop of real_storage::alloc, its body and the two cuts; `alloc` goes
--   through the regions; `create_region` is region::create; `get_stats` keeps its name. Real/Spec
--   says what an allocation is on the list of blocks; Real/Chain, Real/Slots, Real/Carve,
--   Real/Walk and Real/Alloc lead from the pointers to it; Real/Align, Real/Init and Real/Counts
--   are about the room test, new regions and the statistics. Real/Release and its children:
--   block::merge (`merge`, its loop `merge_ahead`) and real_storage::free (`free_walk` in one
--   region, `free_regions` over the table). Real/Resize: real_storage::realloc, with the byte
--   memory that it moves.
-- - Storage/Memory: storage::copy, move, fill and compare of kernel/storage.hxx, and memset of
--   kernel/storage.cxx. Storage/Text: the namespace storage_string. Storage/DynamicList:
--   storage::dynamic_list.
-- - Timeshare: timeshare::next, job::remove and task::remove of kernel/timeshr.cxx; `turn` is one
--   job of the outer loop of `next`, `search` the loop. Timeshare/Create: the creations of jobs,
--   tasks and threads; Timeshare/Create/Bounds: the indices of the scheduler over all its
--   operations.
-- - User: user::create, get_by_name and get_by_id of kernel/user.cxx.
-- - Disk: kernel/vdisk.hxx and kernel/vdisk.cxx. Nodes stand in a store, a function from their
--   number, and a driver is a record of callbacks over a state of its device. Disk/Perms is
--   node::check_perms; Disk/Nodes has add_child, remove_child and create, with Disk/Nodes/Names
--   and Disk/Nodes/Frame about them; Disk/Path has get_drive, resolve_path_relative
--   (`follow_letters` its first loop, `find_file` from the label of that name on, `match_child`
--   the loop over the children), resolve_path, open_path and init; Disk/Handle has the operations
--   of a handle, Disk/Handle/Guard and Disk/Handle/Buffer what holds of them.
-- - Locale: kernel/locale.hxx, with the tables of kernel/locale.cxx in Locale/Tables.
-- - Fdt: kernel/fdt.cxx and kernel/fdt.hxx; get_node_address in Fdt, with Fdt/Address about it,
--   and get_prop in Fdt/Walk, get_node in Fdt/Search. Fdt/Format is the format of a tree as
--   bytes, with Fdt/Format/Reads and Fdt/Format/Parse about how the code reads it;
--   Fdt/Walk/Property and Fdt/Search/Nodes are about the walks over tokens, Fdt/Walk/Tree,
--   Fdt/Search/Tree and Fdt/Search/Unit about the two functions over an encoded tree.
-- - Printf: the conversion of a number in vsnprintf of kernel/printf.cxx, with Printf/Number
--   about it. Printf/Format is vsnprintf, over a byte memory; `put_text` is the loop of a text,
--   `format` that of the format. Printf/Format/Plain and Printf/Format/Overflow are about formats
--   without conversions and about a text. Printf/Console is dputs, kvprintf and kprintf, with
--   Printf/Console/Prints about them.
-- - Libio: Libio/Ctype is sys/libio/ctype.cxx, Libio/Number has atoi and libio_ulltoa of
--   sys/libio/stdlib.cxx, with Libio/Number/Digits and Libio/Number/RoundTrip about them,
--   Libio/Environ has setenv and getenv of that file, with Libio/Environ/Lookup about them, and
--   Libio/Strings is sys/libio/string.inl, with Libio/Strings/Compare, Search and Bounded about
--   it.
-- - Virtual: kernel/s390/virtual.cxx and kernel/s390/virtual.hxx on z/Architecture; `map_new` and
--   `map_old` are the two ways of map_page, `map_loop` the loop of map_range, `find_segment` and
--   `find_page` those of phys2virt. Virtual/Entries is about the masks, Virtual/Translate about
--   what a call of map_page sets, Virtual/Pages, Virtual/Range, Virtual/Reverse and Virtual/New
--   about the translations.
-- - Byteswap: kernel/byteswap.hxx, with Byteswap/Order about it.
-- - Mutex: kernel/mutex.hxx; `access` is one access of a thread to the lock, `Step` a whole call.
--   Mutex/Atomic and Mutex/Race are about the two.
-- - Zdsfs: kernel/zdsfs.cxx and kernel/zdsfs.hxx over a disk as a record of operations;
--   `space_loop`, `lookup_loop` and `read_loop` are the loops of find_free_space, get_fdscb and
--   read_file. Zdsfs/Chain says what the chain of control blocks is; Zdsfs/FreeSpace,
--   Zdsfs/NewFile, Zdsfs/Lookup and Zdsfs/ReadFile are about the functions.
-- - Elf: kernel/elf.cxx and kernel/elf.hxx, the checks of an image and do_reloc_add with
--   reloc_patch; Elf/Patch and Elf/Escape are about them.
-- - Crypto/Block: the loop over the blocks of a buffer that XTEA and Blowfish share; Crypto/Xtea,
--   Crypto/Blowfish, Crypto/Rsa, Crypto/Arc4: the ciphers of kernel/crypto.cxx;
--   Crypto/Blowfish/Genkey makes the keys of Blowfish from the tables of Crypto/Blowfish/Tables.
-- - The modules named Tests: the theorems at concrete inputs.
--
-- State. Memory is a function from addresses to bytes; a pointer is an address, and addresses do
-- not wrap. A word of w bits is a number below 2 ^ w with the wrap-around written out. Operations
-- that change state return the state afterwards. Where a call can fail, the result says so
-- (`Option`, `Outcome`, `Allocation`).
--
-- Fuel. The loops that are not bounded by a count run on fuel: the walks over a chain of blocks
-- need more fuel than the chain has blocks (for `free_walk` one more), the text primitives more
-- than the text has characters, `search` of the scheduler as many turns as there are jobs, the
-- search for an RSA exponent more than the distance to its bound, the resolution of a path more
-- than the path has characters, the walks over the chain of control blocks as many reads as the
-- chain has, `get_prop` and `get_node` as much as there are tokens and characters of names of
-- nodes in its way, the digits of a number one more than there are digits, and `vsnprintf` more
-- than the characters of the format and of the text that it prints. The theorems that need it
-- have the bound as a hypothesis, and give a result under it; where a loop of the source does not
-- end, the theorem says so for every fuel.
--
-- Not modelled: the locks of the regions and of the lists (a call runs alone), assertions
-- (compiled out of a release build; that of setenv is a result of its own), the machine context
-- of a thread, its stack and the address space of a job; and the parts of the kernel that talk to
-- devices, the drivers of disks, the boot loader or the network; of zDSFS the nodes of datasets
-- and the callbacks, of the program loader the loading of sections and symbols; of printing the
-- diagnostic call of s390 and kpanic, which does not return; of the virtual disk the lists of
-- nodes that drivers register, and the output for debugging. Of the library of the user programs
-- (sys/libio) the files, jobs and floating point. The compiler (sys/jda), the graphics library
-- (sys/libgl), the utilities and the tools are other programs.
mod Prelude
pub mod Words
pub mod Storage
pub mod Crypto
pub mod Real
pub mod Timeshare
pub mod User
pub mod Locale
pub mod Disk
pub mod Libio
pub mod Fdt
pub mod Printf
pub mod Virtual
pub mod Byteswap
pub mod Mutex
pub mod Zdsfs
pub mod Elf

-- ===== src/Lib.antt =====
-- osAX, a hobby kernel for x86_64: a model of parts of its C code, with the properties that make
-- them correct.
--
-- Memory/Physical (kernel/memory/physical_mm.c): the bitmap of 4 KB pages. The statics of the file
-- are the record `Pmm`; `alloc_page`, `alloc_pages`, `free_page` and `physical_mm_init` are the
-- functions of the same names. Loops recur on the number of rounds left, which is fixed when a loop
-- starts, so no fuel is needed. Bit operations are the native ones on words of 32 bits; Base/Bits has
-- their laws. The linker's `__bss_end` and the old contents of the bitmap's memory are arguments.
--
-- Memory/Heap (kernel/memory/heap.c, include/memory/heap.h): the block headers in a store by
-- address, walked through `next` and `prev`. `find_free_block`, `split_block`, `coalesce_blocks` (in
-- its two halves `merge_next` and `merge_prev`), `kfree` and `heap_get_stats` are in Heap.antt;
-- `kmalloc`, `krealloc`, `expand_heap` and `heap_init`, which ask for pages, are in
-- Heap/Requests.antt over a source of pages. A read through a pointer to no header is a fault. The
-- walks take fuel; one round for each block is enough. Heap/Slots.antt has the sequence of slots that
-- a region of the heap stands for, with first fit and joining on it, Heap/Chain.antt when the headers
-- stand for it; Split, Merge, Release and Find have the parts of `kmalloc` and `kfree`, and Client
-- what a caller sees.
--
-- Memory/Paging (kernel/memory/paging.c, include/memory/paging.h): the four levels of page tables, kept
-- by address, over the page allocator of Memory/Physical. Tables.antt has `map_page`, `unmap_page` and
-- `get_physical_address`, Virtual.antt `kmalloc_virtual` and `kfree_virtual` with their list of free
-- regions. Walk has the same walks as recursions on the level, Tree when the tables form a tree on
-- pages in use, Pages, Link, Ensure and Lookup the parts of a step down the tree, Mapping the walk as a
-- whole. Huge has the tables without the sixteen huge pages of `paging_init`, which is not modelled
-- itself: the code does not test whether an entry is of a huge page, so what is said of an address is said
-- of those beside them. Addresses says what a walk means for an address, Ranges, Regions and Allocation
-- what `kmalloc_virtual` hands out.
--
-- Memory/Dma (kernel/memory/dma.c): the pool of buffers below 1 MB, its blocks as a list in the order
-- of their pointers; whether `kmalloc` has a node for a split is an argument. Tiling says when the
-- blocks fill the region, Take is about `dma_alloc` and Give about `dma_free`.
--
-- Kstring (kernel/lib/string.c, kernel/lib/kstring_util.c): C strings as the bytes in front of their
-- NUL. Compare has what `strcmp` and `strncmp` tell, Search `strstr` and `strchr`, Number `itoa`, Hex
-- `ksscanf_hex` with the digits that MetaFS writes, Format `ksprintf`, in which a write behind the
-- digit buffer of 16 places is a fault.
--
-- MetaFs (kernel/fs/metafs, include/fs/metafs.h): the index of objects. The context is the record
-- `Context`. Index and Fields have the functions on the entries in memory, whose loops recur on the
-- rounds left and the entries from the present one on; Index/Live and Index/Change say what the loops
-- find and write, Objects, Names and Resolve what comes of it. Path has the views and paths of the
-- shell, Path/Normal `metafs_normalize_path`, whose loop takes one round for each character at most,
-- Path/ObjectName the names that are made of ids.
-- Store has what lies on the volume: Store/Layout the bytes of the index, Store/Links the links of
-- views, Store/Setup the views and objects of a new system. The volume is a parameter, the record
-- `Files` of the operations of exFAT.
--
-- Process (kernel/core/process.c, include/core/process.h): the list of processes and the scheduler.
-- Schedule says which process runs. The memory that blocks, page directories and stacks come from is the
-- parameter `Memory`.
--
-- Exfat (kernel/fs/exfat, include/fs/exfat.h): the disk in memory and the lower half of the file system.
-- A buffer is a function from offsets to bytes; buffers that the code takes from `kmalloc` are taken to
-- be there. Disk has the sectors and clusters, Fat the chain of clusters, Entries what writing an entry
-- changes, Allocate the search for a free cluster, Sectors and Clusters what is read after a write, File
-- the functions on open files, Contents and Read which bytes `exfat_read` gives. Its loop takes fuel: one
-- round for each byte is enough. Write has `exfat_write`, whose loop takes as many rounds, Overwrite
-- what the loop changes and Update what is read after it; what `exfat_update_file_size` does to the
-- directory is an argument. Format has `exfat_format` and `exfat_mount`, Replaced which bytes the writing
-- of a sector changes, and Mount what mounting finds after formatting. Directories are not modelled.
--
-- Keyboard (kernel/drivers/keyboard.c): the ring of scancodes, the modifier keys and the reading of a
-- line. The statics of the file are the record `Keyboard`; `keyboard_handler`, `keyboard_getkey`,
-- `keyboard_getchar` and `keyboard_readline` are the functions of the same names, over scancodes that
-- are arguments. Where the code waits, the model returns `none`. Ring has the queue that the ring
-- stands for, Reading the line, Keys what Caps Lock does.
--
-- Not modelled: text output on the serial port and the screen (`kprintf`, kernel/drivers), which no
-- modelled function reads; the boot loader's assembly; interrupts. Other parts are listed in the
-- manifest beside this folder.
pub mod Base
pub mod Memory
pub mod Kstring
pub mod MetaFs
pub mod Process
pub mod Keyboard
pub mod Exfat

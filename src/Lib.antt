-- ===== src/Lib.antt =====
-- nusaOS, a hobbyist x86 operating system: the parts of its kernel that keep the memory map of a
-- process, the tables and queues that other parts build on, and the streams, sockets, descriptors
-- and locks over them.
--
-- The parts and their files:
--   Memory/Space        kernel/memory/VMSpace.cpp, VMSpace.h: the list of regions of an address
--                       space. `alloc_space`, `alloc_space_at` and `free_region` are in
--                       Memory/Space.antt, what is built on them (`map_object`, `map_stack`,
--                       `unmap_region`, `reserve_region`, the lookups and iterations) in Mapping.
--                       A node of the doubly linked list is a cursor: the node with the lists on its
--                       two sides.
--   Memory/Buddy        kernel/memory/BuddyZone.cpp, BuddyZone.h: the buddy allocator of a zone.
--                       Memory/Buddy.antt has the free lists as lists of blocks, Links the links in
--                       the page descriptors, which Linked proves to hold those lists.
--   Memory/Region       kernel/memory/PhysicalRegion.cpp: a region of pages made of zones.
--   Memory/Object       kernel/memory/VMObject.cpp, AnonymousVMObject.cpp, PhysicalPage.h: the
--                       pages of an object, their reference counts, first faults and copy-on-write.
--                       Which page of memory is handed out is an argument, `take`.
--   Memory/Pagefault    `VMSpace::try_pagefault`, over the regions of a space and their objects.
--   Memory/Fork         `VMSpace::fork`, with the clones of objects and an address for what is made.
--   Kstd/Bitmap         kernel/kstd/Bitmap.h: bits in an array of bytes.
--   Kstd/Map            kernel/kstd/map.hpp: the AVL tree `kstd::map`. A key type is an instance of
--                       `KeyOrder` (Kstd/Map/Key.antt). Parent pointers are the way back out of a
--                       recursion.
--   Kstd/CircularQueue  kernel/kstd/circular_queue.hpp: a bounded queue in an array.
--   Filesystem/Pipe     kernel/filesystem/Pipe.cpp: a pipe over a circular queue of bytes.
--   Filesystem/Metadata kernel/filesystem/InodeMetadata.cpp with kernel/User.cpp: permissions.
--   Filesystem/Descriptor  kernel/filesystem/FileDescriptor.cpp: options and position of a file.
--   Net/Tcp             kernel/net/TCPSocket.cpp, TCPSocket.h with parts of IPSocket.cpp and
--                       Socket.h: the table of sockets, a `kstd::map` by the id of Net/Tcp/Id.antt
--                       (Bind), sending and connecting (Send), and `recv_packet` with one function
--                       for each state (Receive). Received packets go into a circular queue.
--   Tasking/Mutex       kernel/tasking/Mutex.cpp: the recursive lock, under all interleavings.
--   Common              kernel/Result.hpp (Outcome), the 32-bit words of the target (Words), and
--                       helpers on lists and tests.
--
-- State is passed explicitly: an operation takes the record of its part and returns the new one,
-- with a `Result` where the source fails; a failed ASSERT and a fault are `panic`. Code between a
-- lock and its release is one step. Where a thread blocks, an operation is split (`read_start` and
-- `read_finish` of a pipe, `connect_start` and `connect_finish`). The parts of a fault on an object
-- (`cow_check`, `cow_copy` and `cow_commit`) are not interleaved: `try_pagefault`, their only caller,
-- holds the lock of the object throughout.
-- Threads are interleaved as steps of a relation: `Reachable` of Filesystem/Pipe/Wakeup.antt and of
-- Tasking/Mutex/Steps.antt. `size_t`, addresses and sequence numbers wrap round at 2^32.
--
-- Loops are structural recursion. Five count rounds: the search for the highest bit looks at the 32
-- bits of the word; the constructor of a region gets as many rounds as it has pages, and each takes
-- a page or more; the search for a free port makes the 16383 rounds of the source; the loop over TCP
-- options gets as many rounds as there are bytes, and each passes a byte or more; the search in a map
-- (`find_within`) is bounded by the size of the map.
--
-- Not modelled: page tables, so that what a fault maps afterwards is left open; the descriptor of
-- page -1, which BuddyZone.cpp writes when a free list becomes empty: it is the page before the zone,
-- so that the write does not reach the lists of that zone, but the backward link of the last page of
-- the zone before it; the read of a link by the constructor of a region marked used, before there
-- are descriptors; the allocator of the heap and the destructors of elements; shared memory and
-- objects over inodes and devices; the iterators of the map; moves of containers; the bytes,
-- checksum and window of a TCP segment; routing and network adapters, whose answers are arguments;
-- what a file behind a descriptor does, an argument too; the overflow of a mutex's counter. The
-- other parts of the system (scheduler, file systems, drivers, graphics, applications) are left out.
pub mod Common
pub mod Memory
pub mod Kstd
pub mod Filesystem
pub mod Net
pub mod Tasking

-- ===== src/Lib.antt =====
-- A verification library for btree_lab, a B-tree index over a simulated disk with a buffer cache in
-- front of it. Paths are from the repository's root.
--
-- The parts, from the device up. Each part is a record for its state and a function for each
-- operation, with the state passed on; a client's part holds the state of the part that it calls.
--
-- Error (btree_lab/global.h): the error codes. Double: what the code does with a `double`, a
-- parameter of all that keeps time; nothing is asked of it but, for the choice of the oldest block,
-- that `<` is a strict order, and, for the configuration file, that sscanf reads a time back as
-- printf prints it.
--
-- Text: what the code uses of stdio, strings and streams on lists of characters: printing and
-- scanning of numbers, fgets, words of a stream. Text.Decimal and Text.Lines have their laws.
--
-- File (mywrite, myread of btree_lab/disksystem.cc): stdio transfers on a file that grows up to the
-- limit of its device. Each loop runs on fuel, the number of bytes left, which is enough since
-- every round that goes on transfers at least one byte (File.Contents). The transfer with no
-- progress, a full device, ends the loop as in the source.
--
-- Bitmap (GETBIT, SETBIT, CLEARBIT and the loops of the notifications): the allocation bitmap, its
-- laws in Bitmap.Laws.
--
-- Block (btree_lab/block.h, btree_lab/block.cc): resize, the constructors, operator< and operator==
-- (lt, eq), which are undefined, `none`, where memcmp reads past a buffer; their order in
-- Block.Order, Print in Block.Hex.
--
-- Disk (class DiskSystem): Read, Write, ModelAccess, the bitmap file and the notifications.
-- Disk.Blocks states a transfer of one block against `stored`, the bytes of each block; Disk.Alloc
-- the notifications; Disk.Geometry the time model, which divides by zero on no disk that
-- SanityCheckConfig passes and that has a block; Disk.Range what the guards refuse; Disk.Runs and
-- Disk.Transfers transfers of several blocks; Disk.Same what no operation changes. Disk.Config has
-- WriteConfig and ReadConfig, with their text in Disk.Config.RoundTrip: the rounds of GETNEXTVAL
-- are on fuel, the length of the file and one more, which is enough for every file
-- (Disk.Config.Enough; Disk.Config.Ends has the loop without fuel); a round at the end of the file
-- that would go on for ever is a crash. Disk.Init has the constructor and the destructor over the
-- three files of a disk, Disk.Init.Reopen a disk that is closed and opened again, Disk.Init.Create
-- a new one.
--
-- BlockMap: the std::map of the cache, a sorted association list. Cache (class BufferCache of
-- btree_lab/buffercache.cc): ReadBlock, WriteBlock, FlushBlock, CheckDeleteOldest, Attach, Detach
-- and the notifications. Cache.Coherent has the invariant and `view`, the latest bytes of each
-- block; Cache.WriteBack, Cache.Detach, Cache.Evict and Cache.Calls the operations; Cache.Refine a
-- specification, a store of bytes that answers calls, and that the cache implements it; Cache.Same
-- and Cache.Labelled what the operations keep of the disk's parameters and of the lengths of
-- blocks.
--
-- Outcome, Outcome.Exec: how an operation of the index ends: with a result, an error code, or
-- `crash`, a failed assert or an undefined access. Bytes: memcpy to and from a buffer, and words in
-- little-endian order.
--
-- Node (btree_lab/btree_ds.h, btree_lab/btree_ds.cc): the metadata, the accessors and Serialize and
-- Unserialize. Node.Layout, Node.Inner and Node.Leaf say what is read after a write, Node.Room when
-- a node has room, Node.Codec that a node is the block that it is written as, Node.Transfer the
-- same through the cache.
--
-- Scan, BTree (btree_lab/btree.cc): AllocateNode, DeallocateNode, Attach, Detach,
-- LookupOrUpdateInternal, Lookup, Update, Delete and SanityCheck; BTree.Display has PrintNode,
-- DisplayInternal and Display. BTree.FreeList has the invariant of the free list, BTree.Accounts
-- which blocks are free or in use, BTree.History the states that Attach, AllocateNode,
-- DeallocateNode and Serialize reach, BTree.Tree the trees that blocks stand for, BTree.Scans when
-- blocks show a tree. The recursion over the tree is on fuel; a fuel of at least the height of the
-- tree is enough (BTree.Lookup, BTree.Listing), and where pointers form a cycle the source recurses
-- until its stack ends. BTree.Same and BTree.Display.Same say what the operations keep of the
-- disk's parameters.
--
-- Sim (btree_lab/sim.cc): the loop over the lines of the input, from its text to the text printed.
-- Sim.Words has the words of a line, Sim.Answers what the code answers over a tree, where UPDATE
-- and DELETE are not implemented, Sim.Sessions whole sessions, Sim.Main the main function and the
-- files that it leaves. The rounds of the loop are on fuel; each takes a character, so the length
-- of the input and one more is enough (Sim.Rounds, with the loop without fuel).
--
-- Tools: the main functions of the command-line tools as exit status, standard output and files:
-- Tools.MakeDisk (makedisk.cc, deletedisk.cc, infodisk.cc), Tools.DiskData (readdisk.cc,
-- writedisk.cc), Tools.BufferData (readbuffer.cc, writebuffer.cc, freebuffer.cc) and
-- Tools.IndexTools (btree_init.cc and the other tools on an index), all in btree_lab.
-- Tools.IndexTools.Stores says when the files of a disk store an index, Tools.IndexTools.Sequences
-- has sequences of runs of the tools and Tools.IndexTools.Requests what they print,
-- Tools.IndexTools.Lifetime the same from makedisk on.
--
-- Bounds: SIZE_T and int are 32 bits and wrap around, as written out; size_t is 64 bits. Blocks are
-- lists of numbers below 256 that stand for their bytes.
--
-- Not modelled: allocation failure (ERROR_NOMEM of Resize); what is written to cerr (Disk.Print,
-- Cache.Print and Node.Print have the Print functions, whose text the tools write there); Insert of
-- btree_lab/btree.cc, which does not compile and is a parameter of Sim and Tools.IndexTools;
-- IsBlockAllocated of a block outside the bitmap, an undefined read whose result Read, Write,
-- ReadBlock and WriteBlock do not use (no theorem on the transfers of the cache is about such a
-- block); what a tool has done before an undefined access, a failed assert or a null stream ends
-- it; and the Perl, SQL and JavaScript of the other directories. Bytes that the source leaves
-- indeterminate read as 0.
--
-- Prelude has the shared names, lists, tests, words and ranges; Tests has small disks, caches,
-- trees and sessions, on which the theorems are applied.
pub mod Prelude
pub mod Error
pub mod Double
pub mod Block
pub mod File
pub mod Text
pub mod Bitmap
pub mod Disk
pub mod BlockMap
pub mod Cache
pub mod Outcome
pub mod Bytes
pub mod Node
pub mod Scan
pub mod BTree
pub mod Sim
pub mod Tools
pub mod Tests

-- ===== src/Lib.antt =====
-- Model and proofs of the core of syncspirit, a continuous file synchronization program that speaks
-- the Block Exchange Protocol.
--
-- The program keeps a model of the cluster: devices, folders and, for every folder and device, the
-- files that this device announced, each with a version vector and the blocks it is made of. Peers
-- and the local scan change the model; the resolver says for each announced file whether the local
-- device takes it; the blocks that are already here are found by their hashes; and changes that the
-- program itself makes on the disk are told apart from those of the user by the updates mediator.
--
-- Files and the code they follow, by the path from the repository root:
--
--   Version      src/model/version.cpp: version_t; a counter with the mark of the best one
--   Block        src/model/block_info.cpp, src/model/misc/file_block.cpp: block_info_t, its counter
--                word of 32 bits and its union of one use or a vector of uses
--   File         src/model/file_info.cpp: file_info_t; Wire has its messages and sizes, Store its
--                blocks and update
--   FileMap      src/model/file_info.cpp (file_infos_map_t), src/model/folder_info.cpp
--   FilePath     src/model/misc/path.cpp: path_t and its iterator
--   Resolver     src/model/misc/resolver.cpp: compare_by_version, _resolve and resolve
--   DeviceState  src/model/device_state.cpp: the stages of a connection
--   MruList      src/model/misc/lru_cache.hpp: mru_list_t
--   UpdatesStreamer
--                src/model/misc/updates_streamer.cpp: the files that a peer has not been sent yet
--   BlockIterator
--                src/model/misc/block_iterator.cpp: the blocks of a file that are to be requested
--   FileIterator src/model/misc/file_iterator.cpp: the files of a peer that are to be taken; Upsert
--                has the changes of folders and files
--   IndexUpdate  src/model/diff/peer/update_folder.cpp: the check of an index message and the diff
--                made of it; Apply puts the files into the folder
--   ClusterUpdate
--                src/model/diff/peer/cluster_update.cpp: what a cluster configuration of a peer makes
--                of the cluster; Passes has the passes over the message, Diffs the child diffs
--   OrphanedBlocks
--                src/model/misc/orphaned_blocks.cpp: the blocks that are lost with a set of files
--   Advance      src/model/diff/advance/advance.cpp: the diff that gives the own device a file;
--                Local has src/model/diff/advance/local_update.cpp
--   Base32       src/utils/base32.cpp: encode and decode
--   PostponedFiles
--                src/model/misc/postponed_files.cpp: the files that wait for locked blocks
--   DiffAssembler
--                src/model/diff/diff_assembler.cpp: the chain of diffs in batches
--   Bep          src/proto/bep_support.cpp: the messages of the Block Exchange Protocol as bytes
--   DeviceId     src/model/device_id.cpp: the text of a device id
--   Luhn32       src/proto/luhn32.cpp, with the alphabets of src/utils/base32.cpp
--   Relay        src/proto/relay_support.cpp: the messages of the relay protocol; Reader has the loop
--                of src/net/relay_actor.cpp that reads them
--   FolderScan   src/model/folder.cpp: scanning, synchronizing and suspending a folder
--   FsUtils      src/fs/utils.cpp: is_temporal and get_block_size
--   Mediator     src/fs/updates_mediator.cpp: updates_mediator_t
--   Prelude      the names that the modules share; Tests has runs of the model
--
-- The resolver reads files by File and versions by Version; FileMap holds files of File, and the
-- blocks of File.Store are those of Block. FileIterator asks the resolver about each file, and
-- IndexUpdate and Advance put files into a folder of FileMap and ask OrphanedBlocks what is lost, as
-- ClusterUpdate does. DeviceId uses Base32 and Luhn32. Each parent has the definitions of its code,
-- and its children have the proofs.
--
-- Numbers of the code are natural numbers with their wrap-around written out where the code computes
-- on a fixed width; times of modification are integers. Objects that the code shares by pointer have
-- an address. A failed assertion and the use of a null pointer are `none`, and the error `aborted` in
-- IndexUpdate, but for these: the size of a block that get_size and get_block_size would read through
-- a null pointer is 0, and outside the check of an update make_strict_hash is taken on hashes of at
-- most 32 bytes. Sizes and sequence numbers of a message are not negative. The loops run over lists
-- or count as the code does, and are structural, but for two: the one that reads relay messages has
-- as fuel one more than the bytes that are there, and each message has 12 bytes at least; and the
-- encoder of base 32 has the room of the text that it reserves, which is shown to be enough.
--
-- Arguments of the model are what other code provides: the clock, the elements that std::filesystem
-- finds in a path, the tests of the platform, the name of a conflict copy and parsed urls, and for
-- the framing of messages protobuf and LZ4. Elsewhere protobuf messages are records of the fields
-- that are read. Logging, augmentations for the user interface
-- and the statistics of memory are left out, as are the actors over sockets, files and the database,
-- which are calls of the operating system and of libraries.
mod Prelude
pub mod Version
pub mod Block
pub mod File
pub mod FilePath
pub mod Resolver
pub mod FsUtils
pub mod Mediator
pub mod FileMap
pub mod DeviceState
pub mod MruList
pub mod FileIterator
pub mod Relay
pub mod Luhn32
pub mod OrphanedBlocks
pub mod IndexUpdate
pub mod Advance
pub mod ClusterUpdate
pub mod Base32
pub mod DeviceId
pub mod Bep
pub mod DiffAssembler
pub mod PostponedFiles
pub mod FolderScan
pub mod BlockIterator
pub mod UpdatesStreamer
mod Tests

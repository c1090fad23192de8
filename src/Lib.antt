-- ===== src/Lib.antt =====
-- A model of distropica, the parts of minipax and minitrue that decide whether a machine boots and
-- whether a plan is what it says, with proofs about it.
--
-- minipax installs the system and keeps its boot files. `write_layout` (minipax/src/partition.rs)
-- writes the partition table: Gpt has its arithmetic, its byte formats and its writes, over a disk
-- that is a size, a byte for each offset and the faults of its calls. `le_esp` (minipax/src/efi_boot.rs, in Efi/Partition)
-- reads the system partition back from that table, and `load_option` (Efi) makes the boot entry
-- for it, which `le_opcao` reads when the machine asks what it booted; `registra` (Efi/Registry)
-- writes the entry and its place in the boot order, over the list of the efivarfs' files.
-- `rotaciona` (minipax/src/boot_update.rs, in Rotation) replaces the boot file on that partition.
-- minitrue computes what is to be installed and writes it as a text document, PLAN_LOCK
-- (minitrue/src/plan.rs): the encoding of its fields is in Plan/Codec, and the order in which its
-- material packages are handled in Plan/Order. The documents of the live system that it takes in
-- have their lines and fields in Plan/Live, with a reader of lines and the parsers of LIVE_LOCK,
-- of LIVE_RUNNER_PROOF and of an entry of LIVE_COMPONENTS.
--
-- What a file of a package needs at run time is read from its bytes (minitrue/src/elf.rs, in Elf):
-- over a file whose reads can fail, with the list of the ranges that were read as its state. The
-- counts of the file are cut to the limits of the source before a loop takes them as its rounds.
-- Whether an installed artifact is what others built is told by attestations
-- (minitrue/src/attest.rs, in Attest): signed texts of `FIELD=value` lines, counted against the
-- keys that the machine trusts. ed25519 and hex are parameters there, a record of their functions.
-- The recipes of a machine are replaced as one tree (minitrue/src/arvore.rs, in Arvore), over the
-- three names that the exchange uses, each with a tree, a part of one, nothing or something else.
-- Binary packages come from channels (minitrue/src/channel.rs, in Channel): Channel/Index has the
-- parser and the printer of a signed index, Channel/Snapshots the loading of a catalog from what
-- the cache and the network give, Channel/Catalog the choice of packages from the channels and the
-- lock that it writes, and Channel/Lock the parser of this lock, over the lines that are left, and
-- the check of what an installation recorded against it. What the url crate says of an address is a
-- parameter there, and so are minisign and SHA-256. A `HashMap` is the list of its entries in the
-- order in which they were inserted. The names and versions of packages that these documents hold
-- are those of minitrue/src/recipe.rs, in Recipe.
--
-- Names are those of the source. A `str` is the list of its Unicode scalar values, with its UTF-8
-- and UTF-16 forms in Text; bytes are numbers, and words of a byte format keep their width. A
-- method that changes files or a device is a function of the state it changes that returns a
-- result and the new state (Effects), so an error keeps what was done before it. Which file-system
-- calls fail is an input of Rotation, Efi/Registry, Gpt, Elf and Arvore, and so are the reads of
-- /dev/urandom and the checksum of the crc32fast crate in Gpt. A `while` loop that is not
-- structural takes fuel: the loop over the nodes of a device path takes the length of the path,
-- and every node is at least four bytes long; the walk over the packages takes one unit for each
-- name that a material node or an edge has.
--
-- Not modelled: mounting and sysfs, the network, child processes,
-- the terminal, third-party cryptography and archives, and the components that only drive these.
pub mod Prelude
pub mod Text
pub mod Effects
pub mod Efi
pub mod Rotation
pub mod Gpt
pub mod Plan
pub mod Elf
pub mod Attest
pub mod Recipe
pub mod Channel
pub mod Arvore
mod Tests

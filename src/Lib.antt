-- ===== src/Lib.antt =====
-- A model of parts of ingot-engine, a container engine in Rust with a daemon, `ingotd`, and a command
-- line, `ingot`, which offer the Docker interface. The daemon's HTTP server (crates/server) hands each
-- request to the runtime, the image store, the networks and the volumes, and these rest on the helpers of
-- crates/util. The model holds the parts that decide something from text and state alone; what opens
-- sockets, mounts and starts processes is a parameter or left out.
--
-- Base: the shared names. Texts are lists of code points (Base/Text.antt, with the `str` methods that the
-- program calls), numbers are unbounded, and a fallible function returns an `Outcome`: `ok`, an error of
-- its component, or `panic` (Base/Fallible.antt). The operations of machine integers (Base/Words.antt) take the
-- build profile: a debug build panics on overflow, a release build wraps around and masks the count of a
-- shift. Base/Maps.antt has association lists for the maps and Base/Bits.antt the masks.
--
-- Network/Address.antt and Network/Address/V6.antt: the text of IPv4 and IPv6 addresses, as the standard
-- library reads and prints it. Base/Json.antt has the values of a JSON text.
-- Network/Subnet.antt: `Subnet` of crates/network/src/ipam.rs, with `parse`, `usable_range`, `contains`,
-- `overlaps`, `cidr` and `default_gateway`. Network/Ipam.antt: `Ipam` of the same file. Its state is the map
-- from networks to the addresses that are in use, and a log of the writes of the state file; `allocate`,
-- `reserve`, `release`, `reset_bucket` and `sweep_orphans` are functions from a state to a result and a state.
-- Each runs under the lock of the program, so a history is a sequence of operations (Network/Ipam/History.antt).
-- The scan of `allocate` is a recursion on the number of addresses of the range. Network/Subnet/V6.antt and
-- Network/Ipam/V6.antt: `V6Subnet` and the operations on IPv6 leases of the same file, which share the state.
--
-- Network/Publish.antt: the published ports of crates/network/src/lib.rs. `publish_port` looks for a conflict
-- under the lock (`check_publish`), runs its commands without it (`prepare`), and looks again under it
-- (`commit`); `unpublish_all`, `published_for` and `allocate_ephemeral_port` stand beside it. The commands are
-- a log of effects, and what the host answers (which ports are free, which commands succeed) is the record
-- `Host`. Network/Publish/Race.antt interleaves the parts of several calls.
--
-- Network/Dns.antt: the name server of crates/network/src/dns.rs, from the bytes of a query to the decision and
-- the reply. A message is a list of bytes; the decoding of UTF-8 with replacement is an argument. The labels of
-- a name are read on fuel, one more than the length of the message, and each label shortens what is left.
--
-- Registry/Reference.antt: `ImageRef` of crates/registry/src/reference.rs, with `parse`, `display_ref` and the
-- keys of the tag index.
--
-- Image/Store.antt: `ImageStore` of crates/image/src/store.rs. A store holds the records, the tag index and
-- its file, the cache of the list, and the directories of layers and blobs (`blob_file` is from
-- crates/store/src/paths.rs). The methods are functions on it; a run is a sequence of requests
-- (Image/Store/Requests.antt). The hexadecimal part of a digest is cut off on the length of the text.
--
-- Cli/Compose.antt: functions of crates/ingot-cli/src/compose.rs: the order of the services
-- (`topological_sort`, whose loop runs on the number of services, one for each that leaves the queue), the
-- conditions of dependencies, the profiles, the pull decision and the mounts of secrets. Whether a file is
-- there is an argument.
--
-- Builder/Parser.antt: `parse` of crates/builder/src/parser.rs. Its local variables are a `State`, and each
-- line of the file is a step on it; Builder/Parser/Tokens.antt has the helpers for heredocs and flags, and
-- Builder/Expand.antt `expand_vars`. The loops over an index recurse on the text, with the number of characters
-- up to the next index; `split_flags` runs on fuel, one more than the length of the text, and each flag
-- shortens it. serde_json and the Unicode tables beyond ASCII are parameters (Builder/Given.antt).
--
-- Builder/Scope.antt: the variables of a stage, from crates/builder/src/build.rs; a hash map is a list in the
-- order of an iteration.
--
-- Util/Ignore.antt: crates/util/src/ignore.rs, the `.dockerignore` files: Util/Ignore/Parse.antt reads them,
-- Util/Ignore/Glob.antt matches one component, on fuel that is the length of the pattern and one, which each
-- step shortens. Util/ResourceName.antt: the names that crates/util/src/path.rs accepts.
-- Util/RandomName.antt: crates/util/src/name.rs, where the picks of the random generator are arguments.
-- Util/Digest.antt: crates/util/src/digest.rs; the hash, its hexadecimal text and the writer below a
-- `VerifyingWriter` are records of operations. Runtime/Options.antt: the small validators of
-- crates/runtime/src/error.rs. Runtime/Stdio.antt: crates/runtime/src/stdio.rs, the options of a container's
-- log, its rotation, and the frames of attached streams. The files of a log are a function from their number,
-- 1 for the active one; the bytes of a line are an argument of `append_log`.
--
-- Util/FilePath.antt: the path functions of crates/util/src/path.rs: `clean_relative_path`, and `openat_walk`,
-- which resolves a path below a root where the kernel has no `openat2`. The kernel's answers are a record
-- `Fs`, and the number of links that may still be followed, 40 at first, bounds the walk.
--
-- Not modelled: HTTP and its handlers (crates/api, crates/server), processes, mounts and cgroups
-- (crates/runtime), the registry protocol (crates/registry/src/client.rs), the execution of builds
-- (crates/builder/src/build.rs, but for its variables), archives (crates/image), the readers of YAML and JSON files, the proxies of
-- published ports, the numbers of deploy limits, which are floating point, `apply_extends` of Compose files, and the
-- unpacking of layers. The write of a state file is one entry of a log; the program ignores a write that
-- fails.
pub mod Base
pub mod Builder
pub mod Cli
pub mod Image
pub mod Network
pub mod Registry
pub mod Runtime
pub mod Util

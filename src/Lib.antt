-- ===== src/Lib.antt =====
-- csi-sanlock-lvm: a CSI driver for LVM volumes that hosts share through sanlock and lvmlockd.
--
-- Parts. The driver daemon (pkg/driverd) serves the CSI calls. It keeps its data in the tags of the
-- logical volumes, asks the daemon lvmctrld (pkg/lvmctrld) for every LVM command, and holds a volume
-- by activating it exclusively. A call about a volume that another node holds is passed on to that
-- node through mailboxes on a shared disk (pkg/diskrpc), whose blocks a buddy allocator hands out.
--
--   Base        shared notation, Boolean tests, lists, bytes, machine integers, and gRPC codes
--   Tags        pkg/driverd/tagencoder.go, pkg/driverd/tags.go: encodeTag, decodeTag, isPlain,
--               hexDecode, encodeTagKV, decodeTagKV, encodeTags, decodeTags
--   Volume      pkg/driverd/volumeref.go and the regular expressions of
--               pkg/driverd/controllerserver.go as matchers
--   Allocator   pkg/diskrpc/allocator.go: Heap is the code on the array of nodes, Tree the abstract
--               allocator, and Root what Alloc and Free do on a whole array
--   Lvmctrld    Messages is pkg/proto/lvmctrld.proto with the client, an interface; Server is
--               pkg/lvmctrld/lvmctrldserver.go, which implements it over a host that runs commands,
--               Errors its parseLvmError, Pattern the matcher of its regular expressions, Start the lock
--               daemons (lock.go), and Listener pkg/lvmctrld/listener.go
--   Mailbox     pkg/diskrpc/mailbox.go: Device is the file, Layout its segments (toBlocks, readState,
--               writeState, allocatorToState, allocatorFromState), Header readHeader and format, and
--               Messages Send and Recv; State and Torn are about writes that are cut short, Stored
--               about what a state holds, and Draining about the loop of Recv. Inbox is the abstract
--               view: the file as the list of one mailbox's messages, which Chain finds in its blocks;
--               Opening, Sending and Delivery show that NewMailBox, Send and Recv keep it
--   DiskRpc     pkg/diskrpc/diskrpc.go: Rpc is Register, Invoke, Handle, handleRequest and
--               handleResponse
--   Driver      pkg/driverd: Fetch (baseserver.go, volumeinfo.go), NodeId, Lock (volumelock.go),
--               Capability, FileSystem (filesystem.go), Node (nodeserver.go), Controller
--               (controllerserver.go), RpcService and Retry (diskrpcservice.go), Client
--               (lvmctrldclient.go), Identity (identityserver.go), Listener (listener.go), and Start
--               with the constructors of the parts
--   Cmd         cmd/lvmctrld/main.go and cmd/driverd/main.go: the start of both programs
--   Examples    the theorems at concrete inputs
--
-- State. A call is a function of the state it starts from, and returns its result or the gRPC code of
-- its error with the state it leaves, which is kept on an error too (Base.Exec). The locker's state
-- is its map of locks and the world behind the client. A mutex is held over each of its methods, so
-- calls are steps one after the other; `touched` keeps the empty entry that a refused lock makes.
-- The mailbox's state is the bytes of the file. Recv looks at it once without the lock, so it has two
-- parts between which others write. The disk RPC is a state with steps: Invoke queues a request and
-- later forgets it, and Handle takes messages in between.
--
-- Parameters, for code outside the repository: the LVM daemon's answers (LvmCtrld over any world),
-- the host's mounts, files and programs (Host), the digest in the names of volumes, of which only the
-- alphabet of base64 is assumed, float64 arithmetic and strconv.ParseUint, the remote call, the network,
-- processes and the clock, net.ParseIP and url.Parse, protobuf's Marshal and Unmarshal, the block size
-- of the package directio, and the methods that reflection finds.
--
-- Bounds and fuel. A byte is a number below 256, an int32 field of the allocator a `ℤ` that wraps
-- around at 32 bits, and an int64 answer wraps around at 64 bits. The allocator recurses on fuel, the
-- length of its array, which is above the depth of the tree: that Alloc and Free return is part of
-- the results below. The loop of Recv has fuel for one message more than the allocator has nodes. A
-- loop that tries for ever is given a number of turns and is `none` if it has not ended by then. A panic
-- of the mailbox, and fuel that has run out, is the code `internal`, which it has for nothing else. A
-- report of lvs without a volume, which panics, is the code `panicked`, which no caller takes for an
-- error. Texts of errors and logs are not modelled, and a nil pointer that panics is ruled out by the
-- type of the request.
--
-- Not modelled: texts of errors and logs, the exit codes of the programs, the timer between two turns
-- of the disk RPC service, and the runner of commands (pkg/lvmctrld/runner.go), which is one call of
-- the package os/exec.
pub mod Base
pub mod Tags
pub mod Volume
pub mod Allocator
pub mod Lvmctrld
pub mod Mailbox
pub mod DiskRpc
pub mod Driver
pub mod Cmd
pub mod Examples

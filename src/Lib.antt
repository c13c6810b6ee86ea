-- ===== src/Lib.antt =====
-- rawfile-localpv is a CSI driver that keeps volumes as image files on a node. This library models
-- the part of it in rawfile/ that decides what happens to tasks, volumes, snapshots and their
-- metadata, and states what that part does.
--
-- A call that may raise is a function `Exec S A` (Exec.antt) from a state to a result and the state
-- that is left; the exceptions are those of Errors.antt (rawfile/utils/errors.py and the built-in
-- ones). Python's dicts are association lists (Prelude/Dicts.antt), its ints are the native numbers
-- or, where they may be negative, `ℤ` (Prelude/Int.antt). JSON values and paths are data types
-- (Json.antt, Paths.antt); a path that the program stores as text is kept as a path. Times are
-- numbers of microseconds.
--
-- Tasks/ is rawfile/utils/task_manager.py. `TaskManager` (Tasks/Defs.antt) holds the tasks that
-- run, the content of tasks.json and the jobs given to the executor. `run_task`, `retry_worker`,
-- `done_callback`, `start` and `shutdown` (Tasks/Manager.antt, Tasks/Worker.antt) are its methods;
-- Tasks/Steps.antt orders them in any sequence, with crashes between the writes. The digest that
-- names a task is a parameter. Loops over sleeps take the list of what happens during each sleep.
--
-- Node/ is the node that the driver runs on. Node/Files.antt and Node/World.antt give its files,
-- its configuration, its clock and, in `Host`, what the kernel and other programs answer: loop
-- devices, `cp`, `fallocate` and `statvfs` are functions that the state carries, and nothing is
-- assumed of them. Node/Metadata.antt is rawfile/utils/rawfile.py and rawfile/utils/lock.py,
-- `patch_metadata`, `truncate`, `is_cow_supported`, `with_vol_lock` and the others under their own
-- names; Node/Loops.antt has `attach_loop` and `detach_loops` of rawfile/utils/rawfile.py, over the
-- programs that they run.
--
-- Schema/ is rawfile/volume_schema.py: `migrate_0_to_1` to `migrate_7_to_8` and `migrate_to`.
--
-- Startup/ is `node_driver_preflight_checks` of rawfile/rawfile.py, with which a node's driver
-- starts, and what it calls of rawfile/utils/volume_manager.py and rawfile/utils/task_manager.py:
-- the folders that are made, the checks of the folders and their devices, and the moves of the
-- metadata and of the file of the tasks that an older version left elsewhere
-- (Startup/Preflight.antt). It calls Schema/ for every volume. Whether a folder can be read and
-- written and which device it is on are parameters.
--
-- Volumes/ is rawfile/utils/volume_manager.py (Volumes/Create.antt, Volumes/Destroy.antt),
-- rawfile/utils/snapshot_manager.py (Volumes/Snapshots.antt, Volumes/Paging.antt) and
-- rawfile/utils/storage_pool.py (Volumes/Capacity.antt). Creation writes the metadata with the
-- operations of Node/, copies a source with those of Volumes/Snapshots.antt and marks the volume as
-- ready in the end. A percentage is exact here, in hundredths of a byte, where Python computes with
-- floating-point numbers.
--
-- Internal/ is rawfile/internal_svc.py: the expansion of an image and the signature of a call
-- (Internal/Expand.antt), the loop that reads an image in parts (Internal/Transfer.antt) and what
-- the node tells of its pools, volumes and tasks (Internal/Stats.antt). It is also the cache of
-- channels of rawfile/utils/remote.py (Internal/Remote.antt), with the targets that it builds and
-- reads the address out of (Internal/Targets.antt).
--
-- Csi/ is the part of the services that the orchestrator calls: NodeStageVolume, NodeUnstageVolume
-- and the capabilities (Csi/Stage.antt), NodePublishVolume and its inverse (Csi/Publish.antt), the
-- checks of CreateVolume up to the task that it starts (Csi/Provision.antt), ListSnapshots and its
-- tokens, over Python's `int` and `str` as parameters (Csi/Listing.antt), DeleteVolume and
-- DeleteSnapshot (Csi/Deletion.antt), GetCapacity and the figures of NodeGetVolumeStats
-- (Csi/Figures.antt), CreateVolume and CreateSnapshot with the tasks that they start and their
-- waits, over the state of Node/ beside that of Tasks/ (Csi/Waiting.antt), and the expansion of a
-- volume, over the state of Mounts/ (Csi/Expansion.antt), of rawfile/rawfile_servicer.py and
-- rawfile/bd2fs.py. They call Volumes/ and Node/. A wait takes the list of what happens during its
-- sleeps, of which 60 are enough.
--
-- Mounts/ is rawfile/filesystem (Mounts/FileSystems.antt, Mounts/Freeze.antt, Mounts/Thaw.antt),
-- rawfile/declarative.py (Mounts/Declarative.antt) and the calls of rawfile/bd2fs.py that mount and
-- unmount (Mounts/Volumes.antt). Its state is that of Node/ beside a state of the kernel, and the
-- programs that ask and change the kernel (findmnt, blkid, mkfs, mount, umount) are a parameter,
-- `Programs` (Mounts/System.antt). A `FileSystem` is passed on with the mount point that a method
-- sets.
--
-- Cluster/ is the class `NodeIPMapping` of rawfile/orchestrator/k8s.py: the pods that it tracks
-- (Cluster/Pods.antt) and its watching thread (Cluster/Watch.antt). What the Kubernetes client
-- lists and yields in each round is input, with the moments at which the thread is stopped.
-- Cluster/Refinement.antt has the specification of the thread. The thread drops channels with the
-- operation of Internal/. Cluster/ConfigMaps.antt is the reading and writing of config maps and
-- what the API tells of the nodes, and with Cluster/Affinity.antt the node that a volume is bound
-- to, which Csi/Bound.antt puts together with the expansion of a volume; each call takes the next
-- of a list that says whether and how it fails.
--
-- Metrics/ is rawfile/metrics.py: the samples that `collect` gives (Metrics/Collector.antt), from
-- the statistics and capacities of Volumes/. The families of the Prometheus client are lists of
-- samples.
--
-- Analytics/ is rawfile/analytics/ga4: the events and their fields (Analytics/Events.antt,
-- Analytics/Builder.antt), the loop that reports the installation, once for all nodes by a config
-- map of Cluster/, and that the cluster is alive (Analytics/Ping.antt), and the worker that takes
-- events from a queue (Analytics/Worker.antt). Whether each upload of an event succeeds and what
-- the worker takes from its queue are input, the printing and reading of a time and of a size
-- parameters.
--
-- Settings/ is the validation of a node's settings (Settings/Validation.antt) and of those of all
-- commands (Settings/Nameservers.antt) in rawfile/config/model.py, the splitting of a server's
-- entry and the list of name servers in rawfile/utils/net.py (Settings/Addresses.antt,
-- Settings/Nameservers.antt), over a parameter that tells whether a text is an address, and the
-- normalisation of a request's parameters in rawfile/utils/units.py (Settings/Parameters.antt),
-- over Python's `strip` and `lower`.
--
-- The reading of a file in parts (`read_chunks`) runs on fuel, as many rounds as the file has
-- bytes, each of which reads one at least. Every other loop goes over a list or counts to a number
-- that the code gives.
--
-- Not modelled: permissions and the flushing of files, what stands in the way of a temporary file
-- of the metadata (a folder or a link there is overwritten here), the responses of GetRawFile, an
-- address of a channel that cannot be read (the cache only has targets that the code built; here
-- such an address is the empty text), creation times of snapshots, the statistics of a block
-- device, the running of programs and their output, logging, the HTTP requests and name lookups
-- behind the upload of an event, the event loops of asynchronous channels, signal handlers and the
-- starting of servers in rawfile/rawfile.py, the HTTP interface and generated code.
pub mod Analytics
pub mod Cluster
pub mod Csi
pub mod Errors
pub mod Exec
pub mod Internal
pub mod Json
pub mod Metrics
pub mod Mounts
pub mod Node
pub mod Paths
pub mod Prelude
pub mod Schema
pub mod Settings
pub mod Startup
pub mod Tasks
pub mod Volumes

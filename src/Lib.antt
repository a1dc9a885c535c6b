-- ===== src/Lib.antt =====
-- gpu-info-rs: the crate's own logic over wgpu and the operating system, that is, who may allocate,
-- reuse, submit, wait and release. What wgpu, the driver or another thread does is told to the
-- definitions from outside, as an argument, for every possibility.
--
-- The parts and their files (paths from the repository's root):
--   Pool       src/pool.rs, `ResourcePool`: idle resources of one device. An operation takes the state
--              under the lock and returns it; where `put` and `evict` release the lock, a function of
--              the caller (`others`) says what other threads do meanwhile.
--   Pool/Gate  src/pool.rs, `Gate`: a counting semaphore. Its loops run over a list of rounds; its
--              sleeping threads are counted in a step relation (Pool/Gate/Threads).
--   Workspace  src/pool.rs, `BufferWorkspace`: the buffers of one job, and the shared pool and the calls
--              of its device. What it uses of wgpu is in Workspace/Buffers.
--   Admission  src/budget/admission.rs: reservations and charges of a `MemoryBudget`, whose identity is
--              an address. Admission/Ledger holds one budget with all its handles.
--   Wait       src/wait.rs: error scopes and trees of them (Wait/Validation), submissions, completion
--              signals, checked operations and the wait loop (Wait/Submission). A signal is an address,
--              and each look is given what the signals hold then.
--   Work       src/wait/work.rs: the queue that retains submitted work. Work/State has the data,
--              Work/Entry one entry's round, Work/Collect `collect`, Work/Submit `try_submit`, Work/Slots
--              `wait_for_slots`, Work/Shutdown `shutdown`. The calls of a lease's hooks are a list
--              of events in the queue's state.
--   Resources  src/resources.rs: descriptors and their bytes (Resources/Spec), `prepare`
--              (Resources/Prepare), batches and uploads (Resources/Batch), the drop of owners and the
--              collection of remaps (Resources/Recycle). What it uses of wgpu is the record of
--              Resources/Wgpu, which every definition takes.
--   Budget     src/budget.rs: shares of RAM and VRAM. A product with a floating-point share is a function.
--   Limits     src/limits.rs: what one dispatch can hold.
--   Vram       src/vram.rs: the identity of an adapter, the watch of its budget (Vram/Watch) against a
--              memory of one reading (Vram/Cached), and what drivers report (Vram/Drivers).
--   Stats      src/stats.rs and src/stats: readings of NVML (Stats/Nvml), of DXGI and PDH
--              (Stats/Windows) and of DRM (Stats/Drm), and the ordinals of equal cards. Numbers with
--              a fraction are a record of operations (Stats/Floats).
--   Os         src/os.rs and src/win_mem.rs: figures of GPUs, of the system's memory (Os/System) and
--              of macOS (Os/Macos), from the lines that the system gives.
--   Model      src/model.rs: names, the primary adapter, and the difference of two reports (Model/Diff)
--              on JSON values (Model/Json).
--   PipelineCache  src/pipeline_cache.rs: the registry of caches, their saving, and what other
--              processes see of the file meanwhile (PipelineCache/Files). Two saves of one process do
--              not write the same temporary file at once.
--   Devices    src/lib.rs and src/compute_vk.rs: the shared device, the compute device and Auto's choice,
--              with what the machine answers at each request.
--   Image      src/image.rs: the allocation of images (Image/Host, Image/Error), their upload and their
--              readback, on the texture calls of Image/Device.
--   Prelude    Library names, tests, lists, 64-bit words and results that the parts share.
--
-- How they interact: `Charged` resources of Admission are `Pooled`, so that a pool keeps their
-- charges while they are idle; Workspace lends a job buffers out of a pool and gives them back;
-- Resources takes from that pool and reserves the rest; Work retains a
-- Submission of Wait for each entry and polls its scopes.
-- Os turns the readings of Stats into memory figures, which Budget divides; Vram gives Budget the
-- live headroom.
--
-- Words: `add64` and `sub64` wrap at 2 ^ 64, checked and saturating operations are as in Rust, and
-- a `usize` has 64 bits. A wrap is a panic in a debug build.
--
-- Loops: `for` loops of src/pool.rs count down the attempts that the source takes. A loop without a
-- bound of its own (`block`, `enter_until`, `wait_for_slots`, `shutdown`) runs over a list of what
-- its rounds are told, and has no result when the list ends. The rounds that are enough for a
-- result are stated with each loop.
--
-- The comparison of two JSON values has fuel for their nesting; more than the depth of the first is
-- enough. The search for settled remaps has as much fuel as there are remaps.
--
-- Resources runs in one thread: between its calls of the pool and of the budget nobody else calls them.
--
-- Not modelled: calls of wgpu, Vulkan and the operating system, time and sleeping, the order in which
-- destructors run, the opening of devices through Vulkan (src/shared_vk.rs, most of
-- src/compute_vk.rs), imported memory (src/external.rs), the pinning of the module (src/pin.rs), images
-- of a pool, displays, IOKit, the loading of libraries, the building and the printing of reports. A poisoned mutex is recovered by the source, so that locks are plain.
pub mod Prelude
pub mod Pool
pub mod Admission
pub mod Wait
pub mod Work
pub mod Budget
pub mod Limits
pub mod Resources
pub mod Vram
pub mod Model
pub mod PipelineCache
pub mod Stats
pub mod Os
pub mod Image
pub mod Workspace
pub mod Devices

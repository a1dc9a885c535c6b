-- ===== src/Work/Tests.antt =====
-- Runs of src/wait/work.rs with scopes that are numbers, which settle at their first poll, and with
-- leases that are numbers.
use Prim.Native.String.{String}
use gpu_info_rs.Prelude.{
  ℕ, ◌+◌, ◌≡◌, ◌≢◌, refl, ◌⊎◌, true, false, none, some, [], ◌∷◌, Result, err, arith, length,
}
use gpu_info_rs.Wait.Error.{PollError, WaitError, device_lost, Outcome, done}
use gpu_info_rs.Wait.Validation.{
  FuturePoll, ready, pending, Validation, future, all, nil, cons, poll, poll_loop, poll_state,
}
use gpu_info_rs.Wait.Validation
use gpu_info_rs.Wait.Submission.{queue_empty, poll_device, outcome, status, validation_status}
use gpu_info_rs.Work.State.{completed, RecordedWork, PendingWork, WorkQueue, submits, Drive, new}
use gpu_info_rs.Work.Entry.{
  commit, validations_settled, commit_accepted, note_failure, retire, recover_dropped,
  commit_recovered, visit,
}
use gpu_info_rs.Work.Collect.{terminal_loss, collect_loop, collect}
use gpu_info_rs.Work.Submit.{Push, try_submit}
use gpu_info_rs.Work.Conservation.{accounted, collect-accounted}
use gpu_info_rs.Work.Acceptance.{Accounts, try_submit-Accounts}
use gpu_info_rs.Work.Refusal.{Bounded, try_submit-Bounded, try_submit-handed_back}
use gpu_info_rs.Work.Order.{Thinned, FirstError, collect_loop-Thinned}
use gpu_info_rs.Work.Commitment.{ToldOnce, visit-committed}
use gpu_info_rs.Work.Shutdown.{shutdown_loop, shutdown}
use gpu_info_rs.Work.Slots.{Slice, wait_for_slots}
use gpu_info_rs.Work.Deadline.{wait_for_slots_returns}
use gpu_info_rs.Work.Draining.{Drained, shutdown-Drained, shutdown_returns}

abbrev accepts : ℕ → FuturePoll ℕ
accepts n = ready none

abbrev rejects : ℕ → FuturePoll ℕ
rejects n = ready (some "out of bounds")

abbrev poll_text : PollError → String
poll_text e = "timeout"

abbrev drive : Drive ℕ
drive = record {
  loss = none;
  polled = queue_empty;
  wasm = false;
  loss_polled = none;
  loss_late = none;
  signals = λ n. some done;
  fence = λ n. submits none n;
  fence_signal = λ n. n;
}

abbrev push : Push ℕ
push = record { signal = 5; submitted = submits none 0; fence_signal = 6; fence = submits none 1 }

abbrev entry : PendingWork ℕ ℕ
entry = record {
  completion = record { signal = 3; validation = some (Validation.new 0) };
  leases = 11 ∷ 12 ∷ [];
  failure = none;
  recovery = none;
  committed = false;
}

abbrev queue : ℕ → WorkQueue ℕ ℕ
queue capacity = record {
  context = 1;
  pending = entry ∷ [];
  capacity = capacity;
  poisoned = false;
  poll_fault = none;
  hooks = [];
}

abbrev work : RecordedWork ℕ ℕ
work = record { context = 1; commands = 8 ∷ []; leases = 13 ∷ []; validation = nil }

-- The weight of each lease is 1.
abbrev each : ℕ → ℕ
each l = 1

collect-accounted_example :
    accounted each (collect accepts drive (queue 1)).1 ≡ accounted each (queue 1)
collect-accounted_example = collect-accounted each accepts drive (queue 1)

try_submit-Accounts_example :
    Accounts each accepts poll_text
      (queue 1)
      work.leases
      (try_submit accepts poll_text drive push work (queue 1))
try_submit-Accounts_example = try_submit-Accounts each accepts poll_text drive push work (queue 1)

try_submit-Bounded_example :
    Bounded accepts (try_submit accepts poll_text drive push work (queue 1)).1
try_submit-Bounded_example =
    try_submit-Bounded accepts poll_text drive push work (queue 1) (omega arith)

abbrev closed_queue : WorkQueue ℕ ℕ
closed_queue = new 1 0

try_submit-handed_back_example :
    (work ≡ work)
    × ((1 ≢ closed_queue.context)
          × ((try_submit accepts poll_text drive push work closed_queue).1 ≡ closed_queue)
        ⊎ (work.context ≡ closed_queue.context)
          × ((try_submit accepts poll_text drive push work closed_queue).1
              ≡ (collect accepts drive closed_queue).1))
unfolding try_submit collect collect_loop poll_device new
try_submit-handed_back_example =
    try_submit-handed_back accepts poll_text drive push work work closed_queue refl

collect_loop-Thinned_example :
    let s = collect_loop accepts drive true 0 (entry ∷ []) in
    Thinned accepts drive true 0 s.kept (entry ∷ [])
    × (length s.kept + s.count ≡ 1)
    × FirstError accepts drive true 0 (entry ∷ []) s.failure
collect_loop-Thinned_example = collect_loop-Thinned accepts drive true 0 (entry ∷ [])

visit-committed_example :
    ((visit accepts drive true 0 entry).1.committed ≡ true)
    × ToldOnce accepts entry (visit accepts drive true 0 entry).2
unfolding visit commit_accepted note_failure retire validations_settled recover_dropped
    commit_recovered validation_status status outcome poll poll_state commit
visit-committed_example =
    visit-committed accepts drive true 0 entry done (Validation.new 0, refl, refl) refl

abbrev lost_queue : WorkQueue ℕ ℕ
lost_queue = record (queue 1) {
  pending = [];
  poisoned = true;
  hooks =
      completed 11 (err (device_lost "removed")) ∷ completed 12 (err (device_lost "removed")) ∷ [];
}

abbrev lost : Drive ℕ
lost = record drive { loss = some "removed" }

shutdown-Drained_example : Drained accepts each (queue 1) (err (device_lost "removed")) lost_queue
unfolding shutdown shutdown_loop collect terminal_loss
shutdown-Drained_example =
    shutdown-Drained accepts each (lost ∷ []) (queue 1) lost_queue (err (device_lost "removed"))
      refl

shutdown_returns_example :
    (r : Outcome × WorkQueue ℕ ℕ) × (shutdown accepts (drive ∷ lost ∷ []) (queue 1) ≡ some r)
shutdown_returns_example = shutdown_returns accepts (drive ∷ []) [] lost "removed" (queue 1) refl

abbrev late : Slice ℕ
late = record { expired = true; drive = drive }

wait_for_slots_returns_example :
    (r : Result ℕ WaitError × WorkQueue ℕ ℕ) × (wait_for_slots accepts drive
        (late ∷ [])
        false
        1
        (queue 1)
      ≡ some r)
wait_for_slots_returns_example =
    wait_for_slots_returns accepts drive (late ∷ []) false 1 (queue 1) refl

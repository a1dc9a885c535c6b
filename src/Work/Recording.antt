-- ===== src/Work/Recording.antt =====
-- `RecordedWork::record` (src/wait/work.rs): an encoding under its own error scopes.
use Prim.Native.String.{String}
use gpu_info_rs.Prelude.{
  ℕ, ◌+◌, ◌≡◌, Option, none, some, List, [], ◌∷◌, ◌++◌, Result, ok, err, arith,
}
use gpu_info_rs.Wait.Error.{WaitError, submit_panicked, Outcome}
use gpu_info_rs.Wait.Validation.{FuturePoll, Validation, Validations, nil, cons, poll_all}
use gpu_info_rs.Wait.Validation
use gpu_info_rs.Work.State.{Event, RecordedWork, record_commands, aborts}
use gpu_info_rs.Work.Conservation.{weigh, closed, closed-aborts}

module _ {ℓ} {F : Type 0} {L : Type ℓ} (poll_future : F → FuturePoll F) where
  -- An error drops the work, which aborts its lease.
  abbrev pub looked :
      RecordedWork F L
      → Option Outcome × Validations F
      → Result (RecordedWork F L) WaitError × List (Event L)
  looked work (some (err e), vs) = (err e, aborts work.leases)
  looked work (some (ok _), vs) = (ok (record work { validation = vs }), [])
  looked work (none, vs) = (ok (record work { validation = vs }), [])

  abbrev pub encoded :
      RecordedWork F L → Result ℕ String → Result (RecordedWork F L) WaitError × List (Event L)
  encoded work (err message) = (err (submit_panicked message), aborts work.leases)
  encoded work (ok command) =
      looked (record work { commands = work.commands ++ command ∷ [] })
        (poll_all poll_future work.validation)

  -- `operation` is the encoding's command buffer, or the message of its panic; `scope` is the future of
  -- its popped scopes.
  unfoldable pub record_work :
      (context : ℕ)
      → (operation : Result ℕ String) → (scope : F) → L
      → Result (RecordedWork F L) WaitError × List (Event L)
  record_work context operation scope lease =
      encoded
        (record (record_commands context [] lease) { validation = cons (Validation.new scope) nil })
        operation

module _ {ℓ} {F : Type 0} {L : Type ℓ} (weight : L → ℕ) (poll_future : F → FuturePoll F) where
  abbrev pub kept_leases : Result (RecordedWork F L) WaitError → List L
  kept_leases (ok work) = work.leases
  kept_leases (err e) = []

  looked-accounted :
      (work : RecordedWork F L) (o : Option Outcome) (vs : Validations F)
      → let (r, hooks) = looked poll_future work (o, vs) in
        weigh weight (kept_leases r) + closed weight hooks ≡ weigh weight work.leases
  looked-accounted work (some (err e)) vs = omega (arith, closed-aborts weight work.leases)
  looked-accounted work (some (ok _)) vs = omega arith
  looked-accounted work none vs = omega arith

  -- A recording keeps its lease with the work, or aborts it once.
  pub record_work-accounted :
      (context : ℕ) (operation : Result ℕ String) (scope : F) (lease : L)
      → let (r, hooks) = record_work poll_future context operation scope lease in
        weigh weight (kept_leases r) + closed weight hooks ≡ weight lease
  unfolding record_work record_commands
  record_work-accounted context (err message) scope lease = omega arith
  record_work-accounted context (ok command) scope lease =
      let (o, vs) = poll_all poll_future (cons (Validation.new scope) nil) in
      let work : RecordedWork F L = record {
        context = context;
        commands = command ∷ [];
        leases = lease ∷ [];
        validation = cons (Validation.new scope) nil;
      } in
      omega (arith, looked-accounted work o vs)

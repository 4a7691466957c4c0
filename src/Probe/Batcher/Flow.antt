-- ===== src/Probe/Batcher/Flow.antt =====
-- cmd/wacht-probe/result_batcher.go: the calls of the batcher as steps that interleave.
use wacht.Shared.{◌≡◌, Option, none, some, List, [], ◌∷◌, ◌++◌, if◌then◌else◌}
use wacht.Proto.{CheckResult}
use wacht.Probe.Api.{PostError}
use wacht.Probe.Batcher.{ResultBatcher, enqueue, close, take_batch, finish_upload}

-- The batcher, the batch whose upload runs, and what was accepted and delivered so far.
pub record Flow : Type 0 where
  pub batcher : ResultBatcher
  pub in_flight : List CheckResult
  pub accepted : List CheckResult
  pub delivered : List CheckResult

abbrev pub start : ResultBatcher → Flow
start b = record { batcher = b; in_flight = []; accepted = []; delivered = [] }

abbrev pub enqueued : CheckResult → Flow → Flow
enqueued x f = record f {
  batcher = enqueue x f.batcher;
  accepted = if f.batcher.closed then f.accepted else f.accepted ++ (x ∷ []);
}

abbrev pub taken : Flow → Flow
taken f = record f { batcher = (take_batch f.batcher).0; in_flight = (take_batch f.batcher).1 }

-- A batch is delivered if its upload returns no error.
abbrev pub delivered_by : Option PostError → List CheckResult → List CheckResult
delivered_by none batch = batch
delivered_by (some e) batch = []

abbrev pub answered : Option PostError → Flow → Flow
answered answer f = record f {
  batcher = (finish_upload f.in_flight answer f.batcher).0;
  in_flight = [];
  delivered = f.delivered ++ delivered_by answer f.in_flight;
}

-- `Enqueue` and `Close` run at any time; one goroutine takes a batch, uploads it without the lock, and
-- then handles the answer.
pub data Step : Flow → Flow → Type 0 where
  enqueues : (f : Flow) (x : CheckResult) → Step f (enqueued x f)
  closes : (f : Flow) → Step f (record f { batcher = close f.batcher })
  takes : (f : Flow) → f.in_flight ≡ [] → Step f (taken f)
  answers :
      (f : Flow) (x : CheckResult) (xs : List CheckResult) (answer : Option PostError)
      → f.in_flight ≡ x ∷ xs
      → Step f (answered answer f)

pub data Reach (f : Flow) : Flow → Type 0 where
  here : Reach f f
  next : {g h : Flow} → Reach f g → Step g h → Reach f h

-- ===== src/Monitoring/Runtime/WellFormed.antt =====
-- internal/monitoring/runtime.go: the invariant of the runtime, and changes of one entry.
use wacht.Shared.{
  String, ◌≡◌, refl, true, some, [], ◌∷◌, All, is_some, Option-cases, Bool-cases, inl, inr, ◌==◌,
}
use wacht.Shared.Dict.{Dict, lookup, insert, lookup-insert}
use wacht.Shared.Dict.Every.{All-lookup, All-insert}
use wacht.Shared.Action.{Action}
use wacht.Monitoring.Types.{Error}
use wacht.Monitoring.ProbeMachine.{ProbeMachine}
use wacht.Monitoring.CheckMachine.{CheckMachine}
use wacht.Monitoring.QuorumMachine
use wacht.Monitoring.QuorumMachine.{QuorumMachine, new_quorum_machine}
use wacht.Monitoring.QuorumMachine.WellFormed
use wacht.Monitoring.QuorumMachine.WellFormed.{new_quorum_machine-IsWellFormed}
use wacht.Monitoring.Runtime.{Runtime, on_probe, on_quorum}

-- An entry of the map of quorums: a well-formed machine for the check of its key, whose children
-- belong to known probes.
abbrev pub IsQuorum : Dict ProbeMachine → String × QuorumMachine → Type 0
IsQuorum known (check_id, q) = QuorumMachine.WellFormed.IsWellFormed known check_id q

pub record IsWellFormed (r : Runtime) : Type 0 where
  pub quorums : All (IsQuorum r.probes) r.quorums

-- More probes may become known.
abbrev Extends : Dict ProbeMachine → Dict ProbeMachine → Type 0
Extends m n = (p : String) → is_some (lookup p m) ≡ true → is_some (lookup p n) ≡ true

children_mono :
    (m n : Dict ProbeMachine) (check_id : String) (checks : Dict CheckMachine)
    → Extends m n
    → All (QuorumMachine.WellFormed.IsChild m check_id) checks
    → All (QuorumMachine.WellFormed.IsChild n check_id) checks
children_mono m n check_id [] e h = tt
children_mono m n check_id ((p, c) ∷ rest) e h =
    ((h.0.0, e p h.0.1), children_mono m n check_id rest e h.1)

quorums_mono :
    (m n : Dict ProbeMachine) (quorums : Dict QuorumMachine)
    → Extends m n
    → All (IsQuorum m) quorums
    → All (IsQuorum n) quorums
quorums_mono m n [] e h = tt
quorums_mono m n ((check_id, q) ∷ rest) e h = (
  record {
    named = h.0.named;
    coherent = h.0.coherent;
    children = children_mono m n check_id q.checks e h.0.children;
  },
  quorums_mono m n rest e h.1,
)

insert-Extends :
    (p : String) (probe : ProbeMachine) (m : Dict ProbeMachine) → Extends m (insert p probe m)
insert-Extends p probe m j h =
    rw lookup-insert (elim (Bool-cases (p == j)) [ inl e ↦ rw e refl | inr e ↦ rw e h ])

-- To set the machine of a probe keeps the invariant.
pub put_probe-IsWellFormed :
    (p : String) (probe : ProbeMachine) (r : Runtime)
    → IsWellFormed r
    → IsWellFormed (record r { probes = insert p probe r.probes })
put_probe-IsWellFormed p probe r h = record {
  quorums =
      quorums_mono r.probes (insert p probe r.probes) r.quorums (insert-Extends p probe r.probes)
        h.quorums;
}

-- To set the machine of a check keeps the invariant if the machine is well formed.
pub put_quorum-IsWellFormed :
    (check_id : String) (q : QuorumMachine) (r : Runtime)
    → IsWellFormed r
    → IsQuorum r.probes (check_id, q)
    → IsWellFormed (record r { quorums = insert check_id q r.quorums })
put_quorum-IsWellFormed check_id q r h k = record {
  quorums = All-insert (IsQuorum r.probes) check_id q r.quorums h.quorums k;
}

pub lookup-IsQuorum :
    (check_id : String) (r : Runtime) {q : QuorumMachine}
    → IsWellFormed r
    → lookup check_id r.quorums ≡ some q
    → IsQuorum r.probes (check_id, q)
lookup-IsQuorum check_id r h e = All-lookup (IsQuorum r.probes) check_id r.quorums h.quorums e

pub on_probe-IsWellFormed :
    {A : Type 0} (p : String) (act : Action ProbeMachine Error A) (r : Runtime)
    → IsWellFormed r
    → IsWellFormed (on_probe p act r).0
unfolding on_probe
on_probe-IsWellFormed p act r h = elim (Option-cases (lookup p r.probes)) [
  | inl e ↦ rw (e, on_probe) h
  | inr (probe, e) ↦ rw (e, on_probe) (put_probe-IsWellFormed p (act probe).0 r h)
]

pub on_quorum-IsWellFormed :
    {A : Type 0} (check_id : String) (act : Action QuorumMachine Error A) (r : Runtime)
    → ((q : QuorumMachine)
        → IsQuorum r.probes (check_id, q)
        → IsQuorum r.probes (check_id, (act q).0))
    → IsWellFormed r
    → IsWellFormed (on_quorum check_id act r).0
unfolding on_quorum
on_quorum-IsWellFormed check_id act r keep h = elim (Option-cases (lookup check_id r.quorums)) [
  | inl e ↦ rw (e, on_quorum) h
  | inr (q, e) ↦
      rw (e, on_quorum)
        (put_quorum-IsWellFormed check_id (act q).0 r h (keep q (lookup-IsQuorum check_id r h e)))
]

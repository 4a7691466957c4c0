-- ===== src/Probe/Batcher/Ordered.antt =====
-- cmd/wacht-probe/result_batcher.go: the invariant of the runs.
use wacht.Shared.{
  ◌-◌, ◌≤◌, ◌≡◌, refl, sym, ◌⊎◌, inl, inr, List, ◌++◌, arith, length, drop, length-drop,
}
use mathlib.Core.Path.{subst}
use wacht.Proto.{CheckResult}
use wacht.Shared.Within.{Within, append-Within, prefix-Within}
use wacht.Probe.Batcher.Flow.{Flow}
use wacht.Probe.Batcher.{ResultBatcher, excess}
use wacht.Probe.Batcher.Bounds.{Fits}

-- Where what is in flight stands in the past: at its end, unless the buffer is full.
abbrev pub Place : Flow → List CheckResult → Type 0
Place f past =
    ((old : List CheckResult) × (past ≡ old ++ f.in_flight) × Within f.delivered old)
    ⊎ ((length f.batcher.pending ≡ f.batcher.max_pending)
        × Within (f.delivered ++ f.in_flight) past)

pub record Ordered (f : Flow) : Type 0 where
  pub fits : Fits f.batcher
  pub past : List CheckResult
  pub split : f.accepted ≡ past ++ f.batcher.pending
  pub place : Place f past

pub placed :
    (f : Flow) (past : List CheckResult) → Place f past → Within (f.delivered ++ f.in_flight) past
placed f past (inl (old, e, w)) =
    subst (Within (f.delivered ++ f.in_flight)) (sym e) (append-Within f.in_flight w)
placed f past (inr (full, w)) = w

pub trim_full :
    (b : ResultBatcher)
    → 1 ≤ b.max_pending
    → b.max_pending ≤ length b.pending
    → length (drop (excess b) b.pending) ≡ b.max_pending
unfolding excess
trim_full b h k = ground (arith, length-drop (length b.pending - b.max_pending) b.pending)

pub trim_cases :
    (b : ResultBatcher)
    → 1 ≤ b.max_pending
    → (excess b ≡ 0) ⊎ (length (drop (excess b) b.pending) ≡ b.max_pending)
unfolding excess
trim_cases b h = ground (arith, length-drop (length b.pending - b.max_pending) b.pending)

module _ (f : Flow) (h : Ordered f) where
  pub all-Within : Within (f.delivered ++ f.in_flight) h.past
  all-Within = placed f h.past h.place

  pub delivered-Within : Within f.delivered h.past
  delivered-Within = prefix-Within f.delivered f.in_flight all-Within refl

-- ===== src/Daemon/Kept.antt =====
-- The branch for the schedule timer takes the daemon by the steps of Daemon/State.
use icmond.Prelude.{
  ℕ, zero, suc, ◌+◌, ◌*◌, ◌≡◌, Bool, ◌||◌, ◌==◌, if◌then◌else◌, Option, none, some, ℤ, Run, ok,
  exited, fault, out_of_fuel, ◌>>=◌, Bool-cases, inl, inr,
}
use icmond.EventTypes.{
  Event, type_once, action_suspend, action_resume, action_poweroff, action_poweron,
  action_importtmpfs,
}
use icmond.EventHeap.{Alloc, Heap, fetch_triggered, peek}
use icmond.Event.Time.{TimeZone, EventCfg}
use icmond.Event.Store.{event_reschedule}
use icmond.Daemon.{Daemon, daemon_suspend, daemon_resume, daemon_importtmpfs, event_execute}
use icmond.Daemon.State.{Reachable, next, suspend, resume}
use icmond.Daemon.Pump.{pump, schedule_expired}

-- The result of a call that returns has the property.
abbrev pub IfReturns {ℓ μ} : {A : Type ℓ} → (A → Type μ) → Run A → Type μ
IfReturns P (ok x) = P x
IfReturns P exited = Unit
IfReturns P fault = Unit
IfReturns P out_of_fuel = Unit

pub IfReturns-bind {ℓ ν μ ξ} :
    {A : Type ℓ} {B : Type ν} (P : A → Type μ) (Q : B → Type ξ) (call : Run A) (after : A → Run B)
    → IfReturns P call
    → ((x : A) → P x → IfReturns Q (after x))
    → IfReturns Q (call >>= after)
IfReturns-bind P Q (ok x) after p h = h x p
IfReturns-bind P Q exited after p h = tt
IfReturns-bind P Q fault after p h = tt
IfReturns-bind P Q out_of_fuel after p h = tt

IfReturns-all {ℓ} : {A : Type ℓ} (call : Run A) → IfReturns (λ x. Unit {0}) call
IfReturns-all (ok x) = tt
IfReturns-all exited = tt
IfReturns-all fault = tt
IfReturns-all out_of_fuel = tt

-- A state that the daemon reaches, in which it runs on or not as in `d`.
abbrev pub Kept : Bool → Daemon → Type 0
Kept runs d = Reachable d × (d.running ≡ runs)

-- An event more.
abbrev again : ℕ × Daemon × Option Heap → Run (ℕ × Daemon × Option Heap)
again (n, d, g) = ok (suc n, d, g)

module _ (m : Alloc) (tz : TimeZone) (cfg : EventCfg) (timeout_ now : ℤ) (clock : ℕ → ℤ) where
  abbrev KeptExecuted : Bool → ℕ × Daemon × Option Heap → Type 0
  KeptExecuted runs (rc, d, g) = Kept runs d

  abbrev pub KeptTimed : Bool → ℕ × Daemon × Option Heap × Option ℤ → Type 0
  KeptTimed runs (n, d, g, timer) = Kept runs d

  event_execute-KeptExecuted :
      (t later : ℤ) (e : Event) (runs : Bool) (d : Daemon) (g : Option Heap)
      → Kept runs d
      → IfReturns (KeptExecuted runs) (event_execute m tz cfg timeout_ t later e d g)
  unfolding event_execute
  event_execute-KeptExecuted t later e runs d g (r, runs_) =
      elim (Bool-cases (e.action == action_suspend)) [
        | inl suspends ↦ rw suspends (next r suspend, unfold daemon_suspend in runs_)
        | inr other ↦ elim (Bool-cases (e.action == action_resume)) [
          | inl resumes ↦ rw (other, resumes) (next r resume, unfold daemon_resume in runs_)
          | inr other' ↦
              elim (Bool-cases (e.action == action_poweroff || e.action == action_poweron)) [
                | inl power ↦ rw (other, other', power) (r, runs_)
                | inr other'' ↦ elim (Bool-cases (e.action == action_importtmpfs)) [
                  | inr unknown ↦ rw (other, other', other'', unknown) (r, runs_)
                  | inl import ↦
                      rw (other, other', other'', import)
                        (IfReturns-bind (λ x. Unit {0}) _
                          (daemon_importtmpfs m tz cfg timeout_ t later g) _ (IfReturns-all _)
                          λ x _. (r, runs_))
                ]
              ]
        ]
      ]

  pump-KeptExecuted :
      (fuel k : ℕ) (runs : Bool) (d : Daemon) (g : Option Heap)
      → Kept runs d
      → IfReturns (KeptExecuted runs) (pump m tz cfg timeout_ now clock fuel k d g)
  unfolding pump
  pump-KeptExecuted zero k runs d g h = tt
  pump-KeptExecuted (suc fuel) k runs d g h =
      IfReturns-bind (λ x. Unit {0}) _ (fetch_triggered m g now) _ (IfReturns-all _)
        λ x _. fetched (λ d' g' h'. pump-KeptExecuted fuel (suc k) runs d' g' h') x.0 x.1
    where
      executed :
          ((d' : Daemon) (g' : Option Heap)
            → Kept runs d'
            → IfReturns (KeptExecuted runs) (pump m tz cfg timeout_ now clock fuel (suc k) d' g'))
          → (e : Event) (n : ℕ) (d' : Daemon) (g2 : Option Heap) → Kept runs d'
          → IfReturns (KeptExecuted runs) (
              (if e.type == type_once
                then ok (e.next_trigger, g2)
                else event_reschedule m tz cfg (clock (4 * k + 2)) (clock (4 * k + 3)) g2 (some e))
              >>= λ y. pump m tz cfg timeout_ now clock fuel (suc k) d' y.1 >>= λ z. again z)
      executed more e n d' g2 h' =
          IfReturns-bind (λ y. Unit {0}) (KeptExecuted runs)
            (if e.type == type_once
              then ok (e.next_trigger, g2)
              else event_reschedule m tz cfg (clock (4 * k + 2)) (clock (4 * k + 3)) g2 (some e))
            (λ (y : ℤ × Option Heap).
              pump m tz cfg timeout_ now clock fuel (suc k) d' y.1 >>= λ z. again z)
            (IfReturns-all _)
            λ y _.
              IfReturns-bind (KeptExecuted runs) (KeptExecuted runs)
                (pump m tz cfg timeout_ now clock fuel (suc k) d' y.1) (λ z. again z)
                (more d' y.1 h') λ z kept. kept

      fetched :
          ((d' : Daemon) (g' : Option Heap)
            → Kept runs d'
            → IfReturns (KeptExecuted runs) (pump m tz cfg timeout_ now clock fuel (suc k) d' g'))
          → (event : Option Event) (g1 : Option Heap)
          → IfReturns (KeptExecuted runs) (elim event [
            | none ↦ ok (0, d, g1)
            | some e ↦
                event_execute m tz cfg timeout_ (clock (4 * k)) (clock (4 * k + 1)) e d g1 >>= λ x.
                (if e.type == type_once
                  then ok (e.next_trigger, x.2)
                  else event_reschedule m tz cfg
                      (clock (4 * k + 2))
                      (clock (4 * k + 3))
                      x.2
                      (some e))
                >>= λ y. pump m tz cfg timeout_ now clock fuel (suc k) x.1 y.1 >>= λ z. again z
          ])
      fetched more none g1 = h
      fetched more (some e) g1 =
          IfReturns-bind (KeptExecuted runs) _ _ _
            (event_execute-KeptExecuted (clock (4 * k)) (clock (4 * k + 1)) e runs d g1 h)
            λ x kept. executed more e x.0 x.1 x.2 kept

  pub schedule_expired-KeptTimed :
      (fuel : ℕ) (starts runs : Bool) (d : Daemon) (g : Option Heap)
      → Kept runs d
      → IfReturns (KeptTimed runs) (schedule_expired m tz cfg timeout_ now clock fuel starts d g)
  unfolding schedule_expired
  schedule_expired-KeptTimed fuel starts runs d g h =
      IfReturns-bind (KeptExecuted runs) _ _ _ (pump-KeptExecuted fuel 0 runs d g h) λ x kept.
        IfReturns-bind (λ y. Unit {0}) _ (peek m x.2) _ (IfReturns-all _) λ y _. timed x y kept
    where
      timed :
          (x : ℕ × Daemon × Option Heap) (y : Option Event)
          → KeptExecuted runs x
          → IfReturns (KeptTimed runs) (elim y [
            | none ↦ ok (x.0, x.1, x.2, none)
            | some event ↦ if starts then ok (x.0, x.1, x.2, some event.next_trigger) else exited
          ])
      timed x none kept = kept
      timed x (some e) kept = elim (Bool-cases starts) [
        | inl set ↦ rw set kept
        | inr fails ↦ rw fails tt
      ]

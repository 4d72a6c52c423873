-- ===== src/Process/Ending.antt =====
-- How the program ends.
use goctopus.Server.{Reach, starts, steps}
use goctopus.Engine.{conns_of, Goctopus}
use goctopus.Config.{Config}
use goctopus.Storage.{Storage}
use goctopus.Message.{Platform}
use goctopus.Lifecycle.Stopping.{close_conns-Reach, stop_closes}
use goctopus.Lifecycle.{stop}
use goctopus.Prelude.{
  Text, has, ℕ, ◌≡◌, refl, Bool, true, false, Option, some, arith, text_key, nat_key,
}
use goctopus.Process.{
  after_serve, is_live, MainAt, SignalAt, Process, Runs, Lives, server_closed, serving, fatal,
  waiting, returned_from, awaiting, shutting, stopping, closing_idle, signalled, works, interrupted,
  shut_down, stops, closes_idle, returns, leaves_main, begins, goes_on,
}

-- `app.Stop` has run.
unfoldable pub has_stopped : SignalAt → Bool
has_stopped awaiting = false
has_stopped shutting = false
has_stopped stopping = false
has_stopped closing_idle = true
has_stopped signalled = true

module _ {S : Type 0} (st : Storage S) (p : Platform) (cfg : Config) where
  -- What `Stop` found was reached, and it closed each connection that stood under a key.
  abbrev pub WasStopped : Goctopus S → Type 0
  WasStopped g =
      Reach st p cfg g
      × ((k : Text) (x : ℕ)
          → has x (conns_of g.conns k) ≡ true
          → ((stop g).clients x).closed ≡ true)

  pub record IsOrderly (s : Process S) : Type 0 where
    pub reached : Reach st p cfg s.app
    pub stopped : has_stopped s.signals ≡ true → (g : Goctopus S) × (s.last ≡ some g) × WasStopped g
    pub left : s.main ≡ returned_from → s.signals ≡ signalled

  Runs-IsOrderly : {s t : Process S} → Runs st p cfg s t → IsOrderly s → IsOrderly t
  unfolding has_stopped is_live after_serve stop
  Runs-IsOrderly {s} (works alive step) v = record {
    reached = steps v.reached step;
    stopped = v.stopped;
    left = v.left;
  }
  Runs-IsOrderly {s} (interrupted alive here) v = record {
    reached = v.reached;
    stopped = λ h. absurd (ground arith);
    left = λ h. ground arith;
  }
  Runs-IsOrderly {s} (shut_down alive here) v = record {
    reached = v.reached;
    stopped = λ h. absurd (ground arith);
    left = λ h. ground arith;
  }
  Runs-IsOrderly {s} (stops alive here) v = record {
    reached = close_conns-Reach st p cfg s.app.conns s.app v.reached;
    stopped = λ h.
        (s.app, refl, (v.reached, λ k x found. (stop_closes st p cfg s.app k x v.reached found).1));
    left = λ h. ground arith;
  }
  Runs-IsOrderly {s} (closes_idle alive here) v = record {
    reached = v.reached;
    stopped = λ h. v.stopped (rw here refl);
    left = λ h. refl;
  }
  Runs-IsOrderly {s} (returns e here may) v = record {
    reached = v.reached;
    stopped = v.stopped;
    left = λ h. absurd (ground arith);
  }
  Runs-IsOrderly {s} (leaves_main here done) v = record {
    reached = v.reached;
    stopped = v.stopped;
    left = λ h. done;
  }

  Lives-IsOrderly : {s : Process S} → Lives st p cfg s → IsOrderly s
  unfolding has_stopped
  Lives-IsOrderly (begins x history limiter) = record {
    reached = starts x history limiter;
    stopped = λ h. absurd (ground arith);
    left = λ h. absurd (ground arith);
  }
  Lives-IsOrderly (goes_on l r) = Runs-IsOrderly r (Lives-IsOrderly l)

  -- Any number of steps.
  pub data Later (u : Process S) : Process S → Type 0 where
    now : Later u u
    next : {s t : Process S} → Runs st p cfg s t → Later u t → Later u s

  abbrev pub CanReturn : Process S → Type 0
  CanReturn s = (t : Process S) × Later t s × (t.main ≡ returned_from)

  then_return : {s t : Process S} → Runs st p cfg s t → CanReturn t → CanReturn s
  then_return r (u, later, done) = (u, next r later, done)

  abbrev at_place : MainAt → SignalAt → Goctopus S → Option (Goctopus S) → Process S
  at_place main signals app last = record { main = main; signals = signals; app = app; last = last }

  return_signalled :
      (main : MainAt) (app : Goctopus S) (last : Option (Goctopus S))
      → is_live main ≡ true
      → CanReturn (at_place main signalled app last)
  unfolding is_live after_serve
  return_signalled serving app last alive =
      then_return (returns (some server_closed) refl (λ e. cc))
        (then_return (leaves_main refl refl) (_, now, refl))
  return_signalled waiting app last alive = then_return (leaves_main refl refl) (_, now, refl)
  return_signalled fatal app last alive = absurd (ground arith)
  return_signalled returned_from app last alive = absurd (ground arith)

  return_stopping :
      (main : MainAt) (app : Goctopus S) (last : Option (Goctopus S))
      → is_live main ≡ true
      → CanReturn (at_place main stopping app last)
  return_stopping main app last alive =
      then_return (stops alive refl)
        (then_return (closes_idle alive refl) (return_signalled main (stop app) (some app) alive))

  return_from :
      (main : MainAt) (signals : SignalAt) (app : Goctopus S) (last : Option (Goctopus S))
      → is_live main ≡ true
      → CanReturn (at_place main signals app last)
  return_from main awaiting app last alive =
      then_return (interrupted alive refl)
        (then_return (shut_down alive refl) (return_stopping main app last alive))
  return_from main shutting app last alive =
      then_return (shut_down alive refl) (return_stopping main app last alive)
  return_from main stopping app last alive = return_stopping main app last alive
  return_from main closing_idle app last alive =
      then_return (closes_idle alive refl) (return_signalled main app last alive)
  return_from main signalled app last alive = return_signalled main app last alive

  -- In every state of the running program: if `main` has returned, then it was signalled and
  -- `app.Stop` ran on a state that the instance had reached, and closed every connection that
  -- stood there under some key; and while `main` has not returned, nor failed by another error of
  -- the server, the program can always go on to where it has.
  pub Lives-ends :
      {s : Process S}
      → Lives st p cfg s
      → (s.main ≡ returned_from → (g : Goctopus S) × (s.last ≡ some g) × WasStopped g)
        × (is_live s.main ≡ true → CanReturn s)
  unfolding has_stopped
  Lives-ends {s} l =
      let v = Lives-IsOrderly l in
      (
        λ done. v.stopped (rw (v.left done) refl),
        λ alive. return_from s.main s.signals s.app s.last alive,
      )

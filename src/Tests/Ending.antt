-- ===== src/Tests/Ending.antt =====
-- The theorem on the end of the program, at a sample run.
use goctopus.Storage.Memory.{MemoryStorage}
use goctopus.Engine.{Goctopus}
use goctopus.Lifecycle.{stop}
use goctopus.Prelude.{◌≡◌, refl, true, none, some, text_key, nat_key}
use goctopus.Tests.{platform, queues, config}
use goctopus.Tests.Interleaving.{request, upgrade}
use goctopus.Process.{
  after_serve, is_live, launched, Process, Lives, server_closed, returned_from, signalled, works,
  interrupted, shut_down, stops, closes_idle, returns, leaves_main, begins, goes_on,
}
use goctopus.Process.Ending.{WasStopped, CanReturn, Lives-ends}
use goctopus.Storage.Memory.Laws.{memory}
use goctopus.Server.{started, connects}
use goctopus.Connect.{handle_ws}

-- A client connects, a signal comes, and the program runs to its end.
abbrev served : Process MemoryStorage
served = record (launched memory platform config (started queues none none)) {
  app = (handle_ws memory platform config request upgrade (started queues none none)).1;
}

abbrev ended : Process MemoryStorage
ended = record {
  main = returned_from;
  signals = signalled;
  app = stop served.app;
  last = some served.app;
}

ended-Lives : Lives memory platform config ended
unfolding after_serve is_live
ended-Lives =
    goes_on
      (goes_on
        (goes_on
          (goes_on
            (goes_on
              (goes_on (goes_on (begins queues none none) (works refl (connects request upgrade)))
                (interrupted refl refl))
              (shut_down refl refl))
            (stops refl refl))
          (closes_idle refl refl))
        (returns (some server_closed) refl (λ e. cc)))
      (leaves_main refl refl)

Lives-ends_example :
    (ended.main ≡ returned_from
      → (g : Goctopus MemoryStorage) × (ended.last ≡ some g) × WasStopped memory platform config g)
    × (is_live ended.main ≡ true → CanReturn memory platform config ended)
Lives-ends_example = Lives-ends memory platform config ended-Lives

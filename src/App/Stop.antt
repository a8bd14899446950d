-- ===== src/App/Stop.antt =====
-- `preStop` of app.go. What a server's Stop and the registry's Deregister answer is a parameter; the
-- compare-and-swap of the flag is one step.
use aeus.Common.{
  ℕ, zero, suc, ◌==◌, List, [], ◌∷◌, ◌++◌, if◌then◌else◌, Option, none, ◌≡◌, refl, arith,
}

pub data Call : Type 0 where
  stop : ℕ → Call
  deregister : Call

-- The flag of the service and the calls that were made.
pub record Stopping : Type 0 where
  pub exit_flag : ℕ
  pub log : List Call

-- A registry and what its Deregister answers.
pub data Registry : Type 0 where
  no_registry : Registry
  registered : Option ℕ → Registry

module _ (stop_error : ℕ → Option ℕ) where
  -- The loop over the servers, with the error that it has in hand.
  unfoldable pub stop_servers : Option ℕ → List ℕ → Option ℕ
  stop_servers e [] = e
  stop_servers e (srv ∷ servers) = stop_servers (stop_error srv) servers

  abbrev pub stops : List ℕ → List Call
  stops [] = []
  stops (srv ∷ servers) = stop srv ∷ stops servers

  -- The error after Deregister, if there is one, and the calls of it.
  abbrev pub after_registry : Registry → Option ℕ → Option ℕ
  after_registry no_registry e = e
  after_registry (registered answer) e = answer

  abbrev pub registry_calls : Registry → List Call
  registry_calls no_registry = []
  registry_calls (registered answer) = deregister ∷ []

  -- `preStop`.
  unfoldable pub pre_stop : List ℕ → Registry → Stopping → Option ℕ × Stopping
  pre_stop servers r s =
      if s.exit_flag == 0
      then (
        after_registry r (stop_servers none servers),
        record { exit_flag = 1; log = s.log ++ stops servers ++ registry_calls r },
      )
      else (none, s)

  unfoldable pub stop_times : ℕ → List ℕ → Registry → Stopping → Stopping
  stop_times zero servers r s = s
  stop_times (suc n) servers r s = stop_times n servers r (pre_stop servers r s).1

  -- A service that was stopped stays as it is.
  stop_times-stopped :
      (n : ℕ) (servers : List ℕ) (r : Registry) (s : Stopping)
      → s.exit_flag ≡ 1
      → stop_times n servers r s ≡ s
  unfolding stop_times pre_stop
  stop_times-stopped zero servers r s h = refl
  stop_times-stopped (suc n) servers r s h = ground (arith, h, stop_times-stopped n servers r s h)

  -- However often it is called, `preStop` stops each server once, in order, and deregisters once.
  pub stop_times-log :
      (n : ℕ) (servers : List ℕ) (r : Registry) (s : Stopping)
      → s.exit_flag ≡ 0
      → (stop_times (suc n) servers r s).log ≡ s.log ++ stops servers ++ registry_calls r
  unfolding stop_times pre_stop
  stop_times-log n servers r s h = ground (
    arith,
    h,
    stop_times-stopped n servers r
        (record { exit_flag = 1; log = s.log ++ stops servers ++ registry_calls r }) refl,
  )

-- ===== src/App/Tests.antt =====
-- The wiring and the stop of a service at concrete inputs.
use aeus.Common.{
  ℕ, ◌==◌, Bool, true, false, ◌&&◌, [], ◌∷◌, Any, if◌then◌else◌, none, some, ok, err, ◌≡◌, refl,
  arith,
}
use aeus.App.Inject.{pointer, interface, Part, unused_var, mark, first_fit, inject_vars}
use aeus.App.Wiring.{server, initialised, Takes, wire, unused, pre_start, pre_start-Any}
use aeus.App.Stop.{registered, stop_servers, pre_stop}

-- Type 20 implements type 10 and no other does so.
abbrev by_20 : ℕ → ℕ → Bool
by_20 rv t = (rv == 20) && (t == 10)

abbrev web : Part
web = record {
  fields =
      record { can_set = true; kind = interface; type = 10 }
      ∷ record { can_set = false; kind = pointer; type = 30 }
      ∷ [];
  type = 40;
  init_error = none;
}

abbrev loader : Part
loader = record {
  fields = record { can_set = true; kind = pointer; type = 40 } ∷ [];
  type = 50;
  init_error = none;
}

wires :
    pre_start by_20 (20 ∷ []) 60 (server web ∷ initialised loader ∷ [])
    ≡ ok ((some 0 ∷ none ∷ []) ∷ (some 2 ∷ []) ∷ [])
unfolding pre_start wire inject_vars first_fit mark unused
wires = refl

-- A variable that no field takes is an error.
refuses_unused : pre_start by_20 (20 ∷ 30 ∷ []) 60 (server web ∷ []) ≡ err (unused_var 30)
unfolding pre_start wire inject_vars first_fit mark unused
refuses_unused = refl

-- The error of the first server is lost when the second one stops well.
loses_error :
    (pre_stop
      (λ srv. if srv == 0 then some 7 else none)
      (0 ∷ 1 ∷ [])
      (registered none)
      (record { exit_flag = 0; log = [] })).0
    ≡ none
unfolding pre_stop stop_servers
loses_error = refl

pre_start-Any_example : Any (Takes by_20 0) ((some 0 ∷ none ∷ []) ∷ (some 2 ∷ []) ∷ [])
pre_start-Any_example =
    pre_start-Any by_20 (20 ∷ []) 60 (server web ∷ initialised loader ∷ [])
      ((some 0 ∷ none ∷ []) ∷ (some 2 ∷ []) ∷ []) wires 0 (omega arith)

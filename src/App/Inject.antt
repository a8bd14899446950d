-- ===== src/App/Inject.antt =====
-- `injectVars` and the wiring in `preStart` of app.go. A type of Go is a number; `implements` is the
-- method of reflect. A value is known by its place in `refValues`, a field by its type. The parts are
-- the servers, the scope and the service loader, with what their Init answers; a server has none. The
-- start of the goroutines, after the wiring, is left out.
use aeus.Common.{
  ℕ, zero, suc, ◌+◌, ◌==◌, Bool, true, false, ◌&&◌, ◌||◌, List, [], ◌∷◌, if◌then◌else◌, Option,
  none, some,
}

pub data Kind : Type 0 where
  pointer interface other_kind : Kind

pub record Field : Type 0 where
  pub can_set : Bool
  pub kind : Kind
  pub type : ℕ

-- A server, a scope or a service loader: its fields, its own type and the error of its Init.
pub record Part : Type 0 where
  pub fields : List Field
  pub type : ℕ
  pub init_error : Option ℕ

pub data StartError : Type 0 where
  unused_var : ℕ → StartError
  init_failed : ℕ → StartError

abbrev pub is_interface : Kind → Bool
is_interface interface = true
is_interface _ = false

abbrev pub injectable : Field → Bool
injectable f = f.can_set && elim (f.kind) [ pointer ↦ true | interface ↦ true | other_kind ↦ false ]

-- `used[idx] = true`.
unfoldable pub mark : ℕ → List Bool → List Bool
mark i [] = []
mark zero (u ∷ used) = true ∷ used
mark (suc i) (u ∷ used) = u ∷ mark i used

module _ (implements : ℕ → ℕ → Bool) where
  -- The two tests on a value.
  abbrev pub fits : Field → ℕ → Bool
  fits f rv = (is_interface f.kind && implements rv f.type) || (f.type == rv)

  -- The place of the first value that fits a field, from a place on.
  unfoldable pub first_fit : Field → ℕ → List ℕ → Option ℕ
  first_fit f idx [] = none
  first_fit f idx (rv ∷ values) = if fits f rv then some idx else first_fit f (idx + 1) values

  abbrev pub choice : Field → List ℕ → Option ℕ
  choice f values = if injectable f then first_fit f 0 values else none

  abbrev pub mark_choice : Option ℕ → List Bool → List Bool
  mark_choice none used = used
  mark_choice (some i) used = mark i used

  -- `injectVars`: the places that the fields are set to, and the marks.
  unfoldable pub inject_vars : List Field → List ℕ → List Bool → List (Option ℕ) × List Bool
  inject_vars [] values used = ([], used)
  inject_vars (f ∷ fields) values used =
      let rest = inject_vars fields values (mark_choice (choice f values) used) in
      (choice f values ∷ rest.0, rest.1)

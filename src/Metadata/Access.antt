-- ===== src/Metadata/Access.antt =====
-- What Get of metadata/metadata.go gives after Set and Delete.
use aeus.Common.{Bytes, [], false, ◌=ᵇ◌, if◌then◌else◌, some, ◌≡◌, arith, Bool-cases, inl, inr}
use aeus.Common.Dict.{Distinct, lookup-insert, lookup-remove}
use aeus.Metadata.Defs.{Metadata, IsAscii, canonical, read_through, write_through, get, set, delete}

module _ {S : Type 0} where
  -- A write through the tee leaves what the tee reader says of every other key.
  abbrev pub KeepsOthers : Metadata S → Type 0
  KeepsOthers m =
      (key v other : Bytes) (s : S)
      → (key =ᵇ other) ≡ false
      → read_through m.tee_reader (write_through m.tee_writer key v s) other
        ≡ read_through m.tee_reader s other

  -- For ASCII keys, where the keys of the map are distinct and the transport keeps what it has under
  -- the other keys when one is written: after Set a key that differs from the one that was set in the
  -- case of letters at most has the value; after Delete it has what the tee reader says of it once the
  -- empty value has been written through, so that a value may come back. Every other key has the value
  -- that it had before, from the map or from the transport.
  pub get-set_and_delete :
      (m : Metadata S) (key v other : Bytes) (s : S)
      → IsAscii key
      → IsAscii other
      → Distinct m.variables
      → KeepsOthers m
      → (get (set key v (m, s)).0 (set key v (m, s)).1 other
          ≡ (if canonical key =ᵇ canonical other then some v else get m s other))
        × (get (delete key (m, s)).0 (delete key (m, s)).1 other ≡ (
            if canonical key =ᵇ canonical other
            then read_through m.tee_reader
                (write_through m.tee_writer (canonical key) [] s)
                (canonical other)
            else get m s other))
  unfolding get set delete
  get-set_and_delete m key v other s _ _ d keeps =
      let looked = lookup-insert (canonical key) (canonical other) v m.variables in
      let gone = lookup-remove (canonical key) (canonical other) m.variables d in
      elim (Bool-cases (canonical key =ᵇ canonical other)) [
        | inl e ↦ (ground (arith, e, looked), ground (arith, e, gone))
        | inr e ↦ (
          ground (arith, e, looked, keeps (canonical key) v (canonical other) s e),
          ground (arith, e, gone, keeps (canonical key) [] (canonical other) s e),
        )
      ]

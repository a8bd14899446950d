-- ===== src/Cli/Router/Tests.antt =====
-- A tree of commands at concrete paths; a command is a number.
use aeus.Common.{ℕ, Bytes, codes, [], ◌∷◌, ◌=ᵇ◌, byte_is, none, some, ok, ◌≡◌, refl}
use aeus.Cli.Router.Tree.{
  Router, router, no_child, child, handle_registered, new_router, command_of, get_children,
  put_child, cut_last_slash, cut_first_slash, split_name, split_slash, child_at, handle,
  lookup_self, lookup,
}
use aeus.Cli.Router.Registered.{tokens_of, lookup-handle}
use aeus.Common.{has_prefix}
use aeus.Cli.Router.Complete.{completer, child_paths, join, usage}

abbrev root : Router ℕ
root = new_router [] []

abbrev show_user : Router ℕ
show_user =
    router (codes "user") (codes "show" ∷ codes "user" ∷ []) no_child (some 1) (codes "id" ∷ [])

abbrev show : Router ℕ
show = router (codes "show") (codes "show" ∷ []) (child show_user no_child) none []

abbrev with_user : Router ℕ
with_user = router [] [] (child show no_child) none []

abbrev user_path : Bytes
user_path = codes "/show/user/:id"

registers : handle 15 root user_path 1 ≡ some (none, with_user)
unfolding handle child_at get_children put_child cut_last_slash cut_first_slash split_name
    split_slash byte_is ◌=ᵇ◌
registers = refl

-- A path below a node with a command is refused.
refuses :
    handle 30 with_user (codes "/show/user/all") 2
    ≡ some (some (handle_registered (codes "show" ∷ codes "user" ∷ [])), with_user)
unfolding handle child_at get_children put_child cut_last_slash cut_first_slash split_name
    split_slash byte_is ◌=ᵇ◌
refuses = refl

passes_arguments :
    lookup with_user (codes "show" ∷ codes "user" ∷ codes "7" ∷ []) ≡ ok (show_user, codes "7" ∷ [])
unfolding lookup lookup_self get_children ◌=ᵇ◌
passes_arguments = refl

names_of_path : tokens_of 15 user_path ≡ codes "show" ∷ codes "user" ∷ []
unfolding tokens_of cut_last_slash cut_first_slash split_name byte_is ◌=ᵇ◌
names_of_path = refl

lookup-handle_example :
    (node : Router ℕ) × (lookup with_user (tokens_of 15 user_path) ≡ ok (node, []))
    × (command_of node ≡ some 1)
lookup-handle_example = lookup-handle 15 root user_path 1 with_user registers

shows_usage : usage show_user ≡ codes "Usage: show user {id}"
unfolding usage join
shows_usage = refl

completes : completer with_user (codes "show" ∷ codes "us" ∷ []) ≡ codes "show user" ∷ []
unfolding completer child_paths join get_children has_prefix ◌=ᵇ◌
completes = refl

-- ===== src/Gateway/Users/Accounts/History.antt =====
-- Any sequence of operations on the accounts.
use radio_sensors.Prelude.{ℕ, ◌≡◌, inl, inr, ap, ◌∙◌, Bool, true, List, [], ◌∷◌, Option}
use radio_sensors.Gateway.Users.{
  UserTable, PasswordCredential, has_enabled_admin, create, update, remove,
}
use radio_sensors.Gateway.Users.Accounts.{
  IsTable, create_cases, create-IsTable, update_cases, update-IsTable, remove_cases, remove-IsTable,
}

-- The operations of the user management, and a sequence of them.
pub data UserOperation : Type 0 where
  creates : Option (List ℕ) → ℕ → ℕ → Bool → PasswordCredential → UserOperation
  updates : ℕ → Option (List ℕ) → ℕ → ℕ → Bool → Option PasswordCredential → UserOperation
  removes : ℕ → UserOperation

unfoldable pub apply_user : UserTable → UserOperation → UserTable
apply_user t (creates username size role e c) = (create t username size role e c).0
apply_user t (updates id username size role e c) = (update t id username size role e c).0
apply_user t (removes id) = (remove t id).0

unfoldable pub run_users : UserTable → List UserOperation → UserTable
run_users t [] = t
run_users t (o ∷ os) = run_users (apply_user t o) os

apply_user-IsTable : (t : UserTable) (o : UserOperation) → IsTable t → IsTable (apply_user t o)
unfolding apply_user
apply_user-IsTable t (creates username size role e c) v = create-IsTable t username size role e c v
apply_user-IsTable t (updates id username size role e c) v =
    update-IsTable t id username size role e c v
apply_user-IsTable t (removes id) v = remove-IsTable t id v

-- Any sequence of creations, updates and removals keeps a table well formed: a full array, IDs
-- that are not 0, below the next one and no two the same, and an enabled administrator if there is
-- a user.
pub run_users-IsTable :
    (t : UserTable) (os : List UserOperation) → IsTable t → IsTable (run_users t os)
unfolding run_users
run_users-IsTable t [] v = v
run_users-IsTable t (o ∷ os) v = run_users-IsTable (apply_user t o) os (apply_user-IsTable t o v)

apply_user_admin :
    (t : UserTable) (o : UserOperation)
    → has_enabled_admin t.users ≡ true
    → has_enabled_admin (apply_user t o).users ≡ true
unfolding apply_user
apply_user_admin t (creates username size role e c) h =
    elim (create_cases t username size role e c) [
      | inl same ↦ ap (λ x. has_enabled_admin x.users) same ∙ h
      | inr (room, wraps, admin, same) ↦ ap (λ x. has_enabled_admin x.users) same ∙ admin
    ]
apply_user_admin t (updates id username size role e c) h =
    elim (update_cases t id username size role e c) [
      | inl same ↦ ap (λ x. has_enabled_admin x.users) same ∙ h
      | inr (admin, same) ↦ ap (λ x. has_enabled_admin x.users) same ∙ admin
    ]
apply_user_admin t (removes id) h = elim (remove_cases t id) [
  | inl same ↦ ap (λ x. has_enabled_admin x.users) same ∙ h
  | inr (user, found, admin, same) ↦ ap (λ x. has_enabled_admin x.users) same ∙ admin
]

-- Whatever is done with the accounts, a gateway that has an enabled administrator keeps one.
pub run_users_admin :
    (t : UserTable) (os : List UserOperation)
    → has_enabled_admin t.users ≡ true
    → has_enabled_admin (run_users t os).users ≡ true
unfolding run_users
run_users_admin t [] h = h
run_users_admin t (o ∷ os) h = run_users_admin (apply_user t o) os (apply_user_admin t o h)

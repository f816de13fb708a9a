-- ===== src/Gateway/Users/Accounts.antt =====
-- What the user management keeps: as many places as the array has, IDs below the next one that no two
-- users share, and an enabled administrator.
pub mod History
use mathlib.Core.Path.{subst}
use radio_sensors.Prelude.{
  ℕ, ◌+◌, ◌-◌, ◌%◌, ◌^◌, ◌≤◌, ◌<◌, ◌≡◌, ◌≢◌, ◌⊎◌, inl, inr, refl, sym, ap, ◌∙◌, Bool, true, List,
  [], ◌∷◌, ◌++◌, Option, none, some, length, length-append, drop, All, IsU32, Bool-cases,
  Option-cases, arith,
}
use radio_sensors.Registry.{find_first, modify_first}
use radio_sensors.Registry.Table.{
  Pairwise, All-modify_first, length-modify_first, All-append_one, Pairwise-append_one,
}
use radio_sensors.Gateway.Erase.{
  erase_first, All-erase_first, Pairwise-erase_first, length-erase_first,
}
use radio_sensors.Gateway.Users.{
  UserRecord, UserTable, PasswordCredential, has_enabled_admin, create, update, remove, with_user,
  change_user, has_user_id, new_user_id, bytes_at, no_user, apply_credential, first_spare, overlaid,
}

abbrev pub OtherId : UserRecord → UserRecord → Type 0
OtherId a b = a.id ≢ b.id

pub record IsTable (t : UserTable) : Type 0 where
  pub sized : length t.users + length t.spare ≡ 4
  pub below_next : All (λ u. u.id < t.next_user_id) t.users
  pub numbered : All (λ u. u.id ≢ 0) t.users
  pub distinct : Pairwise OtherId t.users
  pub next_u32 : IsU32 t.next_user_id
  pub has_admin : (t.users ≡ []) ⊎ (has_enabled_admin t.users ≡ true)

module _ (p : UserRecord → Bool) (f : UserRecord → UserRecord)
    (same : (a : UserRecord) → (f a).id ≡ a.id) where
  Pairwise-modify_user :
      (us : List UserRecord) → Pairwise OtherId us → Pairwise OtherId (modify_first p f us)
  unfolding modify_first
  Pairwise-modify_user [] v = v
  Pairwise-modify_user (u ∷ us) v = elim (Bool-cases (p u)) [
    | inl e ↦ rw e (renamed u us v.0, v.1)
    | inr e ↦ rw e (
      All-modify_first p (OtherId u) f us (λ a _ n k. n (k ∙ same a)) v.0,
      Pairwise-modify_user us v.1,
    )
  ]
    where
      renamed :
          (a : UserRecord) (bs : List UserRecord) → All (OtherId a) bs → All (OtherId (f a)) bs
      renamed a [] w = tt
      renamed a (b ∷ bs) w = (λ k. w.0 (sym (same a) ∙ k), renamed a bs w.1)

change_user-id :
    (username : List ℕ) (size role : ℕ) (e : Bool) (c : Option PasswordCredential) (u : UserRecord)
    → (change_user username size role e c u).id ≡ u.id
change_user-id username size role e none u = refl
change_user-id username size role e (some c) u = refl

below→other :
    (n m : ℕ) (us : List UserRecord)
    → n ≤ m
    → All (λ u. u.id < n) us
    → All (λ u. u.id ≢ m) us × All (λ u. u.id < m + 1) us
below→other n m [] h v = (tt, tt)
below→other n m (u ∷ us) h v =
    let ih = below→other n m us h v.1 in
    ((λ e. absurd (omega (arith, e, h, v.0)), ih.0), (omega (arith, h, v.0), ih.1))

next_le : (t : UserTable) → t.next_user_id ≤ new_user_id t
next_le t = ground arith

new_positive : (t : UserTable) → new_user_id t ≢ 0
new_positive t = ground arith

new_small :
    (t : UserTable)
    → IsU32 t.next_user_id
    → t.next_user_id ≢ 0xffffffff
    → (new_user_id t + 1) % 2 ^ 32 ≡ new_user_id t + 1
new_small t h w = ground (arith, h, w)

length-drop_one : (us : List UserRecord) → length (drop 1 us) ≡ length us - 1
length-drop_one [] = refl
length-drop_one (u ∷ us) = omega arith

spare_left :
    (t : UserTable) (user : UserRecord)
    → length t.users + length t.spare ≡ 4
    → length t.users < 4
    → length (t.users ++ (user ∷ [])) + length (drop 1 t.spare) ≡ 4
spare_left t user h l = omega (arith, length-append t.users (user ∷ []), length-drop_one t.spare)

with_user-IsTable :
    (t : UserTable) (username : List ℕ) (size role : ℕ) (e : Bool) (c : PasswordCredential)
    → IsTable t
    → length t.users < 4
    → t.next_user_id ≢ 0xffffffff
    → has_enabled_admin (with_user t username size role e c).users ≡ true
    → IsTable (with_user t username size role e c)
with_user-IsTable t username size role e c v room wraps admin =
    let other = below→other t.next_user_id (new_user_id t) t.users (next_le t) v.below_next in
    let next : (new_user_id t + 1) % 2 ^ 32 ≡ new_user_id t + 1 = new_small t v.next_u32 wraps in
    let user = apply_credential c (record (first_spare t.spare) {
      id = new_user_id t;
      username_length = size;
      username = overlaid 32 size username (first_spare t.spare).username;
      role = role;
      is_enabled = e;
    }) in
    record {
      sized = spare_left t user v.sized room;
      below_next =
          subst (λ (n : ℕ). All (λ u. u.id < n) (t.users ++ (user ∷ []))) (sym next)
            (All-append_one _ t.users user other.1 (omega arith));
      numbered = All-append_one _ t.users user v.numbered (new_positive t);
      distinct = Pairwise-append_one OtherId t.users user v.distinct other.0;
      next_u32 = omega arith;
      has_admin = inr admin;
    }

create_cases :
    (t : UserTable) (username : Option (List ℕ)) (size role : ℕ) (e : Bool) (c : PasswordCredential)
    → ((create t username size role e c).0 ≡ t)
      ⊎ ((length t.users < 4)
          × (t.next_user_id ≢ 0xffffffff)
          × (has_enabled_admin (with_user t (bytes_at username) size role e c).users ≡ true)
          × ((create t username size role e c).0 ≡ with_user t (bytes_at username) size role e c))
unfolding create
create_cases t username size role e c = ground arith

pub create-IsTable :
    (t : UserTable) (username : Option (List ℕ)) (size role : ℕ) (e : Bool) (c : PasswordCredential)
    → IsTable t
    → IsTable (create t username size role e c).0
create-IsTable t username size role e c v = elim (create_cases t username size role e c) [
  | inl same ↦ subst IsTable (sym same) v
  | inr (room, wraps, admin, same) ↦
      subst IsTable (sym same)
        (with_user-IsTable t (bytes_at username) size role e c v room wraps admin)
]

abbrev changed_users :
    UserTable → ℕ → Option (List ℕ) → ℕ → ℕ → Bool → Option PasswordCredential → List UserRecord
changed_users t id username size role e c =
    modify_first (has_user_id id) (change_user (bytes_at username) size role e c) t.users

update_cases :
    (t : UserTable) (id : ℕ) (username : Option (List ℕ)) (size role : ℕ) (e : Bool)
    (c : Option PasswordCredential)
    → ((update t id username size role e c).0 ≡ t)
      ⊎ ((has_enabled_admin (changed_users t id username size role e c) ≡ true)
          × ((update t id username size role e c).0
              ≡ record t { users = changed_users t id username size role e c }))
unfolding update
update_cases t id username size role e c = ground arith

pub update-IsTable :
    (t : UserTable) (id : ℕ) (username : Option (List ℕ)) (size role : ℕ) (e : Bool)
    (c : Option PasswordCredential)
    → IsTable t
    → IsTable (update t id username size role e c).0
update-IsTable t id username size role e c v = elim (update_cases t id username size role e c) [
  | inl same ↦ subst IsTable (sym same) v
  | inr (admin, same) ↦
      let f = change_user (bytes_at username) size role e c in
      let keeps = change_user-id (bytes_at username) size role e c in
      subst IsTable (sym same) (record {
        sized = omega (arith, v.sized, length-modify_first (has_user_id id) f t.users);
        below_next =
            All-modify_first (has_user_id id) (λ u. u.id < t.next_user_id) f t.users
              (λ a _ h. subst (λ (n : ℕ). n < t.next_user_id) (sym (keeps a)) h) v.below_next;
        numbered =
            All-modify_first (has_user_id id) (λ u. u.id ≢ 0) f t.users
              (λ a _ h k. h (sym (keeps a) ∙ k)) v.numbered;
        distinct = Pairwise-modify_user (has_user_id id) f keeps t.users v.distinct;
        next_u32 = v.next_u32;
        has_admin = inr admin;
      })
]

remove_cases :
    (t : UserTable) (id : ℕ)
    → ((remove t id).0 ≡ t)
      ⊎ ((user : UserRecord) × (find_first (has_user_id id) t.users ≡ some user)
          × (has_enabled_admin (erase_first (has_user_id id) t.users) ≡ true)
          × ((remove t id).0 ≡ record t {
            users = erase_first (has_user_id id) t.users;
            spare = no_user ∷ t.spare;
          }))
unfolding remove
remove_cases t id = elim (Option-cases (find_first (has_user_id id) t.users)) [
  | inl e ↦ inl (ground (arith, e))
  | inr (user, e) ↦ elim (Bool-cases (has_enabled_admin (erase_first (has_user_id id) t.users))) [
    | inl a ↦ inr (user, e, a, ground (arith, e, a))
    | inr a ↦ inl (ground (arith, e, a))
  ]
]

pub remove-IsTable : (t : UserTable) (id : ℕ) → IsTable t → IsTable (remove t id).0
remove-IsTable t id v = elim (remove_cases t id) [
  | inl same ↦ subst IsTable (sym same) v
  | inr (user, found, admin, same) ↦ subst IsTable (sym same) (record {
    sized = omega (arith, v.sized, length-erase_first (has_user_id id) t.users user found);
    below_next = All-erase_first (has_user_id id) _ t.users v.below_next;
    numbered = All-erase_first (has_user_id id) _ t.users v.numbered;
    distinct = Pairwise-erase_first (has_user_id id) OtherId t.users v.distinct;
    next_u32 = v.next_u32;
    has_admin = inr admin;
  })
]

-- ===== src/Gateway/Book/Invariant/Complete.antt =====
-- `complete`, `cancel`, `removeNode` and `clear` keep a book that a snapshot can hold.
use mathlib.Core.Path.{subst}
use radio_sensors.Prelude.{
  ℕ, ◌<◌, ◌≡◌, ◌⊎◌, inl, inr, refl, sym, ◌∙◌, true, List, [], ◌∷◌, Option, none, some, ◌==◌, arith,
  All, Bool-cases, Option-cases, some-injective,
}
use radio_sensors.Wire.JoinRequest.{DeviceUid}
use radio_sensors.Wire.Session.{command_result_data_size, status_of}
use radio_sensors.Registry.{find_first, modify_first}
use radio_sensors.Registry.Table.{Pairwise, All-modify_first, length-modify_first, All-find_first}
use radio_sensors.Gateway.Book.{
  not_pending, CommandRecord, CommandBook, pending, of_node, find_record, with_records, finish,
  complete, cancel, remove_node, clear, bytes_of, default_command_book,
}
use radio_sensors.Gateway.Book.Validate.{valid_command_record}
use radio_sensors.Gateway.Book.Invariant.{Apart, IsBook, finish-valid, IsBook-with_records}
use radio_sensors.Gateway.Book.Invariant.Queue.{forgotten-IsBook, forgotten}

-- A write to one record that leaves its node.
modify-Apart :
    (f : CommandRecord → CommandRecord) (id : ℕ) (rs : List CommandRecord)
    → ((r : CommandRecord) → (f r).node_id ≡ r.node_id)
    → Pairwise Apart rs
    → Pairwise Apart (modify_first (of_node id) f rs)
unfolding modify_first
modify-Apart f id [] same d = tt
modify-Apart f id (r ∷ rs) same d = elim (Bool-cases (r.node_id == id)) [
  | inl e ↦ rw e (still rs d.0, d.1)
  | inr e ↦ rw e (
    All-modify_first (of_node id) (Apart r) f rs (λ a p h q. h (q ∙ same a)) d.0,
    modify-Apart f id rs same d.1,
  )
]
  where
    still : (ss : List CommandRecord) → All (Apart r) ss → All (Apart (f r)) ss
    still [] v = tt
    still (x ∷ ss) v = ((λ e. v.0 (sym (same r) ∙ e)), still ss v.1)

-- The record found is the one that a write goes to.
All-modify_found :
    (P : CommandRecord → Type 0) (f : CommandRecord → CommandRecord) (id : ℕ)
    (rs : List CommandRecord) (r : CommandRecord)
    → find_first (of_node id) rs ≡ some r
    → P (f r)
    → All P rs
    → All P (modify_first (of_node id) f rs)
unfolding modify_first find_first
All-modify_found P f id [] r h p v = tt
All-modify_found P f id (x ∷ rs) r h p v = elim (Bool-cases (x.node_id == id)) [
  | inl e ↦
      let same : x ≡ r = some-injective (rw e at h) in rw e (subst (λ y. P (f y)) (sym same) p, v.1)
  | inr e ↦ rw e (v.0, All-modify_found P f id rs r (rw e at h) p v.1)
]

module _ (book : CommandBook) (uid : DeviceUid) (id command status : ℕ) (pointer : Option (List ℕ))
    (size now : ℕ) where
  abbrev pub finished : CommandBook
  finished =
      with_records book
        (modify_first (of_node id) (finish status (bytes_of pointer) size now) book.records)

  pub complete_absent :
      find_record book id ≡ none
      → complete book (some uid) id command status pointer size now ≡ (book, not_pending)
  unfolding complete
  complete_absent e = ground (arith, e)

  pub complete_present :
      (r : CommandRecord)
      → find_record book id ≡ some r
      → ((complete book (some uid) id command status pointer size now).0 ≡ book)
        ⊎ ((r.state ≡ pending)
            × (status < 3)
            × (size ≡ command_result_data_size r.type (status_of status))
            × ((complete book (some uid) id command status pointer size now).0 ≡ finished))
  unfolding complete
  complete_present r e = ground (arith, e)

  finished-IsBook :
      (r : CommandRecord)
      → find_record book id ≡ some r
      → IsBook book
      → r.state ≡ pending
      → status < 3
      → size ≡ command_result_data_size r.type (status_of status)
      → IsBook finished
  finished-IsBook r e v p l m =
      IsBook-with_records book _ v
        (omega (
          arith,
          length-modify_first (of_node id) (finish status (bytes_of pointer) size now) book.records,
          v.count_le,
        ))
        (record {
          all_valid =
              All-modify_found (λ x. valid_command_record x ≡ true)
                (finish status (bytes_of pointer) size now) id book.records r e
                (finish-valid r status (bytes_of pointer) size now
                  (All-find_first (of_node id) (λ x. valid_command_record x ≡ true) book.records r
                    v.records_valid e)
                  p l m)
                v.records_valid;
          apart =
              modify-Apart (finish status (bytes_of pointer) size now) id book.records (λ x. refl)
                v.distinct;
        })

  complete_present-IsBook :
      IsBook book → IsBook (complete book (some uid) id command status pointer size now).0
  complete_present-IsBook v = elim (Option-cases (find_record book id)) [
    | inl e ↦ rw (complete_absent e) v
    | inr (r, e) ↦ elim (complete_present r e) [
      | inl same ↦ rw same v
      | inr (p, l, m, same) ↦ rw same (finished-IsBook r e v p l m)
    ]
  ]

pub complete-IsBook :
    (book : CommandBook) (uid : Option DeviceUid) (id command status : ℕ)
    (pointer : Option (List ℕ)) (size now : ℕ)
    → IsBook book
    → IsBook (complete book uid id command status pointer size now).0
complete-IsBook book none id command status pointer size now v = unfold complete in v
complete-IsBook book (some uid) id command status pointer size now v =
    complete_present-IsBook book uid id command status pointer size now v

kept_or : {b c d : CommandBook} → (d ≡ b) ⊎ (d ≡ c) → IsBook b → IsBook c → IsBook d
kept_or (inl e) v w = rw e v
kept_or (inr e) v w = rw e w

pub cancel-IsBook : (book : CommandBook) (id : ℕ) → IsBook book → IsBook (cancel book id).0
cancel-IsBook book id v = kept_or cases v (forgotten-IsBook book id v)
  where
    cases : ((cancel book id).0 ≡ book) ⊎ ((cancel book id).0 ≡ forgotten book id)
    cases = unfold cancel in ground arith

pub remove_node-IsBook :
    (book : CommandBook) (id : ℕ) → IsBook book → IsBook (remove_node book id).0
remove_node-IsBook book id v = kept_or cases v (forgotten-IsBook book id v)
  where
    cases : ((remove_node book id).0 ≡ book) ⊎ ((remove_node book id).0 ≡ forgotten book id)
    cases = unfold remove_node in ground arith

pub clear-IsBook : (book : CommandBook) → IsBook book → IsBook (clear book)
unfolding clear
clear-IsBook book v = record {
  next_id_ne = v.next_id_ne;
  next_id_u16 = v.next_id_u16;
  count_le = omega arith;
  records_valid = tt;
  distinct = tt;
}

pub default-IsBook : IsBook default_command_book
default-IsBook = record {
  next_id_ne = omega arith;
  next_id_u16 = omega arith;
  count_le = omega arith;
  records_valid = tt;
  distinct = tt;
}

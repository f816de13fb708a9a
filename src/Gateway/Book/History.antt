-- ===== src/Gateway/Book/History.antt =====
-- The validation of a snapshot accepts exactly the books of the invariant, and every sequence of
-- operations on a new book keeps it.
use radio_sensors.Prelude.{
  ℕ, ◌<◌, ◌≡◌, ◌↔◌, ◌==◌, inl, inr, refl, true, false, List, [], ◌∷◌, ◌++◌, Option, arith, All,
  Bool-cases,
}
use radio_sensors.Prelude.Result.{ok}
use radio_sensors.Wire.JoinRequest.{DeviceUid}
use radio_sensors.Registry.Table.{Pairwise, AllBefore, AllBefore-append_one}
use radio_sensors.Gateway.Book.{
  CommandRecord, CommandBook, default_command_book, queue, complete, cancel, remove_node, clear,
}
use radio_sensors.Gateway.Book.Validate.{
  valid_command_record, has_duplicate, validate_records, validate_command_book,
}
use radio_sensors.Gateway.Book.Invariant.{Apart, IsBook}
use radio_sensors.Gateway.Book.Invariant.Queue.{queue-IsBook}
use radio_sensors.Gateway.Book.Invariant.Complete.{
  complete-IsBook, cancel-IsBook, remove_node-IsBook, clear-IsBook, default-IsBook,
}

no_duplicate→Free :
    (rs : List CommandRecord) (r : CommandRecord)
    → has_duplicate rs r.node_id ≡ false
    → All (λ p. Apart p r) rs
unfolding has_duplicate
no_duplicate→Free [] r h = tt
no_duplicate→Free (x ∷ rs) r h = elim (Bool-cases (x.node_id == r.node_id)) [
  | inl e ↦ absurd (ground (arith, e))
  | inr e ↦ (ground (arith, e), no_duplicate→Free rs r (rw e at h))
]

Free→no_duplicate :
    (rs : List CommandRecord) (r : CommandRecord)
    → All (λ p. Apart p r) rs
    → has_duplicate rs r.node_id ≡ false
unfolding has_duplicate
Free→no_duplicate [] r v = refl
Free→no_duplicate (x ∷ rs) r v = ground (arith, v.0, Free→no_duplicate rs r v.1)

abbrev Acceptable : List CommandRecord → List CommandRecord → Type 0
Acceptable previous rs =
    All (λ r. valid_command_record r ≡ true) rs × Pairwise Apart rs × AllBefore Apart previous rs

validate_records→Acceptable :
    (ps rs : List CommandRecord) → validate_records ps rs ≡ ok tt → Acceptable ps rs
unfolding validate_records
validate_records→Acceptable ps [] h = (tt, tt, tt)
validate_records→Acceptable ps (r ∷ rs) h =
    let (here, apart, later) = passed in
    let ih = validate_records→Acceptable (ps ++ (r ∷ [])) rs later in
    let split = (AllBefore-append_one Apart ps rs r).0 ih.2 in
    ((here, ih.0), (split.1, ih.1), (no_duplicate→Free ps r apart, split.0))
  where
    passed :
        (valid_command_record r ≡ true)
        × (has_duplicate ps r.node_id ≡ false)
        × (validate_records (ps ++ (r ∷ [])) rs ≡ ok tt)
    passed = ground arith

Acceptable→validate_records :
    (ps rs : List CommandRecord) → Acceptable ps rs → validate_records ps rs ≡ ok tt
unfolding validate_records
Acceptable→validate_records ps [] v = refl
Acceptable→validate_records ps (r ∷ rs) v = ground (
  arith,
  v.0.0,
  Free→no_duplicate ps r v.2.0,
  Acceptable→validate_records (ps ++ (r ∷ [])) rs
      (v.0.1, v.1.1, (AllBefore-append_one Apart ps rs r).1 (v.2.1, v.1.0)),
)

-- A book with a uint16_t sequence passes the validation of a snapshot exactly if its ID is not 0,
-- it has 16 valid records at most, and no two of them are of one node.
pub validate_command_book_iff-Book :
    (book : CommandBook)
    → book.next_command_id < 65536
    → (validate_command_book book ≡ ok tt) ↔ IsBook book
unfolding validate_command_book
validate_command_book_iff-Book book u = (accepted, refused)
  where
    accepted : (validate_command_book book ≡ ok tt) → IsBook book
    accepted h =
        let inner : validate_records [] book.records ≡ ok tt = ground (arith, h) in
        let v = validate_records→Acceptable [] book.records inner in
        record {
          next_id_ne = ground (arith, h);
          next_id_u16 = u;
          count_le = ground (arith, h);
          records_valid = v.0;
          distinct = v.1;
        }

    refused : IsBook book → validate_command_book book ≡ ok tt
    refused v = ground (
      arith,
      v.next_id_ne,
      v.count_le,
      Acceptable→validate_records [] book.records
          (v.records_valid, v.distinct, nothing book.records),
    )
      where
        nothing : (rs : List CommandRecord) → AllBefore Apart [] rs
        nothing [] = tt
        nothing (r ∷ rs) = (tt, nothing rs)

pub data BookOperation : Type 0 where
  queues : Option DeviceUid → ℕ → ℕ → Option (List ℕ) → ℕ → ℕ → BookOperation
  completes : Option DeviceUid → ℕ → ℕ → ℕ → Option (List ℕ) → ℕ → ℕ → BookOperation
  cancels : ℕ → BookOperation
  removes : ℕ → BookOperation
  clears : BookOperation

unfoldable pub apply : CommandBook → BookOperation → CommandBook
apply book (queues uid id type arguments size now) = (queue book uid id type arguments size now).0
apply book (completes uid id command status pointer size now) =
    (complete book uid id command status pointer size now).0
apply book (cancels id) = (cancel book id).0
apply book (removes id) = (remove_node book id).0
apply book clears = clear book

unfoldable pub run : CommandBook → List BookOperation → CommandBook
unfolding apply
run book [] = book
run book (o ∷ os) = run (apply book o) os

apply-IsBook : (book : CommandBook) (o : BookOperation) → IsBook book → IsBook (apply book o)
unfolding apply
apply-IsBook book (queues uid id type arguments size now) v =
    queue-IsBook book uid id type arguments size now v
apply-IsBook book (completes uid id command status pointer size now) v =
    complete-IsBook book uid id command status pointer size now v
apply-IsBook book (cancels id) v = cancel-IsBook book id v
apply-IsBook book (removes id) v = remove_node-IsBook book id v
apply-IsBook book clears v = clear-IsBook book v

pub run-IsBook : (book : CommandBook) (os : List BookOperation) → IsBook book → IsBook (run book os)
unfolding run
run-IsBook book [] v = v
run-IsBook book (o ∷ os) v = run-IsBook (apply book o) os (apply-IsBook book o v)

-- After any sequence of operations on a new book, the validation that stands before every snapshot
-- accepts it.
pub validate_command_book-run :
    (os : List BookOperation) → validate_command_book (run default_command_book os) ≡ ok tt
validate_command_book-run os =
    let v = run-IsBook default_command_book os default-IsBook in
    (validate_command_book_iff-Book (run default_command_book os) v.next_id_u16).1 v

-- ===== src/Ffi/Api/Tests.antt =====
-- Two open engines, and the theorems on handles at them.
use exepense_db.Base.{Result, refl, ℕ, ◌≡◌, ◌≢◌, none, [], ◌∷◌, ok, err, arith}
use exepense_db.Base.Order.{Bytes}
use exepense_db.Base.Integers.{ℤ, pos, ascii}
use exepense_db.Wal.Fixed.{fixed}
use exepense_db.Sstable.Error.{panics}
use exepense_db.Lsm.Levels.{Tables}
use exepense_db.Lsm.Engine.Crash.{fresh}
use exepense_db.Lsm.Engine.{Engine, LsmError}
use exepense_db.Sql.Fixed.{whole, plain, ordered}
use exepense_db.Sql.Parser.Simple.{simple}
use exepense_db.Ffi.{invalid_handle}
use exepense_db.Ffi.Api.{
  Registry, get_engine, lookup, open_db, close_db, insert_expense, query_expenses, delete_expense,
}
use exepense_db.Ffi.Api.Handles.{IsValid, recount, close_db-open_db}
use exepense_db.Ffi.Api.Calls.{Apart, calls_keep_others}

abbrev no_table : Tables (Unit {0})
no_table = record { open_path = λ p. err panics; get = λ r k s. ok none; entries = λ r. ([], none) }

abbrev digits : ℤ → Bytes
digits x = ascii "12"

abbrev one_open : Registry (Unit {0})
one_open = record { engines = (1, fresh) ∷ []; next_handle = 2; next_seq = 1 }

one_open-IsValid : IsValid one_open
unfolding IsValid lookup
one_open-IsValid h l = ground arith

-- The opened log has a record with the sequence number 6.
abbrev second : Engine (Unit {0})
second = record fresh { next_seq = 7 }

abbrev opens : ℕ → Result LsmError (Engine (Unit {0}))
opens s = ok second

close_db-open_db_example :
    (h : ℕ) × (after : Registry (Unit {0})) × (open_db {F64 = ℤ} one_open opens ≡ (ok h, after))
    × (get_engine {F64 = ℤ} one_open h ≡ err invalid_handle)
    × (get_engine {F64 = ℤ} after h ≡ ok second)
    × ((j : ℕ)
        → h ≢ j
        → get_engine {F64 = ℤ} after j ≡ recount second.next_seq (get_engine one_open j))
    × IsValid after
    × (get_engine {F64 = ℤ} (close_db after h) h ≡ err invalid_handle)
    × ((j : ℕ)
        → h ≢ j
        → get_engine {F64 = ℤ} (close_db after h) j
          ≡ recount second.next_seq (get_engine one_open j))
    × IsValid (close_db after h)
close_db-open_db_example =
    close_db-open_db {F64 = ℤ} one_open opens second one_open-IsValid (omega arith) refl

abbrev two_open : Registry (Unit {0})
two_open = (open_db {F64 = ℤ} one_open opens).1

calls_keep_others_example :
    Apart whole simple digits no_table fixed plain ordered two_open 1
      (insert_expense whole simple digits no_table fixed plain ordered two_open 2
        (ascii "x1")
        (pos 7)
        (pos 12)
        (ascii "food")
        (ascii "tea")
        (ascii "2024")).1
    × Apart whole simple digits no_table fixed plain ordered two_open 1
        (query_expenses whole simple digits no_table fixed plain ordered two_open 2
          (ascii "x1")
          (pos 7)
          (ascii "SELECT * FROM expenses")).1
    × Apart whole simple digits no_table fixed plain ordered two_open 1
        (delete_expense whole simple digits no_table fixed plain ordered two_open 2 (ascii "x1")).1
    × Apart whole simple digits no_table fixed plain ordered two_open 1 (close_db two_open 2)
calls_keep_others_example =
    calls_keep_others whole simple digits no_table fixed plain ordered two_open 2 1 (ascii "x1")
      (pos 7) (pos 12) (ascii "food") (ascii "tea") (ascii "2024") (ascii "SELECT * FROM expenses")
      (λ q. absurd (omega (arith, q)))

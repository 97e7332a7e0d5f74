-- ===== src/Ffi/Api/RoundTrip/Tests.antt =====
-- One open engine, an expense that is inserted and found, and one whose text has a quote.
use exepense_db.Base.{
  ◌≡◌, refl, true, false, none, List, [], ◌∷◌, All, if◌then◌else◌, ok, err, arith,
}
use exepense_db.Base.Order.{Bytes}
use exepense_db.Base.Integers.{ℤ, pos, ascii}
use exepense_db.Wal.Fixed.{fixed, fixed-IsLawful}
use exepense_db.Sstable.Error.{panics}
use exepense_db.Lsm.Levels.{Tables}
use exepense_db.Lsm.Engine.Crash.{fresh, fresh-IsDurable}
use exepense_db.Sql.{parse}
use exepense_db.Sql.Ast.{insert}
use exepense_db.Sql.Fixed.{whole, plain, plain-IsFaithful, ordered, write_row}
use exepense_db.Sql.Parser.{parse_statement}
use exepense_db.Sql.Parser.Laws.{IsPlain}
use exepense_db.Sql.Parser.Simple.{simple, digit}
use exepense_db.Sql.Parser.Simple.Holds.{simple-IsLawful}
use exepense_db.Sql.Parser.Values.{IsShown}
use exepense_db.Sql.Parser.ById.{by_id_text}
use exepense_db.Ffi.{sql}
use exepense_db.Ffi.Api.{
  Registry, from_row, get_engine, lookup, insert_text, insert_expense, query_expenses,
}
use exepense_db.Ffi.Api.InsertText.{IsAscii, has_no_quote, all_usable}
use exepense_db.Ffi.Api.InsertText.Statement.{statement_of, parse_statement-insert_text}
use exepense_db.Ffi.Api.RoundTrip.{
  inserted_row, query_expenses-insert_expense, insert_expense-unusable,
}

abbrev no_table : Tables (Unit {0})
no_table = record { open_path = λ p. err panics; get = λ r k s. ok none; entries = λ r. ([], none) }

abbrev one_open : Registry (Unit {0})
one_open = record { engines = (1, fresh) ∷ []; next_handle = 2; next_seq = 1 }

one_open_there : get_engine {F64 = ℤ} one_open 1 ≡ ok fresh
unfolding get_engine lookup
one_open_there = refl

seven-IsShown : IsShown simple (digit (pos 7)) (pos 7)
seven-IsShown = record {
  first = b'7';
  more = [];
  starts = refl;
  no_space = refl;
  no_quote = λ q. absurd (omega (arith, q));
  reads = λ rest. refl;
}

abbrev texts : List Bytes
texts = ascii "food" ∷ ascii "tea" ∷ ascii "24" ∷ []

texts-IsAscii : All IsAscii texts
texts-IsAscii = (
  (omega arith, (omega arith, (omega arith, (omega arith, tt)))),
  ((omega arith, (omega arith, (omega arith, tt))), ((omega arith, (omega arith, tt)), tt)),
)

texts-all_usable : all_usable texts ≡ true
unfolding all_usable has_no_quote
texts-all_usable = refl

id-IsPlain : IsPlain (ascii "x1")
unfolding IsPlain
id-IsPlain = ((omega arith, refl), ((omega arith, refl), tt))

parse_statement-insert_text_example :
    parse_statement whole simple (
      insert_text whole simple digit no_table fixed plain ordered
        (pos 7)
        (ascii "food")
        (ascii "tea")
        (ascii "24"))
    ≡ (if all_usable texts
        then ok (insert (statement_of whole simple (pos 7) texts))
        else err parse)
parse_statement-insert_text_example =
    parse_statement-insert_text whole simple-IsLawful digit no_table fixed plain ordered (pos 7)
      (ascii "food") (ascii "tea") (ascii "24") seven-IsShown texts-IsAscii

query_expenses-insert_expense_example :
    (after : Registry (Unit {0})) × (insert_expense whole simple digit no_table fixed plain ordered
        one_open 1
        (ascii "x1")
        (pos 5)
        (pos 7)
        (ascii "food")
        (ascii "tea")
        (ascii "24")
      ≡ (ok (ascii "x1"), after))
    × ((other : Bytes) (later : ℤ)
        → query_expenses whole simple digit no_table fixed plain ordered after 1 other later
            (by_id_text (ascii "x1"))
          ≡ (
            ok (
                from_row (
                  inserted_row whole simple
                    (ascii "x1")
                    (pos 5)
                    (pos 7)
                    (ascii "food")
                    (ascii "tea")
                    (ascii "24"))
                ∷ []),
            after,
          ))
query_expenses-insert_expense_example =
    query_expenses-insert_expense whole simple-IsLawful digit no_table fixed-IsLawful plain ordered
      one_open 1 fresh (ascii "x1") (pos 5) (pos 7) (ascii "food") (ascii "tea") (ascii "24")
      (write_row (
        inserted_row whole simple (ascii "x1") (pos 5) (pos 7) (ascii "food") (ascii "tea")
          (ascii "24")))
      one_open_there (fresh-IsDurable fixed) plain-IsFaithful seven-IsShown (λ q. refl)
      texts-IsAscii texts-all_usable id-IsPlain refl refl (omega arith) (omega arith) (omega arith)

abbrev with_quote : List Bytes
with_quote = ascii "food" ∷ ascii "it's" ∷ ascii "24" ∷ []

with_quote-IsAscii : All IsAscii with_quote
with_quote-IsAscii = (
  (omega arith, (omega arith, (omega arith, (omega arith, tt)))),
  (
    (omega arith, (omega arith, (omega arith, (omega arith, tt)))),
    ((omega arith, (omega arith, tt)), tt),
  ),
)

with_quote-unusable : all_usable with_quote ≡ false
unfolding all_usable has_no_quote
with_quote-unusable = refl

insert_expense-unusable_example :
    insert_expense whole simple digit no_table fixed plain ordered one_open 1
      (ascii "x1")
      (pos 5)
      (pos 7)
      (ascii "food")
      (ascii "it's")
      (ascii "24")
    ≡ (err (sql parse), one_open)
insert_expense-unusable_example =
    insert_expense-unusable whole simple-IsLawful digit no_table fixed-IsLawful plain ordered
      one_open 1 fresh (ascii "x1") (pos 5) (pos 7) (ascii "food") (ascii "it's") (ascii "24")
      one_open_there seven-IsShown with_quote-IsAscii with_quote-unusable
